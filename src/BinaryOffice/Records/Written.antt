-- ===== src/BinaryOffice/Records/Written.antt =====
-- BIFF records written one after the other, and what the walk of src/binary_office.rs makes of them.
use mathlib.Core.Path.{subst}
use mathlib.Core.List.{append_assoc}
use msoffice_crypto.Base.{
  ℕ, ◌+◌, ◌<◌, ◌≡◌, refl, sym, ap, ◌∙◌, arith, inr, some, List, [], ◌∷◌, ◌++◌, length,
  length-append, All,
}
use msoffice_crypto.Base.Bytes.{Bytes, to_le_bytes}
use msoffice_crypto.BinaryOffice.{le16}
use msoffice_crypto.BinaryOffice.Fields.{le16-front, le16-append}
use msoffice_crypto.BinaryOffice.Records.{Item, record_at, biff_records}
use msoffice_crypto.BinaryOffice.Records.Walk.{
  IsWalk, done, step, biff_records-IsWalk, IsWalk-unique,
}

-- A record's type and its body.
abbrev pub Written : Type 0
Written = ℕ × Bytes

abbrev pub IsWritten : Written → Type 0
IsWritten (id, body) = (id < 65536) × (length body < 65536)

abbrev pub written_record : Written → Bytes
written_record (id, body) = to_le_bytes 2 id ++ (to_le_bytes 2 (length body) ++ body)

unfoldable pub write_records : List Written → Bytes
unfolding to_le_bytes
write_records [] = []
write_records (w ∷ ws) = written_record w ++ write_records ws

-- Where the records lie that are written from `at` on.
unfoldable pub placed : ℕ → List Written → List Item
placed at [] = []
placed at ((id, body) ∷ ws) =
    inr (record { id = id; start = at + 4; end = at + 4 + length body })
    ∷ placed (at + 4 + length body) ws

length-written_record :
    (id : ℕ) (body : Bytes) → length (written_record (id, body)) ≡ 4 + length body
unfolding to_le_bytes
length-written_record id body = omega arith

header_lem :
    (front : Bytes) (id : ℕ) (body rest : Bytes)
    → IsWritten (id, body)
    → record_at (front ++ (written_record (id, body) ++ rest)) (length front)
      ≡ some (id, length body)
unfolding record_at to_le_bytes
header_lem front id body rest (h, l) =
    let tail = written_record (id, body) ++ rest in
    let at : (i n : ℕ) → length front + i ≡ n → le16 (front ++ tail) n ≡ le16 tail i =
      λ i n e. ap (le16 (front ++ tail)) (sym e) ∙ le16-append front tail i in
    let first = le16-front id (to_le_bytes 2 (length body) ++ (body ++ rest)) h in
    let second = le16-front (length body) (body ++ rest) l in
    let past = le16-append (to_le_bytes 2 id) (to_le_bytes 2 (length body) ++ (body ++ rest)) 0 in
    ground (arith, at 0 (length front), at 2 (length front + 2), first, past, second)

placed-IsWalk :
    (front : Bytes) (at : ℕ) (ws : List Written)
    → at ≡ length front
    → All IsWritten ws
    → IsWalk (front ++ write_records ws) at (placed at ws)
unfolding write_records placed
placed-IsWalk front at [] e h = done (omega (arith, length-append front [], e))
placed-IsWalk front at ((id, body) ∷ ws) e h =
    let w = written_record (id, body) in
    let tail = write_records ws in
    let size = length-written_record id body in
    let whole = length-append front (w ++ tail) in
    let part = length-append w tail in
    let next : at + 4 + length body ≡ length (front ++ w) =
      omega (arith, length-append front w, size, e) in
    let joined : (front ++ w) ++ tail ≡ front ++ (w ++ tail) = append_assoc front w tail in
    let rest = placed-IsWalk (front ++ w) (at + 4 + length body) ws next h.1 in
    let rest' : IsWalk (front ++ (w ++ tail)) (at + 4 + length body)
        (placed (at + 4 + length body) ws) =
      subst (λ b. IsWalk b (at + 4 + length body) (placed (at + 4 + length body) ws)) joined rest in
    let read : record_at (front ++ (w ++ tail)) at ≡ some (id, length body) =
      ap (record_at (front ++ (w ++ tail))) e ∙ header_lem front id body tail h.0 in
    step id (length body) (omega (arith, whole, part, size, e)) read
      (omega (arith, whole, part, size, e)) rest'

-- Records whose types and body lengths are below 2^16, written one after the other, are walked one by
-- one, each at its place, without an error.
pub biff_records-write_records :
    (ws : List Written) → All IsWritten ws → biff_records (write_records ws) ≡ placed 0 ws
biff_records-write_records ws h =
    IsWalk-unique (write_records ws) (biff_records-IsWalk (write_records ws))
      (placed-IsWalk [] 0 ws refl h)
