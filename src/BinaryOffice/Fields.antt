-- ===== src/BinaryOffice/Fields.antt =====
-- The field readers of src/binary_office.rs.
use native.Mathlib.Nat.{add-zero}
use msoffice_crypto.Base.{
  drop, sym, ℕ, ◌+◌, ◌<◌, ◌≡◌, refl, ap, ◌∙◌, arith, some, ◌++◌, length, get_elem?,
  get_elem?-append,
}
use msoffice_crypto.Base.Slots.{get_elem?-drop}
use msoffice_crypto.Base.Bytes.{Bytes, to_le_bytes}
use msoffice_crypto.BinaryOffice.{le16, le32}

pub le16-front : (n : ℕ) (rest : Bytes) → n < 65536 → le16 (to_le_bytes 2 n ++ rest) 0 ≡ some n
unfolding le16 get_elem? to_le_bytes
le16-front n rest h = ap some (omega arith)

pub le32-front : (n : ℕ) (rest : Bytes) → n < 4294967296 → le32 (to_le_bytes 4 n ++ rest) 0 ≡ some n
unfolding le32 get_elem? to_le_bytes
le32-front n rest h = ap some (omega arith)

get_past :
    (xs ys : Bytes) (i k : ℕ) → get_elem? (xs ++ ys) (length xs + i + k) ≡ get_elem? ys (i + k)
get_past xs ys i k = ap (get_elem? (xs ++ ys)) (omega arith) ∙ get_elem?-append xs ys (i + k)

-- A field past the seam of joined buffers.
pub le16-append : (xs ys : Bytes) (i : ℕ) → le16 (xs ++ ys) (length xs + i) ≡ le16 ys i
unfolding le16
le16-append xs ys i = rw (get_elem?-append xs ys i, get_past xs ys i 1) refl

pub le32-append : (xs ys : Bytes) (i : ℕ) → le32 (xs ++ ys) (length xs + i) ≡ le32 ys i
unfolding le32
le32-append xs ys i =
    rw (get_elem?-append xs ys i, get_past xs ys i 1, get_past xs ys i 2, get_past xs ys i 3) refl

-- A field at the front of what follows it.
pub le32-drop : (b : Bytes) (n : ℕ) {rest : Bytes} → drop n b ≡ rest → le32 b n ≡ le32 rest 0
unfolding le32
le32-drop b n e =
    rw
      (
        sym e,
        ap (get_elem? b) (sym (add-zero n)) ∙ get_elem?-drop b n 0,
        get_elem?-drop b n 1,
        get_elem?-drop b n 2,
        get_elem?-drop b n 3,
      )
      refl
