-- ===== src/BinaryOffice/Persist/Run.antt =====
-- One run of the persist directory of src/binary_office.rs: its word, and the offsets behind it.
use msoffice_crypto.Base.{
  ℕ, zero, suc, ◌+◌, ◌*◌, ◌^◌, ◌≤◌, ◌<◌, ◌≡◌, refl, arith, none, some, [], ◌∷◌, length, get_elem?,
}
use native.Mathlib.Decide.{dec_le}
use msoffice_crypto.Base.Bytes.{Bytes}
use msoffice_crypto.BinaryOffice.{le32}
use msoffice_crypto.BinaryOffice.Persist.{Directory, insert, insert_run}

-- The offsets of a run at `pos` go to the identifiers from `id` on.
pub data IsRun (entries : Bytes) : (count id pos : ℕ) → Directory → Directory → Type 0 where
  stop : {id pos : ℕ} {d : Directory} → IsRun entries 0 id pos d d
  put :
      {count id pos : ℕ} {d d' : Directory} (offset : ℕ)
      → le32 entries pos ≡ some offset
      → IsRun entries count (suc id) (pos + 4) (insert id offset d) d'
      → IsRun entries (suc count) id pos d d'

get_inside : (b : Bytes) (i : ℕ) → i < length b → (x : ℕ) × (get_elem? b i ≡ some x)
unfolding get_elem?
get_inside [] i h = absurd (omega arith)
get_inside (x ∷ b) zero h = (x, refl)
get_inside (x ∷ b) (suc i) h = get_inside b i (omega arith)

get_outside : (b : Bytes) (i : ℕ) → length b ≤ i → get_elem? b i ≡ none
unfolding get_elem?
get_outside [] i h = refl
get_outside (x ∷ b) zero h = absurd (omega arith)
get_outside (x ∷ b) (suc i) h = get_outside b i (omega arith)

-- A word is there exactly where its four bytes are.
pub le32_inside : (b : Bytes) (i : ℕ) → i + 4 ≤ length b → (x : ℕ) × (le32 b i ≡ some x)
unfolding le32
le32_inside b i h =
    let (x0, e0) = get_inside b i (omega arith) in
    let (x1, e1) = get_inside b (i + 1) (omega arith) in
    let (x2, e2) = get_inside b (i + 2) (omega arith) in
    let (x3, e3) = get_inside b (i + 3) (omega arith) in
    (x0 + 256 * x1 + 65536 * x2 + 16777216 * x3, rw (e0, e1, e2, e3) refl)

pub le32_outside : (b : Bytes) (i : ℕ) → length b < i + 4 → le32 b i ≡ none
unfolding le32
le32_outside b i h = ground (arith, get_outside b (i + 3) (omega arith))

module _ (entries : Bytes) where
  pub insert_run-IsRun :
      (count id pos : ℕ) (d : Directory)
      → pos + 4 * count ≤ length entries
      → id + count ≤ 2 ^ 32
      → (d' : Directory) × (insert_run count entries id pos d ≡ some d')
        × IsRun entries count id pos d d'
  unfolding insert_run
  insert_run-IsRun zero id pos d h l = (d, refl, stop)
  insert_run-IsRun (suc count) id pos d h l =
      let (offset, e) = le32_inside entries pos (omega arith) in
      let (d', run, all) =
        insert_run-IsRun count (suc id) (pos + 4) (insert id offset d) (omega arith)
          (omega arith) in
      (d', ground (arith, e, run), put offset e all)

  pub insert_run_cut :
      (count id pos : ℕ) (d : Directory)
      → 1 ≤ count
      → length entries < pos + 4 * count
      → insert_run count entries id pos d ≡ none
  unfolding insert_run
  insert_run_cut zero id pos d l h = absurd (omega arith)
  insert_run_cut (suc count) id pos d l h = elim (dec_le (length entries) (pos + 3)) [
    | yes p ↦ ground (arith, le32_outside entries pos (omega arith))
    | no p ↦
        let (offset, e) = le32_inside entries pos (omega arith) in
        ground (arith, e, insert_run_cut count (suc id) (pos + 4) (insert id offset d))
  ]

  pub IsRun-insert_run :
      {count id pos : ℕ} {d d' : Directory}
      → IsRun entries count id pos d d'
      → id + count ≤ 2 ^ 32
      → insert_run count entries id pos d ≡ some d'
  unfolding insert_run
  IsRun-insert_run stop l = refl
  IsRun-insert_run (put offset e run) l = ground (arith, e, IsRun-insert_run run (omega arith))

  pub inside_lem : (pos word : ℕ) → le32 entries pos ≡ some word → pos < length entries
  inside_lem pos word e = elim (dec_le (length entries) (pos + 3)) [
    | yes p ↦ let n = le32_outside entries pos (omega arith) in absurd cc
    | no p ↦ omega arith
  ]
