-- ===== src/BinaryOffice/Persist/Loop.antt =====
-- The loop of `persist_directory` of src/binary_office.rs as a step relation on the objects that were
-- counted, the position and the directory.
use msoffice_crypto.Base.{
  ℕ, zero, suc, ◌+◌, ◌*◌, ◌/◌, ◌%◌, ◌^◌, ◌≤◌, ◌<◌, ◌≡◌, ◌⊎◌, ◌↔◌, sym, ◌∙◌, arith, inl, inr, Option,
  none, some, [], length,
}
use mathlib.Core.Path.{subst}
use native.Mathlib.Decide.{dec_le}
use msoffice_crypto.Base.Bytes.{Bytes}
use msoffice_crypto.BinaryOffice.{le32}
use msoffice_crypto.BinaryOffice.Persist.{
  Directory, RecordHeader, insert_run, directory_from, ppt_persist_directory_read_cap, read_at,
  record_header, persist_directory,
}
use msoffice_crypto.BinaryOffice.Persist.Run.{
  IsRun, le32_inside, le32_outside, insert_run-IsRun, insert_run_cut, IsRun-insert_run, inside_lem,
}

-- What is read from `pos` on: the end of the entries, one of four refusals, or a run and what is read
-- behind it.
pub data IsRead (entries : Bytes) : (objects pos : ℕ) → Directory → Option Directory → Type 0 where
  done :
      {objects pos : ℕ} {d : Directory}
      → length entries ≤ pos
      → IsRead entries objects pos d (some d)
  cut_word :
      {objects pos : ℕ} {d : Directory}
      → pos < length entries
      → length entries < pos + 4
      → IsRead entries objects pos d none
  empty_run :
      {objects pos : ℕ} {d : Directory} (word : ℕ)
      → le32 entries pos ≡ some word
      → word / 2 ^ 20 ≡ 0
      → IsRead entries objects pos d none
  too_many :
      {objects pos : ℕ} {d : Directory} (word : ℕ)
      → le32 entries pos ≡ some word
      → 2 ^ 20 < objects + word / 2 ^ 20
      → IsRead entries objects pos d none
  cut_run :
      {objects pos : ℕ} {d : Directory} (word : ℕ)
      → le32 entries pos ≡ some word
      → 1 ≤ word / 2 ^ 20
      → objects + word / 2 ^ 20 ≤ 2 ^ 20
      → length entries < pos + 4 + 4 * (word / 2 ^ 20)
      → IsRead entries objects pos d none
  step :
      {objects pos : ℕ} {d d' : Directory} {result : Option Directory} (word : ℕ)
      → le32 entries pos ≡ some word
      → 1 ≤ word / 2 ^ 20
      → objects + word / 2 ^ 20 ≤ 2 ^ 20
      → IsRun entries (word / 2 ^ 20) (word % 2 ^ 20) (pos + 4) d d'
      → IsRead entries (objects + word / 2 ^ 20) (pos + 4 + 4 * (word / 2 ^ 20)) d' result
      → IsRead entries objects pos d result

module _ (entries : Bytes) where
  module _ (fuel objects pos : ℕ) (d : Directory) where
    from_end : length entries ≤ pos → directory_from (suc fuel) entries objects pos d ≡ some d
    unfolding directory_from
    from_end h = ground arith

    from_cut_word :
        pos < length entries
        → length entries < pos + 4
        → directory_from (suc fuel) entries objects pos d ≡ none
    unfolding directory_from
    from_cut_word l h = ground (arith, le32_outside entries pos h)

    from_refused :
        (word : ℕ)
        → pos < length entries
        → le32 entries pos ≡ some word
        → (word / 2 ^ 20 ≡ 0) ⊎ (2 ^ 20 < objects + word / 2 ^ 20)
        → directory_from (suc fuel) entries objects pos d ≡ none
    unfolding directory_from
    from_refused word l e h = ground arith

    from_cut :
        (word : ℕ)
        → le32 entries pos ≡ some word
        → pos < length entries
        → 1 ≤ word / 2 ^ 20
        → length entries < pos + 4 + 4 * (word / 2 ^ 20)
        → directory_from (suc fuel) entries objects pos d ≡ none
    unfolding directory_from
    from_cut word e l one h =
        let cut = insert_run_cut entries (word / 2 ^ 20) (word % 2 ^ 20) (pos + 4) d one h in
        ground (arith, e, cut)

    from_step :
        (word : ℕ) (d' : Directory)
        → pos < length entries
        → le32 entries pos ≡ some word
        → 1 ≤ word / 2 ^ 20
        → objects + word / 2 ^ 20 ≤ 2 ^ 20
        → insert_run (word / 2 ^ 20) entries (word % 2 ^ 20) (pos + 4) d ≡ some d'
        → directory_from (suc fuel) entries objects pos d
          ≡ directory_from fuel entries (objects + word / 2 ^ 20) (pos + 4 + 4 * (word / 2 ^ 20)) d'
    unfolding directory_from
    from_step word d' l e one few run = ground (arith, e, run)

  directory_from-IsRead :
      (fuel objects pos : ℕ) (d : Directory)
      → length entries ≤ pos + fuel
      → IsRead entries objects pos d (directory_from (suc fuel) entries objects pos d)
  directory_from-IsRead zero objects pos d h =
      rw (from_end zero objects pos d (omega arith)) (done (omega arith))
  directory_from-IsRead (suc fuel) objects pos d h = elim (dec_le (length entries) pos) [
    | yes p ↦ rw (from_end (suc fuel) objects pos d p) (done p)
    | no p ↦ elim (dec_le (length entries) (pos + 3)) [
      | yes q ↦
          rw (from_cut_word (suc fuel) objects pos d (omega arith) (omega arith))
            (cut_word (omega arith) (omega arith))
      | no q ↦
          let (word, e) = le32_inside entries pos (omega arith) in
          let count = word / 2 ^ 20 in
          let inside : pos < length entries = omega arith in
          elim (dec_le 1 count) [
            | no none_left ↦
                let empty : count ≡ 0 = omega arith in
                rw (from_refused (suc fuel) objects pos d word inside e (inl empty))
                  (empty_run word e empty)
            | yes one ↦ elim (dec_le (objects + count) (2 ^ 20)) [
              | no many ↦
                  let over : 2 ^ 20 < objects + count = omega arith in
                  rw (from_refused (suc fuel) objects pos d word inside e (inr over))
                    (too_many word e over)
              | yes few ↦ elim (dec_le (pos + 4 + 4 * count) (length entries)) [
                | no short ↦
                    let cut : length entries < pos + 4 + 4 * count = omega arith in
                    rw (from_cut (suc fuel) objects pos d word e inside one cut)
                      (cut_run word e one few cut)
                | yes long ↦
                    let (d', run, all) =
                      insert_run-IsRun entries count (word % 2 ^ 20) (pos + 4) d long
                        (omega arith) in
                    rw (from_step (suc fuel) objects pos d word d' inside e one few run) (
                      step word e one few all (
                        directory_from-IsRead fuel (objects + count) (pos + 4 + 4 * count) d'
                          (omega arith)))
              ]
            ]
          ]
    ]
  ]

  IsRead-directory_from :
      (fuel : ℕ) {objects pos : ℕ} {d : Directory} {result : Option Directory}
      → IsRead entries objects pos d result
      → length entries ≤ pos + fuel
      → directory_from (suc fuel) entries objects pos d ≡ result
  IsRead-directory_from fuel (done {objects} {pos} {d} p) h = from_end fuel objects pos d p
  IsRead-directory_from fuel (cut_word {objects} {pos} {d} p q) h =
      from_cut_word fuel objects pos d p q
  IsRead-directory_from fuel (empty_run {objects} {pos} {d} word e p) h =
      from_refused fuel objects pos d word (inside_lem entries pos word e) e (inl p)
  IsRead-directory_from fuel (too_many {objects} {pos} {d} word e p) h =
      from_refused fuel objects pos d word (inside_lem entries pos word e) e (inr p)
  IsRead-directory_from fuel (cut_run {objects} {pos} {d} word e one few p) h =
      from_cut fuel objects pos d word e (inside_lem entries pos word e) one p
  IsRead-directory_from zero (step {pos = pos} word e one few run rest) h =
      let l = inside_lem entries pos word e in absurd (omega arith)
  IsRead-directory_from (suc fuel) (step {objects} {pos} {d} {d'} word e one few run rest) h =
      from_step (suc fuel) objects pos d word d' (inside_lem entries pos word e) e one few
        (IsRun-insert_run entries run (omega arith))
      ∙ IsRead-directory_from fuel rest (omega arith)

-- For the entries of an atom whose header is accepted, `persist_directory` answers exactly what is
-- read from their start: one run after the other, each moving on by its word and its offsets, up to
-- the end of the entries or the first refusal. So its loop ends for all entries.
pub persist_directory_iff :
    (src entries : Bytes) (at : ℕ) (rh : RecordHeader) (result : Option Directory)
    → at + 8 < 2 ^ 64
    → record_header src at ≡ some rh
    → rh.ver_instance ≡ 0
    → rh.rec_type ≡ 0x1772
    → rh.rec_len ≤ ppt_persist_directory_read_cap
    → read_at src (at + 8) rh.rec_len ≡ some entries
    → (persist_directory src at ≡ result) ↔ IsRead entries 0 0 [] result
unfolding persist_directory
persist_directory_iff src entries at rh result small head version type' fits body =
    let loop : persist_directory src at ≡ directory_from (suc (length entries)) entries 0 0 [] =
      ground (arith, head, version, type', fits, body) in
    let reads = directory_from-IsRead entries (length entries) 0 0 [] (omega arith) in
    (
      λ e. subst (λ r. IsRead entries 0 0 [] r) (sym loop ∙ e) reads,
      λ r. loop ∙ IsRead-directory_from entries (length entries) r (omega arith),
    )
