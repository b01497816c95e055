-- ===== src/BinaryOffice/Persist/Directory.antt =====
-- The persist directory of src/binary_office.rs: its order and its size.
use msoffice_crypto.Base.{
  ℕ, zero, suc, ◌+◌, ◌*◌, ◌/◌, ◌%◌, ◌^◌, ◌≤◌, ◌<◌, ◌≡◌, ◌≢◌, arith, inl, inr, some, Option-cases,
  [], ◌∷◌, length,
}
use native.Mathlib.Decide.{dec_le}
use msoffice_crypto.Base.Bytes.{Bytes}
use msoffice_crypto.BinaryOffice.{le32}
use msoffice_crypto.BinaryOffice.Persist.{
  Directory, insert, lookup, insert_run, directory_from, ppt_persist_objects_max, read_at,
  record_header, persist_directory,
}

-- Every key is above `low`, and above the keys before it.
abbrev pub IsOrdered : (low : ℕ) → Directory → Type 0
IsOrdered low [] = Unit
IsOrdered low ((k, v) ∷ rest) = (low ≤ k) × IsOrdered (suc k) rest

insert-IsOrdered :
    (id offset low : ℕ) (d : Directory)
    → low ≤ id
    → IsOrdered low d
    → IsOrdered low (insert id offset d)
unfolding insert
insert-IsOrdered id offset low [] l h = (l, tt)
insert-IsOrdered id offset low ((k, v) ∷ rest) l h =
    let later : k < id → IsOrdered (suc k) (insert id offset rest) =
      λ p. insert-IsOrdered id offset (suc k) rest p h.1 in
    ground (arith, later, h, l)

length-insert : (id offset : ℕ) (d : Directory) → length (insert id offset d) ≤ suc (length d)
unfolding insert
length-insert id offset [] = omega arith
length-insert id offset ((k, v) ∷ rest) = ground (arith, length-insert id offset rest)

-- The inserted offset is found under its identifier, and the others as before.
pub lookup-insert :
    (id other offset low : ℕ) (d : Directory)
    → IsOrdered low d
    → (lookup id (insert id offset d) ≡ some offset)
      × (other ≢ id → lookup other (insert id offset d) ≡ lookup other d)
unfolding insert lookup
lookup-insert id other offset low [] h = (ground arith, λ p. ground arith)
lookup-insert id other offset low ((k, v) ∷ rest) h =
    let (same, others) = lookup-insert id other offset (suc k) rest h.1 in
    (ground (arith, same), λ p. ground (arith, others))

insert_run_lem :
    (count : ℕ) (entries : Bytes) (id pos : ℕ) (d d' : Directory)
    → IsOrdered 0 d
    → insert_run count entries id pos d ≡ some d'
    → IsOrdered 0 d' × (length d' ≤ length d + count)
unfolding insert_run
insert_run_lem zero entries id pos d d' h e = (ground (arith, h), ground arith)
insert_run_lem (suc count) entries id pos d d' h e = elim (Option-cases (le32 entries pos)) [
  | inl n ↦ absurd (ground arith)
  | inr (offset, p) ↦
      let next : insert_run count entries (suc id) (pos + 4) (insert id offset d) ≡ some d' =
        ground (arith, p) in
      let (ordered, size) =
        insert_run_lem count entries (suc id) (pos + 4) (insert id offset d) d'
          (insert-IsOrdered id offset 0 d (omega arith) h) next in
      (ordered, omega (arith, size, length-insert id offset d))
]

directory_from_lem :
    (fuel : ℕ) (entries : Bytes) (objects pos : ℕ) (d d' : Directory)
    → IsOrdered 0 d
    → length d ≤ objects
    → objects ≤ ppt_persist_objects_max
    → directory_from fuel entries objects pos d ≡ some d'
    → IsOrdered 0 d' × (length d' ≤ ppt_persist_objects_max)
unfolding directory_from
directory_from_lem zero entries objects pos d d' h l m e = absurd cc
directory_from_lem (suc fuel) entries objects pos d d' h l m e =
    elim (dec_le (length entries) pos) [
      | yes p ↦ (ground (arith, h, p), ground (arith, p))
      | no p ↦ elim (Option-cases (le32 entries pos)) [
        | inl n ↦ absurd (ground (arith, p))
        | inr (word, q) ↦
            elim (Option-cases (insert_run (word / 2 ^ 20) entries (word % 2 ^ 20) (pos + 4) d)) [
              | inl n ↦ absurd (ground (arith, p, q))
              | inr (d1, r) ↦
                  let (ordered, size) =
                    insert_run_lem (word / 2 ^ 20) entries (word % 2 ^ 20) (pos + 4) d d1 h r in
                  let bounded : objects + word / 2 ^ 20 ≤ ppt_persist_objects_max =
                    ground (arith, p, q, r) in
                  let next : directory_from fuel entries (objects + word / 2 ^ 20)
                        (pos + 4 + 4 * (word / 2 ^ 20)) d1
                      ≡ some d' =
                    ground (arith, p, q, r) in
                  directory_from_lem fuel entries (objects + word / 2 ^ 20)
                    (pos + 4 + 4 * (word / 2 ^ 20)) d1 d' ordered (omega (arith, size)) bounded next
            ]
      ]
    ]

-- A directory that is read is in the order of its identifiers, without a repetition, and has at
-- most 2^20 entries.
pub persist_directory-IsOrdered :
    (src : Bytes) (at : ℕ) (d : Directory)
    → persist_directory src at ≡ some d
    → IsOrdered 0 d × (length d ≤ ppt_persist_objects_max)
unfolding persist_directory
persist_directory-IsOrdered src at d e = elim (Option-cases (record_header src at)) [
  | inl n ↦ absurd (ground arith)
  | inr (rh, p) ↦ elim (Option-cases (read_at src (at + 8) rh.rec_len)) [
    | inl n ↦ absurd (ground (arith, p))
    | inr (entries, q) ↦
        let loop : directory_from (suc (length entries)) entries 0 0 [] ≡ some d =
          ground (arith, p, q) in
        directory_from_lem (suc (length entries)) entries 0 0 [] d tt (omega arith) (omega arith)
          loop
  ]
]
