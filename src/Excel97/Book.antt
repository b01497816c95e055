-- ===== src/Excel97/Book.antt =====
-- The decryption of a whole book in src/excel97.rs.
use msoffice_crypto.Base.{
  ℕ, ◌+◌, ◌-◌, ◌^◌, ◌≤◌, ◌<◌, ◌≡◌, ◌≢◌, sym, ap, ◌∙◌, arith, inl, inr, Bool, true, Option, none,
  ◌==◌, some, Option-cases, Bool-cases, List, [], ◌∷◌, length, get_elem?, drop,
}
use mathlib.Core.Path.{subst}
use native.Mathlib.Decide.{dec_lt}
use msoffice_crypto.Base.Bytes.{Bytes, range}
use msoffice_crypto.Base.Slots.{get_elem?_ext, get_elem?-range, length-range, get_outside}
use msoffice_crypto.Error.{ok, Result-cases}
use msoffice_crypto.Hash.{Crypto}
use msoffice_crypto.Hash.Laws.{IsCrypto}
use msoffice_crypto.Rc4.{BlockKeySchedule}
use msoffice_crypto.Rc4.Blocks.{IsRc4Schedule}
use msoffice_crypto.LegacyScheme.{schedule_of}
use msoffice_crypto.LegacyScheme.Accept.{schedule_of-IsRc4Schedule}
use msoffice_crypto.BinaryOffice.{le16}
use msoffice_crypto.BinaryOffice.Records.{
  BiffRecord, Item, biff_records, never_encrypted, biff_filepass,
}
use msoffice_crypto.BinaryOffice.Records.Walk.{biff_records-IsWalk}
use msoffice_crypto.Excel97.{
  Seen, see, see_all, unseen, find_filepass, Scheme, xor_scheme, rc4_scheme, scheme_of,
  clear_prefix, decrypt_records, clear_filepass, decrypt_book,
}
use msoffice_crypto.Excel97.Find.{find_filepass-IsClean}
use msoffice_crypto.Excel97.Restore.{IsInside, IsAllInside, IsWalk-IsAllInside, in_clear}
use msoffice_crypto.Excel97.RoundTrip.{decrypt_records_twice, decrypt_records_lem}

-- What holds of the record found so far: it is a `FILEPASS` inside the book, and all of its bytes
-- stay in the clear.
abbrev IsKept : (size : ℕ) → (all : List Item) → Option BiffRecord → Type 0
IsKept size all none = Unit
IsKept size all (some r) =
    IsInside size r
    × (r.id ≡ biff_filepass)
    × ((j : ℕ) → r.start - 4 ≤ j → j < r.end → in_clear all j ≡ true)

-- Where a byte of some records is in the clear, it is in the clear of them all.
abbrev IsPart : (all items : List Item) → Type 0
IsPart all items = (j : ℕ) → in_clear items j ≡ true → in_clear all j ≡ true

clear_record :
    (r : BiffRecord) (items : List Item) (j : ℕ)
    → r.id ≡ biff_filepass
    → r.start - 4 ≤ j
    → r.start ≤ r.end
    → j < r.end
    → in_clear (inr r ∷ items) j ≡ true
unfolding in_clear clear_prefix never_encrypted
clear_record r items j i h p l = ground (arith, i)

see-IsKept :
    (size : ℕ) (all items : List Item) (seen : Seen) (r : BiffRecord)
    → IsInside size r
    → IsPart all (inr r ∷ items)
    → IsKept size all seen.filepass_record
    → IsKept size all (see seen r).filepass_record
unfolding see
see-IsKept size all items seen r b part k = elim (Option-cases seen.filepass_record) [
  | inr (q, e) ↦
      let stays : (see seen r).filepass_record ≡ seen.filepass_record = ground (arith, e) in
      rw stays k
  | inl e ↦ elim (Bool-cases (r.id == biff_filepass)) [
    | inl p ↦
        let found : (see seen r).filepass_record ≡ some r = ground (arith, e, p) in
        let id : r.id ≡ biff_filepass = ground (arith, p) in
        let clear : (j : ℕ) → r.start - 4 ≤ j → j < r.end → in_clear all j ≡ true =
          λ j h l. part j (clear_record r items j id h (b.1) l) in
        let kept : IsKept size all (some r) = (b, id, clear) in rw found kept
    | inr p ↦ let still : (see seen r).filepass_record ≡ none = ground (arith, e, p) in rw still tt
  ]
]

see_all-IsKept :
    (size : ℕ) (all items : List Item) (seen last : Seen)
    → IsAllInside size items
    → IsPart all items
    → IsKept size all seen.filepass_record
    → see_all seen items ≡ ok last
    → IsKept size all last.filepass_record
unfolding see_all in_clear
see_all-IsKept size all [] seen last b part k h =
    let same : seen ≡ last = grind arith in rw (sym (ap (λ s. s.filepass_record) same)) k
see_all-IsKept size all (inl e ∷ items) seen last b part k h = absurd cc
see_all-IsKept size all (inr r ∷ items) seen last b part k h =
    see_all-IsKept size all items (see seen r) last b.1 (λ j p. part j (ground (arith, p)))
      (see-IsKept size all items seen r b.0 part k) h

module _ (book : Bytes) (fp : BiffRecord) (found : find_filepass book ≡ ok fp) where
  -- The `FILEPASS` record lies inside the book, and stays in the clear.
  pub filepass-IsKept : IsKept (length book) (biff_records book) (some fp)
  unfolding find_filepass
  filepass-IsKept = elim (Result-cases (see_all unseen (biff_records book))) [
    | inr f ↦ absurd (ground arith)
    | inl (last, p) ↦
        let kept =
          see_all-IsKept (length book) (biff_records book) (biff_records book) unseen last
            (IsWalk-IsAllInside (biff_records-IsWalk book)) (λ j q. q) tt p in
        let there : last.filepass_record ≡ some fp = ground (arith, p) in
        subst (λ o. IsKept (length book) (biff_records book) o) there kept
  ]

  -- A book with the same records, and the same bytes in the clear, has the same `FILEPASS`.
  module _ (other : Bytes) (same : biff_records other ≡ biff_records book)
      (size : length other ≡ length book)
      (agree : (j : ℕ)
        → in_clear (biff_records book) j ≡ true
        → get_elem? other j ≡ get_elem? book j) where
    found_same : find_filepass other ≡ ok fp
    unfolding find_filepass
    found_same = rw same found

    body_same : range other fp.start fp.end ≡ range book fp.start fp.end
    body_same = get_elem?_ext (range other fp.start fp.end) (range book fp.start fp.end) (λ i.
        elim (dec_lt i (fp.end - fp.start)) [
          | yes l ↦
              let (inside, id, clear) = filepass-IsKept in
              get_elem?-range other fp.start fp.end i l
              ∙ agree (fp.start + i) (clear (fp.start + i) (omega arith) (omega arith))
              ∙ sym (get_elem?-range book fp.start fp.end i l)
          | no l ↦
              let (inside, id, clear) = filepass-IsKept in
              get_outside (range other fp.start fp.end) i
                (omega (arith, length-range other fp.start fp.end (omega (arith, size, inside))))
              ∙ sym (
                  get_outside (range book fp.start fp.end) i
                    (omega (arith, length-range book fp.start fp.end (omega (arith, inside)))))
        ])

module _ (c : Crypto) (laws : IsCrypto c) (password : List ℕ) (schedule : BlockKeySchedule)
    (clear : Bool) where
  xor_scheme_not_rc4 :
      (filepass : Bytes) → xor_scheme password filepass ≢ ok (Scheme.rc4 schedule clear)
  unfolding xor_scheme
  xor_scheme_not_rc4 filepass h = ground arith

  rc4_scheme-IsRc4Schedule :
      (structure : Bytes)
      → rc4_scheme c password structure ≡ ok (Scheme.rc4 schedule clear)
      → IsRc4Schedule schedule
  unfolding rc4_scheme
  rc4_scheme-IsRc4Schedule structure h = elim (Result-cases (schedule_of c password structure)) [
    | inr f ↦ absurd (ground arith)
    | inl ((made, p), e) ↦
        let same : made ≡ schedule = ground (arith, e) in
        subst IsRc4Schedule same (schedule_of-IsRc4Schedule c laws password structure made p e)
  ]

  scheme_of-IsRc4Schedule :
      (filepass : Bytes)
      → scheme_of c password filepass ≡ ok (Scheme.rc4 schedule clear)
      → IsRc4Schedule schedule
  unfolding scheme_of
  scheme_of-IsRc4Schedule filepass h = elim (Option-cases (le16 filepass 0)) [
    | inl n ↦ absurd (ground arith)
    | inr (encryption_type, e) ↦ elim (Bool-cases (encryption_type == 0)) [
      | inl p ↦ absurd (xor_scheme_not_rc4 filepass (ground (arith, p, e)))
      | inr p ↦ elim (Bool-cases (encryption_type == 1)) [
        | inl q ↦ rc4_scheme-IsRc4Schedule (drop 2 filepass) (ground (arith, p, q, e))
        | inr q ↦ absurd (ground (arith, p, q, e))
      ]
    ]
  ]

  -- For a book of at most 2^32 bytes in which a `FILEPASS` record is found whose body the password
  -- opens under RC4: the book whose records are encrypted decrypts to the book itself, with that
  -- record cleared.
  pub decrypt_book-encrypted :
      (book : Bytes) (fp : BiffRecord)
      → length book ≤ 2 ^ 32
      → find_filepass book ≡ ok fp
      → scheme_of c password (range book fp.start fp.end) ≡ ok (Scheme.rc4 schedule clear)
      → (cipher : Bytes) × (decrypt_records c (Scheme.rc4 schedule clear) book ≡ ok cipher)
        × (decrypt_book c password cipher ≡ ok (clear_filepass fp book, Scheme.rc4 schedule clear))
  unfolding decrypt_book
  decrypt_book-encrypted book fp l found opened =
      let usable = scheme_of-IsRc4Schedule (range book fp.start fp.end) opened in
      let clean = find_filepass-IsClean book fp found in
      let (cipher, e, size, at) = decrypt_records_lem c schedule clear usable book l in
      let (again, e', same, back) = decrypt_records_twice c schedule clear usable book l clean in
      let one : again ≡ cipher = grind arith in
      let kept : (j : ℕ)
          → in_clear (biff_records book) j ≡ true
          → get_elem? cipher j ≡ get_elem? book j =
        λ j p. at j ∙ ground (arith, p) in
      let same' : biff_records cipher ≡ biff_records book = ap biff_records (sym one) ∙ same in
      let back' : decrypt_records c (Scheme.rc4 schedule clear) cipher ≡ ok book =
        ap (decrypt_records c (Scheme.rc4 schedule clear)) (sym one) ∙ back in
      let record_found = found_same book fp found cipher same' size kept in
      let body = body_same book fp found cipher same' size kept in
      (cipher, e, ground (arith, record_found, body, opened, back'))
