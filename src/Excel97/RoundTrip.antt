-- ===== src/Excel97/RoundTrip.antt =====
-- RC4 over the records of a workbook in src/excel97.rs, and the records of what it leaves.
use msoffice_crypto.Base.{
  ℕ, ◌+◌, ◌^◌, ◌≤◌, ◌<◌, ◌≡◌, refl, sym, ap, ◌∙◌, arith, Bool, true, if◌then◌else◌, some, List,
  length, get_elem?,
}
use msoffice_crypto.Base.Bytes.{Bytes}
use msoffice_crypto.Base.Slots.{get_elem?_ext}
use msoffice_crypto.Error.{ok}
use msoffice_crypto.Hash.{Crypto}
use msoffice_crypto.Rc4.{BlockKeySchedule, xor_from}
use msoffice_crypto.Rc4.Blocks.{IsRc4Schedule, block_stream, decrypt_in_blocks_lem, length-xor_from}
use msoffice_crypto.Rc4.Masked.{masked, get_elem?-xor_from, masked_if}
use msoffice_crypto.BinaryOffice.{le16}
use msoffice_crypto.BinaryOffice.Records.{Item, record_at, biff_records}
use msoffice_crypto.BinaryOffice.Records.Walk.{
  IsWalk, done, broken, step, IsClean, biff_records-IsWalk, IsWalk-unique,
}
use msoffice_crypto.Excel97.{Scheme, restore_all, decrypt_records, excel_block_size}
use msoffice_crypto.Excel97.Restore.{
  IsWalk-IsAllInside, in_clear, length-restore_all, restore_all_lem,
}

record_at_agree :
    (book other : Bytes) (at : ℕ)
    → ((i : ℕ) → i < 4 → get_elem? other (at + i) ≡ get_elem? book (at + i))
    → record_at other at ≡ record_at book at
unfolding record_at le16
record_at_agree book other at h =
    let agree : (i n : ℕ) → i < 4 → at + i ≡ n → get_elem? other n ≡ get_elem? book n =
      λ i n l e. ap (get_elem? other) (sym e) ∙ h i l ∙ ap (get_elem? book) e in
    let a = agree 0 at (omega arith) (omega arith) in
    let b = agree 1 (at + 1) (omega arith) refl in
    let d = agree 2 (at + 2) (omega arith) refl in
    let f = agree 3 (at + 2 + 1) (omega arith) (omega arith) in ground (arith, a, b, d, f)

-- A buffer of the same length that agrees in the clear has the same walk.
IsWalk-agree :
    {book : Bytes} (other : Bytes) {at : ℕ} {items : List Item}
    → IsWalk book at items
    → IsClean items
    → length other ≡ length book
    → ((j : ℕ) → in_clear items j ≡ true → get_elem? other j ≡ get_elem? book j)
    → IsWalk other at items
unfolding in_clear
IsWalk-agree other (done l) c e h = done (rw e l)
IsWalk-agree other (broken l b) c e h = absurd c
IsWalk-agree {book} other (step {at} {items} id len l r b w) c e h =
    let same : (i : ℕ) → i < 4 → get_elem? other (at + i) ≡ get_elem? book (at + i) =
      λ i p. h (at + i) (ground (arith, p)) in
    let read : record_at other at ≡ some (id, len) = record_at_agree book other at same ∙ r in
    let rest : IsWalk other (at + 4 + len) items =
      IsWalk-agree other w c e (λ j p. h j (ground (arith, p))) in
    step id len (rw e l) read (rw e b) rest

module _ (c : Crypto) (schedule : BlockKeySchedule) (clear : Bool)
    (usable : IsRc4Schedule schedule) where
  abbrev stream : ℕ → ℕ
  stream = block_stream c schedule excel_block_size

  abbrev scheme : Scheme
  scheme = Scheme.rc4 schedule clear

  -- What the RC4 branch makes of a book.
  abbrev pub unmasked : Bytes → Bytes
  unmasked book = restore_all book (xor_from stream 0 book) (biff_records book)

  rc4_lem :
      (book : Bytes) → length book ≤ 2 ^ 32 → decrypt_records c scheme book ≡ ok (unmasked book)
  unfolding decrypt_records
  rc4_lem book l =
      ground (arith, decrypt_in_blocks_lem c schedule excel_block_size usable (omega arith) book l)

  length-unmasked : (book : Bytes) → length (unmasked book) ≡ length book
  length-unmasked book =
      length-restore_all book (xor_from stream 0 book) (biff_records book)
        (IsWalk-IsAllInside (biff_records-IsWalk book)) (length-xor_from stream 0 book)

  abbrev pub is_clear : Bytes → ℕ → Bool
  is_clear book j = in_clear (biff_records book) j

  unmasked_lem :
      (book : Bytes) (j : ℕ)
      → get_elem? (unmasked book) j
        ≡ (if is_clear book j then get_elem? book j else masked stream j (get_elem? book j))
  unmasked_lem book j =
      let there : masked stream (0 + j) (get_elem? book j) ≡ masked stream j (get_elem? book j) =
        ap (λ i. masked stream i (get_elem? book j)) (omega arith) in
      restore_all_lem book (xor_from stream 0 book) (biff_records book) j
        (IsWalk-IsAllInside (biff_records-IsWalk book)) (length-xor_from stream 0 book)
      ∙ ap (λ o. if is_clear book j then get_elem? book j else o)
          (get_elem?-xor_from stream 0 book j ∙ there)

  -- For a schedule of keys of 5 to 16 bytes and a book of at most 2^32 bytes: the RC4 branch
  -- answers with a book of the same length, in which a byte of a header or of a clear prefix is
  -- what it was and every other byte falls under its own byte of the keystream of 1024-byte blocks.
  pub decrypt_records_lem :
      (book : Bytes)
      → length book ≤ 2 ^ 32
      → (plain : Bytes) × (decrypt_records c scheme book ≡ ok plain)
        × (length plain ≡ length book)
        × ((j : ℕ)
            → get_elem? plain j
              ≡ (if is_clear book j then get_elem? book j else masked stream j (get_elem? book j)))
  decrypt_records_lem book l =
      (unmasked book, rc4_lem book l, length-unmasked book, unmasked_lem book)

  biff_records-unmasked :
      (book : Bytes)
      → IsClean (biff_records book)
      → biff_records (unmasked book) ≡ biff_records book
  biff_records-unmasked book clean =
      IsWalk-unique (unmasked book) (biff_records-IsWalk (unmasked book)) (
        IsWalk-agree (unmasked book) (biff_records-IsWalk book) clean (length-unmasked book)
          (λ j p. unmasked_lem book j ∙ ground (arith, p)))

  twice_at :
      (book : Bytes) (j : ℕ)
      → IsClean (biff_records book)
      → get_elem? (unmasked (unmasked book)) j ≡ get_elem? book j
  twice_at book j clean =
      let again = unmasked_lem (unmasked book) j in
      let same : is_clear (unmasked book) j ≡ is_clear book j =
        ap (λ items. in_clear items j) (biff_records-unmasked book clean) in
      let first = get_elem? (unmasked book) j in
      masked_if stream j (is_clear book j) (get_elem? book j) first
        (get_elem? (unmasked (unmasked book)) j) (unmasked_lem book j)
        (again ∙ ap (λ b. if b then first else masked stream j first) same)

  -- For a schedule of keys of 5 to 16 bytes and a book of at most 2^32 bytes whose records can all
  -- be read: the RC4 branch leaves the same records, and undoes itself, so that it decrypts what
  -- the same pass over a plain workbook encrypts.
  pub decrypt_records_twice :
      (book : Bytes)
      → length book ≤ 2 ^ 32
      → IsClean (biff_records book)
      → (plain : Bytes) × (decrypt_records c scheme book ≡ ok plain)
        × (biff_records plain ≡ biff_records book)
        × (decrypt_records c scheme plain ≡ ok book)
  decrypt_records_twice book l clean =
      let back : unmasked (unmasked book) ≡ book =
        get_elem?_ext (unmasked (unmasked book)) book (λ j. twice_at book j clean) in
      (
        unmasked book,
        rc4_lem book l,
        biff_records-unmasked book clean,
        rc4_lem (unmasked book) (rw (length-unmasked book) l) ∙ ap ok back,
      )
