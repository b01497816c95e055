-- ===== src/Excel97.antt =====
-- src/excel97.rs: the decryption of a workbook.
pub mod Find
pub mod Restore
pub mod RoundTrip
pub mod Book
pub mod Container
use msoffice_crypto.Base.{
  ℕ, zero, suc, ◌+◌, ◌-◌, min, Bool, true, false, not, ◌&&◌, leb, ltb, ◌==◌, if◌then◌else◌, Option,
  none, some, and_then, List, [], ◌∷◌, ◌++◌, length, drop, replicate, inl, inr, ◌⊎◌,
}
use msoffice_crypto.Base.Bytes.{Bytes, range, copy_at}
use msoffice_crypto.FileParams.{FileField, FileProblem, AllowedSet, Bound, AlgorithmName}
use msoffice_crypto.Error.{Error, Result, ok, err, ◌>>=◌, ◌>>◌, reject_if, ok_or, bad}
use msoffice_crypto.Hash.{Crypto}
use msoffice_crypto.Rc4.{BlockKeySchedule, decrypt_in_blocks}
use msoffice_crypto.XorObfuscation.{XorObfuscator}
use msoffice_crypto.XorObfuscation
use msoffice_crypto.BinaryOffice.{StreamName, Cfb, le16, workbook_stream_name}
use msoffice_crypto.BinaryOffice.Records.{
  BiffRecord, Item, biff_records, never_encrypted, biff_bof, biff_filepass, biff_boundsheet8,
}
use msoffice_crypto.LegacyContainer.{CompoundFile, read, overwrite}
use msoffice_crypto.LegacyScheme.{schedule_of}
use msoffice_crypto.EncryptedSummary.{RestoredSummary, decrypt_summary, write_summary}

abbrev pub excel_block_size : ℕ
excel_block_size = 1024

abbrev pub lb_ply_pos_len : ℕ
lb_ply_pos_len = 4

-- What the first walk keeps.
pub record Seen : Type 0 where
  pub filepass_record : Option BiffRecord
  pub first_id : Option ℕ
  pub out_of_order : Option ℕ

abbrev pub or_first : Option ℕ → ℕ → Option ℕ
or_first none id = some id
or_first (some first) id = some first

-- One turn of the first loop.
unfoldable pub see : Seen → BiffRecord → Seen
see seen r = elim (seen.filepass_record) [
  | some found ↦ record seen { first_id = or_first seen.first_id r.id }
  | none ↦
      if r.id == biff_filepass
      then record seen { filepass_record = some r; first_id = or_first seen.first_id r.id }
      else if not (never_encrypted r.id)
      then record seen {
        first_id = or_first seen.first_id r.id;
        out_of_order = or_first seen.out_of_order r.id;
      }
      else record seen { first_id = or_first seen.first_id r.id }
]

unfoldable pub see_all : Seen → List Item → Result Seen
unfolding see
see_all seen [] = ok seen
see_all seen (inl e ∷ items) = err (bad FileField.biff_record (FileProblem.unreadable e.at))
see_all seen (inr r ∷ items) = see_all (see seen r) items

abbrev pub starts_with_bof : Option ℕ → Bool
starts_with_bof none = false
starts_with_bof (some id) = id == biff_bof

-- Nothing seen yet.
abbrev pub unseen : Seen
unseen = record { filepass_record = none; first_id = none; out_of_order = none }

-- The `FILEPASS` record, of a book that is walked to its end without an error.
unfoldable pub find_filepass : Bytes → Result BiffRecord
find_filepass book = do
  seen ← see_all unseen (biff_records book)
  reject_if (not (starts_with_bof seen.first_id)) (bad FileField.workbook_bof FileProblem.missing)
  r ← ok_or seen.filepass_record Error.not_encrypted
  elim (seen.out_of_order) [
    | none ↦ ok r
    | some after ↦ err (bad FileField.filepass (FileProblem.out_of_order after))
  ]

pub data Scheme : Type 0 where
  xor : XorObfuscator → Scheme
  rc4 : BlockKeySchedule → (doc_props_in_the_clear : Bool) → Scheme

-- The key and the verification bytes of XOR obfuscation.
unfoldable pub xor_fields : Bytes → Option (ℕ × ℕ)
unfolding le16
xor_fields filepass =
    and_then (le16 filepass 2)
      λ key. and_then (le16 filepass 4) λ verification. some (key, verification)

unfoldable pub xor_scheme : (password : List ℕ) → (filepass : Bytes) → Result Scheme
xor_scheme password filepass = do
  (key, verification_bytes) ←
      ok_or (xor_fields filepass)
        (bad FileField.filepass (FileProblem.truncated (length filepass - 2) 4))
  obfuscator ← XorObfuscation.new password
  XorObfuscation.verify obfuscator key verification_bytes
  ok (xor obfuscator)

unfoldable pub rc4_scheme : Crypto → (password : List ℕ) → (structure : Bytes) → Result Scheme
rc4_scheme c password structure = do
  (schedule, clear) ← schedule_of c password structure
  ok (rc4 schedule clear)

unfoldable pub scheme_of : Crypto → (password : List ℕ) → (filepass : Bytes) → Result Scheme
scheme_of c password filepass = do
  encryption_type ←
      ok_or (le16 filepass 0) (bad FileField.filepass (FileProblem.truncated (length filepass) 2))
  if encryption_type == 0
      then xor_scheme password filepass
      else if encryption_type == 1
      then rc4_scheme c password (drop 2 filepass)
      else err (
          bad FileField.filepass_encryption_type
            (FileProblem.not_in_set encryption_type AllowedSet.xor_or_rc4 Bound.spec))

-- `clear_prefix`.
unfoldable pub clear_prefix : BiffRecord → ℕ
clear_prefix r =
    if never_encrypted r.id
    then r.end - r.start
    else if r.id == biff_boundsheet8
    then min lb_ply_pos_len (r.end - r.start)
    else 0

-- One turn of the second loop under RC4: the header and the clear prefix put back.
unfoldable pub restore : (book plain : Bytes) → BiffRecord → Bytes
restore book plain r =
    let with_header = copy_at plain (r.start - 4) (range book (r.start - 4) r.start) in
    copy_at with_header r.start (range book r.start (r.start + clear_prefix r))

-- `for record in biff_records(&book).flatten()`.
unfoldable pub restore_all : (book plain : Bytes) → List Item → Bytes
unfolding restore
restore_all book plain [] = plain
restore_all book plain (inl e ∷ items) = restore_all book plain items
restore_all book plain (inr r ∷ items) = restore_all book (restore book plain r) items

-- The same loop under XOR obfuscation.
unfoldable pub unmask : XorObfuscator → Bytes → BiffRecord → Bytes
unmask obfuscator plain r =
    let start = r.start + clear_prefix r in
    copy_at plain start
      (XorObfuscation.decrypt obfuscator (range plain start r.end) (r.end + clear_prefix r))

unfoldable pub unmask_all : XorObfuscator → Bytes → List Item → Bytes
unfolding unmask
unmask_all obfuscator plain [] = plain
unmask_all obfuscator plain (inl e ∷ items) = unmask_all obfuscator plain items
unmask_all obfuscator plain (inr r ∷ items) =
    unmask_all obfuscator (unmask obfuscator plain r) items

unfoldable pub decrypt_records : Crypto → Scheme → Bytes → Result Bytes
decrypt_records c (rc4 schedule clear) book = do
  plain ← decrypt_in_blocks c schedule book excel_block_size
  ok (restore_all book plain (biff_records book))
decrypt_records c (xor obfuscator) book = ok (unmask_all obfuscator book (biff_records book))

-- `FILEPASS` becomes a record of type 0 with a body of zeros.
unfoldable pub clear_filepass : BiffRecord → Bytes → Bytes
clear_filepass fp plain =
    let untyped = copy_at plain (fp.start - 4) (replicate 2 0) in
    copy_at untyped fp.start (replicate (fp.end - fp.start) 0)

-- The part of `decrypt` between the read of the stream and the summary.
unfoldable pub decrypt_book : Crypto → (password : List ℕ) → Bytes → Result (Bytes × Scheme)
decrypt_book c password book = do
  fp ← find_filepass book
  scheme ← scheme_of c password (range book fp.start fp.end)
  plain ← decrypt_records c scheme book
  ok (clear_filepass fp plain, scheme)

module _ {S : Type 0} (file : CompoundFile S) (c : Crypto) where
  -- The summary of an RC4 workbook whose properties are encrypted.
  unfoldable pub restored_summary : S → Scheme → Result (Option RestoredSummary)
  restored_summary s (xor obfuscator) = ok none
  restored_summary s (rc4 schedule true) = ok none
  restored_summary s (rc4 schedule false) = do
    summary ← decrypt_summary file c s schedule StreamName.encryption
    ok (some summary)

  -- `if let Some(summary) = summary { summary.write(container)?; }`.
  unfoldable pub write_some : S → Option RestoredSummary → Result S
  write_some s none = ok s
  write_some s (some summary) = write_summary file s summary

  abbrev pub is_book : StreamName → Bool
  is_book StreamName.book = true
  is_book other = false

  -- `decrypt`.
  unfoldable pub decrypt : S → (password : List ℕ) → Result S
  decrypt s password = do
    name ← ok_or (workbook_stream_name (file.cfb s)) (Error.missing_stream "Workbook")
    reject_if (is_book name) (
        Error.unsupported_algorithm "Book stream"
          (AlgorithmName.fixed "a BIFF5 (Excel 5.0/95) workbook; this crate reads BIFF8"))
    book ← read file s name
    (plain, scheme) ← decrypt_book c password book
    summary ← restored_summary s scheme
    s' ← overwrite file s name plain
    write_some s' summary
