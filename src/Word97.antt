-- ===== src/Word97.antt =====
-- src/word97.rs: the decryption of a Word document.
pub mod Restore
pub mod Cleared
use msoffice_crypto.Base.{
  ℕ, ◌+◌, Bool, true, false, not, ltb, if◌then◌else◌, Option, none, some, List, length, bit_and,
}
use msoffice_crypto.Base.Bytes.{Bytes, slice, range, copy_at, to_le_bytes}
use msoffice_crypto.FileParams.{FileField, FileProblem, Bound, AlgorithmName}
use msoffice_crypto.Error.{Error, Result, ok, err, ◌>>=◌, ◌>>◌, reject_if, ok_or, bad}
use msoffice_crypto.Hash.{Crypto}
use msoffice_crypto.Rc4.{BlockKeySchedule, decrypt_in_blocks}
use msoffice_crypto.BinaryOffice.{
  StreamName, FibBase, parse_fib, encrypted, obfuscated, table_stream, fib_flags_at, fib_l_key_at,
}
use msoffice_crypto.BinaryOffice.Persist.{encryption_header_structure_max}
use msoffice_crypto.BinaryOffice.Probe.{word_is_pre_97}
use msoffice_crypto.LegacyContainer.{CompoundFile, exists, read, overwrite}
use msoffice_crypto.LegacyScheme.{schedule_of}
use msoffice_crypto.EncryptedSummary.{RestoredSummary, decrypt_summary, write_summary}

abbrev pub word_block_size : ℕ
word_block_size = 0x200

abbrev pub fib_clear_len : ℕ
fib_clear_len = 0x44

-- `!(FIB_F_ENCRYPTED | FIB_F_OBFUSCATED)` of 16 bits.
abbrev pub plain_flags_mask : ℕ
plain_flags_mask = 0x7EFF

-- The clear bytes of the FIB put back.
unfoldable pub restore_fib : (word plain : Bytes) → Bytes
restore_fib word plain = copy_at plain 0 (range word 0 fib_clear_len)

-- The flag word and `lKey` of a document that is not encrypted.
unfoldable pub clear_fib : (flags : ℕ) → Bytes → Bytes
clear_fib flags plain =
    copy_at (copy_at plain fib_flags_at (to_le_bytes 2 (bit_and flags plain_flags_mask)))
      fib_l_key_at (to_le_bytes 4 0)

module _ (c : Crypto) where
  -- The bytes of the `WordDocument` stream under the keystream, but for the FIB.
  unfoldable pub decrypt_past_fib : BlockKeySchedule → (word : Bytes) → Result Bytes
  decrypt_past_fib schedule word = do
    plain ← decrypt_in_blocks c schedule word word_block_size
    ok (restore_fib word plain)

  unfoldable pub decrypt_word_stream : BlockKeySchedule → FibBase → (word : Bytes) → Result Bytes
  decrypt_word_stream schedule fib word = do
    plain ← decrypt_past_fib schedule word
    ok (clear_fib fib.flags plain)

-- The guards on the `WordDocument` stream.
unfoldable pub checked_fib : (word : Bytes) → Result FibBase
checked_fib word = do
  fib ← ok_or (parse_fib word) (bad FileField.fib_w_ident FileProblem.bad_signature)
  reject_if (ltb (length word) fib_clear_len)
      (Error.missing_stream "WordDocument stream shorter than the 68-byte FIB")
  reject_if (not (encrypted fib)) Error.not_encrypted
  reject_if (obfuscated fib) (
      Error.unsupported_algorithm "FibBase.fObfuscated"
        (AlgorithmName.fixed "XOR obfuscation of a Word document ([MS-OFFCRYPTO] 2.3.7.4)"))
  ok fib

-- The header structure at the start of the table stream.
unfoldable pub table_structure : FibBase → (table : Bytes) → Result Bytes
table_structure fib table = do
  reject_if (ltb encryption_header_structure_max fib.l_key) (
      bad FileField.fib_l_key
        (FileProblem.out_of_range fib.l_key 0 encryption_header_structure_max Bound.margin))
  ok_or (slice table 0 fib.l_key)
      (bad FileField.fib_l_key (FileProblem.out_of_bounds 0 fib.l_key (length table)))

module _ {S : Type 0} (file : CompoundFile S) (c : Crypto) where
  -- The `Data` stream, where there is one.
  unfoldable pub decrypt_data : S → BlockKeySchedule → Result (Option Bytes)
  decrypt_data s schedule =
      if exists file s StreamName.data_stream
      then (read file s StreamName.data_stream >>= λ data'.
          decrypt_in_blocks c schedule data' word_block_size >>= λ plain. ok (some plain))
      else ok none

  unfoldable pub summary_unless :
      (in_the_clear : Bool) → S → BlockKeySchedule → Result (Option RestoredSummary)
  summary_unless true s schedule = ok none
  summary_unless false s schedule = do
    summary ← decrypt_summary file c s schedule StreamName.encryption
    ok (some summary)

  unfoldable pub overwrite_data : S → Option Bytes → Result S
  overwrite_data s none = ok s
  overwrite_data s (some plain) = overwrite file s StreamName.data_stream plain

  unfoldable pub write_restored : S → Option RestoredSummary → Result S
  write_restored s none = ok s
  write_restored s (some summary) = write_summary file s summary

  -- `decrypt`: nothing is written before everything is decrypted.
  unfoldable pub decrypt : S → (password : List ℕ) → Result S
  decrypt s password = do
    reject_if (word_is_pre_97 (file.cfb s)) (
        Error.unsupported_algorithm "WordDocument stream" (
          AlgorithmName.fixed
            "a Word 6.0/95 document (FibBase.nFib 0x0065 to 0x0069); this crate reads Word 97 and later"))
    word ← read file s StreamName.word_document
    fib ← checked_fib word
    table ← read file s (table_stream fib)
    structure ← table_structure fib table
    (schedule, in_the_clear) ← schedule_of c password structure
    word_plain ← decrypt_word_stream c schedule fib word
    table_plain ← decrypt_in_blocks c schedule table word_block_size
    data_plain ← decrypt_data s schedule
    summary ← summary_unless in_the_clear s schedule
    s1 ← overwrite file s StreamName.word_document word_plain
    s2 ← overwrite file s1 (table_stream fib) table_plain
    s3 ← overwrite_data s2 data_plain
    write_restored s3 summary
