-- ===== src/BinaryOffice/Probe.antt =====
-- `probe_in` of src/binary_office.rs: what a legacy container shows of its encryption.
pub mod Verdict
use msoffice_crypto.Base.{
  ℕ, ◌+◌, ◌-◌, ◌^◌, Bool, true, false, not, ◌&&◌, ◌||◌, leb, ◌==◌, if◌then◌else◌, Option, none,
  some, and_then, length, drop,
}
use msoffice_crypto.Base.Bytes.{Bytes, range}
use msoffice_crypto.Error.{Result, ok, err}
use msoffice_crypto.Reader.{Reader, Take, read_full_take}
use msoffice_crypto.BinaryOffice.{
  BinaryFormat, StreamName, BinaryVerdict, Cfb, format_of, workbook_stream_name, le16, le32,
  parse_encryption_header, fib_w_ident, FibBase, parse_fib, encrypted, obfuscated, table_stream,
}
use msoffice_crypto.BinaryOffice.Records.{BiffRecord, FilePassScan, scan_for_filepass}
use msoffice_crypto.BinaryOffice.Persist.{
  UserEditAtom, user_edit_atom, presentation_encryption_header, current_edit_offset,
  user_edit_atom_len_plain,
}

abbrev pub binary_header_read_cap : ℕ
binary_header_read_cap = 512

abbrev pub biff_scan_cap : ℕ
biff_scan_cap = 2 ^ 20

abbrev pub current_user_read_cap : ℕ
current_user_read_cap = 256

-- What a read to the end of the stream, or to the cap, leaves; an error leaves nothing.
abbrev bytes_of : Result (Bytes × Take) → Option Bytes
bytes_of (err problem) = none
bytes_of (ok (bytes, rest)) = some bytes

-- `read_capped` of this module: a stream shorter than the cap is not an error.
unfoldable pub read_prefix : Cfb → StreamName → (cap : ℕ) → Option Bytes
read_prefix cfb name cap =
    and_then (cfb.open_stream name)
      λ stream. bytes_of (read_full_take (record { inner = stream; limit = cap }) cap)

-- `n_fib` of Word 6.0 and Word 95.
unfoldable pub word_is_pre_97 : Cfb → Bool
word_is_pre_97 cfb = elim (read_prefix cfb StreamName.word_document 4) [
  | none ↦ false
  | some fib ↦ elim (le16 fib 0) [
    | none ↦ false
    | some w_ident ↦
        w_ident == fib_w_ident
        && elim (le16 fib 2) [ none ↦ false | some n_fib ↦ leb 0x0065 n_fib && leb n_fib 0x0069 ]
  ]
]

-- A verdict whose scheme is not read.
abbrev pub verdict : BinaryFormat → Option Bool → BinaryVerdict
verdict format encrypted' = record {
  format = format;
  encrypted = encrypted';
  version = none;
  key_bits = none;
  xor_obfuscated = false;
  pre_97 = false;
}

-- An encrypted document, with what its header says.
unfoldable pub with_header : BinaryFormat → Option Bytes → BinaryVerdict
with_header format none = verdict format (some true)
with_header format (some blob) =
    let (version, key_bits) = parse_encryption_header blob in
    record (verdict format (some true)) { version = version; key_bits = key_bits }

unfoldable pub probe_word : Cfb → Option BinaryVerdict
probe_word cfb = and_then (read_prefix cfb StreamName.word_document binary_header_read_cap) λ word.
    and_then (parse_fib word) λ fib. some (
      if not (encrypted fib)
      then verdict BinaryFormat.word (some false)
      else if obfuscated fib
      then record (verdict BinaryFormat.word (some true)) { xor_obfuscated = true }
      else with_header BinaryFormat.word
          (read_prefix cfb (table_stream fib) binary_header_read_cap))

-- The verdict on a workbook by its `FILEPASS` body.
unfoldable pub filepass_verdict : Bytes → BinaryVerdict
filepass_verdict body = elim (le16 body 0) [
  | none ↦ verdict BinaryFormat.excel (some true)
  | some encryption_type ↦
      if encryption_type == 0
      then record (verdict BinaryFormat.excel (some true)) { xor_obfuscated = true }
      else with_header BinaryFormat.excel (some (drop 2 body))
]

-- `book.get(record.body).unwrap_or(&[])`.
abbrev pub record_body : Bytes → BiffRecord → Bytes
record_body book r = range book r.start r.end

unfoldable pub scan_verdict : Bytes → FilePassScan → BinaryVerdict
scan_verdict book (FilePassScan.found r) = filepass_verdict (record_body book r)
scan_verdict book FilePassScan.proven_absent = verdict BinaryFormat.excel (some false)
scan_verdict book FilePassScan.unreadable = verdict BinaryFormat.excel none

unfoldable pub probe_excel : Cfb → Option BinaryVerdict
probe_excel cfb = and_then (workbook_stream_name cfb) λ stream.
    and_then (read_prefix cfb stream biff_scan_cap)
      λ book. some (scan_verdict book (scan_for_filepass book))

-- The verdict on a presentation by the edit atom in its document.
unfoldable pub atom_verdict : (doc : Bytes) → Option UserEditAtom → BinaryVerdict
atom_verdict doc none = verdict BinaryFormat.power_point none
atom_verdict doc (some atom) =
    if atom.rec_len == user_edit_atom_len_plain
    then verdict BinaryFormat.power_point (some false)
    else with_header BinaryFormat.power_point (presentation_encryption_header doc atom)

-- The document is sought in, not read whole; the stream is the content of its reader here.
unfoldable pub probe_powerpoint : Cfb → Option BinaryVerdict
probe_powerpoint cfb =
    and_then (read_prefix cfb StreamName.current_user current_user_read_cap) λ cu.
      and_then (current_edit_offset cu) λ offset.
        and_then (cfb.open_stream StreamName.power_point_document)
          λ doc. some (atom_verdict doc.content (user_edit_atom doc.content offset))

-- `workbook_stream_name(cfb) == Some(BOOK)`.
unfoldable pub is_book_only : Option StreamName → Bool
is_book_only none = false
is_book_only (some StreamName.book) = true
is_book_only (some other) = false

unfoldable pub pre_97_of : Cfb → BinaryFormat → Bool
pre_97_of cfb BinaryFormat.word = word_is_pre_97 cfb
pre_97_of cfb BinaryFormat.excel = is_book_only (workbook_stream_name cfb)
pre_97_of cfb BinaryFormat.power_point = false

unfoldable pub probe_format : Cfb → BinaryFormat → Option BinaryVerdict
probe_format cfb BinaryFormat.word = probe_word cfb
probe_format cfb BinaryFormat.excel = probe_excel cfb
probe_format cfb BinaryFormat.power_point = probe_powerpoint cfb

unfoldable pub probe_in : Cfb → Option BinaryVerdict
probe_in cfb = and_then (format_of cfb) λ format.
    and_then (probe_format cfb format)
      λ verdict'. some (record verdict' { pre_97 = pre_97_of cfb verdict'.format })
