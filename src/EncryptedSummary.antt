-- ===== src/EncryptedSummary.antt =====
-- src/encrypted_summary.rs: the encrypted summary stream of a legacy document. The fields of the
-- file are 32 bits wide, so that a `usize` holds them and their sums.
pub mod Extents
use msoffice_crypto.Base.{
  ℕ, zero, suc, ◌+◌, ◌-◌, ◌*◌, ◌/◌, Bool, true, false, not, ◌&&◌, ◌||◌, ltb, leb, ◌==◌,
  if◌then◌else◌, Option, none, some, and_then, List, [], ◌∷◌, ◌++◌, length, take, drop, get_elem?,
  bit_and, String,
}
use msoffice_crypto.Base.Bytes.{Bytes, slice}
use msoffice_crypto.FileParams.{FileField, FileProblem, Invariant, Bound}
use msoffice_crypto.Error.{Error, Result, ok, err, ◌>>=◌, ◌>>◌, reject_if, ok_or, bad}
use msoffice_crypto.Hash.{Crypto}
use msoffice_crypto.Integrity.{ct_eq}
use msoffice_crypto.Rc4.{BlockKeySchedule, decrypt_with_block}
use msoffice_crypto.BinaryOffice.{StreamName, le16, le32}
use msoffice_crypto.LegacyContainer.{CompoundFile, exists, read, replace, remove}

abbrev pub summary_prefix_len : ℕ
summary_prefix_len = 8

abbrev pub count_len : ℕ
count_len = 4

abbrev pub descriptor_fixed_len : ℕ
descriptor_fixed_len = 16

abbrev pub descriptor_min_len : ℕ
descriptor_min_len = 18

-- The ASCII characters of a name as little-endian UTF-16.
unfoldable pub ascii_utf16 : Bytes → Bytes
ascii_utf16 [] = []
ascii_utf16 (ch ∷ rest) = ch ∷ 0 ∷ ascii_utf16 rest

-- "SummaryInformation".
abbrev pub summary_name : Bytes
summary_name =
    0x53 ∷ 0x75 ∷ 0x6D ∷ 0x6D ∷ 0x61 ∷ 0x72 ∷ 0x79 ∷ 0x49 ∷ 0x6E ∷ 0x66 ∷ 0x6F ∷ 0x72 ∷ 0x6D ∷ 0x61
    ∷ 0x74 ∷ 0x69 ∷ 0x6F ∷ 0x6E ∷ []

-- "Document".
abbrev pub document_name : Bytes
document_name = 0x44 ∷ 0x6F ∷ 0x63 ∷ 0x75 ∷ 0x6D ∷ 0x65 ∷ 0x6E ∷ 0x74 ∷ []

-- Whether the units are those of a name; the names have no unit that UTF-16 would refuse.
unfoldable pub property_set_name : Bytes → Option StreamName
unfolding ascii_utf16 ct_eq
property_set_name utf16le =
    if ct_eq utf16le (ascii_utf16 (5 ∷ summary_name))
    then some StreamName.summary_information
    else if ct_eq utf16le (ascii_utf16 (5 ∷ (document_name ++ summary_name)))
    then some StreamName.document_summary_information
    else none

-- A restored stream, and the extent of the data that it came from.
pub record Entry : Type 0 where
  pub name : StreamName
  pub bytes : Bytes
  pub start : ℕ
  pub end : ℕ

abbrev pub is_summary : StreamName → Bool
is_summary StreamName.summary_information = true
is_summary other = false

-- `*seen == name`, of the two names that `property_set_name` answers.
unfoldable pub same_name : (seen name : StreamName) → Bool
same_name seen name = if is_summary seen then is_summary name else not (is_summary name)

unfoldable pub any_named : StreamName → List Entry → Bool
unfolding same_name
any_named name [] = false
any_named name (e ∷ entries) = same_name e.name name || any_named name entries

unfoldable pub any_overlap : (start end : ℕ) → List Entry → Bool
any_overlap start end [] = false
any_overlap start end (e ∷ entries) =
    (ltb start e.end && ltb e.start end) || any_overlap start end entries

pub record Descriptor : Type 0 where
  pub offset : ℕ
  pub size : ℕ
  pub block : ℕ
  pub flags : ℕ
  pub name : Option StreamName
  pub next_at : ℕ

-- `fixed[i]`, which the length of `fixed` allows.
abbrev pub byte_at : Bytes → ℕ → ℕ
byte_at b i = elim (get_elem? b i) [ none ↦ 0 | some x ↦ x ]

-- The descriptor at `at` of the array.
unfoldable pub descriptor_at : (array : Bytes) → (at : ℕ) → Result Descriptor
unfolding slice le32 get_elem? property_set_name
descriptor_at array at = do
  fixed ← ok_or (slice array at descriptor_fixed_len) (
      bad FileField.summary_descriptor
        (FileProblem.truncated (length array - at) descriptor_fixed_len))
  (offset, size) ←
      ok_or (and_then (le32 fixed 0) λ offset. and_then (le32 fixed 4) λ size. some (offset, size))
        (Error.invariant_violated Invariant.internal_slice)
  let name_len = 2 * byte_at fixed 10
  let at' = at + descriptor_fixed_len
  name_bytes ←
      ok_or (slice array at' name_len)
        (bad FileField.summary_stream_name (FileProblem.out_of_bounds at' name_len (length array)))
  reject_if
      (elim (slice array (at' + name_len) 2) [
        | none ↦ true
        | some end ↦ not (ct_eq end (0 ∷ 0 ∷ []))
      ])
      (bad FileField.summary_stream_name FileProblem.unterminated)
  ok (record {
    offset = offset;
    size = size;
    block = byte_at fixed 8 + 256 * byte_at fixed 9;
    flags = byte_at fixed 11;
    name = property_set_name name_bytes;
    next_at = at' + (name_len + 2);
  })

module _ (c : Crypto) (schedule : BlockKeySchedule) (data' : Bytes) (array_offset : ℕ) where
  -- One turn of the loop: the stream of a descriptor, that is neither seen before nor overlaps.
  unfoldable pub entry_of : (entries : List Entry) → Descriptor → Result Entry
  entry_of entries d = do
    reject_if (bit_and d.flags 0x01 == 0)
        (Error.unsupported_encrypted_content "a storage inside the encrypted summary stream")
    name ← ok_or d.name (
        Error.unsupported_encrypted_content
          "a stream inside the encrypted summary stream other than the two property sets")
    reject_if (any_named name entries) (bad FileField.summary_descriptor FileProblem.duplicate)
    let end = d.offset + d.size
    reject_if (not (leb summary_prefix_len d.offset && leb end array_offset)) (
        bad FileField.summary_stream_extent
          (FileProblem.out_of_bounds d.offset d.size array_offset))
    reject_if (any_overlap d.offset end entries)
        (bad FileField.summary_stream_extent FileProblem.overlaps)
    cipher ← ok_or (slice data' d.offset d.size) (Error.invariant_violated Invariant.internal_slice)
    plain ← decrypt_with_block c schedule cipher d.block
    ok (record { name = name; bytes = plain; start = d.offset; end = end })

  -- `for i in 0..count`: the entries so far, and the position in the array.
  unfoldable pub entries_from :
      (count : ℕ) → (array : Bytes) → (at : ℕ) → List Entry → Result (List Entry)
  entries_from zero array at entries = ok entries
  entries_from (suc count) array at entries = do
    d ← descriptor_at array at
    entry ← entry_of entries d
    entries_from count array d.next_at (entries ++ (entry ∷ []))

-- Where the descriptor array lies.
unfoldable pub array_extent : Bytes → Option (ℕ × ℕ)
array_extent prefix =
    and_then (le32 prefix 0) λ offset. and_then (le32 prefix 4) λ size. some (offset, size)

-- `decrypt_stream`.
unfoldable pub decrypt_stream : Crypto → Bytes → BlockKeySchedule → Result (List Entry)
decrypt_stream c data' schedule = do
  cipher ←
      ok_or (slice data' 0 summary_prefix_len)
        (bad FileField.summary_stream (FileProblem.truncated (length data') summary_prefix_len))
  prefix ← decrypt_with_block c schedule cipher 0
  (array_offset, array_size) ←
      ok_or (array_extent prefix) (Error.invariant_violated Invariant.internal_slice)
  reject_if
      (not (leb summary_prefix_len array_offset && leb (array_offset + array_size) (length data')))
      (bad FileField.summary_descriptor_array
        (FileProblem.out_of_bounds array_offset array_size (length data')))
  array_cipher ←
      ok_or (slice data' array_offset array_size)
        (Error.invariant_violated Invariant.internal_slice)
  array ← decrypt_with_block c schedule array_cipher 0
  count ←
      ok_or (le32 array 0)
        (bad FileField.summary_descriptor_array (FileProblem.truncated array_size count_len))
  reject_if (ltb (array_size - count_len) (count * descriptor_min_len)) (
      bad FileField.summary_descriptor_count (
        FileProblem.out_of_range count 0 ((array_size - count_len) / descriptor_min_len)
          Bound.spec))
  entries_from c schedule data' array_offset count array count_len []

pub record RestoredSummary : Type 0 where
  pub stream : StreamName
  pub entries : List Entry

-- The message for a missing stream.
abbrev pub missing_summary : StreamName → String
missing_summary StreamName.encrypted_summary = "EncryptedSummary (fDocProps is clear)"
missing_summary other = "encryption (fDocProps is clear)"

module _ {S : Type 0} (file : CompoundFile S) where
  -- `decrypt`.
  unfoldable pub decrypt_summary :
      Crypto → S → BlockKeySchedule → StreamName → Result RestoredSummary
  unfolding exists read decrypt_stream
  decrypt_summary c s schedule stream = do
    reject_if (not (exists file s stream)) (Error.missing_stream (missing_summary stream))
    data' ← read file s stream
    entries ← decrypt_stream c data' schedule
    ok (record { stream = stream; entries = entries })

  unfoldable pub replace_all : S → List Entry → Result S
  unfolding replace
  replace_all s [] = ok s
  replace_all s (e ∷ entries) = do s' ← replace file s e.name e.bytes; replace_all s' entries

  -- `RestoredSummary::write`.
  unfoldable pub write_summary : S → RestoredSummary → Result S
  unfolding remove replace_all
  write_summary s summary = do s' ← remove file s summary.stream; replace_all s' summary.entries
