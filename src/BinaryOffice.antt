-- ===== src/BinaryOffice.antt =====
-- src/binary_office.rs: the format of a legacy binary container, and its fields. The `cfb` crate's
-- container is a parameter. A `usize` is 64 bits wide and a buffer holds fewer than 2^63 bytes.
pub mod Fields
pub mod Records
pub mod Persist
pub mod Probe
use msoffice_crypto.Base.{
  ℕ, ◌+◌, ◌*◌, ◌^◌, String, Bool, true, false, not, ◌&&◌, ◌||◌, ltb, leb, ◌==◌, if◌then◌else◌,
  Option, none, some, and_then, get_elem?, bit_and,
}
use msoffice_crypto.Base.Bytes.{Bytes}
use msoffice_crypto.Reader.{Reader}

pub data BinaryFormat : Type 0 where
  word excel power_point : BinaryFormat

pub data StreamName : Type 0 where
  word_document table_0 table_1 data_stream workbook book power_point_document : StreamName
  current_user pictures encryption encrypted_summary summary_information : StreamName
  document_summary_information data_space_map drm_content encryption_info : StreamName

pub record BinaryVerdict : Type 0 where
  pub format : BinaryFormat
  pub encrypted : Option Bool
  pub version : Option (ℕ × ℕ)
  pub key_bits : Option ℕ
  pub xor_obfuscated : Bool
  pub pre_97 : Bool

-- What the code asks of `cfb::CompoundFile`: whether an entry is there and is a stream,
-- and the stream of a name.
pub record Cfb : Type 0 where
  pub exists : StreamName → Bool
  pub open_stream : StreamName → Option Reader
  pub is_stream : StreamName → Bool

unfoldable pub format_of : Cfb → Option BinaryFormat
format_of cfb =
    if cfb.exists word_document
    then some word
    else if cfb.exists workbook || cfb.exists book
    then some excel
    else if cfb.exists power_point_document && cfb.exists current_user
    then some power_point
    else none

unfoldable pub workbook_stream_name : Cfb → Option StreamName
workbook_stream_name cfb =
    if cfb.exists workbook then some workbook else if cfb.exists book then some book else none

-- `u16::from_le_bytes` and `u32::from_le_bytes` of the bytes at `at`, where they are all there.
unfoldable pub le16 : Bytes → ℕ → Option ℕ
unfolding get_elem?
le16 b at =
    and_then (get_elem? b at) λ b0. and_then (get_elem? b (at + 1)) λ b1. some (b0 + 256 * b1)

unfoldable pub le32 : Bytes → ℕ → Option ℕ
unfolding get_elem?
le32 b at = and_then (get_elem? b at) λ b0. and_then (get_elem? b (at + 1)) λ b1.
    and_then (get_elem? b (at + 2))
      λ b2. and_then (get_elem? b (at + 3)) λ b3. some (b0 + 256 * b1 + 65536 * b2 + 16777216 * b3)

-- `o.filter(p)`.
abbrev pub filter : (ℕ → Bool) → Option ℕ → Option ℕ
filter p none = none
filter p (some n) = if p n then some n else none

-- The key size that an encryption header of the given version announces.
unfoldable pub header_key_bits : Option (ℕ × ℕ) → Bytes → Option ℕ
header_key_bits none blob = none
header_key_bits (some (major, minor)) blob =
    if leb 2 major && leb major 4 && minor == 2
    then filter (λ k. ltb 0 k && leb k 4096) (le32 blob 28)
    else none

unfoldable pub parse_encryption_header : Bytes → Option (ℕ × ℕ) × Option ℕ
unfolding header_key_bits le16
parse_encryption_header blob =
    let version : Option (ℕ × ℕ) =
      and_then (le16 blob 0) λ major. and_then (le16 blob 2) λ minor. some (major, minor) in
    (version, header_key_bits version blob)

abbrev pub fib_w_ident : ℕ
fib_w_ident = 0xA5EC

abbrev pub fib_flags_at : ℕ
fib_flags_at = 0x0A

abbrev pub fib_l_key_at : ℕ
fib_l_key_at = 0x0E

abbrev pub fib_f_encrypted : ℕ
fib_f_encrypted = 0x0100

abbrev pub fib_f_which_tbl_stm : ℕ
fib_f_which_tbl_stm = 0x0200

abbrev pub fib_f_obfuscated : ℕ
fib_f_obfuscated = 0x8000

pub record FibBase : Type 0 where
  pub flags : ℕ
  pub l_key : ℕ

-- `FibBase::parse`.
unfoldable pub parse_fib : Bytes → Option FibBase
parse_fib word_document' = and_then (le16 word_document' 0) λ w_ident.
    if not (w_ident == fib_w_ident)
    then none
    else and_then (le16 word_document' fib_flags_at) λ flags.
      and_then (le32 word_document' fib_l_key_at)
        λ l_key. some (record { flags = flags; l_key = l_key })

-- `self.flags & mask != 0`.
unfoldable pub has_flag : (mask flags : ℕ) → Bool
has_flag mask flags = not (bit_and flags mask == 0)

unfoldable pub encrypted : FibBase → Bool
encrypted fib = has_flag fib_f_encrypted fib.flags

unfoldable pub obfuscated : FibBase → Bool
obfuscated fib = has_flag fib_f_obfuscated fib.flags

unfoldable pub table_stream : FibBase → StreamName
table_stream fib = if has_flag fib_f_which_tbl_stm fib.flags then table_1 else table_0
