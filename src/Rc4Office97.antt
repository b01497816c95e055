-- ===== src/Rc4Office97.antt =====
-- src/rc4_office97.rs, and `utf16le_password` of src/sensitive.rs: the RC4 encryption of Office 97.
-- MD5 is the `md5` crate's. A password is the list of its characters.
pub mod Check
use msoffice_crypto.Base.{
  ℕ, zero, suc, ◌+◌, ◌-◌, ◌/◌, ◌%◌, ◌^◌, not, ◌&&◌, ltb, ◌==◌, if◌then◌else◌, none, some, and_then,
  List, [], ◌∷◌, ◌++◌, length, take,
}
use msoffice_crypto.Base.Bytes.{Bytes, slice, to_le_bytes}
use msoffice_crypto.FileParams.{FileField, FileProblem, Invariant}
use msoffice_crypto.Error.{Error, Result, ok, err, ◌>>=◌, ◌>>◌, reject_if, ok_or, bad}
use msoffice_crypto.Hash.{Crypto}
use msoffice_crypto.Rc4.{BlockKeySchedule}
use msoffice_crypto.Rc4
use msoffice_crypto.BinaryOffice.{le16}

-- The UTF-16 units of a character, little-endian.
unfoldable pub utf16le_char : ℕ → Bytes
unfolding to_le_bytes
utf16le_char ch =
    if ltb ch 0x10000
    then to_le_bytes 2 ch
    else to_le_bytes 2 (0xD800 + (ch - 0x10000) / 1024)
      ++ to_le_bytes 2 (0xDC00 + (ch - 0x10000) % 1024)

unfoldable pub utf16le_password : List ℕ → Bytes
unfolding utf16le_char
utf16le_password [] = []
utf16le_password (ch ∷ rest) = utf16le_char ch ++ utf16le_password rest

abbrev pub header_len : ℕ
header_len = 52

abbrev pub truncated_len : ℕ
truncated_len = 5

pub record Office97Header : Type 0 where
  pub salt : Bytes
  pub encrypted_verifier : Bytes
  pub encrypted_verifier_hash : Bytes

-- `parse`.
unfoldable pub parse_office97 : Bytes → Result Office97Header
unfolding le16 slice
parse_office97 structure = do
  (major, minor) ←
      ok_or
        (and_then (le16 structure 0)
          λ major. and_then (le16 structure 2) λ minor. some (major, minor))
        (bad FileField.rc4_office97_header (FileProblem.truncated (length structure) 4))
  reject_if (not (major == 1 && minor == 1)) (Error.unsupported_encryption_version major minor)
  body ←
      ok_or (slice structure 4 48)
        (bad FileField.rc4_office97_header (FileProblem.truncated (length structure) header_len))
  salt ← ok_or (slice body 0 16) (Error.invariant_violated Invariant.internal_slice)
  verifier ← ok_or (slice body 16 16) (Error.invariant_violated Invariant.internal_slice)
  verifier_hash ← ok_or (slice body 32 16) (Error.invariant_violated Invariant.internal_slice)
  ok (record {
    salt = salt;
    encrypted_verifier = verifier;
    encrypted_verifier_hash = verifier_hash;
  })

pub record Office97KeySchedule : Type 0 where
  pub truncated_h1 : Bytes

-- `n` repetitions of a chunk, one after the other.
unfoldable pub repetitions : ℕ → Bytes → Bytes
repetitions zero chunk = []
repetitions (suc n) chunk = chunk ++ repetitions n chunk

module _ (c : Crypto) where
  -- `Office97KeySchedule::new`: the fifteen chunks of `body`, and `last`.
  unfoldable pub new_office97 : List ℕ → (salt : Bytes) → Office97KeySchedule
  unfolding repetitions utf16le_password
  new_office97 password salt =
      let h0 = c.md5 (utf16le_password password) in
      let chunk = take truncated_len h0 ++ salt in
      let buffer = repetitions 15 chunk ++ chunk in
      record { truncated_h1 = take truncated_len (c.md5 buffer) }

  -- `block_key`.
  unfoldable pub office97_block_key : Office97KeySchedule → BlockKeySchedule
  unfolding to_le_bytes
  office97_block_key schedule block = c.md5 (schedule.truncated_h1 ++ to_le_bytes 4 block)

  -- `verify`.
  unfoldable pub verify_office97 : Office97KeySchedule → Office97Header → Result (Unit {0})
  unfolding office97_block_key Rc4.verify_password
  verify_office97 schedule header =
      Rc4.verify_password c (office97_block_key schedule) header.encrypted_verifier
        header.encrypted_verifier_hash c.md5
