-- ===== src/Rc4Cryptoapi.antt =====
-- src/rc4_cryptoapi.rs: the header structure, the key schedule and the password check of RC4
-- CryptoAPI. SHA-1 is the `sha1` crate's.
pub mod Check
pub mod RoundTrip
pub mod Accept
use msoffice_crypto.Base.{
  ℕ, ◌+◌, ◌-◌, ◌/◌, ◌%◌, min, Bool, true, false, not, ◌&&◌, ◌||◌, ltb, leb, ◌==◌, if◌then◌else◌,
  Option, none, some, and_then, List, [], ◌∷◌, ◌++◌, length, take, replicate, bit_and,
}
use msoffice_crypto.Base.Bytes.{Bytes, slice, to_le_bytes}
use msoffice_crypto.Classification.{HashAlgorithm}
use msoffice_crypto.FileParams.{FileField, FileProblem, Invariant, AlgorithmName, AllowedSet, Bound}
use msoffice_crypto.Error.{Error, Result, ok, err, ◌>>=◌, ◌>>◌, reject_if, ok_or, bad}
use msoffice_crypto.Hash.{Crypto}
use msoffice_crypto.Rc4.{BlockKeySchedule}
use msoffice_crypto.Rc4
use msoffice_crypto.BinaryOffice.{le16, le32, has_flag}
use msoffice_crypto.Rc4Office97.{utf16le_password}

abbrev pub rc4_default_key_len : ℕ
rc4_default_key_len = 5

abbrev pub rc4_padded_key_len : ℕ
rc4_padded_key_len = 16

abbrev pub alg_id_rc4 : ℕ
alg_id_rc4 = 0x6801

abbrev pub alg_id_hash_sha1 : ℕ
alg_id_hash_sha1 = 0x8004

abbrev pub flag_crypto_api : ℕ
flag_crypto_api = 0x04

abbrev pub flag_doc_props : ℕ
flag_doc_props = 0x08

abbrev pub flag_external : ℕ
flag_external = 0x10

abbrev pub flag_aes : ℕ
flag_aes = 0x20

abbrev pub prefix_len : ℕ
prefix_len = 12

abbrev pub header_fixed_len : ℕ
header_fixed_len = 32

abbrev pub rc4_verifier_len : ℕ
rc4_verifier_len = 60

abbrev pub rc4_encryption_header_size_max : ℕ
rc4_encryption_header_size_max = 1024

abbrev pub rc4_key_bits_default : ℕ
rc4_key_bits_default = 40

pub record CryptoApiHeader : Type 0 where
  pub key_bits : ℕ
  pub flags : ℕ
  pub salt : Bytes
  pub encrypted_verifier : Bytes
  pub encrypted_verifier_hash : Bytes

unfoldable pub doc_props_in_the_clear : CryptoApiHeader → Bool
doc_props_in_the_clear header = has_flag flag_doc_props header.flags

-- `RC4_KEY_BITS.contains(&key_bits) && key_bits % 8 == 0`.
unfoldable pub is_rc4_key_bits : ℕ → Bool
is_rc4_key_bits key_bits = leb 40 key_bits && leb key_bits 128 && key_bits % 8 == 0

-- The refusal of a header size.
unfoldable pub header_range : (header_size : ℕ) → Bound → Error
header_range header_size bound =
    bad FileField.encryption_header_size
      (FileProblem.out_of_range header_size header_fixed_len rc4_encryption_header_size_max bound)

-- The header's fields up to the key size: the flags, and the key bits with 0 read as 40.
unfoldable pub parse_fixed_header : Bytes → Result (ℕ × ℕ)
unfolding le32 has_flag is_rc4_key_bits
parse_fixed_header header = do
  (flags, alg_id, alg_id_hash, key_size) ←
      ok_or
        (and_then (le32 header 0) λ flags. and_then (le32 header 8) λ alg_id.
          and_then (le32 header 12) λ alg_id_hash.
            and_then (le32 header 16) λ key_size. some (flags, alg_id, alg_id_hash, key_size))
        (Error.invariant_violated Invariant.internal_slice)
  reject_if (has_flag flag_external flags) (
      Error.unsupported_algorithm "EncryptionHeader.Flags"
        (AlgorithmName.fixed "fExternal (application-defined encryption)"))
  reject_if (has_flag flag_aes flags) (
      Error.unsupported_algorithm "EncryptionHeader.Flags"
        (AlgorithmName.fixed "fAES in a binary document"))
  reject_if (not (has_flag flag_crypto_api flags))
      (bad FileField.encryption_header_flags FileProblem.flag_clear)
  reject_if (not (alg_id == 0) && not (alg_id == alg_id_rc4))
      (Error.unsupported_algorithm "EncryptionHeader.AlgID" (AlgorithmName.alg_id alg_id))
  reject_if (not (alg_id_hash == 0) && not (alg_id_hash == alg_id_hash_sha1))
      (Error.unsupported_algorithm "EncryptionHeader.AlgIDHash" (AlgorithmName.alg_id alg_id_hash))
  let key_bits = if key_size == 0 then rc4_key_bits_default else key_size
  reject_if (not (is_rc4_key_bits key_bits)) (
      bad FileField.encryption_header_key_size
        (FileProblem.not_in_set key_size AllowedSet.rc4_key_bits Bound.spec))
  ok (flags, key_bits)

-- The verifier: its salt, the encrypted verifier and the encrypted verifier hash.
unfoldable pub parse_rc4_verifier : Bytes → Result (Bytes × Bytes × Bytes)
unfolding le32 slice
parse_rc4_verifier verifier = do
  (salt_size, verifier_hash_size) ←
      ok_or
        (and_then (le32 verifier 0) λ salt_size.
          and_then (le32 verifier 36) λ verifier_hash_size. some (salt_size, verifier_hash_size))
        (Error.invariant_violated Invariant.internal_slice)
  reject_if (not (salt_size == 16))
      (bad FileField.verifier_salt_size (FileProblem.not_required_value salt_size 16 Bound.spec))
  reject_if (not (verifier_hash_size == 20)) (
      bad FileField.verifier_hash_size
        (FileProblem.not_required_value verifier_hash_size 20 Bound.spec))
  salt ← ok_or (slice verifier 4 16) (Error.invariant_violated Invariant.internal_slice)
  input ← ok_or (slice verifier 20 16) (Error.invariant_violated Invariant.internal_slice)
  hash ← ok_or (slice verifier 40 20) (Error.invariant_violated Invariant.internal_slice)
  ok (salt, input, hash)

-- The version and the header's size.
unfoldable pub prefix_fields : Bytes → Option (ℕ × ℕ × ℕ)
prefix_fields structure = and_then (le16 structure 0) λ major.
    and_then (le16 structure 2)
      λ minor. and_then (le32 structure 8) λ header_size. some (major, minor, header_size)

-- `parse`.
unfoldable pub parse_cryptoapi : Bytes → Result CryptoApiHeader
unfolding header_range
parse_cryptoapi structure = do
  (major, minor, header_size) ←
      ok_or (prefix_fields structure)
        (bad FileField.encryption_info (FileProblem.truncated (length structure) prefix_len))
  reject_if (not (leb 2 major && leb major 4) || not (minor == 2))
      (Error.unsupported_encryption_version major minor)
  reject_if (ltb header_size header_fixed_len) (header_range header_size Bound.spec)
  reject_if (ltb rc4_encryption_header_size_max header_size) (header_range header_size Bound.margin)
  header ← ok_or (slice structure prefix_len header_size) (
      bad FileField.encryption_header_size
        (FileProblem.out_of_bounds prefix_len header_size (length structure)))
  (flags, key_bits) ← parse_fixed_header header
  let header_end = prefix_len + header_size
  verifier ← ok_or (slice structure header_end rc4_verifier_len) (
      bad FileField.encryption_verifier
        (FileProblem.truncated (length structure - header_end) rc4_verifier_len))
  (salt, input, hash) ← parse_rc4_verifier verifier
  ok (record {
    key_bits = key_bits;
    flags = flags;
    salt = salt;
    encrypted_verifier = input;
    encrypted_verifier_hash = hash;
  })

pub record CryptoApiKeySchedule : Type 0 where
  pub h0 : Bytes
  pub key_bits : ℕ

module _ (c : Crypto) where
  -- `CryptoApiKeySchedule::new`.
  unfoldable pub new_cryptoapi : List ℕ → (salt : Bytes) → ℕ → Result CryptoApiKeySchedule
  unfolding is_rc4_key_bits utf16le_password
  new_cryptoapi password salt key_bits = do
    reject_if (not (is_rc4_key_bits key_bits)) (Error.invariant_violated Invariant.rc4_key_length)
    ok (record {
      h0 = c.hash_bytes HashAlgorithm.sha1 (salt ++ utf16le_password password);
      key_bits = key_bits;
    })

  -- `block_key`.
  unfoldable pub cryptoapi_block_key : CryptoApiKeySchedule → BlockKeySchedule
  unfolding to_le_bytes
  cryptoapi_block_key schedule block =
      let hfinal = c.hash_bytes HashAlgorithm.sha1 (schedule.h0 ++ to_le_bytes 4 block) in
      if schedule.key_bits == rc4_key_bits_default
      then take rc4_default_key_len hfinal ++ replicate (rc4_padded_key_len - rc4_default_key_len) 0
      else take (min (schedule.key_bits / 8) (length hfinal)) hfinal

  -- `verify`.
  unfoldable pub verify_cryptoapi : CryptoApiKeySchedule → CryptoApiHeader → Result (Unit {0})
  unfolding cryptoapi_block_key Rc4.verify_password
  verify_cryptoapi schedule header =
      Rc4.verify_password c (cryptoapi_block_key schedule) header.encrypted_verifier
        header.encrypted_verifier_hash (c.hash_bytes HashAlgorithm.sha1)
