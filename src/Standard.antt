-- ===== src/Standard.antt =====
-- src/standard.rs and src/standard_encrypt.rs: ECMA-376 standard encryption. The `EncryptionInfo`
-- stream as it is written and parsed; Keys has the key and the password, Package the package.
pub mod Info
pub mod Keys
pub mod Open
pub mod Package
use msoffice_crypto.Base.{
  ℕ, ◌+◌, ◌-◌, ◌*◌, ◌/◌, ◌%◌, Bool, not, ◌||◌, leb, ltb, ◌==◌, if◌then◌else◌, Option, none, some,
  List, [], ◌∷◌, ◌++◌, length, take, drop, map, bit_and,
}
use msoffice_crypto.Base.Bytes.{Bytes, slice, to_le_bytes, from_le_bytes}
use msoffice_crypto.FileParams.{FileField, FileProblem, Bound, AllowedSet, AlgorithmName}
use msoffice_crypto.Error.{
  Error, EncryptParam, EncryptParamProblem, Result, ok, err, ◌>>=◌, ◌>>◌, reject_if, ok_or, bad,
}
use msoffice_crypto.EncryptParams.{nearer}

abbrev pub sha1_len : ℕ
sha1_len = 20

abbrev pub header_fixed_len : ℕ
header_fixed_len = 32

abbrev pub header_size_max : ℕ
header_size_max = 1024

abbrev pub encryption_verifier_len : ℕ
encryption_verifier_len = 72

-- `FLAG_CRYPTO_API | FLAG_AES`.
abbrev pub flags : ℕ
flags = 0x24

-- `CSP_NAME`, whose characters are ASCII.
abbrev pub csp_name : List ℕ
csp_name =
    77 ∷ 105 ∷ 99 ∷ 114 ∷ 111 ∷ 115 ∷ 111 ∷ 102 ∷ 116 ∷ 32 ∷ 69 ∷ 110 ∷ 104 ∷ 97 ∷ 110 ∷ 99 ∷ 101
    ∷ 100 ∷ 32 ∷ 82 ∷ 83 ∷ 65 ∷ 32 ∷ 97 ∷ 110 ∷ 100 ∷ 32 ∷ 65 ∷ 69 ∷ 83 ∷ 32 ∷ 67 ∷ 114 ∷ 121 ∷ 112
    ∷ 116 ∷ 111 ∷ 103 ∷ 114 ∷ 97 ∷ 112 ∷ 104 ∷ 105 ∷ 99 ∷ 32 ∷ 80 ∷ 114 ∷ 111 ∷ 118 ∷ 105 ∷ 100
    ∷ 101 ∷ 114 ∷ []

-- `AesKeySize`.
pub record AesKeySize : Type 0 where
  pub bits : ℕ
  pub alg_id : ℕ

unfoldable pub new : ℕ → Result AesKeySize
new key_bits =
    let nearest = nearer key_bits (nearer key_bits (nearer key_bits 128 128) 192) 256 in
    if key_bits == 128
    then ok (record { bits = 128; alg_id = 0x660E })
    else if key_bits == 192
    then ok (record { bits = 192; alg_id = 0x660F })
    else if key_bits == 256
    then ok (record { bits = 256; alg_id = 0x6610 })
    else err (
        Error.encrypt_params EncryptParam.key_size EncryptParamProblem.outside_spec_range key_bits
          nearest nearest)

-- `StandardParams`.
pub record StandardParams : Type 0 where
  pub salt : Bytes
  pub encrypted_verifier : Bytes
  pub encrypted_verifier_hash : Bytes
  pub key_size_bytes : ℕ

-- Where the source indexes, its caller has made sure of the range.
abbrev pub read_u32 : Bytes → ℕ → ℕ
read_u32 b at = from_le_bytes (take 4 (drop at b))

unfoldable pub aes_key_bits : (flags alg_id : ℕ) → Result (Option ℕ)
aes_key_bits flags alg_id =
    if alg_id == 0x660E
    then ok (some 128)
    else if alg_id == 0x660F
    then ok (some 192)
    else if alg_id == 0x6610
    then ok (some 256)
    else if not (bit_and flags 0x20 == 0)
    then ok (if alg_id == 0 then some 128 else none)
    else if alg_id == 0x6801 || alg_id == 0
    then err (
        Error.unsupported_algorithm "EncryptionHeader/@AlgID"
          (AlgorithmName.fixed "RC4 CryptoAPI (0x00006801)"))
    else err (Error.unsupported_algorithm "EncryptionHeader/@AlgID" (AlgorithmName.alg_id alg_id))

unfoldable pub require_sha1 : ℕ → Result (Unit {0})
require_sha1 alg_id_hash =
    reject_if (not (alg_id_hash == 0x8004 || alg_id_hash == 0))
      (Error.unsupported_algorithm "EncryptionHeader/@AlgIDHash" (AlgorithmName.alg_id alg_id_hash))

-- The width that the header's `AlgID` names, where it names one, must be its `KeySize`.
unfoldable pub check_named : Option ℕ → ℕ → Result (Unit {0})
check_named none key_size_bits = ok tt
check_named (some named) key_size_bits = reject_if (not (key_size_bits == named)) (
    bad FileField.encryption_header_key_size
      (FileProblem.disagrees key_size_bits named FileField.encryption_header_alg_id))

-- The part of `parse_encryption_info` that reads the verifier `v`.
unfoldable pub parse_verifier : Bytes → (key_size_bits : ℕ) → Result StandardParams
parse_verifier v key_size_bits = do
  reject_if (ltb (length v) encryption_verifier_len)
      (Error.missing_stream "EncryptionVerifier missing or truncated")
  reject_if (not (read_u32 v 0 == 16)) (
      bad FileField.verifier_salt_size
        (FileProblem.not_required_value (read_u32 v 0) 16 Bound.spec))
  reject_if (not (read_u32 v 36 == sha1_len)) (
      bad FileField.verifier_hash_size
        (FileProblem.not_required_value (read_u32 v 36) sha1_len Bound.spec))
  ok (record {
    salt = take 16 (drop 4 v);
    encrypted_verifier = take 16 (drop 20 v);
    encrypted_verifier_hash = take 32 (drop 40 v);
    key_size_bytes = key_size_bits / 8;
  })

-- The part that reads the header `h`: the width of the key.
unfoldable pub parse_header : Bytes → Result ℕ
unfolding check_named aes_key_bits require_sha1
parse_header h = do
  named_key_bits ← aes_key_bits (read_u32 h 0) (read_u32 h 8)
  require_sha1 (read_u32 h 12)
  let key_size_bits = read_u32 h 16
  reject_if (not (key_size_bits == 128 || key_size_bits == 192 || key_size_bits == 256)) (
      bad FileField.encryption_header_key_size
        (FileProblem.not_in_set key_size_bits AllowedSet.aes_key_bits Bound.spec))
  check_named named_key_bits key_size_bits
  ok key_size_bits

-- `info` is the stream behind its version and flags.
unfoldable pub parse_encryption_info : Bytes → Result StandardParams
unfolding parse_header parse_verifier
parse_encryption_info info = do
  reject_if (ltb (length info) 36) (Error.missing_stream "EncryptionInfo too short")
  let header_size = read_u32 info 0
  let header_range : Bound → Error = λ bound.
      bad FileField.encryption_header_size
        (FileProblem.out_of_range header_size header_fixed_len header_size_max bound)
  reject_if (ltb header_size header_fixed_len) (header_range Bound.spec)
  reject_if (ltb header_size_max header_size) (header_range Bound.margin)
  h ←
      ok_or (slice info 4 header_size) (
        bad FileField.encryption_header_size
          (FileProblem.out_of_bounds 4 header_size (length info)))
  key_size_bits ← parse_header h
  parse_verifier (drop (4 + header_size) info) key_size_bits

-- `extend_from_slice` of a `u16` for every character, and the terminator.
abbrev pub utf16z : List ℕ → Bytes
utf16z [] = to_le_bytes 2 0
utf16z (ch ∷ rest) = to_le_bytes 2 ch ++ utf16z rest

abbrev pub header_bytes : AesKeySize → Bytes
header_bytes key_size =
    to_le_bytes 4 flags
    ++ (to_le_bytes 4 0
        ++ (to_le_bytes 4 key_size.alg_id
            ++ (to_le_bytes 4 0x8004
                ++ (to_le_bytes 4 key_size.bits
                    ++ (to_le_bytes 4 0x18
                        ++ (to_le_bytes 4 0 ++ (to_le_bytes 4 0 ++ utf16z csp_name)))))))

abbrev pub verifier_bytes : (salt encrypted_verifier encrypted_verifier_hash : Bytes) → Bytes
verifier_bytes salt encrypted_verifier encrypted_verifier_hash =
    to_le_bytes 4 16
    ++ (salt ++ (encrypted_verifier ++ (to_le_bytes 4 20 ++ encrypted_verifier_hash)))

unfoldable pub write_encryption_info :
    AesKeySize → (salt encrypted_verifier encrypted_verifier_hash : Bytes) → Bytes
write_encryption_info key_size salt encrypted_verifier encrypted_verifier_hash =
    to_le_bytes 2 4
    ++ (to_le_bytes 2 2
        ++ (to_le_bytes 4 flags
            ++ (to_le_bytes 4 140
                ++ (header_bytes key_size
                    ++ verifier_bytes salt encrypted_verifier encrypted_verifier_hash))))
