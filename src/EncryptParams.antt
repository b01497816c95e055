-- ===== src/EncryptParams.antt =====
-- src/encrypt_params.rs with the bounds of src/limits.rs: the parameters of agile encryption, and
-- what `validate` accepts of them.
pub mod Accept
use msoffice_crypto.Base.{
  ℕ, ◌+◌, ◌-◌, ◌/◌, ◌%◌, max, Bool, not, ◌&&◌, ◌||◌, ltb, leb, ◌==◌, if◌then◌else◌,
}
use msoffice_crypto.Classification.{HashAlgorithm}
use msoffice_crypto.Error.{
  Error, EncryptParam, EncryptParamProblem, Result, ok, ◌>>=◌, ◌>>◌, reject_if,
}
use msoffice_crypto.Hash.{can_carry_key_bits}

abbrev pub st_key_bits_min : ℕ
st_key_bits_min = 8

abbrev pub spin_count_max : ℕ
spin_count_max = 10000000

pub record EncryptParams : Type 0 where
  pub spin_count : ℕ
  pub hash : HashAlgorithm
  pub key_data_key_bits : ℕ
  pub password_key_bits : ℕ
  pub key_data_salt_size : ℕ
  pub password_salt_size : ℕ

-- `a.abs_diff(b)`.
abbrev pub abs_diff : ℕ → ℕ → ℕ
abs_diff a b = (a - b) + (b - a)

-- One round of the loop over the allowed widths.
abbrev pub nearer : (requested nearest candidate : ℕ) → ℕ
nearer requested nearest candidate =
    if leb (abs_diff candidate requested) (abs_diff nearest requested) then candidate else nearest

unfoldable pub nearest_supported_key_bits : ℕ → ℕ
nearest_supported_key_bits requested =
    nearer requested (nearer requested (nearer requested 128 128) 192) 256

-- `AGILE_KEY_BITS_ALLOWED.contains(&bits)`.
abbrev pub is_allowed_key_bits : ℕ → Bool
is_allowed_key_bits bits = bits == 128 || bits == 192 || bits == 256

unfoldable pub check_key_bits : ℕ → Result (Unit {0})
check_key_bits bits = do
  let nearest = nearest_supported_key_bits bits
  reject_if (ltb bits st_key_bits_min || not (bits % 8 == 0)) (
      Error.encrypt_params EncryptParam.key_bits EncryptParamProblem.outside_spec_range bits nearest
        nearest)
  reject_if (not (is_allowed_key_bits bits)) (
      Error.encrypt_params EncryptParam.key_bits EncryptParamProblem.unsupported_by_cipher bits
        nearest nearest)

-- The widest key that the digest carries: the filter and `max`, over the three widths.
unfoldable pub carryable_max : HashAlgorithm → ℕ
carryable_max hash =
    if can_carry_key_bits hash 256 then 256 else if can_carry_key_bits hash 192 then 192 else 128

unfoldable pub check_salt_size : ℕ → Result (Unit {0})
check_salt_size size = reject_if (not (leb 1 size && leb size 65536)) (
    Error.encrypt_params EncryptParam.salt_size EncryptParamProblem.outside_spec_range size 1 65536)

-- The match on `hash` at the start of the source accepts every variant.
unfoldable pub validate : EncryptParams → Result (Unit {0})
unfolding check_key_bits check_salt_size
validate p = do
  check_key_bits p.key_data_key_bits
  check_key_bits p.password_key_bits
  reject_if (not (can_carry_key_bits p.hash p.password_key_bits)) (
      Error.encrypt_params EncryptParam.key_bits_with_hash EncryptParamProblem.unusable_combination
        p.password_key_bits (carryable_max p.hash) (carryable_max p.hash))
  check_salt_size p.key_data_salt_size
  check_salt_size p.password_salt_size
  reject_if (ltb spin_count_max p.spin_count) (
      Error.encrypt_params EncryptParam.spin_count EncryptParamProblem.outside_spec_range
        p.spin_count 0 spin_count_max)
