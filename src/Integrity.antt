-- ===== src/Integrity.antt =====
-- src/integrity.rs: the HMAC over an agile package, and the policies on a missing one.
pub mod Laws
use msoffice_crypto.Base.{
  ℕ, ◌+◌, ◌-◌, ◌*◌, ◌/◌, ◌%◌, Bool, true, false, not, ◌||◌, List, [], ◌∷◌, ◌++◌, ltb, ◌==◌,
  if◌then◌else◌, length, take, replicate,
}
use msoffice_crypto.Base.Bytes.{Bytes}
use msoffice_crypto.Classification.{HashAlgorithm}
use msoffice_crypto.FileParams.{FileField, FileProblem, Bound, Invariant}
use msoffice_crypto.Error.{Error, Result, ok, err, ◌>>=◌, ◌>>◌, reject_if, bad}
use msoffice_crypto.Hash.{Crypto, digest_len, derive_iv, HmacState, hmac_state, finalize}
use msoffice_crypto.Cipher.{aes_block_len, aes_cbc_encrypt, aes_cbc_decrypt}

-- `a.ct_eq(b)`: equal lengths and equal bytes.
unfoldable pub ct_eq : Bytes → Bytes → Bool
ct_eq [] [] = true
ct_eq [] (b ∷ bs) = false
ct_eq (a ∷ as') [] = false
ct_eq (a ∷ as') (b ∷ bs) = let rest = ct_eq as' bs in if a == b then rest else false

pub data IntegrityPolicy : Type 0 where
  require require_where_defined verify_if_present skip : IntegrityPolicy

pub data IntegrityOutcome : Type 0 where
  verified not_declared not_applicable skipped : IntegrityOutcome

unfoldable pub is_authenticated : IntegrityOutcome → Bool
is_authenticated verified = true
is_authenticated not_declared = false
is_authenticated not_applicable = false
is_authenticated skipped = false

pub record IntegrityMaterial : Type 0 where
  pub key_data_salt : Bytes
  pub block_size : ℕ
  pub hash_size : ℕ
  pub hash : HashAlgorithm
  pub encrypted_hmac_key : Bytes
  pub encrypted_hmac_value : Bytes

pub record IntegrityCheck : Type 0 where
  pub hash : HashAlgorithm
  pub hmac_key : Bytes
  pub expected : Bytes

pub record IntegrityBlobs : Type 0 where
  pub encrypted_hmac_key : Bytes
  pub encrypted_hmac_value : Bytes

abbrev pub block_data_integrity_key : Bytes
block_data_integrity_key = 0x5F ∷ 0xB2 ∷ 0xAD ∷ 0x01 ∷ 0x0C ∷ 0xB9 ∷ 0xE1 ∷ 0xF6 ∷ []

abbrev pub block_data_integrity_value : Bytes
block_data_integrity_value = 0xA0 ∷ 0x67 ∷ 0x7F ∷ 0x02 ∷ 0xB2 ∷ 0x2C ∷ 0x84 ∷ 0x33 ∷ []

-- `len.div_ceil(block_size) * block_size`.
abbrev pub padded_len : ℕ → ℕ → ℕ
padded_len len block_size = (len + block_size - 1) / block_size * block_size

-- `bytes` in front of a zeroed buffer of `len` bytes.
abbrev pub zero_padded : Bytes → ℕ → Bytes
zero_padded bytes len = bytes ++ replicate (len - length bytes) 0

module _ (c : Crypto) where
  unfoldable pub unwrap_blob : (session_key blob iv : Bytes) → ℕ → FileField → Result Bytes
  unwrap_blob session_key blob iv hash_size field = do
    reject_if (ltb (length blob) hash_size || not (length blob % aes_block_len == 0)) (
        bad field (
          FileProblem.disagrees (length blob) (padded_len hash_size aes_block_len)
            FileField.key_data_hash_size))
    plain ← aes_cbc_decrypt c blob session_key iv
    ok (take hash_size plain)

  -- `IntegrityCheck::new`.
  unfoldable pub new : (session_key : Bytes) → IntegrityMaterial → Result IntegrityCheck
  new session_key m = do
    reject_if (not (m.hash_size == digest_len m.hash))
        (bad FileField.key_data_hash_size (FileProblem.digest_mismatch m.hash_size m.hash))
    reject_if (not (m.block_size == aes_block_len)) (
        bad FileField.key_data_block_size
          (FileProblem.not_required_value m.block_size aes_block_len Bound.cipher))
    iv1 ← derive_iv c m.hash m.key_data_salt block_data_integrity_key m.block_size
    iv2 ← derive_iv c m.hash m.key_data_salt block_data_integrity_value m.block_size
    hmac_key ←
        unwrap_blob session_key m.encrypted_hmac_key iv1 m.hash_size FileField.encrypted_hmac_key
    expected ←
        unwrap_blob session_key m.encrypted_hmac_value iv2 m.hash_size
          FileField.encrypted_hmac_value
    ok (record { hash = m.hash; hmac_key = hmac_key; expected = expected })

  -- `IntegrityCheck::start`.
  unfoldable pub start : IntegrityCheck → HmacState
  start check = hmac_state check.hash check.hmac_key

  -- `IntegrityCheck::finish`.
  unfoldable pub finish : IntegrityCheck → HmacState → Result (Unit {0})
  unfolding ct_eq
  finish check mac =
      reject_if (not (ct_eq (finalize c mac) check.expected)) Error.integrity_check_failed

  -- The `checked_mul` on the padded lengths cannot overflow: a key or tag is at most 64 bytes.
  unfoldable pub seal :
      (session_key : Bytes)
      → HashAlgorithm
      → (key_data_salt : Bytes) → ℕ
      → (hmac_key : Bytes) → HmacState
      → Result IntegrityBlobs
  seal session_key hash key_data_salt block_size hmac_key mac = do
    reject_if (not (block_size == aes_block_len)) (Error.invariant_violated Invariant.aes_iv_length)
    iv1 ← derive_iv c hash key_data_salt block_data_integrity_key block_size
    iv2 ← derive_iv c hash key_data_salt block_data_integrity_value block_size
    encrypted_hmac_key ←
        aes_cbc_encrypt c (zero_padded hmac_key (padded_len (length hmac_key) block_size))
          session_key iv1
    let tag = finalize c mac
    encrypted_hmac_value ←
        aes_cbc_encrypt c (zero_padded tag (padded_len (length tag) block_size)) session_key iv2
    ok (record {
      encrypted_hmac_key = encrypted_hmac_key;
      encrypted_hmac_value = encrypted_hmac_value;
    })
