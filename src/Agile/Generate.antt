-- ===== src/Agile/Generate.antt =====
-- `generate` of src/agile_encrypt.rs: the salts, the verifier blobs, the session key and its blob.
-- The random source is a parameter: draw number `k`, of `n` bytes. Lengths are below 2^64, so that
-- `saturating_mul` and `usize::try_from` are exact.
pub mod Written
pub mod Recover
use msoffice_crypto.Base.{ℕ, ◌+◌, ◌-◌, ◌*◌, ◌/◌, List, ◌++◌, length, take, replicate}
use msoffice_crypto.Base.Bytes.{Bytes}
use msoffice_crypto.Error.{Result, ok, err, ◌>>=◌}
use msoffice_crypto.Hash.{Crypto, digest, digest_len, fit_iv}
use msoffice_crypto.Cipher.{aes_block_len, aes_cbc_encrypt}
use msoffice_crypto.Integrity.{padded_len, zero_padded}
use msoffice_crypto.EncryptParams.{EncryptParams}
use msoffice_crypto.Agile.Keys.{
  spin_hash, derive_block_key, block_verifier_input, block_verifier_hash, block_key_value,
}

-- `rng.try_fill_bytes`: the bytes of a draw, or `Error::RandomSource`.
abbrev pub Rng : Type 0
Rng = (draw n : ℕ) → Result Bytes

-- `round_up`.
abbrev pub round_up : ℕ → ℕ → ℕ
round_up n multiple = (n + multiple - 1) / multiple * multiple

pub record AgileKeyMaterial : Type 0 where
  pub key_data_salt : Bytes
  pub password_salt : Bytes
  pub session_key : Bytes
  pub encrypted_verifier_hash_input : Bytes
  pub encrypted_verifier_hash_value : Bytes
  pub encrypted_key_value : Bytes

-- The draws come in the order of the source: password salt, verifier input, session key, key-data
-- salt.
unfoldable pub generate :
    Crypto → (password : Bytes) → EncryptParams → Rng → Result AgileKeyMaterial
generate c password params rng = do
  password_salt ← rng 0 params.password_salt_size
  let blob_iv = fit_iv password_salt aes_block_len
  let h_final = spin_hash c params.hash password password_salt params.spin_count
  let pw_key_bits = params.password_key_bits
  skey_verifier_input ← derive_block_key c params.hash h_final block_verifier_input pw_key_bits
  skey_verifier_hash ← derive_block_key c params.hash h_final block_verifier_hash pw_key_bits
  skey_key_value ← derive_block_key c params.hash h_final block_key_value pw_key_bits
  drawn ← rng 1 (length password_salt)
  let verifier_input = zero_padded drawn (round_up (length password_salt) aes_block_len)
  encrypted_verifier_hash_input ← aes_cbc_encrypt c verifier_input skey_verifier_input blob_iv
  let verifier_hash =
      zero_padded (digest c params.hash (take params.password_salt_size verifier_input))
        (round_up (digest_len params.hash) aes_block_len)
  encrypted_verifier_hash_value ← aes_cbc_encrypt c verifier_hash skey_verifier_hash blob_iv
  let session_key_len = params.key_data_key_bits / 8
  session_key ← rng 2 session_key_len
  let key_value_plaintext = zero_padded session_key (round_up session_key_len aes_block_len)
  encrypted_key_value ← aes_cbc_encrypt c key_value_plaintext skey_key_value blob_iv
  key_data_salt ← rng 3 params.key_data_salt_size
  ok (record {
    key_data_salt = key_data_salt;
    password_salt = password_salt;
    session_key = session_key;
    encrypted_verifier_hash_input = encrypted_verifier_hash_input;
    encrypted_verifier_hash_value = encrypted_verifier_hash_value;
    encrypted_key_value = encrypted_key_value;
  })
