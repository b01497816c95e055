-- ===== src/Agile/Generate/Written.antt =====
-- The random source that `generate` of src/agile_encrypt.rs draws from, and what a reader finds in
-- what the writer puts down.
use msoffice_crypto.Base.{ℕ, ◌≡◌, refl, Option, some, length}
use msoffice_crypto.Base.Bytes.{Bytes}
use msoffice_crypto.Error.{ok}
use msoffice_crypto.Hash.{digest_len}
use msoffice_crypto.EncryptParams.{EncryptParams}
use msoffice_crypto.Agile.{DataIntegrity, AgileParams}
use msoffice_crypto.Agile.Generate.{Rng, AgileKeyMaterial}

-- A random source that does not fail and fills what it is given.
pub record IsRng (rng : Rng) : Type 0 where
  pub draws : (draw n : ℕ) → (b : Bytes) × (rng draw n ≡ ok b) × (length b ≡ n)

-- The parameters that a reader finds in what the writer put down of `m`.
pub record IsWritten (params : EncryptParams) (m : AgileKeyMaterial) (read : AgileParams)
    : Type 0 where
  pub inner_salt : read.inner_salt ≡ m.password_salt
  pub outer_salt : read.outer_salt ≡ m.key_data_salt
  pub spin_count : read.spin_count ≡ params.spin_count
  pub key_bits : read.key_bits ≡ params.password_key_bits
  pub key_data_key_bits : read.key_data_key_bits ≡ params.key_data_key_bits
  pub verifier_hash_input : read.encrypted_verifier_hash_input ≡ m.encrypted_verifier_hash_input
  pub verifier_hash_value : read.encrypted_verifier_hash_value ≡ m.encrypted_verifier_hash_value
  pub key_value : read.encrypted_key_value ≡ m.encrypted_key_value
  pub password_hash : read.password_hash ≡ params.hash
  pub password_salt_size : read.password_salt_size ≡ params.password_salt_size
  pub password_block_size : read.password_block_size ≡ 16

-- The parameters that the parser finds in what `encryption_info::write` puts down of `m`, with the
-- HMAC blobs `di`.
abbrev pub read_back : EncryptParams → AgileKeyMaterial → Option DataIntegrity → AgileParams
read_back params m di = record {
  outer_salt = m.key_data_salt;
  inner_salt = m.password_salt;
  spin_count = params.spin_count;
  key_bits = params.password_key_bits;
  encrypted_key_value = m.encrypted_key_value;
  encrypted_verifier_hash_input = m.encrypted_verifier_hash_input;
  encrypted_verifier_hash_value = m.encrypted_verifier_hash_value;
  data_integrity = di;
  key_data_hash = params.hash;
  key_data_block_size = 16;
  key_data_key_bits = params.key_data_key_bits;
  key_data_hash_size = some (digest_len params.hash);
  password_hash = params.hash;
  password_salt_size = params.password_salt_size;
  password_block_size = 16;
}

pub read_back-IsWritten :
    (params : EncryptParams) (m : AgileKeyMaterial) (di : Option DataIntegrity)
    → IsWritten params m (read_back params m di)
read_back-IsWritten params m di = record {
  inner_salt = refl;
  outer_salt = refl;
  spin_count = refl;
  key_bits = refl;
  key_data_key_bits = refl;
  verifier_hash_input = refl;
  verifier_hash_value = refl;
  key_value = refl;
  password_hash = refl;
  password_salt_size = refl;
  password_block_size = refl;
}
