-- ===== src/Agile.antt =====
-- src/agile.rs and src/agile_encrypt.rs: ECMA-376 agile encryption. The parsed `EncryptionInfo`
-- is a record here; Keys has the key material and Package the encrypted package.
pub mod Keys
pub mod Generate
pub mod Open
pub mod Package
pub mod Seal
use msoffice_crypto.Base.{ℕ, Option, none, some, List, [], ◌∷◌}
use msoffice_crypto.Base.Bytes.{Bytes}
use msoffice_crypto.Classification.{HashAlgorithm}
use msoffice_crypto.FileParams.{FileField, FileProblem}
use msoffice_crypto.Error.{Result, ok, err, ◌>>=◌, ok_or, bad}
use msoffice_crypto.Hash.{fit_iv}
use msoffice_crypto.Integrity.{IntegrityMaterial}

pub record DataIntegrity : Type 0 where
  pub encrypted_hmac_key : Bytes
  pub encrypted_hmac_value : Bytes

pub record AgileParams : Type 0 where
  pub outer_salt : Bytes
  pub inner_salt : Bytes
  pub spin_count : ℕ
  pub key_bits : ℕ
  pub encrypted_key_value : Bytes
  pub encrypted_verifier_hash_input : Bytes
  pub encrypted_verifier_hash_value : Bytes
  pub data_integrity : Option DataIntegrity
  pub key_data_hash : HashAlgorithm
  pub key_data_block_size : ℕ
  pub key_data_key_bits : ℕ
  pub key_data_hash_size : Option ℕ
  pub password_hash : HashAlgorithm
  pub password_salt_size : ℕ
  pub password_block_size : ℕ

unfoldable pub password_blob_iv : AgileParams → Bytes
unfolding fit_iv
password_blob_iv params = fit_iv params.inner_salt params.password_block_size

unfoldable pub integrity_material : AgileParams → DataIntegrity → Result IntegrityMaterial
integrity_material params di = do
  hash_size ← ok_or params.key_data_hash_size (bad FileField.key_data_hash_size FileProblem.missing)
  ok (record {
    key_data_salt = params.outer_salt;
    block_size = params.key_data_block_size;
    hash_size = hash_size;
    hash = params.key_data_hash;
    encrypted_hmac_key = di.encrypted_hmac_key;
    encrypted_hmac_value = di.encrypted_hmac_value;
  })
