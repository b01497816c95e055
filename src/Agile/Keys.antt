-- ===== src/Agile/Keys.antt =====
-- Key material of src/agile.rs: the spun password hash, the keys derived from it, the password
-- check and the session key. A password is its UTF-16LE bytes. A block size of 0, which the parser
-- refuses, is not modelled: the source would panic on it.
use msoffice_crypto.Base.{ℕ, zero, suc, ◌/◌, not, ◌==◌, [], ◌∷◌, length, take}
use msoffice_crypto.Base.Bytes.{Bytes, to_le_bytes}
use msoffice_crypto.Classification.{HashAlgorithm}
use msoffice_crypto.FileParams.{FileField, FileProblem}
use msoffice_crypto.Error.{Error, Result, ok, ◌>>=◌, ◌>>◌, reject_if, bad}
use msoffice_crypto.Hash.{Crypto, digest, digest_len, digest_two_into, can_carry_key_bits}
use msoffice_crypto.Cipher.{aes_cbc_decrypt}
use msoffice_crypto.Integrity.{ct_eq, padded_len}
use msoffice_crypto.Agile.{AgileParams, password_blob_iv}

abbrev pub block_verifier_input : Bytes
block_verifier_input = 0xFE ∷ 0xA7 ∷ 0xD2 ∷ 0x76 ∷ 0x3B ∷ 0x4B ∷ 0x9E ∷ 0x79 ∷ []

abbrev pub block_verifier_hash : Bytes
block_verifier_hash = 0xD7 ∷ 0xAA ∷ 0x0F ∷ 0x6D ∷ 0x30 ∷ 0x61 ∷ 0x34 ∷ 0x4E ∷ []

abbrev pub block_key_value : Bytes
block_key_value = 0x14 ∷ 0x6E ∷ 0x0B ∷ 0xE7 ∷ 0xAB ∷ 0xAC ∷ 0xD0 ∷ 0xD6 ∷ []

module _ (c : Crypto) where
  -- The loop of `spin_hash`, from iteration `i` on.
  unfoldable pub spin_rounds : HashAlgorithm → (rounds i : ℕ) → Bytes → Bytes
  spin_rounds hash zero i current = current
  spin_rounds hash (suc rounds) i current =
      spin_rounds hash rounds (suc i)
        (digest_two_into c hash (to_le_bytes 4 i) current (digest_len hash))

  unfoldable pub spin_hash : HashAlgorithm → (password salt : Bytes) → (spin_count : ℕ) → Bytes
  spin_hash hash password salt spin_count =
      spin_rounds hash spin_count 0 (digest_two_into c hash salt password (digest_len hash))

  unfoldable pub derive_block_key :
      HashAlgorithm → (h_final block_key : Bytes) → (key_bits : ℕ) → Result Bytes
  derive_block_key hash h_final block_key key_bits = do
    reject_if (not (can_carry_key_bits hash key_bits))
        (bad FileField.encrypted_key_key_bits (FileProblem.digest_mismatch key_bits hash))
    ok (digest_two_into c hash h_final block_key (key_bits / 8))

  unfoldable pub verify_password : AgileParams → (h_final : Bytes) → Result (Unit {0})
  verify_password params h_final = do
    let hash = params.password_hash
    let block_size = params.password_block_size
    let input_len = padded_len params.password_salt_size block_size
    let value_len = padded_len (digest_len hash) block_size
    reject_if (not (length params.encrypted_verifier_hash_input == input_len)) (
        bad FileField.encrypted_verifier_hash_input (
          FileProblem.disagrees (length params.encrypted_verifier_hash_input) input_len
            FileField.encrypted_key_salt_size))
    reject_if (not (length params.encrypted_verifier_hash_value == value_len)) (
        bad FileField.encrypted_verifier_hash_value (
          FileProblem.disagrees (length params.encrypted_verifier_hash_value) value_len
            FileField.encrypted_key_hash_size))
    verifier_input_key ← derive_block_key hash h_final block_verifier_input params.key_bits
    verifier_input ←
        aes_cbc_decrypt c params.encrypted_verifier_hash_input verifier_input_key
          (password_blob_iv params)
    verifier_hash_key ← derive_block_key hash h_final block_verifier_hash params.key_bits
    verifier_hash ←
        aes_cbc_decrypt c params.encrypted_verifier_hash_value verifier_hash_key
          (password_blob_iv params)
    let computed = digest c hash (take params.password_salt_size verifier_input)
    reject_if (not (ct_eq computed (take (digest_len hash) verifier_hash))) Error.wrong_password

  unfoldable pub recover_session_key : AgileParams → (password : Bytes) → Result Bytes
  recover_session_key params password = do
    let h_final = spin_hash params.password_hash password params.inner_salt params.spin_count
    verify_password params h_final
    key_deriv ← derive_block_key params.password_hash h_final block_key_value params.key_bits
    encryption_key ←
        aes_cbc_decrypt c params.encrypted_key_value key_deriv (password_blob_iv params)
    ok (take (params.key_data_key_bits / 8) encryption_key)
