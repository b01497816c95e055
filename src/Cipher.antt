-- ===== src/Cipher.antt =====
-- The AES calls of src/agile.rs (CBC) and src/standard.rs (ECB): the lengths are checked, and a
-- partial block is refused. The in-place forms return the new contents of the buffer.
use msoffice_crypto.Base.{ℕ, ◌%◌, Bool, ◌||◌, not, ◌==◌, if◌then◌else◌, length}
pub mod Laws
use msoffice_crypto.Base.Bytes.{Bytes}
use msoffice_crypto.FileParams.{Invariant}
use msoffice_crypto.Error.{Error, Result, ok, err, ◌>>=◌, ◌>>◌, reject_if}
use msoffice_crypto.Hash.{Crypto}

abbrev pub aes_block_len : ℕ
aes_block_len = 16

-- `AES_KEY_LENS.contains(&key.len())`.
abbrev pub is_aes_key_len : ℕ → Bool
is_aes_key_len n = n == 16 || n == 24 || n == 32

unfoldable pub check_cbc_lengths : (key iv : Bytes) → Result (Unit {0})
check_cbc_lengths key iv = do
  reject_if (not (is_aes_key_len (length key))) (Error.invariant_violated Invariant.aes_key_length)
  reject_if (not (length iv == aes_block_len)) (Error.invariant_violated Invariant.aes_iv_length)

unfoldable pub check_aes_key : (key : Bytes) → Result (Unit {0})
check_aes_key key =
    reject_if (not (is_aes_key_len (length key)))
      (Error.invariant_violated Invariant.aes_key_length)

-- `NoPadding` takes whole blocks only.
abbrev pub whole_blocks : Bytes → Bytes → Result Bytes
whole_blocks input output =
    if length input % aes_block_len == 0 then ok output else err Error.cipher_error

module _ (c : Crypto) where
  unfoldable pub aes_cbc_decrypt : (ciphertext key iv : Bytes) → Result Bytes
  unfolding check_cbc_lengths
  aes_cbc_decrypt ciphertext key iv = do
    check_cbc_lengths key iv
    whole_blocks ciphertext (c.cbc_decrypt key iv ciphertext)

  unfoldable pub aes_cbc_encrypt : (plaintext key iv : Bytes) → Result Bytes
  unfolding check_cbc_lengths
  aes_cbc_encrypt plaintext key iv = do
    check_cbc_lengths key iv
    whole_blocks plaintext (c.cbc_encrypt key iv plaintext)

  unfoldable pub aes_cbc_decrypt_in_place : (buf key iv : Bytes) → Result Bytes
  unfolding check_cbc_lengths
  aes_cbc_decrypt_in_place buf key iv = do
    check_cbc_lengths key iv
    whole_blocks buf (c.cbc_decrypt key iv buf)

  unfoldable pub aes_cbc_encrypt_in_place : (buf key iv : Bytes) → Result Bytes
  unfolding check_cbc_lengths
  aes_cbc_encrypt_in_place buf key iv = do
    check_cbc_lengths key iv
    whole_blocks buf (c.cbc_encrypt key iv buf)

  unfoldable pub aes_ecb_decrypt : (key ciphertext : Bytes) → Result Bytes
  unfolding check_aes_key
  aes_ecb_decrypt key ciphertext = do
    check_aes_key key
    whole_blocks ciphertext (c.ecb_decrypt key ciphertext)

  unfoldable pub aes_ecb_encrypt : (key plaintext : Bytes) → Result Bytes
  unfolding check_aes_key
  aes_ecb_encrypt key plaintext = do
    check_aes_key key
    whole_blocks plaintext (c.ecb_encrypt key plaintext)

  unfoldable pub aes_ecb_decrypt_in_place : (key buf : Bytes) → Result Bytes
  unfolding check_aes_key
  aes_ecb_decrypt_in_place key buf = do check_aes_key key; whole_blocks buf (c.ecb_decrypt key buf)

  unfoldable pub aes_ecb_encrypt_in_place : (key buf : Bytes) → Result Bytes
  unfolding check_aes_key
  aes_ecb_encrypt_in_place key buf = do check_aes_key key; whole_blocks buf (c.ecb_encrypt key buf)
