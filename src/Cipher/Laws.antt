-- ===== src/Cipher/Laws.antt =====
-- The AES calls of src/agile.rs and src/standard.rs under a usable key and vector, on whole
-- blocks.
use msoffice_crypto.Base.{◌≡◌, arith, length}
use msoffice_crypto.Base.Bytes.{Bytes}
use msoffice_crypto.Error.{ok}
use msoffice_crypto.Hash.{Crypto}
use msoffice_crypto.Hash.Laws.{IsWhole, IsAesKey}
use msoffice_crypto.Cipher.{
  aes_cbc_encrypt, aes_cbc_decrypt, aes_cbc_encrypt_in_place, aes_cbc_decrypt_in_place,
  aes_ecb_encrypt, aes_ecb_decrypt, aes_ecb_encrypt_in_place, aes_ecb_decrypt_in_place,
}

module _ (c : Crypto) (key iv b : Bytes) (k : IsAesKey key) (v : length iv ≡ 16)
    (w : IsWhole b) where
  pub cbc_encrypt_lem : aes_cbc_encrypt c b key iv ≡ ok (c.cbc_encrypt key iv b)
  unfolding aes_cbc_encrypt
  cbc_encrypt_lem = ground arith

  pub cbc_decrypt_lem : aes_cbc_decrypt c b key iv ≡ ok (c.cbc_decrypt key iv b)
  unfolding aes_cbc_decrypt
  cbc_decrypt_lem = ground arith

  pub cbc_encrypt_in_place_lem : aes_cbc_encrypt_in_place c b key iv ≡ ok (c.cbc_encrypt key iv b)
  unfolding aes_cbc_encrypt_in_place
  cbc_encrypt_in_place_lem = ground arith

  pub cbc_decrypt_in_place_lem : aes_cbc_decrypt_in_place c b key iv ≡ ok (c.cbc_decrypt key iv b)
  unfolding aes_cbc_decrypt_in_place
  cbc_decrypt_in_place_lem = ground arith

module _ (c : Crypto) (key b : Bytes) (k : IsAesKey key) (w : IsWhole b) where
  pub ecb_encrypt_lem : aes_ecb_encrypt c key b ≡ ok (c.ecb_encrypt key b)
  unfolding aes_ecb_encrypt
  ecb_encrypt_lem = ground arith

  pub ecb_decrypt_lem : aes_ecb_decrypt c key b ≡ ok (c.ecb_decrypt key b)
  unfolding aes_ecb_decrypt
  ecb_decrypt_lem = ground arith

  pub ecb_encrypt_in_place_lem : aes_ecb_encrypt_in_place c key b ≡ ok (c.ecb_encrypt key b)
  unfolding aes_ecb_encrypt_in_place
  ecb_encrypt_in_place_lem = ground arith

  pub ecb_decrypt_in_place_lem : aes_ecb_decrypt_in_place c key b ≡ ok (c.ecb_decrypt key b)
  unfolding aes_ecb_decrypt_in_place
  ecb_decrypt_in_place_lem = ground arith
