-- ===== src/Agile/Seal.antt =====
-- `encrypt_to` of src/agile_encrypt.rs up to the container: what `encryption_info::write` is given
-- and the package stream. `validate` and `refuse_past_v3_stream` come before any draw.
use msoffice_crypto.Base.{ℕ, Option, none, some}
use msoffice_crypto.Base.Bytes.{Bytes}
use msoffice_crypto.Error.{Result, ok, ◌>>=◌, ◌>>◌}
use msoffice_crypto.Hash.{Crypto, HmacState, digest_len, hmac_state}
use msoffice_crypto.Reader.{Reader}
use msoffice_crypto.Integrity
use msoffice_crypto.Integrity.{IntegrityBlobs}
use msoffice_crypto.EncryptParams.{EncryptParams, validate}
use msoffice_crypto.Cipher.{aes_block_len}
use msoffice_crypto.Agile.Generate.{Rng, AgileKeyMaterial, generate}
use msoffice_crypto.Agile.Package.{encrypt_package_to, refuse_past_v3_stream}

-- `info_params`, and the bytes of the `EncryptedPackage` stream.
pub record Sealed : Type 0 where
  pub params : EncryptParams
  pub material : AgileKeyMaterial
  pub blobs : IntegrityBlobs
  pub stream : Bytes

-- `integrity::draw_key`, the fifth draw.
unfoldable pub draw_key : EncryptParams → Rng → Result Bytes
draw_key params rng = rng 4 (digest_len params.hash)

-- The HMAC state that `encrypt_package_to` was lent, as it left it.
abbrev pub lent : Option HmacState → HmacState → HmacState
lent none mac = mac
lent (some mac) old = mac

-- The closure that `write_container` calls.
unfoldable pub write_package :
    Crypto → Reader → ℕ → EncryptParams → AgileKeyMaterial → (hmac_key : Bytes) → Result Sealed
write_package c reader len params material hmac_key = do
  let mac = hmac_state params.hash hmac_key
  (stream, mac') ←
      encrypt_package_to c reader len material.session_key material.key_data_salt params.hash
        (some mac)
  blobs ←
      Integrity.seal c material.session_key params.hash material.key_data_salt aes_block_len
        hmac_key (lent mac' mac)
  ok (record { params = params; material = material; blobs = blobs; stream = stream })

-- `len` is what a seek to the end of the input answers.
unfoldable pub encrypt_to :
    Crypto → Reader → (len : ℕ) → (password : Bytes) → EncryptParams → Rng → Result Sealed
encrypt_to c reader len password params rng = do
  validate params
  refuse_past_v3_stream len
  material ← generate c password params rng
  hmac_key ← draw_key params rng
  write_package c reader len params material hmac_key
