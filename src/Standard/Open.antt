-- ===== src/Standard/Open.antt =====
-- `encrypt_to` of src/standard_encrypt.rs up to the container, and `decrypt_to` of src/standard.rs.
pub mod RoundTrip
use msoffice_crypto.Base.{ℕ, List, []}
use msoffice_crypto.Base.Bytes.{Bytes}
use msoffice_crypto.Error.{Result, ok, err, ◌>>=◌, ◌>>◌}
use msoffice_crypto.Hash.{Crypto}
use msoffice_crypto.Reader.{Reader}
use msoffice_crypto.Writer.{Written, or_stop}
use msoffice_crypto.Agile.Generate.{Rng}
use msoffice_crypto.Agile.Package.{refuse_past_v3_stream}
use msoffice_crypto.Standard.{new, parse_encryption_info, write_encryption_info}
use msoffice_crypto.Standard.Keys.{generate, derive_standard_key, verify_password}
use msoffice_crypto.Standard.Package.{encrypt_package, decrypt_package}

-- The `EncryptionInfo` and the `EncryptedPackage` stream; `len` is what a seek to the end answers.
unfoldable pub encrypt_to :
    Crypto → Reader → (len : ℕ) → (password : Bytes) → (key_bits : ℕ) → Rng → Result (Bytes × Bytes)
encrypt_to c reader len password key_bits rng = do
  key_size ← new key_bits
  refuse_past_v3_stream len
  material ← generate c password key_size rng
  let info =
      write_encryption_info material.key_size material.salt material.encrypted_verifier
        material.encrypted_verifier_hash
  stream ← encrypt_package c reader len material.key
  ok (info, stream)

-- `info` is the stream behind its version and flags.
unfoldable pub decrypt_to :
    Crypto → (info : Bytes) → (stream_len : ℕ) → Reader → (password : Bytes) → Written (Unit {0})
decrypt_to c info stream_len reader password = or_stop [] (parse_encryption_info info) λ params.
    or_stop [] (derive_standard_key c password params.salt params.key_size_bytes) λ derived_key.
      or_stop [] (verify_password c derived_key params)
        λ _. decrypt_package c derived_key stream_len reader
