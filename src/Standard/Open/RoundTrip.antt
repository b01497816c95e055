-- ===== src/Standard/Open/RoundTrip.antt =====
-- `encrypt_to` of src/standard_encrypt.rs and `decrypt_to` of src/standard.rs, one after the
-- other.
use msoffice_crypto.Base.{ℕ, ◌≤◌, ◌≡◌, arith, List, length, drop}
use msoffice_crypto.Base.Bytes.{Bytes}
use msoffice_crypto.Error.{ok}
use msoffice_crypto.Hash.{Crypto}
use msoffice_crypto.Hash.Laws.{IsCrypto}
use msoffice_crypto.Reader.{Event}
use msoffice_crypto.Reader.Full.{NoFailure}
use msoffice_crypto.Agile.Generate.{Rng}
use msoffice_crypto.Agile.Generate.Written.{IsRng}
use msoffice_crypto.Agile.Package.{refuse_past_v3_stream, streamed_package_max}
use msoffice_crypto.Standard.{AesKeySize, new, write_encryption_info}
use msoffice_crypto.Standard.Keys.Accept.{verify_password-generate}
use msoffice_crypto.Standard.Package.RoundTrip.{decrypt_package-encrypt_package}
use msoffice_crypto.Standard.Open.{encrypt_to, decrypt_to}

module _ (c : Crypto) (laws : IsCrypto c) where
  -- For every key size that `AesKeySize::new` takes and a random source that answers, `encrypt_to`
  -- encrypts a package of at most 0x7FFFFFF0 bytes; and `decrypt_to`, on the bytes of both streams and
  -- the same password, writes the package, whatever short and interrupted reads the sources make that
  -- do not fail.
  pub decrypt_to-encrypt_to_standard :
      (p password : Bytes) (bits : ℕ) (key_size : AesKeySize) (rng : Rng)
      (events events' : List Event)
      → new bits ≡ ok key_size
      → IsRng rng
      → NoFailure events
      → NoFailure events'
      → length p ≤ streamed_package_max
      → (info stream : Bytes) × (encrypt_to c
            (record { content = p; schedule = events })
            (length p)
            password
            bits
            rng
          ≡ ok (info, stream))
        × (decrypt_to c
              (drop 8 info)
              (length stream)
              (record { content = stream; schedule = events' })
              password
            ≡ (p, ok tt))
  unfolding encrypt_to decrypt_to refuse_past_v3_stream
  decrypt_to-encrypt_to_standard p password bits key_size rng events events' e r calm calm' small =
      let (m, params, generated, parsed, derived, verified, k) =
        verify_password-generate c laws password bits key_size rng e r in
      let (stream, sealed, opened) =
        decrypt_package-encrypt_package c laws m.key k p events events' calm calm' (omega arith) in
      (
        write_encryption_info m.key_size m.salt m.encrypted_verifier m.encrypted_verifier_hash,
        stream,
        ground arith,
        ground arith,
      )
