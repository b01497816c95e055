-- ===== src/Examples.antt =====
-- The theorems at concrete inputs, and runs of the definitions.
mod Workbook
mod Binary
pub mod Toy
pub mod Parts
pub mod Legacy
pub mod Standard
mod Ooxml
use msoffice_crypto.Base.{
  ℕ, zero, suc, ◌+◌, ◌*◌, ◌/◌, ◌≤◌, ◌≡◌, ◌≢◌, ◌↔◌, ◌⊎◌, inl, inr, refl, ap, arith, Option, none,
  some, List, [], ◌∷◌, ◌++◌, length, take, drop, replicate, length-replicate,
}
use msoffice_crypto.Base.Bytes.{Bytes, to_le_bytes}
use msoffice_crypto.Classification.{HashAlgorithm}
use msoffice_crypto.Error.{Error, Result, ok, err, ◌>>=◌}
use msoffice_crypto.Hash.Laws.{IsAesKey}
use msoffice_crypto.Hash.{
  Crypto, HmacState, hmac_state, finalize, digest_len, update_some, update, digest, digest_two,
  digest_two_into, fit_iv, can_carry_key_bits, derive_iv,
}
use msoffice_crypto.Reader.{Reader, Event, short, interrupted, Take, read_full}
use msoffice_crypto.Reader.Full.{IsFilled, read_full-IsFilled}
use msoffice_crypto.Integrity
use msoffice_crypto.Integrity.{
  IntegrityPolicy, IntegrityOutcome, IntegrityBlobs, IntegrityCheck, finish,
}
use msoffice_crypto.Integrity.Laws.{new-seal, finish_iff, material}
use msoffice_crypto.Segments.{Segmenter, fill}
use msoffice_crypto.Segments.Fill.{upcoming, IsSegment, fill-IsSegment}
use msoffice_crypto.EncryptParams.{EncryptParams, validate, nearest_supported_key_bits, abs_diff}
use msoffice_crypto.EncryptParams.Accept.{
  IsUsable, IsAesBits, validate_iff, nearest_supported_key_bits-IsNearest,
}
use msoffice_crypto.Agile.{AgileParams, DataIntegrity, integrity_material, password_blob_iv}
use msoffice_crypto.Cipher
use msoffice_crypto.Agile.Keys
use msoffice_crypto.Agile.Keys.{recover_session_key}
use msoffice_crypto.Agile.Generate.{AgileKeyMaterial, generate}
use msoffice_crypto.Agile.Generate.Recover.{recover_session_key-generate}
use msoffice_crypto.Agile.Generate.Written.{read_back}
use msoffice_crypto.Agile.Package.{encrypt_package_to, decrypt_package_to}
use msoffice_crypto.Agile.Package.Whole.{stream_of, held, encrypt_package_to_lem}
use msoffice_crypto.Agile.Package.RoundTrip.{decrypt-encrypt_package_to}
use msoffice_crypto.Agile.Package.Authentic.{decrypt_package_to-hmac}
use msoffice_crypto.Agile.Seal.{Sealed, encrypt_to}
use msoffice_crypto.Agile.Open.{check_declared, decrypt_to}
use msoffice_crypto.Agile.Open.Authentic.{IsAuthentic, decrypt_to-IsAuthentic, decrypt_to-closed}
use msoffice_crypto.Agile.Open.RoundTrip.{read_sealed, declared, decrypt_to-encrypt_to}
use msoffice_crypto.Examples.Toy.{toy, toy-IsCrypto, toy_rng, toy_rng-IsRng, swap, sum}

abbrev pub package_bytes : Bytes
package_bytes = 0x50 ∷ 0x4B ∷ 0x03 ∷ 0x04 ∷ 0x14 ∷ []

abbrev pub password : Bytes
password = 0x61 ∷ 0x00 ∷ []

abbrev pub ragged : List Event
ragged = short 0 ∷ interrupted ∷ short 2 ∷ []

abbrev pub small_params : EncryptParams
small_params = record {
  spin_count = 2;
  hash = HashAlgorithm.sha1;
  key_data_key_bits = 256;
  password_key_bits = 128;
  key_data_salt_size = 16;
  password_salt_size = 20;
}

pub small_params-IsUsable : IsUsable small_params
unfolding digest_len
small_params-IsUsable = record {
  key_data_bits = inr (inr refl);
  password_bits = inl refl;
  carried = omega arith;
  key_data_salt = (omega arith, omega arith);
  password_salt = (omega arith, omega arith);
  spins = omega arith;
}

pub require≢skip : IntegrityPolicy.require ≢ IntegrityPolicy.skip
require≢skip e = cc

decrypt_to-encrypt_to_example :
    (s : Sealed) × (encrypt_to toy
        (record { content = package_bytes; schedule = ragged })
        (length package_bytes)
        password
        small_params
        toy_rng
      ≡ ok s)
    × (decrypt_to toy
          (read_sealed s)
          (record { content = s.stream; schedule = ragged })
          (length s.stream)
          (record { content = s.stream; schedule = [] })
          password
          IntegrityPolicy.require
        ≡ (package_bytes, ok IntegrityOutcome.verified))
decrypt_to-encrypt_to_example =
    decrypt_to-encrypt_to toy toy-IsCrypto package_bytes password small_params toy_rng
      IntegrityPolicy.require ragged ragged [] small_params-IsUsable toy_rng-IsRng require≢skip tt
      tt tt (omega arith)

-- The same, for the examples below.
pub opening :
    (s : Sealed) × (encrypt_to toy
        (record { content = package_bytes; schedule = ragged })
        (length package_bytes)
        password
        small_params
        toy_rng
      ≡ ok s)
    × (decrypt_to toy
          (read_sealed s)
          (record { content = s.stream; schedule = ragged })
          (length s.stream)
          (record { content = s.stream; schedule = [] })
          password
          IntegrityPolicy.require
        ≡ (package_bytes, ok IntegrityOutcome.verified))
opening =
    decrypt_to-encrypt_to toy toy-IsCrypto package_bytes password small_params toy_rng
      IntegrityPolicy.require ragged ragged [] small_params-IsUsable toy_rng-IsRng require≢skip tt
      tt tt (omega arith)

abbrev pub sealed_package : Sealed
sealed_package = opening.0

decrypt_to-IsAuthentic_example :
    IsAuthentic toy
      (read_sealed sealed_package)
      sealed_package.stream
      password
      (declared sealed_package.blobs)
decrypt_to-IsAuthentic_example =
    decrypt_to-IsAuthentic toy (read_sealed sealed_package)
      (record { content = sealed_package.stream; schedule = ragged }) (length sealed_package.stream)
      (record { content = sealed_package.stream; schedule = [] }) password IntegrityPolicy.require
      (declared sealed_package.blobs) tt require≢skip refl
      (inr (IntegrityOutcome.verified, ap (λ w. w.1) opening.2))

-- A file whose stored tag is all zeros.
abbrev forged : DataIntegrity
forged = record {
  encrypted_hmac_key = replicate 20 5 ++ replicate 12 0;
  encrypted_hmac_value = replicate 32 0;
}

abbrev forged_params : AgileParams
forged_params = record {
  outer_salt = replicate 16 1;
  inner_salt = replicate 16 2;
  spin_count = 1;
  key_bits = 128;
  encrypted_key_value = replicate 16 9;
  encrypted_verifier_hash_input = replicate 16 7;
  encrypted_verifier_hash_value = replicate 20 112 ++ replicate 12 0;
  data_integrity = some forged;
  key_data_hash = HashAlgorithm.sha1;
  key_data_block_size = 16;
  key_data_key_bits = 128;
  key_data_hash_size = some 20;
  password_hash = HashAlgorithm.sha1;
  password_salt_size = 16;
  password_block_size = 16;
}

abbrev pub forged_check : IntegrityCheck
forged_check = record {
  hash = HashAlgorithm.sha1;
  hmac_key = replicate 20 5;
  expected = replicate 20 0;
}

forged_key : recover_session_key toy forged_params password ≡ ok (replicate 16 9)
unfolding recover_session_key Keys.verify_password Keys.derive_block_key Cipher.aes_cbc_decrypt
    Integrity.ct_eq password_blob_iv digest_len digest digest_two digest_two_into fit_iv
    can_carry_key_bits swap sum take drop replicate
forged_key = refl

forged_declared :
    check_declared toy forged_params (replicate 16 9) forged
    ≡ ok (IntegrityOutcome.verified, some forged_check)
unfolding check_declared Integrity.new Integrity.unwrap_blob Cipher.aes_cbc_decrypt
    integrity_material digest_len digest_two derive_iv fit_iv swap sum take drop replicate
forged_declared = refl

forged_tag : toy.hmac HashAlgorithm.sha1 (replicate 20 5) package_bytes ≢ replicate 20 0
unfolding digest_len sum replicate
forged_tag e = ground arith

decrypt_to-closed_example :
    decrypt_to toy forged_params
      (record { content = package_bytes; schedule = ragged })
      5
      (record { content = package_bytes; schedule = [] })
      password
      IntegrityPolicy.require
    ≡ ([], err Error.integrity_check_failed)
decrypt_to-closed_example =
    decrypt_to-closed toy forged_params (record { content = package_bytes; schedule = ragged }) 5
      (record { content = package_bytes; schedule = [] }) password IntegrityPolicy.require forged
      (replicate 16 9) forged_check tt require≢skip refl forged_key forged_declared forged_tag

abbrev pub toy_key : Bytes
toy_key = replicate 16 9

toy_key-IsAesKey : IsAesKey toy_key
unfolding replicate
toy_key-IsAesKey = inl refl

decrypt-encrypt_package_to_example :
    (stream : Bytes) × (mac : HmacState) × (encrypt_package_to toy
        (record { content = package_bytes; schedule = ragged })
        (length package_bytes)
        toy_key
        (replicate 16 1)
        HashAlgorithm.sha1
        (some (hmac_state HashAlgorithm.sha1 (replicate 20 5)))
      ≡ ok (stream, some mac))
    × (decrypt_package_to toy toy_key forged_params
          (length stream)
          (record { content = stream; schedule = [] })
          (some (record {
            hash = HashAlgorithm.sha1;
            hmac_key = replicate 20 5;
            expected = finalize toy mac;
          }))
        ≡ (package_bytes, ok tt))
unfolding replicate
decrypt-encrypt_package_to_example =
    decrypt-encrypt_package_to toy toy-IsCrypto toy_key toy_key-IsAesKey forged_params refl refl
      package_bytes (replicate 20 5) ragged [] tt tt (omega arith)

-- The same, for the example below.
stream_round_trip :
    (stream : Bytes) × (mac : HmacState) × (encrypt_package_to toy
        (record { content = package_bytes; schedule = ragged })
        (length package_bytes)
        toy_key
        (replicate 16 1)
        HashAlgorithm.sha1
        (some (hmac_state HashAlgorithm.sha1 (replicate 20 5)))
      ≡ ok (stream, some mac))
    × (decrypt_package_to toy toy_key forged_params
          (length stream)
          (record { content = stream; schedule = [] })
          (some (record {
            hash = HashAlgorithm.sha1;
            hmac_key = replicate 20 5;
            expected = finalize toy mac;
          }))
        ≡ (package_bytes, ok tt))
unfolding replicate
stream_round_trip =
    decrypt-encrypt_package_to toy toy-IsCrypto toy_key toy_key-IsAesKey forged_params refl refl
      package_bytes (replicate 20 5) ragged [] tt tt (omega arith)

abbrev stream_check : IntegrityCheck
stream_check = record {
  hash = HashAlgorithm.sha1;
  hmac_key = replicate 20 5;
  expected = finalize toy stream_round_trip.1;
}

decrypt_package_to-hmac_example :
    toy.hmac HashAlgorithm.sha1
      (replicate 20 5)
      (take (length stream_round_trip.0) stream_round_trip.0)
    ≡ finalize toy stream_round_trip.1
decrypt_package_to-hmac_example =
    decrypt_package_to-hmac toy toy-IsCrypto toy_key toy_key-IsAesKey forged_params refl
      (length stream_round_trip.0) (record { content = stream_round_trip.0; schedule = [] }) tt
      stream_check (ap (λ w. w.1) stream_round_trip.3)

recover_session_key-generate_example :
    (m : AgileKeyMaterial) × (generate toy password small_params toy_rng ≡ ok m)
    × (length m.session_key ≡ 32)
    × ((di : Option DataIntegrity)
        → recover_session_key toy (read_back small_params m di) password ≡ ok m.session_key)
recover_session_key-generate_example =
    recover_session_key-generate toy toy-IsCrypto password small_params small_params-IsUsable
      toy_rng toy_rng-IsRng

-- One byte more than the length that was promised.
encrypt_package_to_lem_example :
    encrypt_package_to toy
      (record { content = package_bytes; schedule = ragged })
      4
      toy_key
      (replicate 16 1)
      HashAlgorithm.sha1
      none
    ≡ (held 4 package_bytes >>= λ _. ok (
      stream_of toy toy_key (replicate 16 1) HashAlgorithm.sha1 (take 4 package_bytes),
      update_some none
          (stream_of toy toy_key (replicate 16 1) HashAlgorithm.sha1 (take 4 package_bytes)),
    ))
encrypt_package_to_lem_example =
    encrypt_package_to_lem toy toy-IsCrypto toy_key (replicate 16 1) HashAlgorithm.sha1
      (record { content = package_bytes; schedule = ragged }) 4 none toy_key-IsAesKey tt
      (omega arith)

length-hmac_key : length {A = ℕ} (replicate 20 5) ≡ digest_len HashAlgorithm.sha1
unfolding digest_len replicate
length-hmac_key = refl

new-seal_example :
    (blobs : IntegrityBlobs) × (Integrity.seal toy toy_key HashAlgorithm.sha1
        (replicate 16 1)
        16
        (replicate 20 5)
        (record { hash = HashAlgorithm.sha1; key = replicate 20 5; message = package_bytes })
      ≡ ok blobs)
    × (Integrity.new toy toy_key (
          material toy toy-IsCrypto toy_key toy_key-IsAesKey HashAlgorithm.sha1
            (replicate 16 1)
            blobs)
        ≡ ok (record {
          hash = HashAlgorithm.sha1;
          hmac_key = replicate 20 5;
          expected = toy.hmac HashAlgorithm.sha1 (replicate 20 5) package_bytes;
        }))
new-seal_example =
    new-seal toy toy-IsCrypto toy_key toy_key-IsAesKey HashAlgorithm.sha1 (replicate 16 1)
      (replicate 20 5) package_bytes length-hmac_key
