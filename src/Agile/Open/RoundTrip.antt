-- ===== src/Agile/Open/RoundTrip.antt =====
-- `encrypt_to` of src/agile_encrypt.rs and `decrypt_to` of src/agile.rs, one after the other.
use msoffice_crypto.Base.{
  ◌/◌, ◌≤◌, ◌≡◌, ◌≢◌, refl, sym, ap, ◌∙◌, arith, some, List, length, take_all,
}
use msoffice_crypto.Base.Bytes.{Bytes}
use msoffice_crypto.Error.{ok}
use msoffice_crypto.Hash.{Crypto, digest_len, hmac_state, update, update_some, finalize}
use msoffice_crypto.Hash.Laws.{IsCrypto, IsAesKey}
use msoffice_crypto.Reader.{Event}
use msoffice_crypto.Reader.Full.{NoFailure}
use msoffice_crypto.Integrity
use msoffice_crypto.Integrity.{
  IntegrityPolicy, IntegrityOutcome, IntegrityBlobs, IntegrityCheck, start, finish,
}
use msoffice_crypto.Integrity.Laws.{finish_iff, new-seal, material}
use msoffice_crypto.EncryptParams.{EncryptParams}
use msoffice_crypto.EncryptParams.Accept.{IsUsable, IsUsable→validate}
use msoffice_crypto.Agile.{AgileParams, DataIntegrity, integrity_material}
use msoffice_crypto.Agile.Keys.{recover_session_key}
use msoffice_crypto.Agile.Generate.{Rng, AgileKeyMaterial, generate}
use msoffice_crypto.Agile.Generate.Recover.{recover_session_key-generate}
use msoffice_crypto.Agile.Generate.Written.{IsRng, read_back}
use msoffice_crypto.Agile.Package.{
  streamed_package_max, decrypt_package_to, refuse_past_v3_stream, finish_some,
}
use msoffice_crypto.Agile.Package.Whole.{stream_of, encrypt_package_to_lem}
use msoffice_crypto.Agile.Package.RoundTrip.{decrypt_package_to_lem}
use msoffice_crypto.Agile.Seal.{Sealed, draw_key, write_package, encrypt_to}
use msoffice_crypto.Agile.Open.{check_declared, decrypt_to}
use msoffice_crypto.Agile.Open.Authentic.{first_pass_lem, check_integrity_declared}

abbrev pub declared : IntegrityBlobs → DataIntegrity
declared blobs = record {
  encrypted_hmac_key = blobs.encrypted_hmac_key;
  encrypted_hmac_value = blobs.encrypted_hmac_value;
}

-- What a reader finds in what the writer put down of `s`.
abbrev pub read_sealed : Sealed → AgileParams
read_sealed s = read_back s.params s.material (some (declared s.blobs))

module _ (c : Crypto) (laws : IsCrypto c) where
  -- The package and its blobs, under material with a usable key.
  write_package_lem :
      (p : Bytes) (events : List Event) (params : EncryptParams) (m : AgileKeyMaterial)
      (hmac_key : Bytes) (blobs : IntegrityBlobs)
      → let stream = stream_of c m.session_key m.key_data_salt params.hash p in
        NoFailure events
        → IsAesKey m.session_key
        → length p ≤ streamed_package_max
        → Integrity.seal c m.session_key params.hash m.key_data_salt 16 hmac_key
            (record { hash = params.hash; key = hmac_key; message = stream })
          ≡ ok blobs
        → write_package c (record { content = p; schedule = events }) (length p) params m hmac_key
          ≡ ok (record { params = params; material = m; blobs = blobs; stream = stream })
  unfolding write_package update_some update hmac_state
  write_package_lem p events params m hmac_key blobs calm k small e = ground (
    arith,
    encrypt_package_to_lem c laws m.session_key m.key_data_salt params.hash
        (record { content = p; schedule = events }) (length p)
        (some (hmac_state params.hash hmac_key)) k calm,
    take_all (length p) p,
  )

  aes_key_of :
      (params : EncryptParams)
      → IsUsable params
      → (key : Bytes) → length key ≡ params.key_data_key_bits / 8
      → IsAesKey key
  aes_key_of params usable key e = ground (arith, usable.key_data_bits)

  encrypt_to_lem :
      (p password : Bytes) (params : EncryptParams) (rng : Rng) (events : List Event)
      (m : AgileKeyMaterial) (hmac_key : Bytes) (blobs : IntegrityBlobs) {s : Sealed}
      → IsUsable params
      → generate c password params rng ≡ ok m
      → rng 4 (digest_len params.hash) ≡ ok hmac_key
      → length p ≤ streamed_package_max
      → write_package c (record { content = p; schedule = events }) (length p) params m hmac_key
        ≡ ok s
      → encrypt_to c (record { content = p; schedule = events }) (length p) password params rng
        ≡ ok s
  unfolding encrypt_to draw_key refuse_past_v3_stream
  encrypt_to_lem p password params rng events m hmac_key blobs usable generated drawn small
        written =
      ground (arith, IsUsable→validate params usable)

  module _ (params : EncryptParams) (m : AgileKeyMaterial) (blobs : IntegrityBlobs)
      (p hmac_key : Bytes) (k : IsAesKey m.session_key)
      (fits : params.key_data_key_bits / 8 ≡ length m.session_key) where
    abbrev stream : Bytes
    stream = stream_of c m.session_key m.key_data_salt params.hash p

    abbrev whole : Sealed
    whole = record { params = params; material = m; blobs = blobs; stream = stream }

    abbrev check : IntegrityCheck
    check = record {
      hash = params.hash;
      hmac_key = hmac_key;
      expected = c.hmac params.hash hmac_key stream;
    }

    abbrev read : AgileParams
    read = read_sealed whole

    module _
        (checked : Integrity.new c m.session_key
            (material c laws m.session_key k params.hash m.key_data_salt blobs)
          ≡ ok check) where
      check_declared_lem :
          check_declared c read m.session_key (declared blobs)
          ≡ ok (IntegrityOutcome.verified, some check)
      unfolding check_declared integrity_material
      check_declared_lem = rw checked refl

      passes : finish c check (update (start c check) stream) ≡ ok tt
      unfolding update start finalize hmac_state
      passes = (finish_iff c check (update (start c check) stream)).1 refl

      package_lem :
          (events : List Event)
          → NoFailure events
          → length p ≤ streamed_package_max
          → decrypt_package_to c m.session_key read
              (length stream)
              (record { content = stream; schedule = events })
              (some check)
            ≡ (p, ok tt)
      unfolding finish_some update_some
      package_lem events calm small =
          decrypt_package_to_lem c laws m.session_key k read fits refl p events (some check) calm
            small
          ∙ ap (λ r. (p, r)) passes

      opens_lem :
          (events events' : List Event) (password : Bytes) (policy : IntegrityPolicy)
          → NoFailure events
          → NoFailure events'
          → length p ≤ streamed_package_max
          → policy ≢ IntegrityPolicy.skip
          → recover_session_key c read password ≡ ok m.session_key
          → decrypt_to c read
              (record { content = stream; schedule = events })
              (length stream)
              (record { content = stream; schedule = events' })
              password
              policy
            ≡ (p, ok IntegrityOutcome.verified)
      unfolding decrypt_to
      opens_lem events events' password policy calm calm' small asks opens =
          rw
            (
              opens,
              check_integrity_declared c read m.session_key policy (declared blobs) asks refl,
              check_declared_lem,
              first_pass_lem c (record { content = stream; schedule = events }) check calm,
              passes,
              package_lem events' calm' small,
            )
            refl

  -- Under usable parameters and a random source that answers, `encrypt_to` encrypts a package
  -- of at most 0x7FFFFFF0 bytes; and `decrypt_to`, on the parameters and the stream that it put
  -- down, under the same password and any policy but Skip, writes the package and reports it
  -- verified, whatever short and interrupted reads the sources make that do not fail.
  pub decrypt_to-encrypt_to :
      (p password : Bytes) (params : EncryptParams) (rng : Rng) (policy : IntegrityPolicy)
      (events first second : List Event)
      → IsUsable params
      → IsRng rng
      → policy ≢ IntegrityPolicy.skip
      → NoFailure events
      → NoFailure first
      → NoFailure second
      → length p ≤ streamed_package_max
      → (s : Sealed) × (encrypt_to c
            (record { content = p; schedule = events })
            (length p)
            password
            params
            rng
          ≡ ok s)
        × (decrypt_to c
              (read_sealed s)
              (record { content = s.stream; schedule = first })
              (length s.stream)
              (record { content = s.stream; schedule = second })
              password
              policy
            ≡ (p, ok IntegrityOutcome.verified))
  decrypt_to-encrypt_to p password params rng policy events first second usable answers asks calm
        calm' calm'' small =
      let (m, generated, keyed, opens) =
        recover_session_key-generate c laws password params usable rng answers in
      let (hmac_key, drawn, sized) = answers.draws 4 (digest_len params.hash) in
      let k = aes_key_of params usable m.session_key keyed in
      let (blobs, sealed, checked) =
        new-seal c laws m.session_key k params.hash m.key_data_salt hmac_key
          (stream_of c m.session_key m.key_data_salt params.hash p) sized in
      (
        whole params m blobs p hmac_key k (sym keyed),
        encrypt_to_lem p password params rng events m hmac_key blobs usable generated drawn small
            (write_package_lem p events params m hmac_key blobs calm k small sealed),
        opens_lem params m blobs p hmac_key k (sym keyed) checked first second password policy calm'
            calm'' small asks (opens (some (declared blobs))),
      )
