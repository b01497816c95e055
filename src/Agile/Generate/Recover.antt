-- ===== src/Agile/Generate/Recover.antt =====
-- `generate` of src/agile_encrypt.rs, and `verify_password` and `recover_session_key` of
-- src/agile.rs.
use msoffice_crypto.Base.{
  ℕ, ◌-◌, ◌*◌, ◌/◌, ◌≤◌, ◌≡◌, refl, sym, ap, ◌∙◌, arith, Option, [], ◌++◌, length, take, replicate,
  length-append, length-replicate, length-take, take_front, ==_refl,
}
use msoffice_crypto.Base.Bytes.{Bytes}
use msoffice_crypto.Classification.{HashAlgorithm}
use msoffice_crypto.Error.{ok}
use msoffice_crypto.Hash.{
  Crypto, digest, digest_len, digest_two, digest_two_into, fit_iv, can_carry_key_bits,
}
use msoffice_crypto.Hash.Laws.{IsCrypto, IsAesKey, length-fit_iv}
use msoffice_crypto.Cipher.{aes_cbc_encrypt, aes_cbc_decrypt}
use msoffice_crypto.Cipher.Laws.{cbc_encrypt_lem, cbc_decrypt_lem}
use msoffice_crypto.Integrity.{padded_len, zero_padded}
use msoffice_crypto.Integrity.Laws.{ct_eq_refl}
use msoffice_crypto.EncryptParams.{EncryptParams}
use msoffice_crypto.EncryptParams.Accept.{IsUsable, IsAesBits}
use msoffice_crypto.Agile.{DataIntegrity, AgileParams, password_blob_iv}
use msoffice_crypto.Agile.Keys.{
  spin_hash, derive_block_key, verify_password, recover_session_key, block_verifier_input,
  block_verifier_hash, block_key_value,
}
use msoffice_crypto.Agile.Generate.{Rng, AgileKeyMaterial, generate, round_up}
use msoffice_crypto.Agile.Generate.Written.{IsRng, IsWritten, read_back, read_back-IsWritten}

length-digest_two_into :
    (c : Crypto) (hash : HashAlgorithm) (a b : Bytes) (n : ℕ)
    → length (digest_two_into c hash a b n) ≡ n
unfolding digest_two_into
length-digest_two_into c hash a b n = ground (
  arith,
  length-take n (digest_two c hash a b),
  length-append (take n (digest_two c hash a b))
      (replicate (n - length (take n (digest_two c hash a b))) 0),
  length-replicate {A = ℕ} (n - length (take n (digest_two c hash a b))) 0,
)

-- A derived key of an AES width.
derive_block_key_lem :
    (c : Crypto) (hash : HashAlgorithm) (h block_key : Bytes) (bits : ℕ)
    → IsAesBits bits
    → bits ≤ 8 * digest_len hash
    → (derive_block_key c hash h block_key bits
        ≡ ok (digest_two_into c hash h block_key (bits / 8)))
      × IsAesKey (digest_two_into c hash h block_key (bits / 8))
unfolding derive_block_key can_carry_key_bits
derive_block_key_lem c hash h block_key bits e fits =
    (ground arith, ground (arith, length-digest_two_into c hash h block_key (bits / 8)))

length-zero_padded : (b : Bytes) (n : ℕ) → length b ≤ n → length (zero_padded b n) ≡ n
length-zero_padded b n h =
    omega (
      arith,
      length-append b (replicate (n - length b) 0),
      length-replicate {A = ℕ} (n - length b) 0,
    )

-- A blob put down under a derived key, and read back.
blob_lem :
    (c : Crypto) (laws : IsCrypto c) (key iv b : Bytes) (n : ℕ)
    → IsAesKey key
    → length iv ≡ 16
    → length b ≡ n
    → let plain = zero_padded b (round_up n 16) in
      (aes_cbc_encrypt c plain key iv ≡ ok (c.cbc_encrypt key iv plain))
      × (length (c.cbc_encrypt key iv plain) ≡ padded_len n 16)
      × (aes_cbc_decrypt c (c.cbc_encrypt key iv plain) key iv ≡ ok plain)
      × (take n plain ≡ b)
blob_lem c laws key iv b n k v e =
    let plain = zero_padded b (round_up n 16) in
    let size = length-zero_padded b (round_up n 16) (omega arith) in
    let sealed = laws.length-cbc_encrypt key iv plain (omega arith) in
    (
      cbc_encrypt_lem c key iv plain k v (omega arith),
      omega arith,
      cbc_decrypt_lem c key iv (c.cbc_encrypt key iv plain) k v (omega arith)
          ∙ ap ok (laws.cbc_decrypt-encrypt key iv plain k v (omega arith)),
      take_front b (replicate (round_up n 16 - length b) 0) n (sym e),
    )

module _ (c : Crypto) (laws : IsCrypto c) (password : Bytes) (params : EncryptParams)
    (usable : IsUsable params) where
  module _ (salt : Bytes) where
    abbrev h_of : Bytes
    h_of = spin_hash c params.hash password salt params.spin_count

    abbrev key_of : Bytes → Bytes
    key_of block_key = digest_two_into c params.hash h_of block_key (params.password_key_bits / 8)

    key_lem :
        (block_key : Bytes)
        → (derive_block_key c params.hash h_of block_key params.password_key_bits
            ≡ ok (key_of block_key))
          × IsAesKey (key_of block_key)
    key_lem block_key =
        derive_block_key_lem c params.hash h_of block_key params.password_key_bits
          usable.password_bits usable.carried

    -- A blob of `n` bytes under one of the keys.
    abbrev blob : (block_key b : Bytes) → (n : ℕ) → Bytes
    blob block_key b n =
        c.cbc_encrypt (key_of block_key) (fit_iv salt 16) (zero_padded b (round_up n 16))

    salt_blob_lem :
        (block_key b : Bytes) (n : ℕ)
        → length b ≡ n
        → let plain = zero_padded b (round_up n 16) in
          (aes_cbc_encrypt c plain (key_of block_key) (fit_iv salt 16) ≡ ok (blob block_key b n))
          × (length (blob block_key b n) ≡ padded_len n 16)
          × (aes_cbc_decrypt c (blob block_key b n) (key_of block_key) (fit_iv salt 16) ≡ ok plain)
          × (take n plain ≡ b)
    salt_blob_lem block_key b n e =
        blob_lem c laws (key_of block_key) (fit_iv salt 16) b n (key_lem block_key).1
          (length-fit_iv salt 16) e

  abbrev material : (salt verifier session_key key_data_salt : Bytes) → AgileKeyMaterial
  material salt verifier session_key key_data_salt = record {
    key_data_salt = key_data_salt;
    password_salt = salt;
    session_key = session_key;
    encrypted_verifier_hash_input =
        blob salt block_verifier_input verifier params.password_salt_size;
    encrypted_verifier_hash_value =
        blob salt block_verifier_hash (digest c params.hash verifier) (digest_len params.hash);
    encrypted_key_value = blob salt block_key_value session_key (params.key_data_key_bits / 8);
  }

  length-digest : (b : Bytes) → length (digest c params.hash b) ≡ digest_len params.hash
  unfolding digest digest_two
  length-digest b = laws.length-hash params.hash (b ++ [])

  module _ (salt verifier session_key key_data_salt : Bytes)
      (sized : length salt ≡ params.password_salt_size)
      (sized' : length verifier ≡ params.password_salt_size)
      (keyed : length session_key ≡ params.key_data_key_bits / 8) where
    generate_lem :
        (rng : Rng)
        → rng 0 params.password_salt_size ≡ ok salt
        → rng 1 params.password_salt_size ≡ ok verifier
        → rng 2 (params.key_data_key_bits / 8) ≡ ok session_key
        → rng 3 params.key_data_salt_size ≡ ok key_data_salt
        → generate c password params rng ≡ ok (material salt verifier session_key key_data_salt)
    unfolding generate
    generate_lem rng d0 d1 d2 d3 =
        let input =
          salt_blob_lem salt block_verifier_input verifier params.password_salt_size sized' in
        let value =
          salt_blob_lem salt block_verifier_hash (digest c params.hash verifier)
            (digest_len params.hash) (length-digest verifier) in
        let key =
          salt_blob_lem salt block_key_value session_key (params.key_data_key_bits / 8) keyed in
        rw
          (
            d0,
            (key_lem salt block_verifier_input).0,
            (key_lem salt block_verifier_hash).0,
            (key_lem salt block_key_value).0,
            sized,
            d1,
            input.0,
            input.3,
            value.0,
            d2,
            key.0,
            d3,
          )
          refl

    verify_lem :
        (read : AgileParams)
        → IsWritten params (material salt verifier session_key key_data_salt) read
        → verify_password c read (h_of salt) ≡ ok tt
    unfolding verify_password password_blob_iv
    verify_lem read w =
        let input =
          salt_blob_lem salt block_verifier_input verifier params.password_salt_size sized' in
        let value =
          salt_blob_lem salt block_verifier_hash (digest c params.hash verifier)
            (digest_len params.hash) (length-digest verifier) in
        rw
          (
            w.password_block_size,
            w.password_salt_size,
            w.password_hash,
            w.verifier_hash_value,
            w.verifier_hash_input,
            w.key_bits,
            w.inner_salt,
            input.1,
            value.1,
            ==_refl,
            ==_refl,
            (key_lem salt block_verifier_input).0,
            input.2,
            (key_lem salt block_verifier_hash).0,
            value.2,
            input.3,
            value.3,
            ct_eq_refl,
          )
          refl

    recover_lem :
        (read : AgileParams)
        → IsWritten params (material salt verifier session_key key_data_salt) read
        → recover_session_key c read password ≡ ok session_key
    unfolding recover_session_key password_blob_iv
    recover_lem read w =
        let key =
          salt_blob_lem salt block_key_value session_key (params.key_data_key_bits / 8) keyed in
        simp (
          w.password_hash,
          w.inner_salt,
          w.spin_count,
          w.key_bits,
          w.key_data_key_bits,
          w.key_value,
          w.password_block_size,
          verify_lem read w,
          (key_lem salt block_key_value).0,
          key.2,
          key.3,
        )

  -- Under usable parameters and a random source that answers, `generate` yields key material
  -- with a session key of the width asked for; and a reader of it accepts the same password and
  -- recovers that session key.
  pub recover_session_key-generate :
      (rng : Rng)
      → IsRng rng
      → (m : AgileKeyMaterial) × (generate c password params rng ≡ ok m)
        × (length m.session_key ≡ params.key_data_key_bits / 8)
        × ((di : Option DataIntegrity)
            → recover_session_key c (read_back params m di) password ≡ ok m.session_key)
  recover_session_key-generate rng r =
      let d0 = r.draws 0 params.password_salt_size in
      let d1 = r.draws 1 params.password_salt_size in
      let d2 = r.draws 2 (params.key_data_key_bits / 8) in
      let d3 = r.draws 3 params.key_data_salt_size in
      let m = material d0.0 d1.0 d2.0 d3.0 in
      (
        m,
        generate_lem d0.0 d1.0 d2.0 d3.0 d0.2 d1.2 d2.2 rng d0.1 d1.1 d2.1 d3.1,
        d2.2,
        λ di.
            recover_lem d0.0 d1.0 d2.0 d3.0 d0.2 d1.2 d2.2 (read_back params m di)
              (read_back-IsWritten params m di),
      )
