-- ===== src/Standard/Keys/Accept.antt =====
-- `generate` of src/standard_encrypt.rs, and the key ladder and the password check of
-- src/standard.rs.
use msoffice_crypto.Base.{
  ℕ, ◌-◌, ◌/◌, ◌≤◌, ◌≡◌, ◌⊎◌, sym, ◌∙◌, arith, ◌++◌, length, take, drop, replicate, length-append,
  length-take, length-replicate,
}
use msoffice_crypto.Base.Bytes.{Bytes, to_le_bytes}
use msoffice_crypto.Classification.{HashAlgorithm}
use msoffice_crypto.Error.{ok}
use msoffice_crypto.Hash.{Crypto, digest_len}
use msoffice_crypto.Hash.Laws.{IsCrypto, IsAesKey}
use msoffice_crypto.Cipher.Laws.{ecb_encrypt_lem, ecb_decrypt_lem}
use msoffice_crypto.Integrity.{zero_padded}
use msoffice_crypto.Integrity.Laws.{ct_eq_refl}
use msoffice_crypto.Agile.Generate.{Rng}
use msoffice_crypto.Agile.Generate.Written.{IsRng}
use msoffice_crypto.Agile.Package.Encrypt.{slice_front}
use msoffice_crypto.Standard.{
  AesKeySize, StandardParams, new, parse_encryption_info, write_encryption_info,
}
use msoffice_crypto.Standard.Info.{parse_encryption_info-write_encryption_info}
use msoffice_crypto.Standard.Keys.{
  spin_rounds, spin_count, pad, sha1, derive_standard_key, verify_password, StandardKeyMaterial,
  generate,
}

-- The widths of `AesKeySize::new`.
bits_lem :
    (bits : ℕ) (key_size : AesKeySize)
    → new bits ≡ ok key_size
    → (key_size.bits ≡ 128) ⊎ (key_size.bits ≡ 192) ⊎ (key_size.bits ≡ 256)
unfolding new
bits_lem bits key_size e = ground arith

module _ (c : Crypto) (laws : IsCrypto c) where
  length-sha1 : (b : Bytes) → length (sha1 c b) ≡ 20
  unfolding digest_len
  length-sha1 b = laws.length-hash HashAlgorithm.sha1 b

  -- For a key length of up to 40 bytes, the ladder yields a key of exactly that length.
  pub derive_standard_key_lem :
      (password salt : Bytes) (n : ℕ)
      → n ≤ 40
      → (key : Bytes) × (derive_standard_key c password salt n ≡ ok key) × (length key ≡ n)
  unfolding derive_standard_key
  derive_standard_key_lem password salt n h =
      let h_final =
        sha1 c (spin_rounds c spin_count 0 (sha1 c (salt ++ password)) ++ to_le_bytes 4 0) in
      let front = sha1 c (pad 0x36 64 h_final) in
      let back = sha1 c (pad 0x5C 64 h_final) in
      (
        take n (front ++ back),
        ground arith,
        omega (
          arith,
          length-take n (front ++ back),
          length-append front back,
          length-sha1 (pad 0x36 64 h_final),
          length-sha1 (pad 0x5C 64 h_final),
        ),
      )

  length-hash_block : (verifier : Bytes) → length (zero_padded (sha1 c verifier) 32) ≡ 32
  length-hash_block verifier = omega (
    arith,
    length-sha1 verifier,
    length-append (sha1 c verifier) (replicate (32 - length (sha1 c verifier)) 0),
    length-replicate {A = ℕ} (32 - length (sha1 c verifier)) 0,
  )

  module _ (key_size : AesKeySize) (salt verifier key : Bytes) (k : IsAesKey key)
      (v : length verifier ≡ 16) where
    abbrev material : StandardKeyMaterial
    material = record {
      key_size = key_size;
      salt = salt;
      key = key;
      encrypted_verifier = c.ecb_encrypt key verifier;
      encrypted_verifier_hash = c.ecb_encrypt key (zero_padded (sha1 c verifier) 32);
    }

    sizes :
        (length material.encrypted_verifier ≡ 16) × (length material.encrypted_verifier_hash ≡ 32)
    sizes =
        let block = zero_padded (sha1 c verifier) 32 in
        (
          laws.length-ecb_encrypt key verifier (omega arith) ∙ v,
          laws.length-ecb_encrypt key block (omega (arith, length-hash_block verifier))
              ∙ length-hash_block verifier,
        )

    generate_lem :
        (password : Bytes) (rng : Rng)
        → rng 0 16 ≡ ok salt
        → rng 1 16 ≡ ok verifier
        → derive_standard_key c password salt (key_size.bits / 8) ≡ ok key
        → generate c password key_size rng ≡ ok material
    unfolding generate
    generate_lem password rng d0 d1 e = ground (
      arith,
      sizes,
      ecb_encrypt_lem c key verifier k (omega arith),
      length-hash_block verifier,
      ecb_encrypt_lem c key (zero_padded (sha1 c verifier) 32) k,
    )

    abbrev found : StandardParams
    found = record {
      salt = salt;
      encrypted_verifier = material.encrypted_verifier;
      encrypted_verifier_hash = material.encrypted_verifier_hash;
      key_size_bytes = key_size.bits / 8;
    }

    verify_lem : verify_password c key found ≡ ok tt
    unfolding verify_password
    verify_lem =
        let block = zero_padded (sha1 c verifier) 32 in
        ground (
          arith,
          sizes,
          length-hash_block verifier,
          ecb_decrypt_lem c key material.encrypted_verifier k,
          ecb_decrypt_lem c key material.encrypted_verifier_hash k,
          laws.ecb_decrypt-encrypt key verifier k,
          laws.ecb_decrypt-encrypt key block k,
          slice_front (sha1 c verifier) (replicate (32 - length (sha1 c verifier)) 0) 20
              (sym (length-sha1 verifier)),
          ct_eq_refl (sha1 c verifier),
        )

  -- For every key size that `AesKeySize::new` takes and a random source that answers, `generate`
  -- yields key material; the `EncryptionInfo` stream written for it is parsed; and from what is
  -- parsed, the same password derives the same key, which AES takes, and is accepted.
  pub verify_password-generate :
      (password : Bytes) (bits : ℕ) (key_size : AesKeySize) (rng : Rng)
      → new bits ≡ ok key_size
      → IsRng rng
      → (m : StandardKeyMaterial) × (params : StandardParams) × (generate c password key_size rng
          ≡ ok m)
        × (parse_encryption_info (
              drop 8 (
                write_encryption_info m.key_size m.salt m.encrypted_verifier
                  m.encrypted_verifier_hash))
            ≡ ok params)
        × (derive_standard_key c password params.salt params.key_size_bytes ≡ ok m.key)
        × (verify_password c m.key params ≡ ok tt)
        × IsAesKey m.key
  verify_password-generate password bits key_size rng e r =
      let (salt, d0, s) = r.draws 0 16 in
      let (verifier, d1, v) = r.draws 1 16 in
      let width = bits_lem bits key_size e in
      let (key, derived, size) =
        derive_standard_key_lem password salt (key_size.bits / 8) (omega (arith, width)) in
      let k : IsAesKey key = ground (arith, width, size) in
      (
        material key_size salt verifier key k v,
        found key_size salt verifier key k v,
        generate_lem key_size salt verifier key k v password rng d0 d1 derived,
        parse_encryption_info-write_encryption_info salt (c.ecb_encrypt key verifier)
            (c.ecb_encrypt key (zero_padded (sha1 c verifier) 32)) s
            (sizes key_size salt verifier key k v).0 (sizes key_size salt verifier key k v).1 bits
            key_size e,
        derived,
        verify_lem key_size salt verifier key k v,
        k,
      )
