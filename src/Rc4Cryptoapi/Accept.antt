-- ===== src/Rc4Cryptoapi/Accept.antt =====
-- The check of src/rc4_cryptoapi.rs from a stored structure to the verdict.
use msoffice_crypto.Base.{ℕ, ◌≤◌, ◌≡◌, ap, ◌∙◌, length, List}
use msoffice_crypto.Base.Bytes.{Bytes}
use msoffice_crypto.Classification.{HashAlgorithm}
use msoffice_crypto.Error.{ok, ◌>>=◌}
use msoffice_crypto.Hash.{Crypto, digest_len}
use msoffice_crypto.Hash.Laws.{IsCrypto}
use msoffice_crypto.Rc4.Blocks.{length-xor_from}
use msoffice_crypto.Rc4.Verify.{stored_verifier, stored_hash, verify_password-stored}
use msoffice_crypto.Rc4Cryptoapi.{
  CryptoApiHeader, CryptoApiKeySchedule, parse_cryptoapi, new_cryptoapi, cryptoapi_block_key,
  verify_cryptoapi,
}
use msoffice_crypto.Rc4Cryptoapi.Check.{
  IsRc4KeyBits, block_key-IsRc4Schedule, new_cryptoapi_lem, schedule_of,
}
use msoffice_crypto.Rc4Cryptoapi.RoundTrip.{
  IsCryptoApiFlags, IsWritable, cryptoapi_bytes, parse_written,
}

module _ (c : Crypto) (laws : IsCrypto c) (password : List ℕ) (flags key_bits : ℕ)
    (f : IsCryptoApiFlags flags) (b : IsRc4KeyBits key_bits) (salt verifier : Bytes)
    (s : length salt ≡ 16) (v : length verifier ≡ 16) where
  abbrev schedule : CryptoApiKeySchedule
  schedule = schedule_of c password salt key_bits

  abbrev sha1 : Bytes → Bytes
  sha1 = c.hash_bytes HashAlgorithm.sha1

  -- The header that a writer stores for a password, a salt and a verifier.
  abbrev pub stored_cryptoapi : CryptoApiHeader
  stored_cryptoapi =
      let usable = block_key-IsRc4Schedule c laws schedule b 0 in
      record {
        key_bits = key_bits;
        flags = flags;
        salt = salt;
        encrypted_verifier =
            stored_verifier c (cryptoapi_block_key c schedule) sha1 usable verifier;
        encrypted_verifier_hash =
            stored_hash c (cryptoapi_block_key c schedule) sha1 usable verifier;
      }

  length-stored_hash : length stored_cryptoapi.encrypted_verifier_hash ≡ 20
  unfolding digest_len
  length-stored_hash =
      let k = c.rc4_keystream (cryptoapi_block_key c schedule 0) in
      length-xor_from k (length verifier) (sha1 verifier)
      ∙ laws.length-hash HashAlgorithm.sha1 verifier

  accepted : verify_cryptoapi c schedule stored_cryptoapi ≡ ok tt
  unfolding verify_cryptoapi
  accepted =
      verify_password-stored c (cryptoapi_block_key c schedule) sha1
        (block_key-IsRc4Schedule c laws schedule b 0) verifier

  -- For key bits from 40 to 128 that are whole bytes, flags below 2^32 that announce RC4
  -- CryptoAPI, a salt and a verifier of 16 bytes each and a provider name of at most 992 bytes: the
  -- structure that a writer stores for a password is parsed, the schedule of what was parsed is
  -- made, and the password is accepted.
  pub check_cryptoapi-stored :
      (csp_name : Bytes)
      → length csp_name ≤ 992
      → (parse_cryptoapi (cryptoapi_bytes stored_cryptoapi csp_name) >>= λ header.
          new_cryptoapi c password header.salt header.key_bits >>= λ made.
          verify_cryptoapi c made header)
        ≡ ok tt
  check_cryptoapi-stored csp_name fits =
      let k = c.rc4_keystream (cryptoapi_block_key c schedule 0) in
      let w : IsWritable stored_cryptoapi =
        (f, b, s, length-xor_from k 0 verifier ∙ v, length-stored_hash) in
      ap
        (λ r. r >>= λ header. new_cryptoapi c password header.salt header.key_bits >>= λ made.
          verify_cryptoapi c made header)
        (parse_written stored_cryptoapi csp_name w fits)
      ∙ ap (λ r. r >>= λ made. verify_cryptoapi c made stored_cryptoapi)
          (new_cryptoapi_lem c password salt key_bits b)
      ∙ accepted
