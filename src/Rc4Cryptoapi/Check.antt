-- ===== src/Rc4Cryptoapi/Check.antt =====
-- What the parser of src/rc4_cryptoapi.rs accepts, and the key schedule that follows from it.
use msoffice_crypto.Base.{
  ℕ, ◌+◌, ◌/◌, ◌%◌, min, ◌≤◌, ◌≡◌, ◌↔◌, arith, true, ◌++◌, length, take, replicate, length-append,
  length-take, length-replicate, List, Option-cases, inl, inr, drop, length-drop, inl, inr,
}
use msoffice_crypto.Base.Bytes.{Bytes, slice, to_le_bytes}
use msoffice_crypto.Classification.{HashAlgorithm}
use msoffice_crypto.Error.{ok, Result-cases}
use msoffice_crypto.Hash.{Crypto, digest_len}
use msoffice_crypto.Hash.Laws.{IsCrypto}
use msoffice_crypto.Rc4.Blocks.{IsRc4Schedule}
use msoffice_crypto.Rc4Office97.{utf16le_password}
use msoffice_crypto.Rc4Cryptoapi.{
  CryptoApiHeader, CryptoApiKeySchedule, is_rc4_key_bits, parse_fixed_header, parse_rc4_verifier,
  prefix_fields, parse_cryptoapi, new_cryptoapi, cryptoapi_block_key,
}

abbrev pub IsRc4KeyBits : ℕ → Type 0
IsRc4KeyBits n = (40 ≤ n) × (n ≤ 128) × (n % 8 ≡ 0)

pub is_rc4_key_bits_iff : (n : ℕ) → (is_rc4_key_bits n ≡ true) ↔ IsRc4KeyBits n
unfolding is_rc4_key_bits
is_rc4_key_bits_iff n =
    (λ h. (ground arith, ground arith, ground arith), λ (a, b, d). ground (arith, a, b, d))

parse_fixed_header-IsRc4KeyBits :
    (header : Bytes) (fields : ℕ × ℕ)
    → parse_fixed_header header ≡ ok fields
    → is_rc4_key_bits (fields.1) ≡ true
unfolding parse_fixed_header
parse_fixed_header-IsRc4KeyBits header fields e = ground arith

parse_rc4_verifier_lengths :
    (b : Bytes) (fields : Bytes × Bytes × Bytes)
    → parse_rc4_verifier b ≡ ok fields
    → (length (fields.0) ≡ 16) × (length (fields.1) ≡ 16) × (length (fields.2) ≡ 20)
unfolding parse_rc4_verifier
parse_rc4_verifier_lengths b fields e = (
  ground (arith, length-take 16 (drop 4 b), length-drop 4 b),
  ground (arith, length-take 16 (drop 20 b), length-drop 20 b),
  ground (arith, length-take 20 (drop 40 b), length-drop 40 b),
)

abbrev pub IsCryptoApiHeader : CryptoApiHeader → Type 0
IsCryptoApiHeader header =
    IsRc4KeyBits header.key_bits
    × (length header.salt ≡ 16)
    × (length header.encrypted_verifier ≡ 16)
    × (length header.encrypted_verifier_hash ≡ 20)

parse_cryptoapi_lem :
    (structure : Bytes) (header : CryptoApiHeader)
    → parse_cryptoapi structure ≡ ok header
    → IsCryptoApiHeader header
unfolding parse_cryptoapi
parse_cryptoapi_lem structure header e = elim (Option-cases (prefix_fields structure)) [
  | inl n ↦ absurd (ground arith)
  | inr (prefix, p) ↦ elim (Option-cases (slice structure 12 (prefix.2))) [
    | inl n ↦ absurd (ground arith)
    | inr (fixed, f) ↦ elim (Result-cases (parse_fixed_header fixed)) [
      | inr n ↦ absurd (ground arith)
      | inl (fields, g) ↦ elim (Option-cases (slice structure (12 + prefix.2) 60)) [
        | inl n ↦ absurd (ground arith)
        | inr (verifier, v) ↦ elim (Result-cases (parse_rc4_verifier verifier)) [
          | inr n ↦ absurd (ground arith)
          | inl (parts, q) ↦
              let b =
                (is_rc4_key_bits_iff (fields.1)).0
                  (parse_fixed_header-IsRc4KeyBits fixed fields g) in
              let l = parse_rc4_verifier_lengths verifier parts q in ground (arith, b, l)
        ]
      ]
    ]
  ]
]

abbrev pub schedule_of : Crypto → List ℕ → (salt : Bytes) → ℕ → CryptoApiKeySchedule
schedule_of c password salt key_bits = record {
  h0 = c.hash_bytes HashAlgorithm.sha1 (salt ++ utf16le_password password);
  key_bits = key_bits;
}

pub new_cryptoapi_lem :
    (c : Crypto) (password : List ℕ) (salt : Bytes) (key_bits : ℕ)
    → IsRc4KeyBits key_bits
    → new_cryptoapi c password salt key_bits ≡ ok (schedule_of c password salt key_bits)
unfolding new_cryptoapi
new_cryptoapi_lem c password salt key_bits b = ground (arith, (is_rc4_key_bits_iff key_bits).1 b)

module _ (c : Crypto) (laws : IsCrypto c) where
  pub block_key-IsRc4Schedule :
      (schedule : CryptoApiKeySchedule)
      → IsRc4KeyBits schedule.key_bits
      → IsRc4Schedule (cryptoapi_block_key c schedule)
  unfolding cryptoapi_block_key digest_len
  block_key-IsRc4Schedule schedule (low, high, m) i =
      let input = schedule.h0 ++ to_le_bytes 4 i in
      let hfinal = c.hash_bytes HashAlgorithm.sha1 input in
      let size = laws.length-hash HashAlgorithm.sha1 input in
      let bytes = length-take (min (schedule.key_bits / 8) (length hfinal)) hfinal in
      let front = length-take 5 hfinal in
      let padded = length-append (take 5 hfinal) (replicate 11 0) in
      let zeros = length-replicate {A = ℕ} 11 0 in
      ground (arith, low, high, m, size, bytes, front, padded, zeros)

  -- The schedule of an accepted header is made for every password, and gives RC4 only keys of 5 to
  -- 16 bytes.
  pub new_cryptoapi-parse_cryptoapi :
      (structure : Bytes) (header : CryptoApiHeader) (password : List ℕ)
      → parse_cryptoapi structure ≡ ok header
      → (schedule : CryptoApiKeySchedule) × (new_cryptoapi c password header.salt header.key_bits
          ≡ ok schedule)
        × IsRc4Schedule (cryptoapi_block_key c schedule)
  new_cryptoapi-parse_cryptoapi structure header password e =
      let bits = (parse_cryptoapi_lem structure header e).0 in
      let schedule = schedule_of c password header.salt header.key_bits in
      (
        schedule,
        new_cryptoapi_lem c password header.salt header.key_bits bits,
        block_key-IsRc4Schedule schedule bits,
      )
