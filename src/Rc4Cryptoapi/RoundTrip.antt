-- ===== src/Rc4Cryptoapi/RoundTrip.antt =====
-- A header structure of src/rc4_cryptoapi.rs, written out, and what `parse` and `verify` make of it.
use msoffice_crypto.Base.{
  ℕ, ◌+◌, ◌/◌, ◌%◌, ◌≤◌, ◌<◌, ◌^◌, ◌≡◌, sym, ap, ◌∙◌, arith, true, false, some, ◌++◌, length, drop,
  length-append, take_front, drop_front, drop-drop, take_all, get_elem?, ◌*◌,
}
use msoffice_crypto.Base.Bytes.{Bytes, slice, to_le_bytes}
use msoffice_crypto.Error.{ok}
use msoffice_crypto.BinaryOffice.{le16, le32, has_flag}
use msoffice_crypto.BinaryOffice.Fields.{le32-front, le32-drop}
use msoffice_crypto.Rc4Cryptoapi.{
  CryptoApiHeader, parse_fixed_header, parse_rc4_verifier, prefix_fields, parse_cryptoapi,
  flag_crypto_api, flag_external, flag_aes, alg_id_rc4, alg_id_hash_sha1,
}
use msoffice_crypto.Rc4Cryptoapi.Check.{IsRc4KeyBits, is_rc4_key_bits_iff}

-- The fixed part of the header, and the name of the provider behind it.
abbrev pub cryptoapi_header : (flags key_bits : ℕ) → Bytes → Bytes
cryptoapi_header flags key_bits csp_name =
    to_le_bytes 4 flags
    ++ (to_le_bytes 4 0
        ++ (to_le_bytes 4 alg_id_rc4
            ++ (to_le_bytes 4 alg_id_hash_sha1
                ++ (to_le_bytes 4 key_bits
                    ++ (to_le_bytes 4 1 ++ (to_le_bytes 4 0 ++ (to_le_bytes 4 0 ++ csp_name)))))))

abbrev pub cryptoapi_verifier : CryptoApiHeader → Bytes
cryptoapi_verifier header =
    to_le_bytes 4 16
    ++ (header.salt
        ++ (header.encrypted_verifier ++ (to_le_bytes 4 20 ++ header.encrypted_verifier_hash)))

-- The structure, version 2.2.
abbrev pub cryptoapi_bytes : CryptoApiHeader → (csp_name : Bytes) → Bytes
cryptoapi_bytes header csp_name =
    (to_le_bytes 2 2
      ++ (to_le_bytes 2 2 ++ (to_le_bytes 4 header.flags ++ to_le_bytes 4 (32 + length csp_name))))
    ++ (cryptoapi_header header.flags header.key_bits csp_name ++ cryptoapi_verifier header)

-- The flags of RC4 CryptoAPI: `fCryptoAPI`, and neither `fExternal` nor `fAES`.
abbrev pub IsCryptoApiFlags : ℕ → Type 0
IsCryptoApiFlags flags =
    (flags < 2 ^ 32)
    × (has_flag flag_crypto_api flags ≡ true)
    × (has_flag flag_external flags ≡ false)
    × (has_flag flag_aes flags ≡ false)

module _ (flags key_bits : ℕ) (csp_name : Bytes) (f : IsCryptoApiFlags flags)
    (b : IsRc4KeyBits key_bits) where
  header_lem : parse_fixed_header (cryptoapi_header flags key_bits csp_name) ≡ ok (flags, key_bits)
  unfolding parse_fixed_header le32 to_le_bytes get_elem?
  header_lem =
      let accepted = (is_rc4_key_bits_iff key_bits).1 b in
      let (size, api, external, aes) = f in
      let p : (flags % 256
            + 256 * (flags / 256 % 256)
            + 65536 * (flags / 256 / 256 % 256)
            + 16777216 * (flags / 256 / 256 / 256 % 256))
          ≡ flags =
        omega arith in
      let q : (key_bits % 256
            + 256 * (key_bits / 256 % 256)
            + 65536 * (key_bits / 256 / 256 % 256)
            + 16777216 * (key_bits / 256 / 256 / 256 % 256))
          ≡ key_bits =
        omega (arith, b) in
      rw (p, q, external, aes, api) (ground (arith, accepted))

module _ (salt verifier hash : Bytes) (s : length salt ≡ 16) (v : length verifier ≡ 16)
    (h : length hash ≡ 20) where
  abbrev parts : Bytes
  parts = to_le_bytes 4 16 ++ (salt ++ (verifier ++ (to_le_bytes 4 20 ++ hash)))

  length-parts : length parts ≡ 60
  unfolding to_le_bytes
  length-parts = omega (
    arith,
    length-append salt (verifier ++ (to_le_bytes 4 20 ++ hash)),
    length-append verifier (to_le_bytes 4 20 ++ hash),
  )

  at20 : drop 20 parts ≡ verifier ++ (to_le_bytes 4 20 ++ hash)
  unfolding to_le_bytes drop
  at20 = drop_front salt (verifier ++ (to_le_bytes 4 20 ++ hash)) 16 (sym s)

  at36 : drop 36 parts ≡ to_le_bytes 4 20 ++ hash
  at36 =
      sym (drop-drop 16 20 parts)
      ∙ ap (drop 16) at20
      ∙ drop_front verifier (to_le_bytes 4 20 ++ hash) 16 (sym v)

  at40 : drop 40 parts ≡ hash
  unfolding to_le_bytes drop
  at40 = sym (drop-drop 4 36 parts) ∙ ap (drop 4) at36

  sizes : (le32 parts 0 ≡ some 16) × (le32 parts 36 ≡ some 20)
  sizes = (
    le32-front 16 (salt ++ (verifier ++ (to_le_bytes 4 20 ++ hash))) (omega arith),
    le32-drop parts 36 at36 ∙ le32-front 20 hash (omega arith),
  )

  verifier_lem : parse_rc4_verifier parts ≡ ok (salt, verifier, hash)
  unfolding parse_rc4_verifier slice drop to_le_bytes
  verifier_lem =
      let (a, b) = sizes in
      ground (
        arith,
        length-parts,
        a,
        b,
        at20,
        at40,
        take_front salt (verifier ++ (to_le_bytes 4 20 ++ hash)) 16 (sym s),
        take_front verifier (to_le_bytes 4 20 ++ hash) 16 (sym v),
        take_all 20 hash,
      )

-- A header of fields that fit: the flags, the key bits and the three lengths.
abbrev pub IsWritable : CryptoApiHeader → Type 0
IsWritable header =
    IsCryptoApiFlags header.flags
    × IsRc4KeyBits header.key_bits
    × (length header.salt ≡ 16)
    × (length header.encrypted_verifier ≡ 16)
    × (length header.encrypted_verifier_hash ≡ 20)

module _ (header : CryptoApiHeader) (csp_name : Bytes) (w : IsWritable header)
    (fits : length csp_name ≤ 992) where
  abbrev structure : Bytes
  structure = cryptoapi_bytes header csp_name

  abbrev fixed : Bytes
  fixed = cryptoapi_header header.flags header.key_bits csp_name

  abbrev back : Bytes
  back = cryptoapi_verifier header

  prefix_lem : prefix_fields structure ≡ some (2, 2, 32 + length csp_name)
  unfolding prefix_fields le16 le32 to_le_bytes get_elem?
  prefix_lem = ap (λ n. some (2, 2, n)) (omega (arith, fits))

  length-fixed : length fixed ≡ 32 + length csp_name
  unfolding to_le_bytes
  length-fixed = omega arith

  fixed-slice : slice structure 12 (32 + length csp_name) ≡ some fixed
  unfolding to_le_bytes slice drop
  fixed-slice =
      let whole = length-append fixed back in
      let front = take_front fixed back (32 + length csp_name) (sym length-fixed) in
      ground (arith, whole, front, length-fixed)

  back-slice : slice structure (12 + (32 + length csp_name)) 60 ≡ some back
  unfolding slice to_le_bytes drop
  back-slice =
      let n = 32 + length csp_name in
      let at : drop (12 + n) structure ≡ back =
        sym (drop-drop n 12 structure) ∙ drop_front fixed back n (sym length-fixed) in
      let (f, b, s, v, h) = w in
      let size : length back ≡ 60 =
        length-parts header.salt header.encrypted_verifier header.encrypted_verifier_hash s v h in
      let whole : length structure ≡ 12 + (n + 60) =
        omega (arith, length-append fixed back, length-fixed, size) in
      ground (arith, at, size, whole, take_all 60 back)

  -- `parse` reads back what is written.
  pub parse_written : parse_cryptoapi structure ≡ ok header
  unfolding parse_cryptoapi
  parse_written =
      let (f, b, s, v, h) = w in
      let fields = header_lem header.flags header.key_bits csp_name f b in
      let read =
        verifier_lem header.salt header.encrypted_verifier header.encrypted_verifier_hash s v h in
      ground (arith, prefix_lem, fixed-slice, back-slice, fields, read, fits)
