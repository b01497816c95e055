-- ===== src/Standard/Info.antt =====
-- `write_encryption_info` of src/standard_encrypt.rs and `parse_encryption_info` of
-- src/standard.rs.
use msoffice_crypto.Base.{
  ℕ, ◌/◌, ◌≡◌, refl, sym, ap, ◌∙◌, arith, ◌++◌, length, take, drop, length-append, take_front,
  drop_front, drop-drop, take_all, some,
}
use msoffice_crypto.Base.Bytes.{Bytes, slice, to_le_bytes, from_le_bytes, slice_middle}
use msoffice_crypto.Error.{ok}
use msoffice_crypto.Standard.{
  AesKeySize, new, aes_key_bits, require_sha1, check_named, parse_header, parse_verifier,
  parse_encryption_info, write_encryption_info, header_bytes, verifier_bytes, read_u32,
}

header_128 : parse_header (header_bytes (record { bits = 128; alg_id = 0x660E })) ≡ ok 128
unfolding parse_header aes_key_bits require_sha1 check_named to_le_bytes from_le_bytes take drop
header_128 = refl

header_192 : parse_header (header_bytes (record { bits = 192; alg_id = 0x660F })) ≡ ok 192
unfolding parse_header aes_key_bits require_sha1 check_named to_le_bytes from_le_bytes take drop
header_192 = refl

header_256 : parse_header (header_bytes (record { bits = 256; alg_id = 0x6610 })) ≡ ok 256
unfolding parse_header aes_key_bits require_sha1 check_named to_le_bytes from_le_bytes take drop
header_256 = refl

-- A key size that `new` makes is read back from the header.
header_lem :
    (bits : ℕ) (key_size : AesKeySize)
    → new bits ≡ ok key_size
    → parse_header (header_bytes key_size) ≡ ok key_size.bits
unfolding new
header_lem bits key_size e = ground (arith, header_128, header_192, header_256)

length_header : (key_size : AesKeySize) → length (header_bytes key_size) ≡ 140
unfolding to_le_bytes
length_header key_size = refl

length_size : (n : ℕ) → 4 ≡ length (to_le_bytes 4 n)
unfolding to_le_bytes
length_size n = refl

module _ (salt verifier hash : Bytes) (s : length salt ≡ 16) (v : length verifier ≡ 16)
    (h : length hash ≡ 32) where
  abbrev tail : Bytes
  tail = verifier_bytes salt verifier hash

  verifier_fields :
      (read_u32 tail 0 ≡ 16)
      × (take 16 (drop 4 tail) ≡ salt)
      × (take 16 (drop 20 tail) ≡ verifier)
      × (read_u32 tail 36 ≡ 20)
      × (take 32 (drop 40 tail) ≡ hash)
      × (length tail ≡ 72)
  unfolding to_le_bytes from_le_bytes take drop
  verifier_fields =
      let at4 : drop 4 tail ≡ salt ++ (verifier ++ (to_le_bytes 4 20 ++ hash)) = refl in
      let at20 : drop 20 tail ≡ verifier ++ (to_le_bytes 4 20 ++ hash) =
        sym (drop-drop 16 4 tail) ∙ drop_front salt _ 16 (sym s) in
      let at36 : drop 36 tail ≡ to_le_bytes 4 20 ++ hash =
        sym (drop-drop 16 20 tail) ∙ ap (drop 16) at20 ∙ drop_front verifier _ 16 (sym v) in
      let at40 : drop 40 tail ≡ hash = sym (drop-drop 4 36 tail) ∙ ap (drop 4) at36 in
      let size4 = length-append salt (verifier ++ (to_le_bytes 4 20 ++ hash)) in
      let size20 = length-append verifier (to_le_bytes 4 20 ++ hash) in
      (
        refl,
        take_front salt _ 16 (sym s),
        ap (take 16) at20 ∙ take_front verifier _ 16 (sym v),
        ap (λ b. from_le_bytes (take 4 b)) at36,
        ap (take 32) at40 ∙ take_all 32 hash (omega arith),
        omega (arith, size4, size20),
      )

  parse_verifier_lem :
      (bits : ℕ)
      → parse_verifier tail bits
        ≡ ok (record {
          salt = salt;
          encrypted_verifier = verifier;
          encrypted_verifier_hash = hash;
          key_size_bytes = bits / 8;
        })
  unfolding parse_verifier
  parse_verifier_lem bits =
      let (a, b, c, d, e, f) = verifier_fields in ground (arith, a, b, c, d, e, f)

  abbrev body : AesKeySize → Bytes
  body key_size = to_le_bytes 4 140 ++ (header_bytes key_size ++ tail)

  body_fields :
      (key_size : AesKeySize)
      → (read_u32 (body key_size) 0 ≡ 140)
        × (slice (body key_size) 4 140 ≡ some (header_bytes key_size))
        × (drop 144 (body key_size) ≡ tail)
        × (drop 8 (write_encryption_info key_size salt verifier hash) ≡ body key_size)
  unfolding drop take to_le_bytes from_le_bytes write_encryption_info
  body_fields key_size = (
    refl,
    slice_middle (to_le_bytes 4 140) (header_bytes key_size) tail 4 140 refl refl,
    refl,
    refl,
  )

  body_lem :
      (bits : ℕ) (key_size : AesKeySize)
      → new bits ≡ ok key_size
      → parse_encryption_info (body key_size)
        ≡ ok (record {
          salt = salt;
          encrypted_verifier = verifier;
          encrypted_verifier_hash = hash;
          key_size_bytes = key_size.bits / 8;
        })
  unfolding parse_encryption_info
  body_lem bits key_size e =
      let (a, b, c, d) = body_fields key_size in
      ground (
        arith,
        a,
        b,
        c,
        header_lem bits key_size e,
        parse_verifier_lem key_size.bits,
        length-append (to_le_bytes 4 140) (header_bytes key_size ++ tail),
        length-append (header_bytes key_size) tail,
        length_header key_size,
      )

  -- For every key size that `AesKeySize::new` takes, a salt and a verifier of 16 bytes and a
  -- hash blob of 32: behind the version and the flags of what is written, the parser finds the
  -- salt, the two blobs and the key length.
  pub parse_encryption_info-write_encryption_info :
      (bits : ℕ) (key_size : AesKeySize)
      → new bits ≡ ok key_size
      → parse_encryption_info (drop 8 (write_encryption_info key_size salt verifier hash))
        ≡ ok (record {
          salt = salt;
          encrypted_verifier = verifier;
          encrypted_verifier_hash = hash;
          key_size_bytes = key_size.bits / 8;
        })
  parse_encryption_info-write_encryption_info bits key_size e =
      ap parse_encryption_info (body_fields key_size).3 ∙ body_lem bits key_size e
