-- ===== src/Rc4Office97/Check.antt =====
-- The header, the key schedule and the check of src/rc4_office97.rs.
use msoffice_crypto.Base.{
  ℕ, ◌≡◌, sym, ap, ◌∙◌, arith, some, ◌++◌, length, drop, length-append, take_front, drop_front,
  drop-drop, take_all, List,
}
use msoffice_crypto.Base.Bytes.{Bytes, slice, to_le_bytes}
use msoffice_crypto.Error.{ok, ◌>>=◌}
use msoffice_crypto.Hash.{Crypto}
use msoffice_crypto.Hash.Laws.{IsCrypto}
use msoffice_crypto.Rc4.Blocks.{IsRc4Schedule, length-xor_from}
use msoffice_crypto.Rc4.Verify.{stored_verifier, stored_hash, verify_password-stored}
use msoffice_crypto.BinaryOffice.{le16}
use msoffice_crypto.Rc4Office97.{
  Office97Header, Office97KeySchedule, parse_office97, new_office97, office97_block_key,
  verify_office97,
}

-- The header as a writer lays it out: version 1.1, the salt, the verifier and its hash.
abbrev pub office97_bytes : Office97Header → Bytes
office97_bytes header =
    to_le_bytes 2 1
    ++ (to_le_bytes 2 1
        ++ (header.salt ++ (header.encrypted_verifier ++ header.encrypted_verifier_hash)))

abbrev pub IsOffice97Header : Office97Header → Type 0
IsOffice97Header header =
    (length header.salt ≡ 16)
    × (length header.encrypted_verifier ≡ 16)
    × (length header.encrypted_verifier_hash ≡ 16)

module _ (salt verifier hash : Bytes) (s : length salt ≡ 16) (v : length verifier ≡ 16)
    (h : length hash ≡ 16) where
  abbrev header : Office97Header
  header = record { salt = salt; encrypted_verifier = verifier; encrypted_verifier_hash = hash }

  abbrev body : Bytes
  body = salt ++ (verifier ++ hash)

  length-body : length body ≡ 48
  length-body = omega (arith, length-append salt (verifier ++ hash), length-append verifier hash)

  body_lem : slice (office97_bytes header) 4 48 ≡ some body
  unfolding slice drop to_le_bytes
  body_lem = ground (arith, length-body, take_all 48 body)

  fields :
      (slice body 0 16 ≡ some salt)
      × (slice body 16 16 ≡ some verifier)
      × (slice body 32 16 ≡ some hash)
  unfolding slice drop
  fields =
      let at16 : drop 16 body ≡ verifier ++ hash = drop_front salt (verifier ++ hash) 16 (sym s) in
      let at32 : drop 32 body ≡ hash =
        sym (drop-drop 16 16 body) ∙ ap (drop 16) at16 ∙ drop_front verifier hash 16 (sym v) in
      (
        ground (arith, length-body, take_front salt (verifier ++ hash) 16 (sym s)),
        ground (arith, length-body, at16, take_front verifier hash 16 (sym v)),
        ground (arith, length-body, at32, take_all 16 hash),
      )

  parse_fields : parse_office97 (office97_bytes header) ≡ ok header
  unfolding parse_office97 le16 to_le_bytes
  parse_fields = let (a, b, d) = fields in ground (arith, body_lem, a, b, d)

-- Every header whose three fields have 16 bytes each is read back as it was written.
pub parse_office97_lem :
    (header : Office97Header)
    → IsOffice97Header header
    → parse_office97 (office97_bytes header) ≡ ok header
parse_office97_lem header (s, v, h) =
    parse_fields header.salt header.encrypted_verifier header.encrypted_verifier_hash s v h

module _ (c : Crypto) (laws : IsCrypto c) where
  pub office97_block_key-IsRc4Schedule :
      (schedule : Office97KeySchedule) → IsRc4Schedule (office97_block_key c schedule)
  unfolding office97_block_key
  office97_block_key-IsRc4Schedule schedule i =
      let size = laws.length-md5 (schedule.truncated_h1 ++ to_le_bytes 4 i) in
      (omega (arith, size), omega (arith, size))

  -- The header that a writer makes for a password, a salt and a verifier.
  abbrev pub stored_office97 : List ℕ → (salt verifier : Bytes) → Office97Header
  stored_office97 password salt verifier =
      let schedule = office97_block_key c (new_office97 c password salt) in
      let usable = office97_block_key-IsRc4Schedule (new_office97 c password salt) 0 in
      record {
        salt = salt;
        encrypted_verifier = stored_verifier c schedule c.md5 usable verifier;
        encrypted_verifier_hash = stored_hash c schedule c.md5 usable verifier;
      }

  pub verify_office97-stored :
      (password : List ℕ) (salt verifier : Bytes)
      → verify_office97 c (new_office97 c password salt) (stored_office97 password salt verifier)
        ≡ ok tt
  unfolding verify_office97
  verify_office97-stored password salt verifier =
      let schedule = new_office97 c password salt in
      verify_password-stored c (office97_block_key c schedule) c.md5
        (office97_block_key-IsRc4Schedule schedule 0) verifier

  -- For a salt and a verifier of 16 bytes each: the header that a writer stores for a password is
  -- parsed, and the password is accepted against what was parsed.
  pub check_office97-stored :
      (password : List ℕ) (salt verifier : Bytes)
      → length salt ≡ 16
      → length verifier ≡ 16
      → (parse_office97 (office97_bytes (stored_office97 password salt verifier)) >>= λ header.
          verify_office97 c (new_office97 c password header.salt) header)
        ≡ ok tt
  check_office97-stored password salt verifier s v =
      let schedule = office97_block_key c (new_office97 c password salt) in
      let k = c.rc4_keystream (schedule 0) in
      let parsed : parse_office97 (office97_bytes (stored_office97 password salt verifier))
          ≡ ok (stored_office97 password salt verifier) =
        parse_office97_lem (stored_office97 password salt verifier) (
          s,
          length-xor_from k 0 verifier ∙ v,
          length-xor_from k (length verifier) (c.md5 verifier) ∙ laws.length-md5 verifier,
        ) in
      ap (λ r. r >>= λ header. verify_office97 c (new_office97 c password header.salt) header)
        parsed
      ∙ verify_office97-stored password salt verifier
