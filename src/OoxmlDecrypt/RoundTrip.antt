-- ===== src/OoxmlDecrypt/RoundTrip.antt =====
-- From a whole file to the package: `decrypt_ooxml_core` of src/lib.rs on what `encrypt_to` of
-- src/agile_encrypt.rs puts into a container.
use msoffice_crypto.Base.{
  ℕ, ◌≤◌, ◌≡◌, ◌≢◌, ◌∙◌, sym, arith, true, Option, List, [], ◌∷◌, ◌++◌, length, take, drop,
}
use mathlib.Core.Path.{subst}
use msoffice_crypto.Base.Bytes.{Bytes, from_le_bytes}
use msoffice_crypto.Error.{Result, ok}
use msoffice_crypto.Hash.{Crypto}
use msoffice_crypto.Hash.Laws.{IsCrypto}
use msoffice_crypto.Reader.{Reader, Event, read_full}
use msoffice_crypto.Reader.Full.{NoFailure}
use msoffice_crypto.Integrity.{IntegrityPolicy, IntegrityOutcome}
use msoffice_crypto.EncryptParams.{EncryptParams}
use msoffice_crypto.EncryptParams.Accept.{IsUsable}
use msoffice_crypto.Agile.{AgileParams}
use msoffice_crypto.Agile.Generate.{Rng}
use msoffice_crypto.Agile.Generate.Written.{IsRng}
use msoffice_crypto.Agile.Package.{streamed_package_max}
use msoffice_crypto.Agile.Seal.{Sealed, encrypt_to}
use msoffice_crypto.Agile.Open.{decrypt_to}
use msoffice_crypto.Agile.Open.RoundTrip.{read_sealed, decrypt_to-encrypt_to}
use msoffice_crypto.BinaryDecrypt.{is_cfb_office}
use msoffice_crypto.OoxmlDecrypt.{
  OpenFile, PackageStream, decrypt_ooxml_core, decrypt_version, decrypt_agile, open_streams,
  check_reserved, check_magic,
}

-- The first eight bytes of agile EncryptionInfo.
abbrev pub agile_header : Bytes
agile_header = 4 ∷ 0 ∷ 4 ∷ 0 ∷ 0x40 ∷ 0 ∷ 0 ∷ 0 ∷ []

ok_inj {ℓ} : {A : Type ℓ} {a b : A} → Path (Result A) (ok a) (ok b) → a ≡ b
ok_inj h = cc

module _ (c : Crypto) (parse_agile : Bytes → Result AgileParams) where
  dispatch_lem :
      (xml : Bytes) (stream : PackageStream) (params : AgileParams) (password : Bytes)
      (policy : IntegrityPolicy)
      → parse_agile xml ≡ ok params
      → decrypt_version c parse_agile (agile_header ++ xml) stream password policy
        ≡ decrypt_to c params stream.first stream.len stream.second password policy
  unfolding decrypt_version decrypt_agile check_reserved from_le_bytes take drop
  dispatch_lem xml stream params password policy parsed = ground (arith, parsed)

  -- What the entry point does once the container is open and its `EncryptionInfo` parsed.
  pub core_lem :
      (reader rest : Reader) (magic xml : Bytes) (file : OpenFile) (ceiling : Option ℕ)
      (stream : PackageStream) (params : AgileParams) (password : Bytes) (policy : IntegrityPolicy)
      → read_full reader 8 ≡ ok (magic, rest)
      → is_cfb_office magic ≡ true
      → open_streams file ceiling ≡ ok (agile_header ++ xml, stream)
      → parse_agile xml ≡ ok params
      → decrypt_ooxml_core c parse_agile reader file password policy ceiling
        ≡ decrypt_to c params stream.first stream.len stream.second password policy
  unfolding decrypt_ooxml_core check_magic
  core_lem reader rest magic xml file ceiling stream params password policy read signed found
        parsed =
      let dispatched = dispatch_lem xml stream params password policy parsed in
      rw (read, signed, found) dispatched

  module _ (laws : IsCrypto c) where
    -- For usable parameters, a random source that answers, a policy that checks, and reads that do
    -- not fail: when `encrypt_to` has made `s` of a package of at most 0x7FFFFFF0 bytes, a file with
    -- the signature of a compound file, whose `EncryptionInfo` is the agile header in front of XML
    -- that is parsed as what `s` holds, and whose `EncryptedPackage` is the stream of `s`, is
    -- decrypted to the package, verified.
    pub decrypt_ooxml_core-encrypt_to :
        (p password : Bytes) (params : EncryptParams) (rng : Rng) (policy : IntegrityPolicy)
        (events first second : List Event) (s : Sealed) (reader rest : Reader) (magic xml : Bytes)
        (file : OpenFile) (ceiling : Option ℕ)
        → IsUsable params
        → IsRng rng
        → policy ≢ IntegrityPolicy.skip
        → NoFailure events
        → NoFailure first
        → NoFailure second
        → length p ≤ streamed_package_max
        → encrypt_to c (record { content = p; schedule = events }) (length p) password params rng
          ≡ ok s
        → read_full reader 8 ≡ ok (magic, rest)
        → is_cfb_office magic ≡ true
        → open_streams file ceiling
          ≡ ok (
            agile_header ++ xml,
            record {
              len = length s.stream;
              first = record { content = s.stream; schedule = first };
              second = record { content = s.stream; schedule = second };
            },
          )
        → parse_agile xml ≡ ok (read_sealed s)
        → decrypt_ooxml_core c parse_agile reader file password policy ceiling
          ≡ (p, ok IntegrityOutcome.verified)
    decrypt_ooxml_core-encrypt_to p password params rng policy events first second s reader rest
          magic xml file ceiling usable answers asks calm calm' calm'' small made read signed found
          parsed =
        let (s', made', opens) =
          decrypt_to-encrypt_to c laws p password params rng policy events first second usable
            answers asks calm calm' calm'' small in
        let same : s' ≡ s = ok_inj (sym made' ∙ made) in
        core_lem reader rest magic xml file ceiling
          (record {
            len = length s.stream;
            first = record { content = s.stream; schedule = first };
            second = record { content = s.stream; schedule = second };
          })
          (read_sealed s) password policy read signed found parsed
        ∙ subst
            (λ x.
              decrypt_to c (read_sealed x) (record { content = x.stream; schedule = first })
                (length x.stream) (record { content = x.stream; schedule = second }) password policy
              ≡ (p, ok IntegrityOutcome.verified))
            same opens
