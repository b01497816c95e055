-- ===== src/LegacyScheme.antt =====
-- The choice of an RC4 family by the version of a header structure, which src/word97.rs and
-- src/excel97.rs make alike.
pub mod Accept
use msoffice_crypto.Base.{
  ℕ, Bool, true, false, ◌&&◌, leb, ◌==◌, if◌then◌else◌, Option, none, some, and_then, List, length,
}
use msoffice_crypto.Base.Bytes.{Bytes}
use msoffice_crypto.FileParams.{FileField, FileProblem}
use msoffice_crypto.Error.{Error, Result, ok, err, ◌>>=◌, ◌>>◌, ok_or, bad}
use msoffice_crypto.Hash.{Crypto}
use msoffice_crypto.Rc4.{BlockKeySchedule}
use msoffice_crypto.BinaryOffice.{le16}
use msoffice_crypto.Rc4Office97.{parse_office97, new_office97, office97_block_key, verify_office97}
use msoffice_crypto.Rc4Cryptoapi.{
  parse_cryptoapi, new_cryptoapi, cryptoapi_block_key, verify_cryptoapi, doc_props_in_the_clear,
}

unfoldable pub version_of : Bytes → Option (ℕ × ℕ)
unfolding le16
version_of structure =
    and_then (le16 structure 0) λ major. and_then (le16 structure 2) λ minor. some (major, minor)

module _ (c : Crypto) (password : List ℕ) (structure : Bytes) where
  unfoldable pub office97_schedule : Result (BlockKeySchedule × Bool)
  office97_schedule = do
    header ← parse_office97 structure
    let schedule = new_office97 c password header.salt
    verify_office97 c schedule header
    ok (office97_block_key c schedule, true)

  unfoldable pub cryptoapi_schedule : Result (BlockKeySchedule × Bool)
  cryptoapi_schedule = do
    header ← parse_cryptoapi structure
    schedule ← new_cryptoapi c password header.salt header.key_bits
    verify_cryptoapi c schedule header
    ok (cryptoapi_block_key c schedule, doc_props_in_the_clear header)

  -- The schedule of an accepted password, and whether the properties are in the clear.
  unfoldable pub schedule_of : Result (BlockKeySchedule × Bool)
  schedule_of = do
    (major, minor) ←
        ok_or (version_of structure)
          (bad FileField.encryption_version_info (FileProblem.truncated (length structure) 4))
    if major == 1 && minor == 1
        then office97_schedule
        else if leb 2 major && leb major 4 && minor == 2
        then cryptoapi_schedule
        else err (Error.unsupported_encryption_version major minor)
