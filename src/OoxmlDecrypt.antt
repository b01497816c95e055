-- ===== src/OoxmlDecrypt.antt =====
-- `decrypt_ooxml_core` of src/lib.rs and the entry points over it: from a reader of a whole file to
-- the package. The container that the `cfb` crate finds in the file is a parameter, and so is what
-- the parser of src/agile.rs makes of the XML.
pub mod Policy
pub mod RoundTrip
use msoffice_crypto.Base.{
  ℕ, Bool, not, ◌&&◌, ◌==◌, ltb, leb, ◌^◌, if◌then◌else◌, Option, none, some, [], length, take,
  drop,
}
use msoffice_crypto.Base.Bytes.{Bytes, from_le_bytes}
use msoffice_crypto.FileParams.{FileField, FileProblem, Bound, AlgorithmName}
use msoffice_crypto.Error.{Error, IoError, Result, ok, err, ◌>>=◌, ◌>>◌, reject_if, bad}
use msoffice_crypto.Hash.{Crypto}
use msoffice_crypto.Reader.{Reader, read_full}
use msoffice_crypto.Writer.{Written, or_stop}
use msoffice_crypto.Integrity.{IntegrityPolicy, IntegrityOutcome}
use msoffice_crypto.BinaryOffice.{Cfb}
use msoffice_crypto.DataSpaces.{rights_management_in}
use msoffice_crypto.Classify.{read_encryption_info_in}
use msoffice_crypto.BinaryDecrypt.{is_cfb_office, is_managed}
use msoffice_crypto.Agile.{AgileParams}
use msoffice_crypto.Agile.Open as AgileOpen
use msoffice_crypto.Standard.Open as StandardOpen

-- The `EncryptedPackage` stream: its length, and what a first and a second pass read from its start.
pub record PackageStream : Type 0 where
  pub len : ℕ
  pub first : Reader
  pub second : Reader

-- An open container: its streams, and the answer to opening `EncryptedPackage`.
pub data OpenPackage : Type 0 where
  missing : IoError → OpenPackage
  opened : PackageStream → OpenPackage

pub record OpenContainer : Type 0 where
  pub cfb : Cfb
  pub stream : OpenPackage

pub data OpenFile : Type 0 where
  refused : IoError → OpenFile
  container : OpenContainer → OpenFile

abbrev pub agile_encryption_reserved : ℕ
agile_encryption_reserved = 0x40

abbrev pub payload_ceiling : ℕ
payload_ceiling = 2 ^ 30

unfoldable pub container_error : IoError → Error
container_error IoError.invalid_data = Error.not_a_cfb_file
container_error IoError.unexpected_eof = Error.not_a_cfb_file
container_error IoError.not_found = Error.io IoError.not_found
container_error IoError.other = Error.io IoError.other

-- `cfb::CompoundFile::open(reader).map_err(container_error)?`.
unfoldable pub open_file : OpenFile → Result OpenContainer
open_file (refused kind) = err (container_error kind)
open_file (container file) = ok file

-- `cfb.open_stream("/EncryptedPackage").map_err(..)?`.
unfoldable pub open_package : OpenPackage → Result PackageStream
open_package (missing IoError.not_found) = err (Error.missing_stream "EncryptedPackage")
open_package (missing kind) = err (container_error kind)
open_package (opened stream) = ok stream

unfoldable pub check_ceiling : Option ℕ → PackageStream → Result (Unit {0})
check_ceiling none stream = ok tt
check_ceiling (some limit) stream =
    reject_if (ltb limit stream.len) (Error.package_too_large stream.len limit)

-- What standard encryption cannot give.
unfoldable pub check_standard_policy : IntegrityPolicy → Result (Unit {0})
check_standard_policy IntegrityPolicy.require = err (
    Error.integrity_unavailable
      "ECMA-376 standard encryption (Office 2007) defines no integrity element. Re-saving the file with Office 2013 or later writes agile encryption, which does; IntegrityPolicy::RequireWhereDefined opens this one as it is, unauthenticated")
check_standard_policy IntegrityPolicy.require_where_defined = ok tt
check_standard_policy IntegrityPolicy.verify_if_present = ok tt
check_standard_policy IntegrityPolicy.skip = ok tt

-- What is checked before the version is looked at: the container, its rights management, and its two
-- streams.
unfoldable pub open_streams : OpenFile → (ceiling : Option ℕ) → Result (Bytes × PackageStream)
open_streams file ceiling = do
  found ← open_file file
  reject_if (is_managed (rights_management_in found.cfb)) (
      Error.unsupported_algorithm "\\x06DataSpaces\\DataSpaceMap" (
        AlgorithmName.fixed
          "rights management (IRM): the key is held by a rights-management server, and no password opens it"))
  info ← read_encryption_info_in found.cfb
  stream ← open_package found.stream
  check_ceiling ceiling stream
  reject_if (ltb (length info) 8) (Error.missing_stream "EncryptionInfo too short")
  ok (info, stream)

-- The four bytes behind the version of agile encryption.
unfoldable pub check_reserved : (info : Bytes) → Result (Unit {0})
check_reserved info =
    let reserved = from_le_bytes (take 4 (drop 4 info)) in
    reject_if (not (reserved == agile_encryption_reserved)) (
      bad FileField.agile_reserved
        (FileProblem.not_required_value reserved agile_encryption_reserved Bound.spec))

unfoldable pub check_magic : (magic : Bytes) → Result (Unit {0})
check_magic magic = reject_if (not (is_cfb_office magic)) Error.not_a_cfb_file

abbrev pub v_major : (info : Bytes) → ℕ
v_major info = from_le_bytes (take 2 info)

abbrev pub v_minor : (info : Bytes) → ℕ
v_minor info = from_le_bytes (take 2 (drop 2 info))

abbrev pub is_agile : (info : Bytes) → Bool
is_agile info = v_major info == 4 && v_minor info == 4

abbrev pub is_standard : (info : Bytes) → Bool
is_standard info = leb 2 (v_major info) && leb (v_major info) 4 && v_minor info == 2

abbrev pub unsupported_version : (info : Bytes) → Error
unsupported_version info = Error.unsupported_encryption_version (v_major info) (v_minor info)

module _ (c : Crypto) (parse_agile : Bytes → Result AgileParams) where
  -- The arm of version 4.4, behind the eight bytes of the header.
  unfoldable pub decrypt_agile :
      (info : Bytes)
      → PackageStream
      → (password : Bytes) → IntegrityPolicy
      → Written IntegrityOutcome
  decrypt_agile info stream password policy = or_stop [] (check_reserved info) λ _.
      or_stop [] (parse_agile (drop 8 info)) λ params.
        AgileOpen.decrypt_to c params stream.first stream.len stream.second password policy

  -- The arm of versions 2.2, 3.2 and 4.2.
  unfoldable pub decrypt_standard :
      (info : Bytes)
      → PackageStream
      → (password : Bytes) → IntegrityPolicy
      → Written IntegrityOutcome
  decrypt_standard info stream password policy = or_stop [] (check_standard_policy policy) λ _.
      let (written, result) =
        StandardOpen.decrypt_to c (drop 8 info) stream.len stream.first password in
      or_stop written result λ _. (written, ok IntegrityOutcome.not_applicable)

  -- The `match` on the version.
  unfoldable pub decrypt_version :
      (info : Bytes)
      → PackageStream
      → (password : Bytes) → IntegrityPolicy
      → Written IntegrityOutcome
  decrypt_version info stream password policy =
      if is_agile info
      then decrypt_agile info stream password policy
      else if is_standard info
      then decrypt_standard info stream password policy
      else ([], err (unsupported_version info))

  -- `file` is what the `cfb` crate answers for the reader.
  unfoldable pub decrypt_ooxml_core :
      Reader
      → (file : OpenFile) → (password : Bytes) → IntegrityPolicy
      → (ceiling : Option ℕ) → Written IntegrityOutcome
  decrypt_ooxml_core reader file password policy ceiling =
      or_stop [] (read_full reader 8) λ (magic, rest). or_stop [] (check_magic magic) λ _.
        or_stop [] (open_streams file ceiling)
          λ (info, stream). decrypt_version info stream password policy

  -- `decrypt_ooxml_to`.
  unfoldable pub decrypt_ooxml_to :
      Reader → OpenFile → (password : Bytes) → IntegrityPolicy → Written IntegrityOutcome
  decrypt_ooxml_to reader file password policy = decrypt_ooxml_core reader file password policy none

  -- `decrypt_ooxml_with_policy`: the package is handed out only when all of it was decrypted.
  unfoldable pub decrypt_ooxml_with_policy :
      Reader → OpenFile → (password : Bytes) → IntegrityPolicy → Result (Bytes × IntegrityOutcome)
  decrypt_ooxml_with_policy reader file password policy = do
    let (written, result) = decrypt_ooxml_core reader file password policy (some payload_ceiling)
    integrity ← result
    ok (written, integrity)
