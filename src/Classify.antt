-- ===== src/Classify.antt =====
-- `classify_cfb` of src/classify.rs and `encryptable` of src/lib.rs. XML is read by the `quick_xml`
-- crate: the start tags that it finds, up to the end or the first error, are a parameter.
pub mod Plain
use msoffice_crypto.Base.{
  ℕ, zero, suc, ◌+◌, ◌*◌, Bool, true, false, not, ◌&&◌, ◌||◌, ltb, leb, ◌==◌, if◌then◌else◌, Option,
  none, some, and_then, List, [], ◌∷◌, length, take, drop, String,
}
use msoffice_crypto.Base.Bytes.{Bytes, slice, from_le_bytes}
use msoffice_crypto.Classification.{
  Container, Document, Family, CipherAlgorithm, HashAlgorithm, AlgorithmParams,
  IntegrityDeclaration, ContainerRead, Classification, is_encrypted,
}
use msoffice_crypto.Error.{Error, Result, ok, err, ◌>>=◌, ok_or}
use msoffice_crypto.Reader.{read_capped}
use msoffice_crypto.BinaryOffice.{BinaryFormat, BinaryVerdict, Cfb, StreamName, has_flag}
use msoffice_crypto.BinaryOffice.Probe.{probe_in}
use msoffice_crypto.DataSpaces.{RightsManagement, rights_management_in}

abbrev pub encryption_info_read_cap : ℕ
encryption_info_read_cap = 1048576

-- `read_encryption_info_in` of src/cfb_reader.rs.
unfoldable pub read_encryption_info_in : Cfb → Result Bytes
read_encryption_info_in cfb = do
  stream ←
      ok_or (cfb.open_stream StreamName.encryption_info) (Error.missing_stream "EncryptionInfo")
  read_capped stream encryption_info_read_cap "EncryptionInfo"

-- A container whose contents say nothing, and the parts that an answer leaves open.
unfoldable pub unknown_cfb : ContainerRead → Classification
unknown_cfb container_read = record {
  container = Container.cfb;
  document = Document.unknown;
  version = none;
  family = Family.unknown;
  key_data = none;
  password_key = none;
  data_integrity = IntegrityDeclaration.unknown;
  container_read = container_read;
}

unfoldable pub binary_document : BinaryFormat → (pre_97 : Bool) → Document
binary_document BinaryFormat.word false = Document.word_binary
binary_document BinaryFormat.word true = Document.word95_binary
binary_document BinaryFormat.excel false = Document.excel_binary
binary_document BinaryFormat.excel true = Document.excel95_binary
binary_document BinaryFormat.power_point pre_97 = Document.power_point_binary

-- The family by the version of an encrypted document that is not obfuscated.
unfoldable pub rc4_family : Option (ℕ × ℕ) → Family
rc4_family none = Family.unsupported
rc4_family (some (major, minor)) =
    if leb 2 major && leb major 4 && minor == 2
    then Family.rc4_crypto_api
    else if major == 1 && minor == 1
    then Family.rc4
    else Family.unsupported

unfoldable pub binary_family : BinaryVerdict → Family
binary_family v = elim v.encrypted [
  | none ↦ Family.unknown
  | some false ↦ Family.unencrypted
  | some true ↦ if v.xor_obfuscated then Family.xor_obfuscation else rc4_family v.version
]

abbrev no_params : AlgorithmParams
no_params = record {
  cipher = none;
  hash = none;
  key_bits = none;
  block_size = none;
  salt_size = none;
  spin_count = none;
}

abbrev key_size_only : Option ℕ → Option AlgorithmParams
key_size_only none = none
key_size_only (some bits) = some (record no_params { key_bits = some bits })

unfoldable pub classify_binary : Cfb → Classification
classify_binary cfb = elim (probe_in cfb) [
  | none ↦ unknown_cfb ContainerRead.opened
  | some v ↦ record {
    container = Container.cfb;
    document = binary_document v.format v.pre_97;
    version = v.version;
    family = binary_family v;
    key_data = key_size_only v.key_bits;
    password_key = none;
    data_integrity = IntegrityDeclaration.not_applicable;
    container_read = ContainerRead.opened;
  }
]

unfoldable pub irm_document : Cfb → RightsManagement → Document
irm_document cfb RightsManagement.ecma376 = Document.ooxml_package
irm_document cfb RightsManagement.binary = elim (probe_in cfb) [
  | none ↦ Document.unknown
  | some v ↦ binary_document v.format v.pre_97
]

unfoldable pub classify_irm : Cfb → RightsManagement → Classification
classify_irm cfb kind = record (unknown_cfb ContainerRead.opened) {
  document = irm_document cfb kind;
  family = Family.irm;
}

-- `read_u32` of this module: 0 where the field is cut short.
unfoldable pub field_or_zero : Bytes → (offset : ℕ) → ℕ
field_or_zero b offset = elim (slice b offset 4) [ none ↦ 0 | some s ↦ from_le_bytes s ]

-- Behind the terminator of the provider's name, or at the end of the header.
unfoldable pub past_name : ℕ → Bytes → (pos : ℕ) → ℕ
past_name zero header pos = pos
past_name (suc fuel) header pos = elim (slice header pos 2) [
  | none ↦ pos
  | some pair ↦ if from_le_bytes pair == 0 then pos + 2 else past_name fuel header (pos + 2)
]

unfoldable pub verifier_salt_size : Bytes → Option ℕ
verifier_salt_size header =
    let verifier = drop (past_name (length header) header 32) header in
    if ltb (length verifier) 4 then none else some (field_or_zero verifier 0)

unfoldable pub cipher_of : (flags alg_id : ℕ) → Option CipherAlgorithm
cipher_of flags alg_id =
    if has_flag 0x20 flags
    then some CipherAlgorithm.aes
    else if alg_id == 0x6801
    then some CipherAlgorithm.rc4
    else if alg_id == 0x660E || alg_id == 0x660F || alg_id == 0x6610
    then some CipherAlgorithm.aes
    else none

unfoldable pub hash_of : (alg_id_hash : ℕ) → Option HashAlgorithm
hash_of alg_id_hash =
    if alg_id_hash == 0 || alg_id_hash == 0x8004
    then some HashAlgorithm.sha1
    else if alg_id_hash == 0x800C
    then some HashAlgorithm.sha256
    else if alg_id_hash == 0x800D
    then some HashAlgorithm.sha384
    else if alg_id_hash == 0x800E
    then some HashAlgorithm.sha512
    else none

unfoldable pub cipher_family : Option CipherAlgorithm → Family
cipher_family none = Family.unsupported
cipher_family (some CipherAlgorithm.aes) = Family.standard
cipher_family (some CipherAlgorithm.rc4) = Family.rc4_crypto_api

-- The family and the parameters of a standard header, where it has its fixed part.
unfoldable pub standard_params : (body : Bytes) → Family × AlgorithmParams
standard_params body =
    let header = drop 4 body in
    let cipher = cipher_of (field_or_zero header 0) (field_or_zero header 8) in
    let key_size = field_or_zero header 16 in
    if ltb (length body) (4 + 32) then (Family.unsupported, no_params) else (
      cipher_family cipher,
      record no_params {
        cipher = cipher;
        hash = hash_of (field_or_zero header 12);
        key_bits = if key_size == 0 then none else some key_size;
        salt_size = verifier_salt_size header;
      },
    )

unfoldable pub classify_standard : (body : Bytes) → Option (ℕ × ℕ) → Classification
classify_standard body version = record {
  container = Container.cfb;
  document = Document.ooxml_package;
  version = version;
  family = (standard_params body).0;
  key_data = some ((standard_params body).1);
  password_key = none;
  data_integrity = IntegrityDeclaration.not_applicable;
  container_read = ContainerRead.opened;
}

-- The answer on an `EncryptionInfo` of another version.
unfoldable pub unsupported_version : Option (ℕ × ℕ) → Classification
unsupported_version version = record (unknown_cfb ContainerRead.opened) {
  document = Document.ooxml_package;
  version = version;
  family = Family.unsupported;
}

-- `classify_agile`, which reads XML, is given; the rest of `classify_cfb` decides when it is asked.
module _ (classify_agile : Bytes → Option (ℕ × ℕ) → Classification) where
  -- The dispatch on the version of an `EncryptionInfo` of at least eight bytes.
  unfoldable pub classify_info : (info : Bytes) → Classification
  classify_info info =
      let major = from_le_bytes (take 2 info) in
      let minor = from_le_bytes (take 2 (drop 2 info)) in
      let version : Option (ℕ × ℕ) = some (major, minor) in
      if major == 4 && minor == 4
      then classify_agile (drop 8 info) version
      else if leb 2 major && leb major 4 && minor == 2
      then classify_standard (drop 8 info) version
      else unsupported_version version

  -- What a container says that holds no rights-managed content.
  unfoldable pub classify_unmanaged : Cfb → Classification
  classify_unmanaged cfb = elim (read_encryption_info_in cfb) [
    | err problem ↦ classify_binary cfb
    | ok info ↦ if ltb (length info) 8 then classify_binary cfb else classify_info info
  ]

  unfoldable pub classify_cfb : Cfb → Classification
  classify_cfb cfb = elim (rights_management_in cfb) [
    | none ↦ classify_unmanaged cfb
    | some kind ↦ classify_irm cfb kind
  ]

-- `encryptable`.
unfoldable pub encryptable : Classification → Result (Unit {0})
encryptable class = elim class.container [
  | Container.zip ↦ ok tt
  | Container.cfb ↦
      if is_encrypted class
      then err (Error.already_encrypted class.family class.document)
      else err Error.not_a_plain_package
  | Container.unknown ↦ err Error.unknown_container
]
