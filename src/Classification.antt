-- ===== src/Classification.antt =====
-- The verdict types of src/classify.rs: what a file is and how it is protected.
use msoffice_crypto.Base.{ℕ, Bool, true, false, Option}

pub data Container : Type 0 where
  cfb zip unknown : Container

pub data Document : Type 0 where
  ooxml_package zip_archive word_binary excel_binary power_point_binary : Document
  word95_binary excel95_binary unknown : Document

pub data Family : Type 0 where
  unencrypted agile standard rc4_crypto_api rc4 xor_obfuscation : Family
  unsupported irm unknown : Family

pub data CipherAlgorithm : Type 0 where
  aes rc4 : CipherAlgorithm

pub data HashAlgorithm : Type 0 where
  sha1 sha256 sha384 sha512 : HashAlgorithm

pub record AlgorithmParams : Type 0 where
  pub cipher : Option CipherAlgorithm
  pub hash : Option HashAlgorithm
  pub key_bits : Option ℕ
  pub block_size : Option ℕ
  pub salt_size : Option ℕ
  pub spin_count : Option ℕ

pub data IntegrityDeclaration : Type 0 where
  declared incomplete absent not_applicable unknown : IntegrityDeclaration

pub data ContainerRead : Type 0 where
  opened unreadable not_attempted : ContainerRead

-- `version` is `EncryptionVersionInfo`, major and minor.
pub record Classification : Type 0 where
  pub container : Container
  pub document : Document
  pub version : Option (ℕ × ℕ)
  pub family : Family
  pub key_data : Option AlgorithmParams
  pub password_key : Option AlgorithmParams
  pub data_integrity : IntegrityDeclaration
  pub container_read : ContainerRead

unfoldable pub is_encrypted_family : Family → Bool
is_encrypted_family Family.agile = true
is_encrypted_family Family.standard = true
is_encrypted_family Family.rc4_crypto_api = true
is_encrypted_family Family.rc4 = true
is_encrypted_family Family.xor_obfuscation = true
is_encrypted_family Family.unsupported = true
is_encrypted_family Family.irm = true
is_encrypted_family _ = false

-- `Classification::is_encrypted`.
unfoldable pub is_encrypted : Classification → Bool
unfolding is_encrypted_family
is_encrypted c = is_encrypted_family c.family

unfoldable pub is_supported_pair : Document → Family → Bool
is_supported_pair Document.ooxml_package Family.agile = true
is_supported_pair Document.ooxml_package Family.standard = true
is_supported_pair Document.word_binary Family.rc4_crypto_api = true
is_supported_pair Document.word_binary Family.rc4 = true
is_supported_pair Document.excel_binary Family.rc4_crypto_api = true
is_supported_pair Document.excel_binary Family.rc4 = true
is_supported_pair Document.excel_binary Family.xor_obfuscation = true
is_supported_pair Document.power_point_binary Family.rc4_crypto_api = true
is_supported_pair Document.power_point_binary Family.rc4 = true
is_supported_pair _ _ = false

-- `Classification::is_supported`.
unfoldable pub is_supported : Classification → Bool
unfolding is_supported_pair
is_supported c = is_supported_pair c.document c.family
