-- ===== src/FileParams.antt =====
-- The error payloads of src/file_params.rs: which field of a file is wrong, and how.
use msoffice_crypto.Base.{ℕ, String}
use msoffice_crypto.Classification.{HashAlgorithm}

pub data FileField : Type 0 where
  agile_reserved spin_count key_data_key_bits encrypted_key_key_bits : FileField
  key_data_block_size encrypted_key_block_size key_data_hash_size : FileField
  encrypted_key_hash_size key_data_salt_size encrypted_key_salt_size : FileField
  key_data_salt_value encrypted_key_salt_value key_data_hash_algorithm : FileField
  encrypted_key_hash_algorithm key_data_cipher_algorithm : FileField
  encrypted_key_cipher_algorithm key_data_cipher_chaining : FileField
  encrypted_key_cipher_chaining encrypted_key_value encrypted_verifier_hash_input : FileField
  encrypted_verifier_hash_value password_key_encryptor data_integrity : FileField
  encrypted_hmac_key encrypted_hmac_value session_key encryption_info : FileField
  encryption_header_size encryption_header encryption_header_flags : FileField
  encryption_header_key_size encryption_header_alg_id encryption_verifier : FileField
  verifier_salt_size verifier_hash_size encrypted_package_size : FileField
  rc4_office97_header fib_w_ident fib_l_key encryption_version_info : FileField
  biff_record workbook_bof filepass filepass_encryption_type user_edit_atom : FileField
  offset_last_edit persist_directory encrypt_session_persist_id_ref : FileField
  crypt_session10_container persist_object pictures_record summary_stream : FileField
  summary_descriptor_array summary_descriptor_count summary_descriptor : FileField
  summary_stream_name summary_stream_extent : FileField

pub data Bound : Type 0 where
  spec cipher margin crate : Bound

pub data AllowedSet : Type 0 where
  aes_key_bits xor_or_rc4 rc4_key_bits pictures_record_types : AllowedSet

-- The arguments in the order of the source's fields.
pub data FileProblem : Type 0 where
  out_of_range : (got min max : ℕ) → Bound → FileProblem
  not_in_set : (got : ℕ) → AllowedSet → Bound → FileProblem
  not_required_value : (got required : ℕ) → Bound → FileProblem
  disagrees : (got expected : ℕ) → FileField → FileProblem
  digest_mismatch : (got : ℕ) → HashAlgorithm → FileProblem
  truncated : (have need : ℕ) → FileProblem
  out_of_bounds : (offset len end : ℕ) → FileProblem
  unreadable : (offset : ℕ) → FileProblem
  missing duplicate overlaps unterminated flag_clear bad_signature : FileProblem
  out_of_order : (after_record : ℕ) → FileProblem
  unrecognized : (got : ℕ) → FileProblem

pub data Invariant : Type 0 where
  aes_key_length aes_iv_length block_size_over_digest counter_overflow : Invariant
  rewrite_length placeholder_length serialized_length integrity_padding : Invariant
  rc4_key_length rc4_block_size key_ladder_length unrepresentable : Invariant
  internal_slice : Invariant

pub data KnownAlgorithm : Type 0 where
  md5 md4 md2 ripemd128 ripemd160 whirlpool rc2 rc4 des desx : KnownAlgorithm
  triple_des triple_des112 chaining_mode_cfb : KnownAlgorithm

pub data AlgorithmName : Type 0 where
  known : KnownAlgorithm → AlgorithmName
  unknown : (len : ℕ) → AlgorithmName
  alg_id : ℕ → AlgorithmName
  fixed : String → AlgorithmName
