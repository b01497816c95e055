-- ===== src/Error.antt =====
-- The errors of src/error.rs, and the `?` of a Rust function that returns a `Result`.
use msoffice_crypto.Base.{
  ℕ, String, Bool, true, false, Option, none, some, ◌≡◌, refl, ◌⊎◌, inl, inr,
}
use msoffice_crypto.Classification.{Family, Document}
use msoffice_crypto.FileParams.{FileField, FileProblem, Invariant, AlgorithmName}

pub data EncryptParam : Type 0 where
  spin_count hash_algorithm key_bits key_size salt_size key_bits_with_hash : EncryptParam

pub data EncryptParamProblem : Type 0 where
  outside_spec_range unsupported_by_cipher unusable_combination : EncryptParamProblem
  exceeds_implementation_limit : EncryptParamProblem

-- `std::io::Error`, by the kinds that the code tells apart or makes.
pub data IoError : Type 0 where
  unexpected_eof invalid_data not_found other : IoError

pub data Error : Type 0 where
  not_a_cfb_file not_encrypted wrong_password cipher_error : Error
  missing_stream : String → Error
  unsupported_encryption_version : (major minor : ℕ) → Error
  xml_parse : String → Error
  bad_parameters : FileField → FileProblem → Error
  invariant_violated : Invariant → Error
  stream_too_large : (stream : String) (limit : ℕ) → Error
  unsupported_encrypted_content : String → Error
  unsupported_algorithm : (what : String) → AlgorithmName → Error
  integrity_check_failed integrity_element_missing : Error
  integrity_unavailable : String → Error
  random_source : String → Error
  encrypt_params : EncryptParam → EncryptParamProblem → (got min max : ℕ) → Error
  already_encrypted : Family → Document → Error
  not_a_plain_package unknown_container : Error
  package_too_large : (len limit : ℕ) → Error
  io : IoError → Error

-- `Result<T, Error>`.
pub data Result {ℓ} (T : Type ℓ) : Type ℓ where
  err : Error → Result T
  ok : T → Result T

infixl 5 ◌>>=◌
-- `?` in front of the rest of a function.
abbrev pub ◌>>=◌ {ℓ κ} : {T : Type ℓ} {U : Type κ} → Result T → (T → Result U) → Result U
err problem >>= next = err problem
ok value >>= next = next value

infixl 5 ◌>>◌
abbrev pub ◌>>◌ {ℓ κ} : {T : Type ℓ} {U : Type κ} → Result T → Result U → Result U
first >> second = first >>= λ _. second

-- `if b { return Err(e) }`.
abbrev pub reject_if : Bool → Error → Result (Unit {0})
reject_if false problem = ok tt
reject_if true problem = err problem

-- `o.ok_or(e)?`.
abbrev pub ok_or {ℓ} : {T : Type ℓ} → Option T → Error → Result T
ok_or none problem = err problem
ok_or (some value) problem = ok value

abbrev pub bad : FileField → FileProblem → Error
bad field problem = Error.bad_parameters field problem

pub Result-cases {ℓ} :
    {T : Type ℓ} (result : Result T)
    → ((value : T) × (result ≡ ok value)) ⊎ ((problem : Error) × (result ≡ err problem))
Result-cases (err problem) = inr (problem, refl)
Result-cases (ok value) = inl (value, refl)
