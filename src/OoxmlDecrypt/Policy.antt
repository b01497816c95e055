-- ===== src/OoxmlDecrypt/Policy.antt =====
-- What the entry points of src/lib.rs owe to a policy, over both families of package encryption.
use msoffice_crypto.Base.{
  ◌≡◌, ◌≢◌, ◌⊎◌, inl, inr, arith, Option, ℕ, Option-cases, [], drop, Bool, if◌then◌else◌, refl,
  true, false,
}
use mathlib.Core.Path.{subst}
use msoffice_crypto.Base.Bytes.{Bytes}
use msoffice_crypto.Error.{Error, Result, ok, err}
use msoffice_crypto.Hash.{Crypto}
use msoffice_crypto.Reader.{Reader, read_full}
use msoffice_crypto.Writer.{Written, or_stop}
use msoffice_crypto.Integrity.{IntegrityPolicy, IntegrityOutcome, IntegrityCheck}
use msoffice_crypto.Agile.{AgileParams}
use msoffice_crypto.Agile.Keys.{recover_session_key}
use msoffice_crypto.Agile.Open.{check_integrity, check_declared, first_pass, decrypt_to}
use msoffice_crypto.Agile.Package.{decrypt_package_to}
use msoffice_crypto.OoxmlDecrypt.{
  OpenFile, PackageStream, decrypt_agile, decrypt_standard, decrypt_version, decrypt_ooxml_core,
  check_standard_policy, open_streams, check_reserved, check_magic, is_agile, is_standard,
  unsupported_version,
}

-- The outcomes that a policy lets pass.
abbrev pub IsKept : IntegrityPolicy → IntegrityOutcome → Type 0
IsKept IntegrityPolicy.require outcome = outcome ≡ IntegrityOutcome.verified
IsKept IntegrityPolicy.require_where_defined outcome =
    (outcome ≡ IntegrityOutcome.verified) ⊎ (outcome ≡ IntegrityOutcome.not_applicable)
IsKept IntegrityPolicy.verify_if_present outcome = outcome ≢ IntegrityOutcome.skipped
IsKept IntegrityPolicy.skip outcome = outcome ≢ IntegrityOutcome.verified

-- A run that succeeds only with an outcome that the policy lets pass.
abbrev HoldsTo : IntegrityPolicy → Written IntegrityOutcome → Type 0
HoldsTo policy run = (outcome : IntegrityOutcome) → run.1 ≡ ok outcome → IsKept policy outcome

or_stop-HoldsTo :
    {A : Type 0} (policy : IntegrityPolicy) (written : Bytes) (r : Result A)
    (k : A → Written IntegrityOutcome)
    → ((a : A) → r ≡ ok a → HoldsTo policy (k a))
    → HoldsTo policy (or_stop written r k)
or_stop-HoldsTo policy written (ok a) k f = f a refl
or_stop-HoldsTo policy written (err problem) k f = λ outcome h. absurd cc

if-HoldsTo :
    (policy : IntegrityPolicy) (test : Bool) (a b : Written IntegrityOutcome)
    → HoldsTo policy a
    → HoldsTo policy b
    → HoldsTo policy (if test then a else b)
if-HoldsTo policy true a b f g = f
if-HoldsTo policy false a b f g = g

refused-HoldsTo :
    (policy : IntegrityPolicy) (written : Bytes) (problem : Error)
    → HoldsTo policy (written, err problem)
refused-HoldsTo policy written problem outcome h = absurd cc

done-HoldsTo :
    (policy : IntegrityPolicy) (written : Bytes) (o : IntegrityOutcome)
    → IsKept policy o
    → HoldsTo policy (written, ok o)
done-HoldsTo policy written o kept outcome h =
    let same : o ≡ outcome = cc in subst (λ x. IsKept policy x) same kept

module _ (c : Crypto) where
  check_integrity-IsKept :
      (params : AgileParams) (key : Bytes) (policy : IntegrityPolicy) (outcome : IntegrityOutcome)
      (check : Option IntegrityCheck)
      → check_integrity c params key policy ≡ ok (outcome, check)
      → IsKept policy outcome
  unfolding check_integrity check_declared
  check_integrity-IsKept params key policy outcome check h =
      elim (Option-cases params.data_integrity) [
        | inl n ↦ elim policy [
          | IntegrityPolicy.require ↦ ground (arith, n)
          | IntegrityPolicy.require_where_defined ↦ ground (arith, n)
          | IntegrityPolicy.verify_if_present ↦ ground (arith, n)
          | IntegrityPolicy.skip ↦ ground (arith, n)
        ]
        | inr (di, e) ↦ elim policy [
          | IntegrityPolicy.require ↦ ground (arith, e)
          | IntegrityPolicy.require_where_defined ↦ ground (arith, e)
          | IntegrityPolicy.verify_if_present ↦ ground (arith, e)
          | IntegrityPolicy.skip ↦ ground (arith, e)
        ]
      ]

  decrypt_to-HoldsTo :
      (params : AgileParams) (first second : Reader) (len : ℕ) (password : Bytes)
      (policy : IntegrityPolicy)
      → HoldsTo policy (decrypt_to c params first len second password policy)
  unfolding decrypt_to
  decrypt_to-HoldsTo params first second len password policy =
      or_stop-HoldsTo policy [] (recover_session_key c params password) _ λ key recovered.
        or_stop-HoldsTo policy [] (check_integrity c params key policy) _
          λ (outcome, check) checked.
            or_stop-HoldsTo policy [] (first_pass c first check) _ λ passed first_done.
              let (written, result) = decrypt_package_to c key params len second check in
              or_stop-HoldsTo policy written result _ λ done e.
                done-HoldsTo policy written outcome
                  (check_integrity-IsKept params key policy outcome check checked)

  check_standard_policy-IsKept :
      (policy : IntegrityPolicy)
      → check_standard_policy policy ≡ ok tt
      → IsKept policy IntegrityOutcome.not_applicable
  unfolding check_standard_policy
  check_standard_policy-IsKept IntegrityPolicy.require h = absurd cc
  check_standard_policy-IsKept IntegrityPolicy.require_where_defined h = inr refl
  check_standard_policy-IsKept IntegrityPolicy.verify_if_present h = λ p. absurd cc
  check_standard_policy-IsKept IntegrityPolicy.skip h = λ p. absurd cc

  module _ (parse_agile : Bytes → Result AgileParams) where
    decrypt_agile-HoldsTo :
        (info : Bytes) (stream : PackageStream) (password : Bytes) (policy : IntegrityPolicy)
        → HoldsTo policy (decrypt_agile c parse_agile info stream password policy)
    unfolding decrypt_agile
    decrypt_agile-HoldsTo info stream password policy =
        or_stop-HoldsTo policy [] (check_reserved info) _ λ accepted e.
          or_stop-HoldsTo policy [] (parse_agile (drop 8 info)) _ λ params parsed outcome.
            decrypt_to-HoldsTo params stream.first stream.second stream.len password policy outcome

    decrypt_standard-HoldsTo :
        (info : Bytes) (stream : PackageStream) (password : Bytes) (policy : IntegrityPolicy)
        → HoldsTo policy (decrypt_standard c parse_agile info stream password policy)
    unfolding decrypt_standard
    decrypt_standard-HoldsTo info stream password policy =
        or_stop-HoldsTo policy [] (check_standard_policy policy) _ λ allowed e.
          or_stop-HoldsTo policy _ _ _ λ done finished.
            done-HoldsTo policy [] IntegrityOutcome.not_applicable
              (check_standard_policy-IsKept policy e)

    decrypt_version-HoldsTo :
        (info : Bytes) (stream : PackageStream) (password : Bytes) (policy : IntegrityPolicy)
        → HoldsTo policy (decrypt_version c parse_agile info stream password policy)
    unfolding decrypt_version
    decrypt_version-HoldsTo info stream password policy =
        let standard = decrypt_standard c parse_agile info stream password policy in
        let refused : Written IntegrityOutcome = ([], err (unsupported_version info)) in
        if-HoldsTo policy (is_agile info) (decrypt_agile c parse_agile info stream password policy)
          (if is_standard info then standard else refused)
          (decrypt_agile-HoldsTo info stream password policy)
          (if-HoldsTo policy (is_standard info) standard refused
            (decrypt_standard-HoldsTo info stream password policy)
            (refused-HoldsTo policy [] (unsupported_version info)))

    -- A decryption succeeds under `Require` only with the outcome verified; under
    -- `RequireWhereDefined`, verified or with a family that defines no check; under
    -- `VerifyIfPresent`, never with the check skipped; and under `Skip`, never as verified.
    pub decrypt_ooxml_core-IsKept :
        (reader : Reader) (file : OpenFile) (password : Bytes) (policy : IntegrityPolicy)
        (ceiling : Option ℕ) (outcome : IntegrityOutcome)
        → (decrypt_ooxml_core c parse_agile reader file password policy ceiling).1 ≡ ok outcome
        → IsKept policy outcome
    unfolding decrypt_ooxml_core
    decrypt_ooxml_core-IsKept reader file password policy ceiling =
        or_stop-HoldsTo policy [] (read_full reader 8) _ λ (magic, rest) answer.
          or_stop-HoldsTo policy [] (check_magic magic) _ λ accepted e.
            or_stop-HoldsTo policy [] (open_streams file ceiling) _
              λ (info, stream) found. decrypt_version-HoldsTo info stream password policy
