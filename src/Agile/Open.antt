-- ===== src/Agile/Open.antt =====
-- `decrypt_to` of src/agile.rs behind the parser: the password, the policy, the pass that only
-- checks and the pass that writes. The stream is read twice from its start, and `first` and `second`
-- are what the two passes read: they differ when the stream changes in between.
pub mod Authentic
pub mod RoundTrip
use msoffice_crypto.Base.{
  ℕ, zero, suc, Bool, Option, none, some, if◌then◌else◌, ◌==◌, List, [], length,
}
use msoffice_crypto.Base.Bytes.{Bytes}
use msoffice_crypto.Error.{Error, Result, ok, err, ◌>>=◌, ◌>>◌}
use msoffice_crypto.Hash.{Crypto, HmacState, update}
use msoffice_crypto.Reader.{Reader, read_full}
use msoffice_crypto.Writer.{Written, or_stop}
use msoffice_crypto.Segments.{segment_len}
use msoffice_crypto.Integrity
use msoffice_crypto.Integrity.{IntegrityPolicy, IntegrityOutcome, IntegrityCheck, start, finish}
use msoffice_crypto.Agile.{AgileParams, DataIntegrity, integrity_material}
use msoffice_crypto.Agile.Keys.{recover_session_key}
use msoffice_crypto.Agile.Package.{decrypt_package_to}

module _ (c : Crypto) where
  -- The check that a policy asks for where the file declares its HMAC.
  unfoldable pub check_declared :
      AgileParams
      → (session_key : Bytes) → DataIntegrity
      → Result (IntegrityOutcome × Option IntegrityCheck)
  check_declared params session_key di = do
    material ← integrity_material params di
    check ← Integrity.new c session_key material
    ok (IntegrityOutcome.verified, some check)

  unfoldable pub check_integrity :
      AgileParams
      → (session_key : Bytes) → IntegrityPolicy
      → Result (IntegrityOutcome × Option IntegrityCheck)
  check_integrity params session_key policy = elim params.data_integrity [
    | none ↦ elim policy [
      | IntegrityPolicy.require ↦ err Error.integrity_element_missing
      | IntegrityPolicy.require_where_defined ↦ err Error.integrity_element_missing
      | IntegrityPolicy.verify_if_present ↦ ok (IntegrityOutcome.not_declared, none)
      | IntegrityPolicy.skip ↦ ok (IntegrityOutcome.not_declared, none)
    ]
    | some di ↦ elim policy [
      | IntegrityPolicy.skip ↦ ok (IntegrityOutcome.skipped, none)
      | _ ↦ check_declared params session_key di
    ]
  ]

  -- The loop of the first pass: 4096 bytes at a time into the HMAC, until a read answers none.
  unfoldable pub mac_loop : ℕ → Reader → HmacState → Result HmacState
  mac_loop zero reader mac = ok mac
  mac_loop (suc fuel) reader mac = do
    (chunk, reader') ← read_full reader segment_len
    if length chunk == 0 then ok mac else mac_loop fuel reader' (update mac chunk)

  unfoldable pub first_pass : Reader → Option IntegrityCheck → Result (Unit {0})
  first_pass reader none = ok tt
  first_pass reader (some check) = do
    mac ← mac_loop (suc (length reader.content)) reader (start c check)
    finish c check mac

  unfoldable pub decrypt_to :
      AgileParams
      → (first : Reader) → (stream_len : ℕ) → (second : Reader) → (password : Bytes)
      → IntegrityPolicy
      → Written IntegrityOutcome
  decrypt_to params first stream_len second password policy =
      or_stop [] (recover_session_key c params password) λ encryption_key.
        or_stop [] (check_integrity params encryption_key policy) λ (outcome, check).
          or_stop [] (first_pass first check) λ _.
            let (written, result) =
              decrypt_package_to c encryption_key params stream_len second check in
            or_stop written result λ _. (written, ok outcome)
