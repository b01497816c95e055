-- ===== src/Rc4/Verify.antt =====
-- `verify_password` of src/rc4.rs.
use msoffice_crypto.Base.{ℕ, ◌≤◌, ◌≡◌, ◌↔◌, arith, length}
use msoffice_crypto.Base.Bytes.{Bytes}
use msoffice_crypto.Error.{ok}
use msoffice_crypto.Hash.{Crypto}
use msoffice_crypto.Integrity.Laws.{ct_eq_refl, ct_eq→eq}
use msoffice_crypto.Rc4.{BlockKeySchedule, new, xor_from, apply, verify_password}
use msoffice_crypto.Rc4.Blocks.{xor_from_twice, length-xor_from}

module _ (c : Crypto) (schedule : BlockKeySchedule) (digest : Bytes → Bytes)
    (usable : (5 ≤ length (schedule 0)) × (length (schedule 0) ≤ 16)) where
  abbrev pub stream : ℕ → ℕ
  stream = c.rc4_keystream (schedule 0)

  -- The check passes exactly when the digest of the decrypted verifier is the decrypted hash, both
  -- under the one keystream of block 0.
  pub verify_password_iff :
      (verifier hash : Bytes)
      → (verify_password c schedule verifier hash digest ≡ ok tt)
        ↔ (digest (xor_from stream 0 verifier) ≡ xor_from stream (length verifier) hash)
  unfolding verify_password new apply
  verify_password_iff verifier hash =
      let d = digest (xor_from stream 0 verifier) in
      let h = xor_from stream (length verifier) hash in
      (λ e. ct_eq→eq d h (ground (arith, usable)), λ e. ground (arith, usable, ct_eq_refl d, e))

  -- What a writer stores for a verifier.
  abbrev pub stored_verifier : Bytes → Bytes
  stored_verifier verifier = xor_from stream 0 verifier

  abbrev pub stored_hash : Bytes → Bytes
  stored_hash verifier = xor_from stream (length verifier) (digest verifier)

  pub verify_password-stored :
      (verifier : Bytes)
      → verify_password c schedule (stored_verifier verifier) (stored_hash verifier) digest ≡ ok tt
  verify_password-stored verifier =
      (verify_password_iff (stored_verifier verifier) (stored_hash verifier)).1 (
        grind (
          arith,
          xor_from_twice stream 0 verifier,
          length-xor_from stream 0 verifier,
          xor_from_twice stream (length verifier) (digest verifier),
        ))
