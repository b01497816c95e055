-- ===== src/Agile/Open/Authentic.antt =====
-- The first pass of `decrypt_to` of src/agile.rs, and what a writer sees of it.
use msoffice_crypto.Base.{
  ℕ, zero, suc, ◌<◌, ◌≡◌, ◌≢◌, ◌⊎◌, inl, inr, refl, sym, ap, ◌∙◌, arith, some, List, [], length,
  take, drop, length-take, length-drop, take-append-drop, eq-nil_of_length, List-cases,
}
use mathlib.Core.List.{append-nil, append_assoc}
use msoffice_crypto.Base.Bytes.{Bytes}
use msoffice_crypto.Error.{Error, ok, err, Result-cases}
use msoffice_crypto.Hash.{Crypto, HmacState, update, finalize, hmac_state}
use msoffice_crypto.Reader.{Reader, Event, read_full}
use msoffice_crypto.Reader.Full.{NoFailure, read_full-IsFilled}
use msoffice_crypto.Writer.{Written}
use msoffice_crypto.Segments.{segment_len}
use msoffice_crypto.Integrity.{IntegrityPolicy, IntegrityOutcome, IntegrityCheck, start, finish}
use msoffice_crypto.Integrity.Laws.{finish_iff, finish_cases}
use msoffice_crypto.Agile.{AgileParams, DataIntegrity, integrity_material}
use msoffice_crypto.Integrity
use msoffice_crypto.Agile.Keys.{recover_session_key}
use msoffice_crypto.Agile.Open.{check_declared, check_integrity, mac_loop, first_pass, decrypt_to}

module _ (c : Crypto) where
  mac_loop_next :
      (fuel : ℕ) (reader : Reader) (mac : HmacState) (events : List Event)
      → read_full reader segment_len
        ≡ ok (
          take segment_len reader.content,
          record { content = drop segment_len reader.content; schedule = events },
        )
      → length reader.content ≢ 0
      → mac_loop c (suc fuel) reader mac
        ≡ mac_loop c fuel
            (record { content = drop segment_len reader.content; schedule = events })
            (update mac (take segment_len reader.content))
  unfolding mac_loop
  mac_loop_next fuel reader mac events e h = ground (arith, length-take segment_len reader.content)

  -- The first pass hashes the whole stream.
  mac_loop_lem :
      (fuel : ℕ) (reader : Reader) (mac : HmacState)
      → NoFailure reader.schedule
      → length reader.content < fuel
      → mac_loop c fuel reader mac ≡ ok (update mac reader.content)
  mac_loop_lem zero reader mac calm h = absurd (omega arith)
  mac_loop_lem (suc fuel) reader mac calm h = elim (List-cases reader.content) [
    | inl empty ↦
        let filled = read_full-IsFilled reader segment_len calm in
        unfold mac_loop update in
        ground (
          arith,
          filled.returns,
          length-take segment_len reader.content,
          append-nil mac.message,
          ap length empty,
        )
    | inr more ↦
        let filled = read_full-IsFilled reader segment_len calm in
        let next : Reader = record {
          content = drop segment_len reader.content;
          schedule = filled.events;
        } in
        let some_left : length reader.content ≢ 0 = λ e. more (eq-nil_of_length reader.content e) in
        let rest =
          mac_loop_lem fuel next (update mac (take segment_len reader.content)) filled.calm
            (omega (arith, length-drop segment_len reader.content, some_left)) in
        mac_loop_next fuel reader mac filled.events filled.returns some_left
        ∙ rest
        ∙ unfold update in
          rw (append_assoc mac.message, take-append-drop segment_len reader.content) refl
  ]

  pub first_pass_lem :
      (reader : Reader) (check : IntegrityCheck)
      → NoFailure reader.schedule
      → first_pass c reader (some check) ≡ finish c check (update (start c check) reader.content)
  unfolding first_pass
  first_pass_lem reader check calm =
      rw (mac_loop_lem (suc (length reader.content)) reader (start c check) calm (omega arith)) refl

  abbrev tag_of : IntegrityCheck → Bytes → Bytes
  tag_of check b = c.hmac check.hash check.hmac_key b

  finalize_lem :
      (check : IntegrityCheck) (b : Bytes) → finalize c (update (start c check) b) ≡ tag_of check b
  unfolding update start finalize hmac_state
  finalize_lem check b = refl

  first_pass_wrong :
      (first : Reader) (check : IntegrityCheck)
      → NoFailure first.schedule
      → tag_of check first.content ≢ check.expected
      → first_pass c first (some check) ≡ err Error.integrity_check_failed
  first_pass_wrong first check calm wrong =
      let mac = update (start c check) first.content in
      first_pass_lem first check calm ∙ elim (finish_cases c check mac) [
        | inl e ↦
            absurd (wrong (sym (finalize_lem check first.content) ∙ (finish_iff c check mac).0 e))
        | inr e ↦ e
      ]

  pub check_integrity_declared :
      (params : AgileParams) (key : Bytes) (policy : IntegrityPolicy) (di : DataIntegrity)
      → policy ≢ IntegrityPolicy.skip
      → params.data_integrity ≡ some di
      → check_integrity c params key policy ≡ check_declared c params key di
  unfolding check_integrity
  check_integrity_declared params key IntegrityPolicy.skip di asks declares = absurd (asks refl)
  check_integrity_declared params key policy di asks declares = rw declares refl

  -- Under any policy but Skip, for a file that declares its HMAC, with the right password and
  -- readable blobs, and a first pass that does not fail: where the HMAC of the first pass is
  -- not the stored tag, no byte is written, and the error is `IntegrityCheckFailed`.
  pub decrypt_to-closed :
      (params : AgileParams) (first : Reader) (stream_len : ℕ) (second : Reader) (password : Bytes)
      (policy : IntegrityPolicy) (di : DataIntegrity) (key : Bytes) (check : IntegrityCheck)
      → NoFailure first.schedule
      → policy ≢ IntegrityPolicy.skip
      → params.data_integrity ≡ some di
      → recover_session_key c params password ≡ ok key
      → check_declared c params key di ≡ ok (IntegrityOutcome.verified, some check)
      → tag_of check first.content ≢ check.expected
      → decrypt_to c params first stream_len second password policy
        ≡ ([], err Error.integrity_check_failed)
  unfolding decrypt_to
  decrypt_to-closed params first stream_len second password policy di key check calm asks declares
        opens checks wrong =
      ground (
        arith,
        check_integrity_declared params key policy di asks declares,
        first_pass_wrong first check calm wrong,
      )

  -- What is known once a decryption under such a policy has written a byte or succeeded.
  pub record IsAuthentic (params : AgileParams) (first : Bytes) (password : Bytes)
      (di : DataIntegrity) : Type 0 where
    pub key : Bytes
    pub check : IntegrityCheck
    pub opens : recover_session_key c params password ≡ ok key
    pub checks : check_declared c params key di ≡ ok (IntegrityOutcome.verified, some check)
    pub matches : tag_of check first ≡ check.expected

  first_pass_right :
      (first : Reader) (check : IntegrityCheck)
      → NoFailure first.schedule
      → first_pass c first (some check) ≡ ok tt
      → tag_of check first.content ≡ check.expected
  first_pass_right first check calm e =
      let mac = update (start c check) first.content in
      sym (finalize_lem check first.content)
      ∙ (finish_iff c check mac).0 (sym (first_pass_lem first check calm) ∙ e)

  -- The bytes written before an error are not none, or there is no error.
  abbrev pub IsFruitful : Written IntegrityOutcome → Type 0
  IsFruitful w = (w.0 ≢ []) ⊎ ((o : IntegrityOutcome) × (w.1 ≡ ok o))

  stopped : {w : Written IntegrityOutcome} (e : Error) → w ≡ ([], err e) → IsFruitful w → ⊥
  stopped e stop (inl h) = h (ap (λ w. w.0) stop)
  stopped e stop (inr (o, h)) = cc

  check_declared_cases :
      (params : AgileParams) (key : Bytes) (di : DataIntegrity)
      → ((check : IntegrityCheck) × (check_declared c params key di
            ≡ ok (IntegrityOutcome.verified, some check)))
        ⊎ ((e : Error) × (check_declared c params key di ≡ err e))
  unfolding check_declared
  check_declared_cases params key di = elim (Result-cases (integrity_material params di)) [
    | inl (m, e) ↦ elim (Result-cases (Integrity.new c key m)) [
      | inl (check, h) ↦ inl (check, rw (e, h) refl)
      | inr (error, h) ↦ inr (error, rw (e, h) refl)
    ]
    | inr (error, e) ↦ inr (error, rw e refl)
  ]

  module _ (params : AgileParams) (first : Reader) (stream_len : ℕ) (second : Reader)
      (password : Bytes) (policy : IntegrityPolicy) (di : DataIntegrity)
      (calm : NoFailure first.schedule) (asks : policy ≢ IntegrityPolicy.skip)
      (declares : params.data_integrity ≡ some di) where
    abbrev result : Written IntegrityOutcome
    result = decrypt_to c params first stream_len second password policy

    closed_key : (e : Error) → recover_session_key c params password ≡ err e → result ≡ ([], err e)
    unfolding decrypt_to
    closed_key e h = rw h refl

    closed_check :
        (key : Bytes) (e : Error)
        → recover_session_key c params password ≡ ok key
        → check_declared c params key di ≡ err e
        → result ≡ ([], err e)
    unfolding decrypt_to
    closed_check key e h k =
        ground (arith, check_integrity_declared params key policy di asks declares)

    closed_pass :
        (key : Bytes) (check : IntegrityCheck) (e : Error)
        → recover_session_key c params password ≡ ok key
        → check_declared c params key di ≡ ok (IntegrityOutcome.verified, some check)
        → first_pass c first (some check) ≡ err e
        → result ≡ ([], err e)
    unfolding decrypt_to
    closed_pass key check e h k l =
        ground (arith, check_integrity_declared params key policy di asks declares)

    -- Under any policy but Skip, for a file that declares its HMAC, and a first pass that does
    -- not fail: a decryption that writes a byte or succeeds had the right password, and the
    -- HMAC of the whole first pass is the stored tag.
    pub decrypt_to-IsAuthentic : IsFruitful result → IsAuthentic params first.content password di
    decrypt_to-IsAuthentic f = elim (Result-cases (recover_session_key c params password)) [
      | inr (e, h) ↦ absurd (stopped e (closed_key e h) f)
      | inl (key, h) ↦ elim (check_declared_cases params key di) [
        | inr (e, k) ↦ absurd (stopped e (closed_check key e h k) f)
        | inl (check, k) ↦ elim (Result-cases (first_pass c first (some check))) [
          | inr (e, l) ↦ absurd (stopped e (closed_pass key check e h k l) f)
          | inl (_, l) ↦ record {
            key = key;
            check = check;
            opens = h;
            checks = k;
            matches = first_pass_right first check calm l;
          }
        ]
      ]
    ]
