-- ===== src/Agile/Package/Authentic.antt =====
-- `decrypt_package_to` of src/agile.rs under a check, on a stream of any content.
use msoffice_crypto.Base.{
  ℕ, zero, suc, ◌+◌, ◌-◌, ◌≤◌, ◌<◌, min, ◌≡◌, ◌≢◌, inl, inr, refl, sym, ap, ◌∙◌, arith, Option,
  none, some, Option-cases, List, [], ◌++◌, length, take, drop, replicate, length-take,
  length-replicate, take_front, eq-nil_of_length, List-cases, take-append-drop, take_add,
}
use msoffice_crypto.Base.Bytes.{Bytes}
use msoffice_crypto.Error.{Error, Result, ok, err, Result-cases}
use msoffice_crypto.Hash.{Crypto, HmacState, update_some, update}
use msoffice_crypto.Hash.Laws.{IsCrypto, IsAesKey, length-fit_iv, digest_len_bounds}
use msoffice_crypto.Cipher.Laws.{cbc_decrypt_in_place_lem}
use msoffice_crypto.FileParams.{Invariant}
use msoffice_crypto.Reader.{Reader, Take, Event, read_full_take}
use msoffice_crypto.Reader.Full.{NoFailure, IsFilled, read_full-IsFilled}
use msoffice_crypto.Writer.{Written, or_stop}
use msoffice_crypto.Segments.{segment_len, round_up_block, Segmenter, next_of, fill}
use msoffice_crypto.Segments.Fill.{
  padded, length-padded, segment_iv, upcoming, length-upcoming, after, IsSegment, fill-IsSegment,
  fill-IsEnd,
}
use msoffice_crypto.Base.Bytes.{from_le_bytes}
use msoffice_crypto.Segments.Fill
use msoffice_crypto.Reader.{read_full}
use msoffice_crypto.Agile.{AgileParams}
use msoffice_crypto.Integrity.{IntegrityCheck, start}
use msoffice_crypto.Integrity.Laws.{finish_iff}
use msoffice_crypto.Hash.{finalize, hmac_state}
use msoffice_crypto.Agile.Package.{
  decrypt_loop, decrypt_package_to, start_some, finish_some, empty_slot,
}
use msoffice_crypto.Agile.Package.Cut.{
  payload, payload-after, upcoming-payload, upcoming-nonempty, length-nonempty, shrinks,
  upcoming_empty,
}
use msoffice_crypto.Agile.Package.Encrypt.{
  slice_front, update_some_nil, update_some-append, length-next_slot,
}

ok_inj : {a b : Option HmacState} → Path (Result (Option HmacState)) (ok a) (ok b) → a ≡ b
ok_inj h = cc

add_back : (n : ℕ) → 8 ≤ n → 8 + (n - 8) ≡ n
add_back n h = omega arith

-- A segment and the rest are the payload.
fed :
    (source : Take) (events : List Event) (mac : Option HmacState)
    → update_some (update_some mac (upcoming source)) (payload (after source events))
      ≡ update_some mac (payload source)
fed source events mac = ground (
  arith,
  update_some-append mac (upcoming source) (payload (after source events)),
  upcoming-payload source,
  payload-after source events,
  take-append-drop segment_len (payload source),
)

module _ (c : Crypto) (laws : IsCrypto c) (key : Bytes) (k : IsAesKey key) where
  -- One round on a segment of any content.
  any_round :
      (fuel index : ℕ) (s : Segmenter) (source : Take) (slot : Bytes) (remaining : ℕ)
      (mac : Option HmacState) (written : Bytes)
      (seg : IsSegment c s index source slot (fill c s source slot))
      → s.block_size ≡ 16
      → let got = upcoming source in
        let plain = c.cbc_decrypt key (segment_iv c s index) (padded got) in
        decrypt_loop c key (suc fuel) s source slot remaining mac written
        ≡ decrypt_loop c key fuel
            (record s { next_index = next_of index })
            (after source seg.events)
            (plain
              ++ drop
                  (round_up_block (length got))
                  (padded got ++ drop (round_up_block (length got)) slot))
            (remaining - min remaining (length got))
            (update_some mac got)
            (written ++ take (min remaining (length got)) plain)
  unfolding decrypt_loop
  any_round fuel index s source slot remaining mac written seg e =
      let got = upcoming source in
      ground (
        arith,
        seg.returns,
        length-padded got,
        slice_front (padded got) (drop (round_up_block (length got)) slot)
            (round_up_block (length got)) (sym (length-padded got)),
        take_front got (replicate (round_up_block (length got) - length got) 0) (length got),
        cbc_decrypt_in_place_lem c key (segment_iv c s index) (padded got) k
            (length-fit_iv _ s.block_size ∙ e),
      )

  fill_stop :
      (s : Segmenter) (source : Take) (slot : Bytes)
      → s.next_index ≡ none
      → NoFailure source.inner.schedule
      → upcoming source ≢ []
      → fill c s source slot ≡ err (Error.invariant_violated Invariant.counter_overflow)
  unfolding fill read_full_take
  fill_stop s source slot none_left calm more =
      let filled = read_full-IsFilled source.inner (min segment_len source.limit) calm in
      ground (arith, filled.returns, eq-nil_of_length (upcoming source))

  -- Without an index left, a segment is an error.
  no_index :
      (fuel : ℕ) (s : Segmenter) (source : Take) (slot : Bytes) (remaining : ℕ)
      (mac : Option HmacState) (written : Bytes) {m : Option HmacState}
      → s.next_index ≡ none
      → NoFailure source.inner.schedule
      → upcoming source ≢ []
      → (decrypt_loop c key (suc fuel) s source slot remaining mac written).1 ≡ ok m
      → ⊥
  unfolding decrypt_loop
  no_index fuel s source slot remaining mac written none_left calm more h =
      let stop = fill_stop s source slot none_left calm more in ground arith

  at_end :
      (fuel : ℕ) (s : Segmenter) (source : Take) (slot : Bytes) (remaining : ℕ)
      (mac : Option HmacState) (written : Bytes)
      → NoFailure source.inner.schedule
      → upcoming source ≡ []
      → (decrypt_loop c key (suc fuel) s source slot remaining mac written).1 ≡ ok mac
  unfolding decrypt_loop
  at_end fuel s source slot remaining mac written calm empty =
      let end = fill-IsEnd c laws s source slot calm empty in ground (arith, end.returns)

  pub decrypt_loop-mac :
      (fuel : ℕ) (s : Segmenter) (source : Take) (slot : Bytes) (remaining : ℕ)
      (mac : Option HmacState) (written : Bytes) (m : Option HmacState)
      → s.block_size ≡ 16
      → NoFailure source.inner.schedule
      → length slot ≡ segment_len
      → length (payload source) < fuel
      → (decrypt_loop c key fuel s source slot remaining mac written).1 ≡ ok m
      → m ≡ update_some mac (payload source)
  decrypt_loop-mac zero s source slot remaining mac written m e calm h f r = absurd (omega arith)
  decrypt_loop-mac (suc fuel) s source slot remaining mac written m e calm h f r =
      elim (List-cases (payload source)) [
        | inl empty ↦
            let last =
              at_end fuel s source slot remaining mac written calm (upcoming_empty source empty) in
            rw (empty, update_some_nil) (ok_inj (sym r ∙ last))
        | inr more ↦ elim (Option-cases s.next_index) [
          | inl none_left ↦ absurd (
              no_index fuel s source slot remaining mac written none_left calm
                (upcoming-nonempty source more) r)
          | inr (index, i) ↦
              let got = upcoming source in
              let nonempty = upcoming-nonempty source more in
              let plain = c.cbc_decrypt key (segment_iv c s index) (padded got) in
              let seg =
                fill-IsSegment c laws s source slot index i
                  (ground (arith, e, digest_len_bounds s.hash)) calm h nonempty in
              let sized =
                laws.length-cbc_decrypt key (segment_iv c s index) (padded got)
                  (omega (arith, length-padded got))
                ∙ length-padded got in
              decrypt_loop-mac fuel (record s { next_index = next_of index })
                (after source seg.events)
                (plain
                  ++ drop (round_up_block (length got))
                      (padded got ++ drop (round_up_block (length got)) slot))
                (remaining - min remaining (length got)) (update_some mac got)
                (written ++ take (min remaining (length got)) plain) m e seg.calm
                (length-next_slot c laws key k plain got slot h (length-upcoming source) sized)
                (omega (arith, shrinks source seg.events, length-nonempty got nonempty))
                (ap (λ w. w.1)
                    (sym (any_round fuel index s source slot remaining mac written seg e))
                  ∙ r)
              ∙ fed source seg.events mac
        ]
      ]

module _ (c : Crypto) (laws : IsCrypto c) (key : Bytes) (k : IsAesKey key) (params : AgileParams)
    (block : params.key_data_block_size ≡ 16) (stream_len : ℕ) (reader : Reader)
    (calm : NoFailure reader.schedule) (check : IntegrityCheck) where
  filled : IsFilled reader.content 8 (read_full reader 8)
  filled = read_full-IsFilled reader 8 calm

  abbrev prefix : Bytes
  prefix = take 8 reader.content

  abbrev body : Take
  body = record {
    inner = record { content = drop 8 reader.content; schedule = filled.events };
    limit = stream_len - 8;
  }

  abbrev segmenter : Segmenter
  segmenter = record {
    hash = params.key_data_hash;
    salt = params.outer_salt;
    block_size = 16;
    next_index = some 0;
  }

  abbrev loop : Written (Option HmacState)
  loop =
      decrypt_loop c key (suc (stream_len - 8)) segmenter body empty_slot (from_le_bytes prefix)
        (update_some (start_some c (some check)) prefix) []

  -- The end of the function, by what the loop returned.
  no_stop :
      (written : Bytes) (r : Result (Option HmacState)) (e : Error)
      → r ≡ err e
      → (or_stop written r (λ mac. (written, finish_some c (some check) mac))).1 ≡ ok tt
      → ⊥
  no_stop written (ok m) e f h = cc
  no_stop written (err e') e f h = cc

  went_on :
      (written : Bytes) (r : Result (Option HmacState)) (m : Option HmacState)
      → r ≡ ok m
      → (or_stop written r (λ mac. (written, finish_some c (some check) mac))).1 ≡ ok tt
      → finish_some c (some check) m ≡ ok tt
  went_on written (ok m') m f h = cc
  went_on written (err e) m f h = cc

  -- The guards that a success has passed.
  passed :
      (decrypt_package_to c key params stream_len reader (some check)).1 ≡ ok tt
      → (8 ≤ stream_len)
        × (8 ≤ length reader.content)
        × ((or_stop loop.0 loop.1 (λ mac. (loop.0, finish_some c (some check) mac))).1 ≡ ok tt)
  unfolding decrypt_package_to
  passed h =
      let start_ok = Fill.new_lem params.key_data_hash params.outer_salt in
      let size = length-take 8 reader.content in
      (
        ground (arith, filled.returns, size),
        ground (arith, filled.returns, size),
        ground (arith, filled.returns, size, start_ok, block),
      )

  -- All of the stream, in two pieces.
  whole : 8 ≤ stream_len → prefix ++ payload body ≡ take stream_len reader.content
  whole h =
      take_add 8 (stream_len - 8) reader.content
      ∙ ap (λ n. take n reader.content) (add_back stream_len h)

  finished :
      (m : Option HmacState)
      → m ≡ update_some (update_some (start_some c (some check)) prefix) (payload body)
      → finish_some c (some check) m ≡ ok tt
      → c.hmac check.hash check.hmac_key (prefix ++ payload body) ≡ check.expected
  unfolding finish_some update_some update start hmac_state finalize
  finished m e h =
      (finish_iff c check (update (update (start c check) prefix) (payload body))).0
        (sym (ap (finish_some c (some check)) e) ∙ h)

  -- Under an AES key and a block size of 16, on a stream that does not fail: where
  -- `decrypt_package_to` succeeds under a check, the HMAC of the very bytes that it decrypted, the
  -- first `stream_len` of the stream, is the stored tag.
  pub decrypt_package_to-hmac :
      (decrypt_package_to c key params stream_len reader (some check)).1 ≡ ok tt
      → c.hmac check.hash check.hmac_key (take stream_len reader.content) ≡ check.expected
  decrypt_package_to-hmac h =
      let (long, filled_up, done) = passed h in
      elim (Result-cases loop.1) [
        | inr (e, f) ↦ absurd (no_stop loop.0 loop.1 e f done)
        | inl (m, f) ↦
            ap (c.hmac check.hash check.hmac_key) (sym (whole long))
            ∙ finished m
                (decrypt_loop-mac c laws key k (suc (stream_len - 8)) segmenter body empty_slot
                  (from_le_bytes prefix) (update_some (start_some c (some check)) prefix) [] m refl
                  filled.calm (length-replicate segment_len 0)
                  (omega (arith, length-take (stream_len - 8) (drop 8 reader.content))) f)
                (went_on loop.0 loop.1 m f done)
      ]
