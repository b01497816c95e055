-- ===== src/Agile/Package/Decrypt.antt =====
-- Lemmas on the loop of `decrypt_package_to` of src/agile.rs, on a ciphertext.
use mathlib.Core.List.{append-nil, append_assoc}
use native.Mathlib.Decide.{dec_le}
use msoffice_crypto.Base.{
  ℕ, zero, suc, ◌+◌, ◌-◌, ◌*◌, ◌^◌, ◌≤◌, ◌<◌, min, ◌≡◌, ◌≢◌, refl, sym, ap, ◌∙◌, arith, Option,
  List, [], ◌++◌, length, take, drop, replicate, length-replicate, length-take, length-drop,
  length-append, take_all, drop_all, take_front, drop_front, eq-nil_of_length, List-cases, inl, inr,
  take-append-drop,
}
use msoffice_crypto.Base.Bytes.{Bytes}
use msoffice_crypto.Error.{ok}
use msoffice_crypto.Hash.{Crypto, HmacState, update_some}
use msoffice_crypto.Hash.Laws.{IsCrypto, IsAesKey, IsWhole, length-fit_iv, digest_len_bounds}
use msoffice_crypto.Cipher.Laws.{cbc_decrypt_in_place_lem}
use msoffice_crypto.Reader.{Take, Event}
use msoffice_crypto.Reader.Full.{NoFailure}
use msoffice_crypto.Writer.{Written}
use msoffice_crypto.Segments.{segment_len, round_up_block, Segmenter, next_of, fill}
use msoffice_crypto.Segments.Fill.{
  padded, length-padded, segment_iv, upcoming, length-upcoming, after, IsSegment, fill-IsSegment,
  fill-IsEnd,
}
use msoffice_crypto.Agile.Package.{decrypt_loop}
use msoffice_crypto.Agile.Package.Cut.{
  payload, payload-after, upcoming-payload, length-nonempty, shrinks, index_at, index_at_within,
  next_of-index_at, ciphertext, ciphertext-suc, ciphertext-nil, upcoming_empty,
}
use msoffice_crypto.Agile.Package.Encrypt.{
  slice_front, length-next_slot, update_some_nil, update_some-append,
}

-- Whole blocks have no padding.
pub padded_whole : (b : Bytes) → IsWhole b → padded b ≡ b
padded_whole b h =
    let n = round_up_block (length b) - length b in
    rw (eq-nil_of_length {A = ℕ} (replicate n 0) (omega (arith, length-replicate {A = ℕ} n 0)))
      (append-nil b)

module _ (c : Crypto) (laws : IsCrypto c) (key : Bytes) (ivs : ℕ → Bytes) where
  -- The first segment of an encrypted payload.
  abbrev pub first : ℕ → Bytes → Bytes
  first index p = c.cbc_encrypt key (ivs index) (padded (take segment_len p))

  pub length-first :
      (index : ℕ) (p : Bytes) → length (first index p) ≡ round_up_block (min segment_len (length p))
  length-first index p = ground (
    arith,
    length-take segment_len p,
    length-padded (take segment_len p),
    laws.length-cbc_encrypt key (ivs index) (padded (take segment_len p)),
  )

  pub segments-first :
      (fuel index : ℕ) (p : Bytes)
      → let rest = ciphertext c key ivs fuel (suc index) (drop segment_len p) in
        (take segment_len (first index p ++ rest) ≡ first index p)
        × (drop segment_len (first index p ++ rest) ≡ rest)
  segments-first fuel index p = elim (dec_le segment_len (length p)) [
    | yes h ↦ (
      take_front (first index p) _ segment_len (omega (arith, length-first index p)),
      drop_front (first index p) _ segment_len (omega (arith, length-first index p)),
    )
    | no h ↦
        rw
          (
            drop_all segment_len p (omega arith),
            ciphertext-nil c key ivs fuel (suc index),
            append-nil (first index p),
          )
          (
            take_all segment_len (first index p) (omega (arith, length-first index p)),
            drop_all segment_len (first index p) (omega (arith, length-first index p)),
          )
  ]

-- `result` is what the loop returns once it has written `p` for the whole payload.
abbrev pub IsOpened :
    (p written : Bytes) → Option HmacState → Take → Written (Option HmacState) → Type 0
IsOpened p written mac source result =
    result ≡ (written ++ p, ok (update_some mac (payload source)))

module _ (c : Crypto) (laws : IsCrypto c) (key : Bytes) (k : IsAesKey key) where
  -- One round that finds the segment `stored`, encrypted from `plain`.
  decrypt_round :
      (fuel index : ℕ) (s : Segmenter) (source : Take) (slot : Bytes) (remaining : ℕ)
      (mac : Option HmacState) (written plain : Bytes)
      (seg : IsSegment c s index source slot (fill c s source slot))
      → s.block_size ≡ 16
      → IsWhole plain
      → upcoming source ≡ c.cbc_encrypt key (segment_iv c s index) plain
      → decrypt_loop c key (suc fuel) s source slot remaining mac written
        ≡ decrypt_loop c key fuel
            (record s { next_index = next_of index })
            (after source seg.events)
            (plain
              ++ drop (round_up_block (length (upcoming source))) (
                  padded (upcoming source)
                  ++ drop (round_up_block (length (upcoming source))) slot))
            (remaining - min remaining (length (upcoming source)))
            (update_some mac (take (length (upcoming source)) (padded (upcoming source))))
            (written ++ take (min remaining (length (upcoming source))) plain)
  unfolding decrypt_loop
  decrypt_round fuel index s source slot remaining mac written plain seg e w found =
      let got = upcoming source in
      ground (
        arith,
        seg.returns,
        length-padded got,
        slice_front (padded got) (drop (round_up_block (length got)) slot)
            (round_up_block (length got)) (sym (length-padded got)),
        laws.length-cbc_encrypt key (segment_iv c s index) plain w,
        padded_whole got,
        cbc_decrypt_in_place_lem c key (segment_iv c s index) got k
            (length-fit_iv _ s.block_size ∙ e),
        laws.cbc_decrypt-encrypt key (segment_iv c s index) plain k
            (length-fit_iv _ s.block_size ∙ e) w,
      )

  IsOpened-end :
      (fuel : ℕ) (s : Segmenter) (source : Take) (slot : Bytes) (remaining : ℕ)
      (mac : Option HmacState) (written : Bytes)
      → NoFailure source.inner.schedule
      → payload source ≡ []
      → IsOpened [] written mac source
          (decrypt_loop c key (suc fuel) s source slot remaining mac written)
  unfolding decrypt_loop
  IsOpened-end fuel s source slot remaining mac written calm empty =
      let end = fill-IsEnd c laws s source slot calm (upcoming_empty source empty) in
      rw (empty, append-nil, update_some_nil) (ground (arith, end.returns))

  -- The segment read, when the payload is a ciphertext.
  pub upcoming-first :
      (ivs : ℕ → Bytes) (fuel index : ℕ) (p : Bytes) (source : Take) (events : List Event)
      → p ≢ []
      → payload source ≡ ciphertext c key ivs (suc fuel) index p
      → (upcoming source ≡ first c laws key ivs index p)
        × (payload (after source events)
            ≡ ciphertext c key ivs fuel (suc index) (drop segment_len p))
  upcoming-first ivs fuel index p source events more e =
      let split = e ∙ ciphertext-suc c key ivs fuel index p more in
      let halves = segments-first c laws key ivs fuel index p in
      (
        upcoming-payload source ∙ ap (take segment_len) split ∙ halves.0,
        payload-after source events ∙ ap (drop segment_len) split ∙ halves.1,
      )

  -- What a round keeps of a segment: the plain bytes without their padding.
  pub kept :
      (p : Bytes) (n : ℕ)
      → n ≡ round_up_block (min segment_len (length p))
      → (take (min (length p) n) (padded (take segment_len p)) ≡ take segment_len p)
        × (length p - min (length p) n ≡ length (drop segment_len p))
  kept p n e = (
    take_front (take segment_len p) _ (min (length p) n) (omega (arith, length-take segment_len p)),
    omega (arith, length-drop segment_len p),
  )

  plain-length :
      (p got : Bytes)
      → length got ≡ round_up_block (min segment_len (length p))
      → length (padded (take segment_len p)) ≡ round_up_block (length got)
  plain-length p got n =
      omega (arith, length-padded (take segment_len p), length-take segment_len p)

  -- A segment and the rest, in what is written and in what the HMAC reads.
  joined :
      (source : Take) (events : List Event) (p : Bytes) (mac : Option HmacState) (written : Bytes)
      → let got = upcoming source in
        Path
          (Written (Option HmacState))
          (
            (written ++ take segment_len p) ++ drop segment_len p,
            ok (
                update_some
                  (update_some mac (take (length got) (padded got)))
                  (payload (after source events))),
          )
          (written ++ p, ok (update_some mac (payload source)))
  joined source events p mac written =
      let got = upcoming source in
      ground (
        arith,
        append_assoc written (take segment_len p) (drop segment_len p),
        take-append-drop segment_len p,
        take_front got (replicate (round_up_block (length got) - length got) 0) (length got),
        update_some-append mac got (payload (after source events)),
        upcoming-payload source,
        payload-after source events,
        take-append-drop segment_len (payload source),
      )

  pub decrypt_loop-IsOpened :
      (fuel cut index : ℕ) (s : Segmenter) (source : Take) (slot p : Bytes) (mac : Option HmacState)
      (written : Bytes)
      → s.block_size ≡ 16
      → s.next_index ≡ index_at index
      → NoFailure source.inner.schedule
      → length slot ≡ segment_len
      → payload source ≡ ciphertext c key (segment_iv c s) cut index p
      → length p < cut
      → length (payload source) < fuel
      → index * segment_len + length p ≤ 2 ^ 44
      → IsOpened p written mac source (decrypt_loop c key fuel s source slot (length p) mac written)
  decrypt_loop-IsOpened zero cut index s source slot p mac written e i calm h found f g b =
      absurd (omega arith)
  decrypt_loop-IsOpened (suc fuel) zero index s source slot p mac written e i calm h found f g b =
      absurd (omega arith)
  decrypt_loop-IsOpened (suc fuel) (suc cut) index s source slot p mac written e i calm h found f g
        b =
      elim (List-cases p) [
        | inl empty ↦ rw empty (
            IsOpened-end fuel s source slot 0 mac written calm (
              found
              ∙ ap (ciphertext c key (segment_iv c s) (suc cut) index) empty
              ∙ ciphertext-nil c key (segment_iv c s) (suc cut) index))
        | inr more ↦
            let ivs = segment_iv c s in
            let got = upcoming source in
            let plain = padded (take segment_len p) in
            let head = upcoming-first ivs cut index p source source.inner.schedule more found in
            let n : length got ≡ round_up_block (min segment_len (length p)) =
              ap length head.0 ∙ length-first c laws key ivs index p in
            let seg =
              fill-IsSegment c laws s source slot index (i ∙ index_at_within index p more b)
                (ground (arith, e, digest_len_bounds s.hash)) calm h
                (λ empty. more (eq-nil_of_length p (omega (arith, n, ap length empty)))) in
            let next =
              decrypt_loop-IsOpened fuel cut (suc index) (record s { next_index = next_of index })
                (after source seg.events)
                (plain
                  ++ drop (round_up_block (length got))
                      (padded got ++ drop (round_up_block (length got)) slot))
                (drop segment_len p) (update_some mac (take (length got) (padded got)))
                (written ++ take segment_len p) e (next_of-index_at index) seg.calm
                (length-next_slot c laws key k plain got slot h (length-upcoming source)
                  (plain-length p got n))
                head.1 (omega (arith, length-drop segment_len p, length-nonempty p more))
                (omega (arith, shrinks source seg.events, n, length-nonempty p more))
                (omega (arith, length-drop segment_len p, length-nonempty p more)) in
            decrypt_round fuel index s source slot (length p) mac written plain seg e
              (omega (arith, length-padded (take segment_len p))) head.0
            ∙ rw ((kept p (length got) n).0, (kept p (length got) n).1) next
            ∙ joined source seg.events p mac written
      ]

-- Every segment is whole blocks, so only the last one grows.
pub length-ciphertext :
    (c : Crypto) (laws : IsCrypto c) (key : Bytes) (ivs : ℕ → Bytes) (fuel index : ℕ) (p : Bytes)
    → length p < fuel
    → length (ciphertext c key ivs fuel index p) ≡ round_up_block (length p)
length-ciphertext c laws key ivs zero index p h = absurd (omega arith)
length-ciphertext c laws key ivs (suc fuel) index p h = elim (List-cases p) [
  | inl empty ↦ rw empty (rw (ciphertext-nil c key ivs (suc fuel) index) refl)
  | inr more ↦ rw (ciphertext-suc c key ivs fuel index p more) (
      omega (
        arith,
        length-append (first c laws key ivs index p)
            (ciphertext c key ivs fuel (suc index) (drop segment_len p)),
        length-first c laws key ivs index p,
        length-drop segment_len p,
        length-nonempty p more,
        length-ciphertext c laws key ivs fuel (suc index) (drop segment_len p)
            (omega (arith, length-drop segment_len p, length-nonempty p more)),
      ))
]
