-- ===== src/Agile/Package/Encrypt.antt =====
-- Lemmas on `encrypt_package_to` of src/agile_encrypt.rs and its loop.
use mathlib.Core.List.{append-nil, append_assoc}
use msoffice_crypto.Base.{
  ℕ, zero, suc, ◌+◌, ◌*◌, ◌^◌, ◌≤◌, ◌<◌, ◌≡◌, ◌≢◌, refl, sym, ap, ◌∙◌, arith, Option, none, some,
  List, [], ◌++◌, length, drop, length-drop, length-append, take_front, drop_front, List-cases, inl,
  inr,
}
use msoffice_crypto.Base.Bytes.{Bytes, slice}
use msoffice_crypto.Error.{Result, ok}
use msoffice_crypto.Hash.{Crypto, HmacState, update_some, update}
use msoffice_crypto.Hash.Laws.{IsCrypto, IsAesKey, length-fit_iv, digest_len_bounds}
use msoffice_crypto.Cipher.Laws.{cbc_encrypt_in_place_lem}
use msoffice_crypto.Reader.{Take, Event}
use msoffice_crypto.Reader.Full.{NoFailure}
use msoffice_crypto.Segments.{segment_len, round_up_block, Segmenter, next_of, fill}
use msoffice_crypto.Segments.Fill.{
  padded, length-padded, segment_iv, upcoming, after, IsSegment, fill-IsSegment, fill-IsEnd,
  length-upcoming,
}
use msoffice_crypto.Agile.Package.{Sealing, encrypt_loop}
use msoffice_crypto.Agile.Package.Cut.{
  payload, payload-after, upcoming-payload, beyond-after, shrinks, index_at, index_at_within,
  length-nonempty, upcoming-nonempty, next_bound, next_of-index_at, ciphertext, ciphertext-suc,
  ciphertext-nil, upcoming_empty, after_empty,
}

pub update_some-append :
    (mac : Option HmacState) (a b : Bytes)
    → update_some (update_some mac a) b ≡ update_some mac (a ++ b)
unfolding update_some update
update_some-append none a b = refl
update_some-append (some mac) a b = rw append_assoc

pub update_some_nil : (mac : Option HmacState) → update_some mac [] ≡ mac
unfolding update_some update
update_some_nil none = refl
update_some_nil (some mac) = ap (λ m. some (record mac { message = m })) (append-nil mac.message)

-- `result` is what the loop returns once it has put out `sealed` for the whole payload.
pub record IsSealed (sealed out : Bytes) (mac : Option HmacState) (read : ℕ) (source : Take)
    (result : Result Sealing) : Type 0 where
  pub last : Take
  pub calm : NoFailure last.inner.schedule
  pub rest : last.inner.content ≡ drop source.limit source.inner.content
  pub returns :
      result
      ≡ ok (record {
        out = out ++ sealed;
        mac = update_some mac sealed;
        read = read + length (payload source);
        source = last;
      })

-- The front of a slot that starts with `b`.
pub slice_front : (b rest : Bytes) (n : ℕ) → n ≡ length b → slice (b ++ rest) 0 n ≡ some b
unfolding slice drop
slice_front b rest n e = ground (arith, length-append b rest, take_front b rest n)

module _ (c : Crypto) (laws : IsCrypto c) (key : Bytes) (k : IsAesKey key) where
  -- One round that finds a segment.
  encrypt_round :
      (fuel index : ℕ) (s : Segmenter) (source : Take) (slot out : Bytes) (mac : Option HmacState)
      (read : ℕ) (seg : IsSegment c s index source slot (fill c s source slot))
      → s.block_size ≡ 16
      → let sealed = c.cbc_encrypt key (segment_iv c s index) (padded (upcoming source)) in
        encrypt_loop c key (suc fuel) s source slot out mac read
        ≡ encrypt_loop c key fuel
            (record s { next_index = next_of index })
            (after source seg.events)
            (sealed
              ++ drop (round_up_block (length (upcoming source))) (
                  padded (upcoming source)
                  ++ drop (round_up_block (length (upcoming source))) slot))
            (out ++ sealed)
            (update_some mac sealed)
            (read + length (upcoming source))
  unfolding encrypt_loop
  encrypt_round fuel index s source slot out mac read seg e = ground (
    arith,
    seg.returns,
    length-padded (upcoming source),
    slice_front (padded (upcoming source)) (drop (round_up_block (length (upcoming source))) slot)
        (round_up_block (length (upcoming source))) (sym (length-padded (upcoming source))),
    cbc_encrypt_in_place_lem c key (segment_iv c s index) (padded (upcoming source)) k
        (length-fit_iv _ s.block_size ∙ e) (omega (arith, length-padded (upcoming source))),
  )

  -- The slot keeps its length through a round.
  pub length-next_slot :
      (sealed got slot : Bytes)
      → length slot ≡ segment_len
      → length got ≤ segment_len
      → length sealed ≡ round_up_block (length got)
      → length (
          sealed
          ++ drop
              (round_up_block (length got))
              (padded got ++ drop (round_up_block (length got)) slot))
        ≡ segment_len
  length-next_slot sealed got slot h p e = ground (
    arith,
    drop_front (padded got) (drop (round_up_block (length got)) slot) (round_up_block (length got))
        (sym (length-padded got)),
    length-append sealed (drop (round_up_block (length got)) slot),
    length-drop (round_up_block (length got)) slot,
  )

  IsSealed-next :
      (sealed tail out : Bytes) (mac : Option HmacState) (read : ℕ) (source : Take)
      (events : List Event) {result : Result Sealing}
      → IsSealed tail
          (out ++ sealed)
          (update_some mac sealed)
          (read + length (upcoming source))
          (after source events)
          result
      → IsSealed (sealed ++ tail) out mac read source result
  IsSealed-next sealed tail out mac read source events next = record {
    last = next.last;
    calm = next.calm;
    rest = next.rest ∙ beyond-after source events;
    returns = ground (
      arith,
      next.returns,
      append_assoc out sealed tail,
      update_some-append mac sealed tail,
      shrinks source events,
    );
  }

  IsSealed-end :
      (fuel index : ℕ) (s : Segmenter) (source : Take) (slot out : Bytes) (mac : Option HmacState)
      (read : ℕ)
      → NoFailure source.inner.schedule
      → payload source ≡ []
      → IsSealed
          (ciphertext c key (segment_iv c s) (suc fuel) index (payload source))
          out
          mac
          read
          source
          (encrypt_loop c key (suc fuel) s source slot out mac read)
  IsSealed-end fuel index s source slot out mac read calm empty =
      let end = fill-IsEnd c laws s source slot calm (upcoming_empty source empty) in
      record {
        last = after source end.events;
        calm = end.calm;
        rest = after_empty source end.events empty;
        returns =
            rw
              (
                empty,
                ciphertext-nil c key (segment_iv c s) (suc fuel) index,
                append-nil,
                update_some_nil,
              )
              (unfold encrypt_loop in ground (arith, end.returns));
      }

  sealed-length :
      (s : Segmenter) (source : Take) (index : ℕ)
      → length (c.cbc_encrypt key (segment_iv c s index) (padded (upcoming source)))
        ≡ round_up_block (length (upcoming source))
  sealed-length s source index =
      laws.length-cbc_encrypt key (segment_iv c s index) (padded (upcoming source))
        (omega (arith, length-padded (upcoming source)))
      ∙ length-padded (upcoming source)

  pub encrypt_loop-IsSealed :
      (fuel index : ℕ) (s : Segmenter) (source : Take) (slot out : Bytes) (mac : Option HmacState)
      (read : ℕ)
      → s.block_size ≡ 16
      → s.next_index ≡ index_at index
      → NoFailure source.inner.schedule
      → length slot ≡ segment_len
      → length (payload source) < fuel
      → index * segment_len + length (payload source) ≤ 2 ^ 44
      → IsSealed
          (ciphertext c key (segment_iv c s) fuel index (payload source))
          out
          mac
          read
          source
          (encrypt_loop c key fuel s source slot out mac read)
  encrypt_loop-IsSealed zero index s source slot out mac read e i calm h f b = absurd (omega arith)
  encrypt_loop-IsSealed (suc fuel) index s source slot out mac read e i calm h f b =
      elim (List-cases (payload source)) [
        | inl empty ↦ IsSealed-end fuel index s source slot out mac read calm empty
        | inr more ↦
            let nonempty : upcoming source ≢ [] = upcoming-nonempty source more in
            let seg =
              fill-IsSegment c laws s source slot index
                (i ∙ index_at_within index (payload source) more b)
                (ground (arith, e, digest_len_bounds s.hash)) calm h nonempty in
            let got = upcoming source in
            let sealed = c.cbc_encrypt key (segment_iv c s index) (padded got) in
            let next =
              encrypt_loop-IsSealed fuel (suc index) (record s { next_index = next_of index })
                (after source seg.events)
                (sealed
                  ++ drop (round_up_block (length got))
                      (padded got ++ drop (round_up_block (length got)) slot))
                (out ++ sealed) (update_some mac sealed) (read + length got) e
                (next_of-index_at index) seg.calm
                (length-next_slot sealed got slot h (length-upcoming source)
                  (sealed-length s source index))
                (omega (arith, shrinks source seg.events, length-nonempty got nonempty))
                (omega
                  (arith, next_bound source seg.events, length-nonempty (payload source) more)) in
            rw
              (
                ciphertext-suc c key (segment_iv c s) fuel index (payload source) more,
                sym (upcoming-payload source),
                sym (payload-after source seg.events),
                encrypt_round fuel index s source slot out mac read seg e,
              )
              (IsSealed-next sealed _ out mac read source seg.events next)
      ]
