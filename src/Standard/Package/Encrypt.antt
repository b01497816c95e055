-- ===== src/Standard/Package/Encrypt.antt =====
-- Lemmas on the loop of `encrypt_package_to` of src/standard_encrypt.rs.
use mathlib.Core.List.{append-nil, append_assoc}
use msoffice_crypto.Base.{
  ℕ, zero, suc, ◌+◌, ◌<◌, ◌≡◌, ◌≢◌, inl, inr, sym, ap, ◌∙◌, arith, List, [], ◌++◌, length, drop,
  eq-nil_of_length, List-cases,
}
use msoffice_crypto.Base.Bytes.{Bytes}
use msoffice_crypto.Error.{Result, ok}
use msoffice_crypto.Hash.{Crypto}
use msoffice_crypto.Hash.Laws.{IsCrypto, IsAesKey}
use msoffice_crypto.Cipher.Laws.{ecb_encrypt_in_place_lem}
use msoffice_crypto.Reader.{Take, Event, read_full_take}
use msoffice_crypto.Reader.Full.{NoFailure}
use msoffice_crypto.Segments.{segment_len, round_up_block, slot_with}
use msoffice_crypto.Segments.Fill.{padded, length-padded, upcoming, length-upcoming, after}
use msoffice_crypto.Agile.Package.Cut.{
  payload, upcoming-payload, payload-after, beyond-after, upcoming_empty, after_empty,
  upcoming-nonempty, length-nonempty, shrinks, ciphertext-suc, ciphertext-nil,
}
use msoffice_crypto.Standard.Package.{EcbSealing, encrypt_chunks}
use msoffice_crypto.Standard.Package.Chunks.{
  ecb_view, no_iv, ecb_text, IsRead, read_full_take-IsRead, block_lem, length-next_buf,
}

-- `result` is what the loop returns once it has put out `sealed` for the whole payload.
pub record IsEcbSealed (sealed out : Bytes) (read : ℕ) (source : Take) (result : Result EcbSealing)
    : Type 0 where
  pub last : Take
  pub calm : NoFailure last.inner.schedule
  pub rest : last.inner.content ≡ drop source.limit source.inner.content
  pub returns :
      result
      ≡ ok (record { out = out ++ sealed; read = read + length (payload source); source = last })

module _ (c : Crypto) (laws : IsCrypto c) (key : Bytes) (k : IsAesKey key) where
  length-sealed :
      (got : Bytes) → length (c.ecb_encrypt key (padded got)) ≡ round_up_block (length got)
  length-sealed got =
      laws.length-ecb_encrypt key (padded got) (omega (arith, length-padded got))
      ∙ length-padded got

  encrypt_round :
      (fuel : ℕ) (source : Take) (slot out : Bytes) (read : ℕ)
      (next : IsRead source (read_full_take source segment_len))
      → length slot ≡ segment_len
      → upcoming source ≢ []
      → let got = upcoming source in
        let sealed = c.ecb_encrypt key (padded got) in
        encrypt_chunks c key (suc fuel) source slot out read
        ≡ encrypt_chunks c key fuel
            (after source next.events)
            (sealed ++ drop (round_up_block (length got)) (slot_with got slot))
            (out ++ sealed)
            (read + length got)
  unfolding encrypt_chunks
  encrypt_round fuel source slot out read next h more =
      let got = upcoming source in
      let (block, found, zeroed) = block_lem got slot h (length-upcoming source) in
      ground (
        arith,
        next.returns,
        found,
        zeroed,
        eq-nil_of_length got,
        ecb_encrypt_in_place_lem c key (padded got) k (omega (arith, length-padded got)),
      )

  IsEcbSealed-end :
      (fuel : ℕ) (source : Take) (slot out : Bytes) (read : ℕ)
      (next : IsRead source (read_full_take source segment_len))
      → payload source ≡ []
      → IsEcbSealed [] out read source (encrypt_chunks c key (suc fuel) source slot out read)
  IsEcbSealed-end fuel source slot out read next empty = record {
    last = after source next.events;
    calm = next.calm;
    rest = after_empty source next.events empty;
    returns =
        rw (empty, append-nil)
          (unfold encrypt_chunks in
            ground (arith, next.returns, ap length (upcoming_empty source empty)));
  }

  IsEcbSealed-next :
      (sealed tail out : Bytes) (read : ℕ) (source : Take) (events : List Event)
      {result : Result EcbSealing}
      → IsEcbSealed tail
          (out ++ sealed)
          (read + length (upcoming source))
          (after source events)
          result
      → IsEcbSealed (sealed ++ tail) out read source result
  IsEcbSealed-next sealed tail out read source events next = record {
    last = next.last;
    calm = next.calm;
    rest = next.rest ∙ beyond-after source events;
    returns = ground (arith, next.returns, append_assoc out sealed tail, shrinks source events);
  }

  pub encrypt_chunks-IsEcbSealed :
      (fuel index : ℕ) (source : Take) (slot out : Bytes) (read : ℕ)
      → NoFailure source.inner.schedule
      → length slot ≡ segment_len
      → length (payload source) < fuel
      → IsEcbSealed
          (ecb_text c key fuel index (payload source))
          out
          read
          source
          (encrypt_chunks c key fuel source slot out read)
  encrypt_chunks-IsEcbSealed zero index source slot out read calm h f = absurd (omega arith)
  encrypt_chunks-IsEcbSealed (suc fuel) index source slot out read calm h f =
      elim (List-cases (payload source)) [
        | inl empty ↦
            rw (empty, ciphertext-nil (ecb_view c) key no_iv (suc fuel) index)
              (IsEcbSealed-end fuel source slot out read (read_full_take-IsRead source calm) empty)
        | inr more ↦
            let next = read_full_take-IsRead source calm in
            let got = upcoming source in
            let nonempty = upcoming-nonempty source more in
            let sealed = c.ecb_encrypt key (padded got) in
            let rest =
              encrypt_chunks-IsEcbSealed fuel (suc index) (after source next.events)
                (sealed ++ drop (round_up_block (length got)) (slot_with got slot)) (out ++ sealed)
                (read + length got) next.calm
                (length-next_buf sealed got slot h (length-upcoming source) (length-sealed got))
                (omega (arith, shrinks source next.events, length-nonempty got nonempty)) in
            rw
              (
                ciphertext-suc (ecb_view c) key no_iv fuel index (payload source) more,
                sym (upcoming-payload source),
                sym (payload-after source next.events),
                encrypt_round fuel source slot out read next h nonempty,
              )
              (IsEcbSealed-next sealed _ out read source next.events rest)
      ]
