-- ===== src/Standard/Package/Decrypt.antt =====
-- Lemmas on the loop of `decrypt_package_to` of src/standard.rs.
use mathlib.Core.List.{append-nil, append_assoc}
use msoffice_crypto.Base.{
  ℕ, zero, suc, ◌-◌, ◌<◌, min, ◌≡◌, ◌≢◌, inl, inr, ap, ◌∙◌, arith, [], ◌++◌, length, take, drop,
  length-take, length-drop, eq-nil_of_length, List-cases, take-append-drop,
}
use msoffice_crypto.Base.Bytes.{Bytes}
use msoffice_crypto.Error.{ok}
use msoffice_crypto.Hash.{Crypto}
use msoffice_crypto.Hash.Laws.{IsCrypto, IsAesKey, IsWhole}
use msoffice_crypto.Cipher.Laws.{ecb_decrypt_in_place_lem}
use msoffice_crypto.Reader.{Take, read_full_take}
use msoffice_crypto.Reader.Full.{NoFailure}
use msoffice_crypto.Segments.{segment_len, round_up_block, slot_with}
use msoffice_crypto.Segments.Fill.{padded, length-padded, upcoming, length-upcoming, after}
use msoffice_crypto.Agile.Package.Cut.{
  payload, upcoming_empty, length-nonempty, shrinks, ciphertext-nil,
}
use msoffice_crypto.Agile.Package.Decrypt.{padded_whole, length-first, upcoming-first, kept}
use msoffice_crypto.Standard.Package.{decrypt_chunks}
use msoffice_crypto.Standard.Package.Chunks.{
  ecb_view, ecb_view-IsCrypto, no_iv, ecb_text, IsRead, read_full_take-IsRead, block_lem,
  length-next_buf,
}

module _ (c : Crypto) (laws : IsCrypto c) (key : Bytes) (k : IsAesKey key) where
  abbrev view_laws : IsCrypto (ecb_view c)
  view_laws = ecb_view-IsCrypto c laws

  decrypt_round :
      (fuel : ℕ) (source : Take) (slot : Bytes) (remaining : ℕ) (written plain : Bytes)
      (next : IsRead source (read_full_take source segment_len))
      → length slot ≡ segment_len
      → upcoming source ≢ []
      → IsWhole plain
      → upcoming source ≡ c.ecb_encrypt key plain
      → let got = upcoming source in
        decrypt_chunks c key (suc fuel) source slot remaining written
        ≡ decrypt_chunks c key fuel
            (after source next.events)
            (plain ++ drop (round_up_block (length got)) (slot_with got slot))
            (remaining - min remaining (length got))
            (written ++ take (min remaining (length got)) plain)
  unfolding decrypt_chunks
  decrypt_round fuel source slot remaining written plain next h more w found =
      let got = upcoming source in
      let (block, cut, zeroed) = block_lem got slot h (length-upcoming source) in
      ground (
        arith,
        next.returns,
        cut,
        zeroed,
        eq-nil_of_length got,
        laws.length-ecb_encrypt key plain w,
        padded_whole got,
        ecb_decrypt_in_place_lem c key got k,
        laws.ecb_decrypt-encrypt key plain k w,
      )

  decrypt_end :
      (fuel : ℕ) (source : Take) (slot : Bytes) (remaining : ℕ) (written : Bytes)
      (next : IsRead source (read_full_take source segment_len))
      → payload source ≡ []
      → decrypt_chunks c key (suc fuel) source slot remaining written ≡ (written, ok tt)
  unfolding decrypt_chunks
  decrypt_end fuel source slot remaining written next empty =
      ground (arith, next.returns, ap length (upcoming_empty source empty))

  pub decrypt_chunks_lem :
      (fuel cut index : ℕ) (source : Take) (slot p written : Bytes)
      → NoFailure source.inner.schedule
      → length slot ≡ segment_len
      → payload source ≡ ecb_text c key cut index p
      → length p < cut
      → length (payload source) < fuel
      → decrypt_chunks c key fuel source slot (length p) written ≡ (written ++ p, ok tt)
  decrypt_chunks_lem zero cut index source slot p written calm h found f g = absurd (omega arith)
  decrypt_chunks_lem (suc fuel) zero index source slot p written calm h found f g =
      absurd (omega arith)
  decrypt_chunks_lem (suc fuel) (suc cut) index source slot p written calm h found f g =
      elim (List-cases p) [
        | inl empty ↦
            rw (empty, append-nil)
              (decrypt_end fuel source slot 0 written (read_full_take-IsRead source calm) (
                found
                ∙ ap (ecb_text c key (suc cut) index) empty
                ∙ ciphertext-nil (ecb_view c) key no_iv (suc cut) index))
        | inr more ↦
            let next = read_full_take-IsRead source calm in
            let got = upcoming source in
            let plain = padded (take segment_len p) in
            let head =
              upcoming-first (ecb_view c) view_laws key k no_iv cut index p source next.events more
                found in
            let n : length got ≡ round_up_block (min segment_len (length p)) =
              ap length head.0 ∙ length-first (ecb_view c) view_laws key no_iv index p in
            let sized = length-padded (take segment_len p) in
            let rest =
              decrypt_chunks_lem fuel cut (suc index) (after source next.events)
                (plain ++ drop (round_up_block (length got)) (slot_with got slot))
                (drop segment_len p) (written ++ take segment_len p) next.calm
                (length-next_buf plain got slot h (length-upcoming source)
                  (omega (arith, sized, n, length-take segment_len p)))
                head.1 (omega (arith, length-drop segment_len p, length-nonempty p more))
                (omega (arith, shrinks source next.events, n, length-nonempty p more)) in
            let keep = kept c laws key k p (length got) n in
            decrypt_round fuel source slot (length p) written plain next h
              (λ e. more (eq-nil_of_length p (omega (arith, n, ap length e))))
              (omega (arith, sized)) head.0
            ∙ rw (keep.0, keep.1) rest
            ∙ ap (λ b. (b, ok tt))
                (append_assoc written (take segment_len p) (drop segment_len p)
                  ∙ ap (λ b. written ++ b) (take-append-drop segment_len p))
      ]
