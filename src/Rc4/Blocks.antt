-- ===== src/Rc4/Blocks.antt =====
-- `decrypt_in_blocks` of src/rc4.rs and the keystream of the whole data.
use native.Mathlib.Nat.{add-mul-div_left, div-eq_of_lt, add-mul-mod_self_left, mod-eq_of_lt}
use native.Mathlib.Decide.{dec_le}
use msoffice_crypto.Base.{
  ℕ, zero, suc, ◌+◌, ◌*◌, ◌/◌, ◌%◌, ◌^◌, ◌≤◌, ◌<◌, ◌≡◌, refl, sym, ap, ap₂, ◌∙◌, arith, [], ◌∷◌,
  ◌++◌, length, take, drop, length-take, length-drop, length-append, inl, inr, take-append-drop,
  drop_all, bit_xor,
}
use msoffice_crypto.Base.Bits.{bit_xor_twice}
use msoffice_crypto.Base.Bytes.{Bytes}
use msoffice_crypto.Error.{ok, Result-cases}
use msoffice_crypto.Hash.{Crypto}
use msoffice_crypto.Rc4.{BlockKeySchedule, new, xor_from, apply, decrypt_chunks, decrypt_in_blocks}

-- Keys of 5 to 16 bytes, which RC4 is used with.
abbrev pub IsRc4Schedule : BlockKeySchedule → Type 0
IsRc4Schedule schedule = (i : ℕ) → (5 ≤ length (schedule i)) × (length (schedule i) ≤ 16)

pub xor_from-append :
    (k : ℕ → ℕ) (at : ℕ) (xs ys : Bytes)
    → xor_from k at (xs ++ ys) ≡ xor_from k at xs ++ xor_from k (at + length xs) ys
unfolding xor_from
xor_from-append k at [] ys = grind arith
xor_from-append k at (x ∷ xs) ys = grind (arith, xor_from-append k (suc at) xs ys)

pub length-xor_from : (k : ℕ → ℕ) (at : ℕ) (b : Bytes) → length (xor_from k at b) ≡ length b
unfolding xor_from
length-xor_from k at [] = refl
length-xor_from k at (x ∷ b) = ap suc (length-xor_from k (suc at) b)

pub xor_from_twice : (k : ℕ → ℕ) (at : ℕ) (b : Bytes) → xor_from k at (xor_from k at b) ≡ b
unfolding xor_from
xor_from_twice k at [] = refl
xor_from_twice k at (x ∷ b) =
    ap₂ (λ y ys. y ∷ ys) (bit_xor_twice x (k at)) (xor_from_twice k (suc at) b)

-- Keystreams that agree where the data lies.
xor_from_agree :
    (k k' : ℕ → ℕ) (at at' : ℕ) (b : Bytes)
    → ((o : ℕ) → o < length b → k (at + o) ≡ k' (at' + o))
    → xor_from k at b ≡ xor_from k' at' b
unfolding xor_from
xor_from_agree k k' at at' [] h = refl
xor_from_agree k k' at at' (x ∷ b) h =
    ap₂ (λ y ys. y ∷ ys) (ap (bit_xor x) (grind (arith, h 0)))
      (xor_from_agree k k' (suc at) (suc at') b (λ o l. grind (arith, h (suc o))))

module _ (c : Crypto) (schedule : BlockKeySchedule) (block_size : ℕ) where
  abbrev pub block_stream : ℕ → ℕ
  block_stream j = c.rc4_keystream (schedule (j / block_size)) (j % block_size)

  in_block :
      (i o : ℕ)
      → o < block_size
      → block_stream (i * block_size + o) ≡ c.rc4_keystream (schedule i) o
  in_block i o h =
      let e : i * block_size + o ≡ o + block_size * i = omega arith in
      let pos : 0 < block_size = omega arith in
      let q : (i * block_size + o) / block_size ≡ i =
        ap (λ n. n / block_size) e
        ∙ add-mul-div_left o i pos
        ∙ ap (λ n. n + i) (div-eq_of_lt h)
        ∙ omega arith in
      let r : (i * block_size + o) % block_size ≡ o =
        ap (λ n. n % block_size) e ∙ add-mul-mod_self_left o block_size i ∙ mod-eq_of_lt h in
      ap₂ (λ block at. c.rc4_keystream (schedule block) at) q r

  -- The first chunk, under its block's keystream from the start.
  chunk_lem :
      (i : ℕ) (b : Bytes)
      → xor_from (c.rc4_keystream (schedule i)) 0 (take block_size b)
        ≡ xor_from block_stream (i * block_size) (take block_size b)
  chunk_lem i b =
      xor_from_agree (c.rc4_keystream (schedule i)) block_stream 0 (i * block_size)
        (take block_size b)
        (λ o l. grind (arith, in_block i o (omega (arith, length-take block_size b))))

  -- The rest of the data, where it is not empty, starts at the next block.
  rest_lem :
      (i : ℕ) (b : Bytes)
      → xor_from block_stream (suc i * block_size) (drop block_size b)
        ≡ xor_from block_stream (i * block_size + length (take block_size b)) (drop block_size b)
  rest_lem i b = elim (dec_le block_size (length b)) [
    | yes h ↦
        ap (λ at. xor_from block_stream at (drop block_size b))
          (omega (arith, length-take block_size b))
    | no h ↦ rw (drop_all block_size b (omega arith)) (unfold xor_from in refl)
  ]

  joined :
      (i : ℕ) (b : Bytes)
      → xor_from (c.rc4_keystream (schedule i)) 0 (take block_size b)
          ++ xor_from block_stream (suc i * block_size) (drop block_size b)
        ≡ xor_from block_stream (i * block_size) b
  joined i b =
      ap₂ (λ x y. x ++ y) (chunk_lem i b) (rest_lem i b)
      ∙ sym (xor_from-append block_stream (i * block_size) (take block_size b) (drop block_size b))
      ∙ ap (xor_from block_stream (i * block_size)) (take-append-drop block_size b)

  module _ (usable : IsRc4Schedule schedule) (pos : 0 < block_size) where
    decrypt_chunks_lem :
        (fuel i : ℕ) (b : Bytes)
        → length b < fuel
        → i + length b ≤ 2 ^ 32
        → decrypt_chunks c schedule fuel block_size i b
          ≡ ok (xor_from block_stream (i * block_size) b)
    unfolding decrypt_chunks apply new
    decrypt_chunks_lem zero i b h l = absurd (omega arith)
    decrypt_chunks_lem (suc fuel) i [] h l = unfold xor_from in refl
    decrypt_chunks_lem (suc fuel) i (b ∷ bs) h l =
        let rest =
          decrypt_chunks_lem fuel (suc i) (drop block_size (b ∷ bs))
            (omega (arith, length-drop block_size (b ∷ bs)))
            (omega (arith, length-drop block_size (b ∷ bs))) in
        ground (arith, rest, joined i (b ∷ bs), usable i)

    -- With block keys of 5 to 16 bytes and a block size above 0, of at most 2^32 bytes: byte
    -- `j` falls under byte `j % block_size` of the keystream of block `j / block_size`.
    pub decrypt_in_blocks_lem :
        (b : Bytes)
        → length b ≤ 2 ^ 32
        → decrypt_in_blocks c schedule b block_size ≡ ok (xor_from block_stream 0 b)
    unfolding decrypt_in_blocks
    decrypt_in_blocks_lem b l = ground (arith, decrypt_chunks_lem (suc (length b)) 0 b)

-- Under any keys and any block size, an answer is as long as the data.
length-decrypt_chunks :
    (c : Crypto) (schedule : BlockKeySchedule) (block_size fuel i : ℕ) (b out : Bytes)
    → length b < fuel
    → 0 < block_size
    → decrypt_chunks c schedule fuel block_size i b ≡ ok out
    → length out ≡ length b
unfolding decrypt_chunks apply new
length-decrypt_chunks c schedule block_size zero i b out h p e = absurd (omega arith)
length-decrypt_chunks c schedule block_size (suc fuel) i [] out h p e = ground arith
length-decrypt_chunks c schedule block_size (suc fuel) i (b ∷ bs) out h p e =
    let rest = drop block_size (b ∷ bs) in
    let chunk = take block_size (b ∷ bs) in
    let shorter : length rest < fuel = omega (arith, length-drop block_size (b ∷ bs)) in
    elim (Result-cases (decrypt_chunks c schedule fuel block_size (suc i) rest)) [
      | inr f ↦ absurd (ground arith)
      | inl (tail, q) ↦ ground (
        arith,
        q,
        length-decrypt_chunks c schedule block_size fuel (suc i) rest tail shorter p q,
        length-append (xor_from (c.rc4_keystream (schedule i)) 0 chunk) tail,
        length-xor_from (c.rc4_keystream (schedule i)) 0 chunk,
        length-take block_size (b ∷ bs),
        length-drop block_size (b ∷ bs),
      )
    ]

pub length-decrypt_in_blocks :
    (c : Crypto) (schedule : BlockKeySchedule) (b out : Bytes) (block_size : ℕ)
    → decrypt_in_blocks c schedule b block_size ≡ ok out
    → length out ≡ length b
unfolding decrypt_in_blocks
length-decrypt_in_blocks c schedule b out block_size e = elim (dec_le 1 block_size) [
  | no p ↦ absurd (ground arith)
  | yes p ↦
      let loop : decrypt_chunks c schedule (suc (length b)) block_size 0 b ≡ ok out =
        ground arith in
      length-decrypt_chunks c schedule block_size (suc (length b)) 0 b out (omega arith) p loop
]
