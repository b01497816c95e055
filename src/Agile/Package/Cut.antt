-- ===== src/Agile/Package/Cut.antt =====
-- How the limited source of src/agile.rs and src/agile_encrypt.rs and the payload behind it are
-- cut into segments, and the ciphertext of a payload.
use native.Mathlib.Decide.{dec_le}
use msoffice_crypto.Base.{
  ℕ, zero, suc, ◌+◌, ◌-◌, ◌*◌, ◌^◌, ◌≤◌, ◌<◌, min, ◌≡◌, ◌≢◌, refl, ap, ◌∙◌, arith, Option, none,
  some, List, [], ◌∷◌, ◌++◌, ◌⊎◌, ltb, if◌then◌else◌, length, take, drop, length-take, length-drop,
  take-min, drop-take, drop-drop, take_all, drop_all, eq-nil_of_length,
}
use msoffice_crypto.Base.Bytes.{Bytes}
use msoffice_crypto.Hash.{Crypto}
use msoffice_crypto.Reader.{Take, Event}
use msoffice_crypto.Segments.{segment_len, next_of}
use msoffice_crypto.Segments.Fill.{padded, upcoming, after}

-- What a source has to give within its limit.
abbrev pub payload : Take → Bytes
payload source = take source.limit source.inner.content

pub upcoming-payload : (source : Take) → upcoming source ≡ take segment_len (payload source)
upcoming-payload source = take-min segment_len source.limit source.inner.content

drop_within_limit :
    (m limit : ℕ) (b : Bytes)
    → m ≤ limit
    → take (limit - length (take m b)) (drop m b) ≡ drop m (take limit b)
drop_within_limit m limit b h = elim (dec_le m (length b)) [
  | yes p ↦ ground (arith, drop-take m limit b, length-take m b)
  | no p ↦ ground (
    arith,
    drop-take m limit b,
    drop_all m b,
    take_all {A = ℕ} (limit - length (take m b)) [],
    take_all {A = ℕ} (limit - m) [],
  )
]

drop_past_limit :
    (n limit : ℕ) (b : Bytes) → drop (min n limit) (take limit b) ≡ drop n (take limit b)
drop_past_limit n limit b = elim (dec_le n limit) [
  | yes p ↦ ground arith
  | no p ↦
      ground (
        arith,
        length-take limit b,
        drop_all (min n limit) (take limit b),
        drop_all n (take limit b),
      )
]

pub payload-after :
    (source : Take) (events : List Event)
    → payload (after source events) ≡ drop segment_len (payload source)
payload-after source events =
    drop_within_limit (min segment_len source.limit) source.limit source.inner.content (omega arith)
    ∙ drop_past_limit segment_len source.limit source.inner.content

-- What lies beyond the limit stays there.
pub beyond-after :
    (source : Take) (events : List Event)
    → drop (after source events).limit (after source events).inner.content
      ≡ drop source.limit source.inner.content
beyond-after source events =
    let m = min segment_len source.limit in
    let b = source.inner.content in
    elim (dec_le m (length b)) [
      | yes p ↦ ground (arith, length-take m b, drop-drop (source.limit - length (take m b)) m b)
      | no p ↦ ground (
        arith,
        drop_all m b,
        drop_all {A = ℕ} (source.limit - length (take m b)) [],
        drop_all source.limit b,
      )
    ]

-- An empty payload leaves nothing of the source to take.
pub upcoming_empty : (source : Take) → payload source ≡ [] → upcoming source ≡ []
upcoming_empty source e =
    upcoming-payload source
    ∙ ap (take segment_len) e
    ∙ take_all {A = ℕ} segment_len [] (omega arith)

pub after_empty :
    (source : Take) (events : List Event)
    → payload source ≡ []
    → (after source events).inner.content ≡ drop source.limit source.inner.content
after_empty source events e =
    let b = source.inner.content in
    let n = length-take source.limit b in
    elim (dec_le (length b) 0) [
      | yes p ↦ ground (arith, drop_all (min segment_len source.limit) b, drop_all source.limit b)
      | no p ↦ ground (arith, n, ap length e)
    ]

-- The index that comes up as segment `index` is next.
abbrev pub index_at : ℕ → Option ℕ
index_at index = if ltb index (2 ^ 32) then some index else none

pub next_of-index_at : (index : ℕ) → next_of index ≡ index_at (suc index)
next_of-index_at index = ground arith

-- The payload grows shorter, and the limit falls by what was taken.
pub shrinks :
    (source : Take) (events : List Event)
    → (length (payload (after source events)) + length (upcoming source) ≡ length (payload source))
      × ((after source events).limit + length (upcoming source) ≡ source.limit)
shrinks source events =
    let m = min segment_len source.limit in
    (
      omega (
        arith,
        ap length (payload-after source events),
        length-drop segment_len (payload source),
        ap length (upcoming-payload source),
        length-take segment_len (payload source),
      ),
      omega (arith, length-take m source.inner.content),
    )

-- A payload that is not empty has an index for its first byte.
pub length-nonempty : (b : Bytes) → b ≢ [] → 0 < length b
length-nonempty b h = ground (arith, eq-nil_of_length b)

pub index_at_within :
    (index : ℕ) (p : Bytes)
    → p ≢ []
    → index * segment_len + length p ≤ 2 ^ 44
    → index_at index ≡ some index
index_at_within index p h k = ground (arith, length-nonempty p h)

pub upcoming-nonempty : (source : Take) → payload source ≢ [] → upcoming source ≢ []
upcoming-nonempty source h e = h (
    eq-nil_of_length (payload source) (
      omega (
        arith,
        ap length e,
        ap length (upcoming-payload source),
        length-take segment_len (payload source),
      )))

-- A segment is 4096 bytes, or all that is left.
pub next_bound :
    (source : Take) (events : List Event)
    → (length (payload (after source events)) + segment_len ≡ length (payload source))
      ⊎ (length (payload (after source events)) + segment_len ≤ length (payload source))
      ⊎ (length (payload (after source events)) ≡ 0)
next_bound source events =
    ground
      (arith, ap length (payload-after source events), length-drop segment_len (payload source))

-- Every segment zero-padded to whole blocks and encrypted under the vector of its index.
module _ (c : Crypto) (key : Bytes) (ivs : ℕ → Bytes) where
  unfoldable pub ciphertext : ℕ → ℕ → Bytes → Bytes
  ciphertext zero index payload = []
  ciphertext (suc fuel) index [] = []
  ciphertext (suc fuel) index (b ∷ bs) =
      c.cbc_encrypt key (ivs index) (padded (take segment_len (b ∷ bs)))
      ++ ciphertext fuel (suc index) (drop segment_len (b ∷ bs))

  pub ciphertext-suc :
      (fuel index : ℕ) (p : Bytes)
      → p ≢ []
      → ciphertext (suc fuel) index p
        ≡ c.cbc_encrypt key (ivs index) (padded (take segment_len p))
          ++ ciphertext fuel (suc index) (drop segment_len p)
  unfolding ciphertext
  ciphertext-suc fuel index [] h = absurd (h refl)
  ciphertext-suc fuel index (b ∷ bs) h = refl

  pub ciphertext-nil : (fuel index : ℕ) → ciphertext fuel index [] ≡ []
  unfolding ciphertext
  ciphertext-nil zero index = refl
  ciphertext-nil (suc fuel) index = refl

  -- Any fuel above the length of the payload gives the same bytes.
  pub ciphertext_fuel :
      (fuel other index : ℕ) (p : Bytes)
      → length p < fuel
      → length p < other
      → ciphertext fuel index p ≡ ciphertext other index p
  unfolding ciphertext
  ciphertext_fuel zero other index p h k = absurd (omega arith)
  ciphertext_fuel (suc fuel) zero index p h k = absurd (omega arith)
  ciphertext_fuel (suc fuel) (suc other) index [] h k = refl
  ciphertext_fuel (suc fuel) (suc other) index (b ∷ bs) h k =
      ap (λ t. c.cbc_encrypt key (ivs index) (padded (take segment_len (b ∷ bs))) ++ t)
        (ciphertext_fuel fuel other (suc index) (drop segment_len (b ∷ bs))
          (omega (arith, length-drop segment_len (b ∷ bs)))
          (omega (arith, length-drop segment_len (b ∷ bs))))
