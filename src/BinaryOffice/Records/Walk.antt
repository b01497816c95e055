-- ===== src/BinaryOffice/Records/Walk.antt =====
-- The walk of src/binary_office.rs over BIFF records, as a relation, and what its records cover.
use msoffice_crypto.Base.{
  ℕ, zero, suc, ◌+◌, ◌-◌, ◌≤◌, ◌<◌, ◌≡◌, refl, sym, ap, ap₂, ◌∙◌, arith, ◌⊎◌, inl, inr, true, false,
  none, some, Option-cases, List, [], ◌∷◌, ◌++◌, length, take, drop, drop_all, drop-drop,
  take-append-drop,
}
use native.Mathlib.Decide.{dec_le}
use msoffice_crypto.Base.Bytes.{Bytes}
use msoffice_crypto.BinaryOffice.Records.{
  BiffRecord, Item, record_at, item_at, next, drain, biff_records,
}

-- A header that cannot be read, or a length past the end of the book.
abbrev pub IsBroken : Bytes → ℕ → Type 0
IsBroken book at =
    (record_at book at ≡ none)
    ⊎ ((id : ℕ) × (len : ℕ) × (record_at book at ≡ some (id, len)) × (length book < at + 4 + len))

-- The items from `at` on: one record after the other up to exactly the end of the book, or up to the
-- first header that is broken, which is the last item.
pub data IsWalk (book : Bytes) : ℕ → List Item → Type 0 where
  done : {at : ℕ} → length book ≤ at → IsWalk book at []
  broken :
      {at : ℕ}
      → at < length book
      → IsBroken book at
      → IsWalk book at (inl (record { at = at }) ∷ [])
  step :
      {at : ℕ} {items : List Item} (id len : ℕ)
      → at < length book
      → record_at book at ≡ some (id, len)
      → at + 4 + len ≤ length book
      → IsWalk book (at + 4 + len) items
      → IsWalk book at (inr (record { id = id; start = at + 4; end = at + 4 + len }) ∷ items)

module _ (book : Bytes) where
  abbrev from : (fuel at : ℕ) → List Item
  from fuel at = drain fuel book (record { pos = at; failed = false })

  from_done : (fuel at : ℕ) → length book ≤ at → from (suc fuel) at ≡ []
  unfolding drain next
  from_done fuel at h = ground arith

  after_failed : (fuel at : ℕ) → drain fuel book (record { pos = at; failed = true }) ≡ []
  unfolding drain next
  after_failed zero at = refl
  after_failed (suc fuel) at = refl

  from_broken :
      (fuel at : ℕ)
      → at < length book
      → IsBroken book at
      → from (suc fuel) at ≡ inl (record { at = at }) ∷ []
  unfolding drain next item_at
  from_broken fuel at l b = ground (arith, after_failed fuel at)

  from_step :
      (fuel at id len : ℕ)
      → at < length book
      → record_at book at ≡ some (id, len)
      → at + 4 + len ≤ length book
      → from (suc fuel) at
        ≡ inr (record { id = id; start = at + 4; end = at + 4 + len }) ∷ from fuel (at + 4 + len)
  unfolding drain next item_at
  from_step fuel at id len l e h = ground arith

  drain-IsWalk : (fuel at : ℕ) → length book < at + fuel → IsWalk book at (from fuel at)
  drain-IsWalk zero at h = let past : length book ≤ at = omega arith in unfold drain in done past
  drain-IsWalk (suc fuel) at h = elim (dec_le (length book) at) [
    | yes l ↦ rw (from_done fuel at l) (done l)
    | no l ↦ elim (Option-cases (record_at book at)) [
      | inl e ↦
          let l' : at < length book = omega arith in
          rw (from_broken fuel at l' (inl e)) (broken l' (inl e))
      | inr (header, e) ↦ elim (dec_le (at + 4 + header.1) (length book)) [
        | yes b ↦ rw (from_step fuel at (header.0) (header.1) (omega arith) e b) (
            step (header.0) (header.1) (omega arith) e b
              (drain-IsWalk fuel (at + 4 + header.1) (omega arith)))
        | no b ↦
            let l' : at < length book = omega arith in
            let past : IsBroken book at = inr (header.0, header.1, e, omega arith) in
            rw (from_broken fuel at l' past) (broken l' past)
      ]
    ]
  ]

  -- The iterator ends, and its items are a walk of the whole book.
  pub biff_records-IsWalk : IsWalk book 0 (biff_records book)
  unfolding biff_records
  biff_records-IsWalk = drain-IsWalk (suc (length book)) 0 (omega arith)

  -- A book has one walk.
  pub IsWalk-unique : {at : ℕ} {xs ys : List Item} → IsWalk book at xs → IsWalk book at ys → xs ≡ ys
  IsWalk-unique (done h) (done h') = refl
  IsWalk-unique (done h) (broken l b) = absurd (omega arith)
  IsWalk-unique (done h) (step id len l e b w) = absurd (omega arith)
  IsWalk-unique (broken l b) (done h) = absurd (omega arith)
  IsWalk-unique (broken l b) (broken l' b') = refl
  IsWalk-unique (broken l (inl n)) (step id len l' e h w) = absurd cc
  IsWalk-unique (broken l (inr (i, n, e', h'))) (step id len l' e h w) = absurd (grind arith)
  IsWalk-unique (step id len l e h w) (done h') = absurd (omega arith)
  IsWalk-unique (step id len l e h w) (broken l' (inl n)) = absurd cc
  IsWalk-unique (step id len l e h w) (broken l' (inr (i, n, e', h'))) = absurd (grind arith)
  IsWalk-unique (step {at} {items} id len l e h w) (step {items = items'} id' len' l' e' h' w') =
      let i : id ≡ id' = grind arith in
      let n : len ≡ len' = grind arith in
      let rest : items ≡ items' = IsWalk-unique w (rw n w') in
      ap₂ (λ r rs. inr r ∷ rs)
        (ap₂ (λ a b. record { id = a; start = at + 4; end = at + 4 + b }) i n) rest

-- The bytes of a record, its header included, and of the records of a walk together.
abbrev pub record_bytes : Bytes → BiffRecord → Bytes
record_bytes book r = take (r.end - (r.start - 4)) (drop (r.start - 4) book)

abbrev pub covered : Bytes → List Item → Bytes
covered book [] = []
covered book (inl e ∷ items) = covered book items
covered book (inr r ∷ items) = record_bytes book r ++ covered book items

abbrev pub IsClean : List Item → Type 0
IsClean [] = Unit
IsClean (inl e ∷ items) = ⊥
IsClean (inr r ∷ items) = IsClean items

covered_from :
    {book : Bytes} {at : ℕ} {items : List Item}
    → IsWalk book at items
    → IsClean items
    → covered book items ≡ drop at book
covered_from (done {at} h) c = sym (drop_all at _ h)
covered_from (broken l b) c = absurd c
covered_from {book} (step {at} {items} id len l e h w) c =
    let size : at + 4 + len - (at + 4 - 4) ≡ 4 + len = omega arith in
    let start : at + 4 - 4 ≡ at = omega arith in
    let next_at : at + (4 + len) ≡ at + 4 + len = omega arith in
    ap₂ (λ a b. a ++ b) (ap₂ (λ n i. take n (drop i book)) size start)
      (covered_from w c ∙ ap (λ i. drop i book) (sym next_at) ∙ sym (drop-drop (4 + len) at book))
    ∙ take-append-drop (4 + len) (drop at book)

-- Where no header is broken, the records with their headers, one after the other, are the book.
pub covered-biff_records :
    (book : Bytes) → IsClean (biff_records book) → covered book (biff_records book) ≡ book
covered-biff_records book c = covered_from (biff_records-IsWalk book) c ∙ unfold drop in refl
