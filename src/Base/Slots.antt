-- ===== src/Base/Slots.antt =====
-- Bytes by their position, and what a copy into a buffer leaves alone.
use Prim.Native.Nat.{ℕ, zero, suc, ◌+◌, ◌-◌, ◌≤◌, ◌<◌}
use mathlib.Core.Path.{◌≡◌, refl, sym, ap, ap₂, ◌∙◌}
use mathlib.Core.List.{[], ◌∷◌, ◌++◌}
use mathlib.Core.Option.{none}
use native.Mathlib.Omega.{arith}
use native.Mathlib.Nat.{zero-add, suc-add}
use msoffice_crypto.Base.Lists.{
  length, get_elem?, take, drop, length-append, length-take, length-drop, get_elem?-append,
}
use msoffice_crypto.Base.Bytes.{Bytes, range, copy_at}

pub get_outside : (b : Bytes) (i : ℕ) → length b ≤ i → get_elem? b i ≡ none
unfolding get_elem?
get_outside [] i h = refl
get_outside (x ∷ b) zero h = absurd (omega arith)
get_outside (x ∷ b) (suc i) h = get_outside b i (omega arith)

pub get_elem?-drop : (b : Bytes) (n i : ℕ) → get_elem? b (n + i) ≡ get_elem? (drop n b) i
unfolding get_elem? drop
get_elem?-drop b zero i = ap (get_elem? b) (zero-add i)
get_elem?-drop [] (suc n) i = ap (get_elem? []) (suc-add n i)
get_elem?-drop (x ∷ b) (suc n) i = ap (get_elem? (x ∷ b)) (suc-add n i) ∙ get_elem?-drop b n i

pub get_elem?-front :
    (xs ys : Bytes) (i : ℕ) → i < length xs → get_elem? (xs ++ ys) i ≡ get_elem? xs i
unfolding get_elem?
get_elem?-front [] ys i h = absurd (omega arith)
get_elem?-front (x ∷ xs) ys zero h = refl
get_elem?-front (x ∷ xs) ys (suc i) h = get_elem?-front xs ys i (omega arith)

pub get_elem?-back :
    (xs ys : Bytes) (i : ℕ) → length xs ≤ i → get_elem? (xs ++ ys) i ≡ get_elem? ys (i - length xs)
get_elem?-back xs ys i h =
    let at : length xs + (i - length xs) ≡ i = omega arith in
    ap (get_elem? (xs ++ ys)) (sym at) ∙ get_elem?-append xs ys (i - length xs)

pub get_elem?-take : (n : ℕ) (xs : Bytes) (i : ℕ) → i < n → get_elem? (take n xs) i ≡ get_elem? xs i
unfolding get_elem? take
get_elem?-take zero xs i h = absurd (omega arith)
get_elem?-take (suc n) [] i h = refl
get_elem?-take (suc n) (x ∷ xs) zero h = refl
get_elem?-take (suc n) (x ∷ xs) (suc i) h = get_elem?-take n xs i (omega arith)

pub get_elem?-range :
    (b : Bytes) (start end i : ℕ)
    → i < end - start
    → get_elem? (range b start end) i ≡ get_elem? b (start + i)
unfolding range
get_elem?-range b start end i h =
    get_elem?-take (end - start) (drop start b) i h ∙ sym (get_elem?-drop b start i)

pub length-range :
    (b : Bytes) (start end : ℕ) → end ≤ length b → length (range b start end) ≡ end - start
unfolding range
length-range b start end h =
    omega (arith, length-take (end - start) (drop start b), length-drop start b)

pub length-copy_at :
    (b : Bytes) (at : ℕ) (src : Bytes)
    → at + length src ≤ length b
    → length (copy_at b at src) ≡ length b
unfolding copy_at
length-copy_at b at src h = omega (
  arith,
  length-append (take at b) (src ++ drop (at + length src) b),
  length-append src (drop (at + length src) b),
  length-take at b,
  length-drop (at + length src) b,
)

module _ (b : Bytes) (at : ℕ) (src : Bytes) (fits : at + length src ≤ length b) where
  size : length (take at b) ≡ at
  size = omega (arith, length-take at b)

  -- Before, inside and after the bytes that are copied.
  pub copy_at_before : (i : ℕ) → i < at → get_elem? (copy_at b at src) i ≡ get_elem? b i
  unfolding copy_at
  copy_at_before i h =
      get_elem?-front (take at b) (src ++ drop (at + length src) b) i (omega (arith, size))
      ∙ get_elem?-take at b i h

  past :
      (i : ℕ)
      → at ≤ i
      → get_elem? (copy_at b at src) i ≡ get_elem? (src ++ drop (at + length src) b) (i - at)
  unfolding copy_at
  past i h =
      get_elem?-back (take at b) (src ++ drop (at + length src) b) i (omega (arith, size))
      ∙ ap (λ n. get_elem? (src ++ drop (at + length src) b) (i - n)) size

  pub copy_at_inside :
      (i : ℕ)
      → at ≤ i
      → i < at + length src
      → get_elem? (copy_at b at src) i ≡ get_elem? src (i - at)
  copy_at_inside i h l =
      past i h ∙ get_elem?-front src (drop (at + length src) b) (i - at) (omega arith)

  pub copy_at_after : (i : ℕ) → at + length src ≤ i → get_elem? (copy_at b at src) i ≡ get_elem? b i
  copy_at_after i h =
      let there : at + length src + (i - at - length src) ≡ i = omega arith in
      past i (omega arith)
      ∙ get_elem?-back src (drop (at + length src) b) (i - at) (omega arith)
      ∙ sym (get_elem?-drop b (at + length src) (i - at - length src))
      ∙ ap (get_elem? b) there

-- Buffers that agree at every position are the same.
pub get_elem?_ext : (xs ys : Bytes) → ((i : ℕ) → get_elem? xs i ≡ get_elem? ys i) → xs ≡ ys
unfolding get_elem?
get_elem?_ext [] [] h = refl
get_elem?_ext [] (y ∷ ys) h = let e = h 0 in absurd cc
get_elem?_ext (x ∷ xs) [] h = let e = h 0 in absurd cc
get_elem?_ext (x ∷ xs) (y ∷ ys) h =
    let same : x ≡ y = let e = h 0 in grind arith in
    ap₂ (λ z zs. z ∷ zs) same (get_elem?_ext xs ys (λ i. h (suc i)))
