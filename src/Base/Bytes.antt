-- ===== src/Base/Bytes.antt =====
-- Bytes as numbers below 256, the little-endian fields of a buffer, and slices of one. `usize` is
-- 64 bits wide.
use Prim.Native.Nat.{ℕ, zero, suc, ◌+◌, ◌-◌, ◌*◌, ◌/◌, ◌%◌, ◌^◌, ◌≤◌, ◌<◌}
use mathlib.Core.Path.{◌≡◌, refl, ap}
use mathlib.Core.List.{List, [], ◌∷◌, ◌++◌}
use mathlib.Core.Option.{Option, none, some}
use native.Mathlib.Omega.{arith}
use msoffice_crypto.Base.Lists.{
  length, take, drop, All, length-append, length-take, length-drop, take_front, drop_front,
}
use msoffice_crypto.Base.Tests.{leb, ltb, if◌then◌else◌}
use native.Mathlib.Nat.{pow-suc}

abbrev pub Bytes : Type 0
Bytes = List ℕ

abbrev pub IsByte : ℕ → Type 0
IsByte b = b < 256

abbrev pub IsBytes : Bytes → Type 0
IsBytes = All IsByte

-- `a.checked_add(b)` on `usize` and `u64`.
abbrev pub checked_add : ℕ → ℕ → Option ℕ
checked_add a b = if ltb (a + b) (2 ^ 64) then some (a + b) else none

-- `b.get(at..at + len)`.
unfoldable pub slice : Bytes → ℕ → ℕ → Option Bytes
slice b at len = if leb (at + len) (length b) then some (take len (drop at b)) else none

pub length-slice :
    (b : Bytes) (at len : ℕ) {s : Bytes}
    → slice b at len ≡ some s
    → (length s ≡ len) × (at + len ≤ length b)
unfolding slice
length-slice b at len h = ground (arith, length-take len (drop at b), length-drop at b)

-- `n.to_le_bytes()` of a `k`-byte integer.
unfoldable pub to_le_bytes : ℕ → ℕ → Bytes
to_le_bytes zero n = []
to_le_bytes (suc k) n = (n % 256) ∷ to_le_bytes k (n / 256)

-- `from_le_bytes`.
unfoldable pub from_le_bytes : Bytes → ℕ
from_le_bytes [] = 0
from_le_bytes (b ∷ bs) = b + 256 * from_le_bytes bs

pub length-to_le_bytes : (k n : ℕ) → length (to_le_bytes k n) ≡ k
unfolding to_le_bytes
length-to_le_bytes zero n = refl
length-to_le_bytes (suc k) n = ap suc (length-to_le_bytes k (n / 256))

pub to_le_bytes-IsBytes : (k n : ℕ) → IsBytes (to_le_bytes k n)
unfolding to_le_bytes
to_le_bytes-IsBytes zero n = tt
to_le_bytes-IsBytes (suc k) n = (omega arith, to_le_bytes-IsBytes k (n / 256))

pub le_fields : (n : ℕ) → (n / 256) * 256 + n % 256 ≡ n
le_fields n = omega arith

pub from_le_bytes-to_le_bytes : (k n : ℕ) → n < 256 ^ k → from_le_bytes (to_le_bytes k n) ≡ n
unfolding to_le_bytes from_le_bytes
from_le_bytes-to_le_bytes zero n h = omega arith
from_le_bytes-to_le_bytes (suc k) n h =
    omega (arith, from_le_bytes-to_le_bytes k (n / 256) (omega arith))

-- A slice that meets the seams of joined buffers.
pub slice_middle :
    (front middle back : Bytes) (at len : ℕ)
    → at ≡ length front
    → len ≡ length middle
    → slice (front ++ (middle ++ back)) at len ≡ some middle
unfolding slice
slice_middle front middle back at len p q = ground (
  arith,
  length-append front (middle ++ back),
  length-append middle back,
  drop_front front (middle ++ back) at p,
  take_front middle back len q,
)

pub slice_short : (b : Bytes) (at len : ℕ) → length b < at + len → slice b at len ≡ none
unfolding slice
slice_short b at len h = ground arith

pub from_le_bytes-lt : (b : Bytes) → IsBytes b → from_le_bytes b < 256 ^ length b
unfolding from_le_bytes
from_le_bytes-lt [] h = omega arith
from_le_bytes-lt (x ∷ b) h = omega (arith, from_le_bytes-lt b h.1, pow-suc 256 (length b))

-- `b[start..end]`, and `b[at..at + n].copy_from_slice(src)` for the `n` bytes of `src`, where they
-- are in range.
unfoldable pub range : Bytes → (start end : ℕ) → Bytes
range b start end = take (end - start) (drop start b)

unfoldable pub copy_at : Bytes → ℕ → Bytes → Bytes
copy_at b at src = take at b ++ (src ++ drop (at + length src) b)
