-- ===== src/Word97/Cleared.antt =====
-- The FIB that src/word97.rs leaves, as src/binary_office.rs reads it.
use msoffice_crypto.Base.{
  ℕ, zero, suc, ◌+◌, ◌-◌, ◌≤◌, ◌<◌, ◌≡◌, refl, ap, ◌∙◌, arith, false, some, length, get_elem?,
  bit_and, ltb, leb, ◌&&◌, if◌then◌else◌,
}
use msoffice_crypto.Base.And.{bit_and_disjoint, bit_and_le}
use msoffice_crypto.Base.Bytes.{Bytes, copy_at, to_le_bytes, length-to_le_bytes}
use msoffice_crypto.Base.Slots.{length-copy_at, copy_at_before, copy_at_inside, copy_at_after}
use msoffice_crypto.BinaryOffice.{FibBase, le16, le32, parse_fib, encrypted, obfuscated, has_flag}
use msoffice_crypto.Word97.{clear_fib, plain_flags_mask}

zero_byte : (i : ℕ) → i < 4 → get_elem? (to_le_bytes 4 0) i ≡ some 0
unfolding to_le_bytes get_elem?
zero_byte zero h = refl
zero_byte (suc zero) h = refl
zero_byte (suc (suc zero)) h = refl
zero_byte (suc (suc (suc zero))) h = refl
zero_byte (suc (suc (suc (suc i)))) h = absurd (omega arith)

module _ (word : Bytes) (flags : ℕ) (l : 68 ≤ length word) where
  n : ℕ
  n = bit_and flags plain_flags_mask

  two : Bytes
  two = to_le_bytes 2 n

  once : Bytes
  once = copy_at word 10 two

  fits : 10 + length two ≤ length word
  unfolding two
  fits = omega (arith, l, length-to_le_bytes 2 n)

  fits' : 14 + length (to_le_bytes 4 0) ≤ length once
  unfolding once
  fits' = omega (arith, l, length-copy_at word 10 two fits, length-to_le_bytes 4 0)

  before : (j : ℕ) → j < 10 → get_elem? (clear_fib flags word) j ≡ get_elem? word j
  unfolding clear_fib once two n
  before j h =
      copy_at_before once 14 (to_le_bytes 4 0) fits' j (omega arith)
      ∙ copy_at_before word 10 two fits j h

  at_flags : (j : ℕ) → 10 ≤ j → j < 12 → get_elem? (clear_fib flags word) j ≡ get_elem? two (j - 10)
  unfolding clear_fib once two n
  at_flags j h k =
      copy_at_before once 14 (to_le_bytes 4 0) fits' j (omega arith)
      ∙ copy_at_inside word 10 two fits j h (omega (arith, length-to_le_bytes 2 n))

  at_key :
      (j : ℕ)
      → 14 ≤ j
      → j < 18
      → get_elem? (clear_fib flags word) j ≡ get_elem? (to_le_bytes 4 0) (j - 14)
  unfolding clear_fib once two n
  at_key j h k =
      copy_at_inside once 14 (to_le_bytes 4 0) fits' j h (omega (arith, length-to_le_bytes 4 0))

  after : (j : ℕ) → 18 ≤ j → get_elem? (clear_fib flags word) j ≡ get_elem? word j
  unfolding clear_fib once two n
  after j h =
      copy_at_after once 14 (to_le_bytes 4 0) fits' j (omega (arith, length-to_le_bytes 4 0))
      ∙ copy_at_after word 10 two fits j (omega (arith, length-to_le_bytes 2 n))

  between : (j : ℕ) → 12 ≤ j → j < 14 → get_elem? (clear_fib flags word) j ≡ get_elem? word j
  unfolding clear_fib once two n
  between j h k =
      copy_at_before once 14 (to_le_bytes 4 0) fits' j (omega arith)
      ∙ copy_at_after word 10 two fits j (omega (arith, length-to_le_bytes 2 n))

  pub length-clear_fib : length (clear_fib flags word) ≡ length word
  unfolding clear_fib once two n
  length-clear_fib =
      length-copy_at once 14 (to_le_bytes 4 0) fits' ∙ length-copy_at word 10 two fits

  zeros_at : (j : ℕ) → 14 ≤ j → j < 18 → get_elem? (to_le_bytes 4 0) (j - 14) ≡ some 0
  zeros_at j h k = zero_byte (j - 14) (omega arith)

  -- A byte of the cleared stream.
  pub clear_fib_at :
      (j : ℕ)
      → get_elem? (clear_fib flags word) j ≡ (
          if leb 10 j && ltb j 12
          then get_elem? (to_le_bytes 2 (bit_and flags 0x7EFF)) (j - 10)
          else if leb 14 j && ltb j 18
          then some 0
          else get_elem? word j)
  unfolding two n
  clear_fib_at j = ground (arith, before j, at_flags j, between j, at_key j, zeros_at j, after j)

  flags_lem : le16 (clear_fib flags word) 10 ≡ some n
  unfolding le16 two to_le_bytes get_elem? n
  flags_lem =
      let bound = bit_and_le flags plain_flags_mask in
      let a = at_flags 10 (omega arith) (omega arith) in
      let b = at_flags 11 (omega arith) (omega arith) in rw (a, b) (ap some (omega (arith, bound)))

  key_lem : le32 (clear_fib flags word) 14 ≡ some 0
  unfolding le32 to_le_bytes get_elem?
  key_lem =
      let a = at_key 14 (omega arith) (omega arith) in
      let b = at_key 15 (omega arith) (omega arith) in
      let d = at_key 16 (omega arith) (omega arith) in
      let e = at_key 17 (omega arith) (omega arith) in rw (a, b, d, e) refl

  ident_lem : le16 (clear_fib flags word) 0 ≡ le16 word 0
  unfolding le16
  ident_lem = rw (before 0 (omega arith), before 1 (omega arith)) refl

-- A stream of at least 68 bytes with a FIB still has one when its flags and `lKey` are cleared, and
-- the flags say neither encrypted nor obfuscated.
pub clear_fib-plain :
    (word : Bytes) (fib : FibBase)
    → 68 ≤ length word
    → parse_fib word ≡ some fib
    → (plain : FibBase) × (parse_fib (clear_fib fib.flags word) ≡ some plain)
      × (encrypted plain ≡ false)
      × (obfuscated plain ≡ false)
      × (plain.l_key ≡ 0)
unfolding parse_fib encrypted obfuscated has_flag n
clear_fib-plain word fib l e =
    let plain : FibBase = record { flags = n word fib.flags l; l_key = 0 } in
    let ident = ident_lem word fib.flags l in
    let flags = flags_lem word fib.flags l in
    let key = key_lem word fib.flags l in
    (
      plain,
      ground (arith, ident, flags, key, e),
      ground (arith, bit_and_disjoint fib.flags plain_flags_mask 0x0100 refl),
      ground (arith, bit_and_disjoint fib.flags plain_flags_mask 0x8000 refl),
      refl,
    )
