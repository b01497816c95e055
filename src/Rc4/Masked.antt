-- ===== src/Rc4/Masked.antt =====
-- A byte of the data under the keystream of src/rc4.rs.
use msoffice_crypto.Base.{
  ℕ, zero, suc, ◌+◌, ◌≡◌, refl, ap, ◌∙◌, arith, Bool, true, false, if◌then◌else◌, Option, none,
  some, [], ◌∷◌, get_elem?, bit_xor,
}
use msoffice_crypto.Base.Bits.{bit_xor_twice}
use msoffice_crypto.Base.Bytes.{Bytes}
use msoffice_crypto.Rc4.{xor_from}

-- A byte under its place in the keystream.
abbrev pub masked : (ℕ → ℕ) → ℕ → Option ℕ → Option ℕ
masked k j none = none
masked k j (some x) = some (bit_xor x (k j))

pub get_elem?-xor_from :
    (k : ℕ → ℕ) (at : ℕ) (b : Bytes) (j : ℕ)
    → get_elem? (xor_from k at b) j ≡ masked k (at + j) (get_elem? b j)
unfolding get_elem? xor_from
get_elem?-xor_from k at [] j = refl
get_elem?-xor_from k at (x ∷ b) zero = ap (λ i. some (bit_xor x (k i))) (omega arith)
get_elem?-xor_from k at (x ∷ b) (suc j) =
    let there : suc at + j ≡ at + suc j = omega arith in
    get_elem?-xor_from k (suc at) b j ∙ ap (λ i. masked k i (get_elem? b j)) there

pub masked_twice : (k : ℕ → ℕ) (j : ℕ) (o : Option ℕ) → masked k j (masked k j o) ≡ o
masked_twice k j none = refl
masked_twice k j (some x) = ap some (bit_xor_twice x (k j))

-- A byte kept or masked twice, by one choice.
pub masked_if :
    (k : ℕ → ℕ) (j : ℕ) (kept : Bool) (o first again : Option ℕ)
    → first ≡ (if kept then o else masked k j o)
    → again ≡ (if kept then first else masked k j first)
    → again ≡ o
masked_if k j true o first again p q = q ∙ p
masked_if k j false o first again p q = q ∙ ap (masked k j) p ∙ masked_twice k j o
