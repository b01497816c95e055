-- ===== src/XorObfuscation/Decode.antt =====
-- The password, the array and `decrypt` of src/xor_obfuscation.rs.
use msoffice_crypto.Base.{
  true, ℕ, zero, suc, ◌%◌, ◌^◌, ◌≤◌, ◌<◌, ◌≡◌, ◌↔◌, refl, ap, ap₂, ◌∙◌, arith, List, [], ◌∷◌,
  length, bit_xor,
}
use msoffice_crypto.Base.Bits.{bit_xor_twice}
use msoffice_crypto.Base.Bytes.{Bytes, IsBytes}
use msoffice_crypto.Error.{ok}
use msoffice_crypto.XorObfuscation.{
  XorObfuscator, new, verify, array_from, xor_array, xor_key, password_verifier, all_ansi,
  rotate_right, at_index, decrypt_from, decrypt,
}

-- What obfuscates: every byte is rotated left by 5 bits, which is right by 3, and then put under the
-- array.
unfoldable pub obfuscate_from : Bytes → Bytes → ℕ → Bytes
obfuscate_from array [] index = []
obfuscate_from array (b ∷ bs) index =
    bit_xor (rotate_right b 3) (at_index array index) ∷ obfuscate_from array bs (suc index % 2 ^ 64)

rotate_back : (b : ℕ) → b < 256 → rotate_right (rotate_right b 3) 5 ≡ b
rotate_back b h = omega arith

-- `decrypt` recovers every byte string from its obfuscation, at every index of the array.
pub decrypt-obfuscate_from :
    (x : XorObfuscator) (b : Bytes) (index : ℕ)
    → IsBytes b
    → decrypt x (obfuscate_from x.array b index) index ≡ b
unfolding decrypt decrypt_from obfuscate_from
decrypt-obfuscate_from x [] index h = refl
decrypt-obfuscate_from x (b ∷ bs) index h =
    ap₂ (λ y ys. y ∷ ys)
      (ap (λ t. rotate_right t 5) (bit_xor_twice (rotate_right b 3) (at_index x.array index))
        ∙ rotate_back b h.0)
      (decrypt-obfuscate_from x bs (suc index % 2 ^ 64) h.1)

length-array_from :
    (password : Bytes) (key slots p : ℕ) → length (array_from password key slots p) ≡ slots
unfolding array_from
length-array_from password key zero p = refl
length-array_from password key (suc slots) p = ap suc (length-array_from password key slots (suc p))

all_ansi→IsBytes : (password : List ℕ) → all_ansi password ≡ true → IsBytes password
unfolding all_ansi
all_ansi→IsBytes [] h = tt
all_ansi→IsBytes (b ∷ bs) h = (ground arith, all_ansi→IsBytes bs (ground arith))

IsBytes→all_ansi : (password : List ℕ) → IsBytes password → all_ansi password ≡ true
unfolding all_ansi
IsBytes→all_ansi [] h = refl
IsBytes→all_ansi (b ∷ bs) h = ground (arith, IsBytes→all_ansi bs h.1, h.0)

-- What `new` makes of a password.
abbrev pub obfuscator : Bytes → XorObfuscator
obfuscator password = record {
  array = xor_array password (xor_key password);
  key = xor_key password;
  verifier = password_verifier password;
}

-- `new` takes the passwords of 1 to 15 characters that are single bytes, and no other.
pub new_iff :
    (password : List ℕ)
    → (new password ≡ ok (obfuscator password))
      ↔ ((1 ≤ length password) × (length password ≤ 15) × IsBytes password)
unfolding new
new_iff password = (
  λ h. (ground arith, ground arith, all_ansi→IsBytes password (ground arith)),
  λ h. ground (arith, IsBytes→all_ansi password h.2, h.0, h.1),
)

-- A stored key and verifier are accepted exactly when both are the password's.
pub verify_iff :
    (x : XorObfuscator) (key verification_bytes : ℕ)
    → (verify x key verification_bytes ≡ ok tt)
      ↔ ((x.key ≡ key) × (x.verifier ≡ verification_bytes))
unfolding verify
verify_iff x key verification_bytes =
    (λ h. (ground arith, ground arith), λ h. ground (arith, h.0, h.1))

-- The array of every password has 16 bytes, so that no index of `decrypt` is out of range.
pub length-xor_array : (password : Bytes) (key : ℕ) → length (xor_array password key) ≡ 16
unfolding xor_array
length-xor_array password key = length-array_from password key 16 0
