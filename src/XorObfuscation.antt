-- ===== src/XorObfuscation.antt =====
-- src/xor_obfuscation.rs: XOR obfuscation method 1 of legacy workbooks. A password is the list of
-- its characters; `u8` and `u16` keep their wrap-around, as a remainder.
pub mod Decode
use mathlib.Core.List.{reverse, foldl}
use msoffice_crypto.Base.{
  ℕ, zero, suc, ◌+◌, ◌-◌, ◌*◌, ◌/◌, ◌%◌, ◌^◌, Bool, true, not, ◌&&◌, ◌||◌, leb, ltb, ◌==◌,
  if◌then◌else◌, Option, none, some, List, [], ◌∷◌, ◌++◌, length, get_elem?, bit_xor, bit_and,
  bit_or,
}
use msoffice_crypto.Base.Bytes.{Bytes}
use msoffice_crypto.Error.{Error, Result, ok, err, ◌>>=◌, ◌>>◌, reject_if}

abbrev pub xor_password_max_len : ℕ
xor_password_max_len = 15

abbrev pub pad_array : Bytes
pad_array =
    0xBB ∷ 0xFF ∷ 0xFF ∷ 0xBA ∷ 0xFF ∷ 0xFF ∷ 0xB9 ∷ 0x80 ∷ 0x00 ∷ 0xBE ∷ 0x0F ∷ 0x00 ∷ 0xBF ∷ 0x0F
    ∷ 0x00 ∷ []

abbrev pub initial_code : List ℕ
initial_code =
    0xE1F0 ∷ 0x1D0F ∷ 0xCC9C ∷ 0x84C0 ∷ 0x110C ∷ 0x0E10 ∷ 0xF1CE ∷ 0x313E ∷ 0x1872 ∷ 0xE139 ∷ 0xD40F
    ∷ 0x84F9 ∷ 0x280C ∷ 0xA96A ∷ 0x4EC3 ∷ []

abbrev pub xor_matrix : List ℕ
xor_matrix =
    0xAEFC ∷ 0x4DD9 ∷ 0x9BB2 ∷ 0x2745 ∷ 0x4E8A ∷ 0x9D14 ∷ 0x2A09 ∷ 0x7B61 ∷ 0xF6C2 ∷ 0xFDA5 ∷ 0xEB6B
    ∷ 0xC6F7 ∷ 0x9DCF ∷ 0x2BBF ∷ 0x4563 ∷ 0x8AC6 ∷ 0x05AD ∷ 0x0B5A ∷ 0x16B4 ∷ 0x2D68 ∷ 0x5AD0
    ∷ 0x0375 ∷ 0x06EA ∷ 0x0DD4 ∷ 0x1BA8 ∷ 0x3750 ∷ 0x6EA0 ∷ 0xDD40 ∷ 0xD849 ∷ 0xA0B3 ∷ 0x5147
    ∷ 0xA28E ∷ 0x553D ∷ 0xAA7A ∷ 0x44D5 ∷ 0x6F45 ∷ 0xDE8A ∷ 0xAD35 ∷ 0x4A4B ∷ 0x9496 ∷ 0x390D
    ∷ 0x721A ∷ 0xEB23 ∷ 0xC667 ∷ 0x9CEF ∷ 0x29FF ∷ 0x53FE ∷ 0xA7FC ∷ 0x5FD9 ∷ 0x47D3 ∷ 0x8FA6
    ∷ 0x0F6D ∷ 0x1EDA ∷ 0x3DB4 ∷ 0x7B68 ∷ 0xF6D0 ∷ 0xB861 ∷ 0x60E3 ∷ 0xC1C6 ∷ 0x93AD ∷ 0x377B
    ∷ 0x6EF6 ∷ 0xDDEC ∷ 0x45A0 ∷ 0x8B40 ∷ 0x06A1 ∷ 0x0D42 ∷ 0x1A84 ∷ 0x3508 ∷ 0x6A10 ∷ 0xAA51
    ∷ 0x4483 ∷ 0x8906 ∷ 0x022D ∷ 0x045A ∷ 0x08B4 ∷ 0x1168 ∷ 0x76B4 ∷ 0xED68 ∷ 0xCAF1 ∷ 0x85C3
    ∷ 0x1BA7 ∷ 0x374E ∷ 0x6E9C ∷ 0x3730 ∷ 0x6E60 ∷ 0xDCC0 ∷ 0xA9A1 ∷ 0x4363 ∷ 0x86C6 ∷ 0x1DAD
    ∷ 0x3331 ∷ 0x6662 ∷ 0xCCC4 ∷ 0x89A9 ∷ 0x0373 ∷ 0x06E6 ∷ 0x0DCC ∷ 0x1021 ∷ 0x2042 ∷ 0x4084
    ∷ 0x8108 ∷ 0x1231 ∷ 0x2462 ∷ 0x48C4 ∷ []

abbrev or_zero : Option ℕ → ℕ
or_zero none = 0
or_zero (some n) = n

-- One byte of `password_verifier`.
abbrev pub verifier_step : (verifier byte : ℕ) → ℕ
verifier_step verifier byte =
    let intermediate1 = if bit_and verifier 0x4000 == 0 then 0 else 1 in
    let intermediate2 = bit_and (verifier * 2 % 2 ^ 16) 0x7FFF in
    bit_xor (bit_or intermediate1 intermediate2) byte

-- `u8::try_from(len).unwrap_or(u8::MAX)`.
abbrev pub len_byte : ℕ → ℕ
len_byte n = if ltb n 256 then n else 255

unfoldable pub password_verifier : Bytes → ℕ
password_verifier password =
    bit_xor (foldl verifier_step 0 (reverse password ++ (len_byte (length password) ∷ []))) 0xCE4B

-- The seven rounds on one character: the key, and `element` one lower after each.
unfoldable pub key_rounds : ℕ → (ch key element : ℕ) → ℕ × ℕ
key_rounds zero ch key element = (key, element)
key_rounds (suc n) ch key element =
    key_rounds n (ch * 2 % 256)
      (if bit_and ch 0x40 == 0 then key else bit_xor key (or_zero (get_elem? xor_matrix element)))
      ((element + (2 ^ 64 - 1)) % 2 ^ 64)

-- `INITIAL_CODE.get(len.wrapping_sub(1))`.
unfoldable pub xor_key : Bytes → ℕ
unfolding key_rounds get_elem?
xor_key password =
    let start = or_zero (get_elem? initial_code ((length password + (2 ^ 64 - 1)) % 2 ^ 64)) in
    (foldl (λ state ch. key_rounds 7 ch state.0 state.1) (start, 0x68) (reverse password)).0

-- `rotate_right` on `u8`.
abbrev pub rotate_right : ℕ → ℕ → ℕ
rotate_right b n = b / 2 ^ n + b % 2 ^ n * 2 ^ (8 - n)

-- The byte of the array at `p`.
unfoldable pub array_byte : (password : Bytes) → (key p : ℕ) → ℕ
array_byte password key p =
    let source : ℕ = elim (get_elem? password p) [
      | some b ↦ b
      | none ↦ or_zero (get_elem? pad_array (p - length password))
    ] in
    let half = if p % 2 == 1 then key / 256 % 256 else key % 256 in
    rotate_right (bit_xor source half) 1

unfoldable pub array_from : (password : Bytes) → (key : ℕ) → (slots p : ℕ) → Bytes
unfolding array_byte
array_from password key zero p = []
array_from password key (suc slots) p =
    array_byte password key p ∷ array_from password key slots (suc p)

unfoldable pub xor_array : Bytes → ℕ → Bytes
xor_array password key = array_from password key 16 0

pub record XorObfuscator : Type 0 where
  pub array : Bytes
  pub key : ℕ
  pub verifier : ℕ

-- `chars().all(|c| u8::try_from(u32::from(c)).is_ok())`.
unfoldable pub all_ansi : List ℕ → Bool
all_ansi [] = true
all_ansi (ch ∷ rest) = ltb ch 256 && all_ansi rest

unfoldable pub new : List ℕ → Result XorObfuscator
new password = do
  let len = length password
  reject_if (not (leb 1 len && leb len xor_password_max_len) || not (all_ansi password))
      Error.wrong_password
  ok (record {
    array = xor_array password (xor_key password);
    key = xor_key password;
    verifier = password_verifier password;
  })

-- `key` and `verification_bytes` are two bytes each, compared as such.
unfoldable pub verify : XorObfuscator → (key verification_bytes : ℕ) → Result (Unit {0})
verify x key verification_bytes =
    reject_if (not (x.key == key && x.verifier == verification_bytes)) Error.wrong_password

-- `array[index]`, which is in range: the array has 16 bytes.
abbrev pub at_index : Bytes → ℕ → ℕ
at_index array index = or_zero (get_elem? array (index % length array))

unfoldable pub decrypt_from : Bytes → Bytes → ℕ → Bytes
decrypt_from array [] index = []
decrypt_from array (b ∷ bs) index =
    rotate_right (bit_xor b (at_index array index)) 5 ∷ decrypt_from array bs (suc index % 2 ^ 64)

unfoldable pub decrypt : XorObfuscator → Bytes → (xor_array_index : ℕ) → Bytes
decrypt x data' xor_array_index = decrypt_from x.array data' xor_array_index
