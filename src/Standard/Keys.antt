-- ===== src/Standard/Keys.antt =====
-- The key ladder and the password check of src/standard.rs, and `generate` of
-- src/standard_encrypt.rs. A password is its UTF-16LE bytes.
pub mod Accept
use msoffice_crypto.Base.{
  ℕ, zero, suc, ◌+◌, ◌*◌, ◌/◌, Bool, false, not, ltb, ◌==◌, if◌then◌else◌, Option, none, some, List,
  [], ◌∷◌, ◌++◌, length, take, replicate, bit_xor,
}
use msoffice_crypto.Base.Bytes.{Bytes, slice, to_le_bytes}
use msoffice_crypto.Classification.{HashAlgorithm}
use msoffice_crypto.FileParams.{Invariant}
use msoffice_crypto.Error.{Error, Result, ok, err, ◌>>=◌, ◌>>◌, reject_if}
use msoffice_crypto.Hash.{Crypto}
use msoffice_crypto.Cipher.{aes_ecb_encrypt, aes_ecb_decrypt}
use msoffice_crypto.Integrity.{ct_eq, zero_padded}
use msoffice_crypto.Standard.{AesKeySize, StandardParams, sha1_len}
use msoffice_crypto.Agile.Generate.{Rng}

abbrev pub spin_count : ℕ
spin_count = 50000

-- The bytes of `h` exclusive-ored into the front of a block of `n` bytes `fill`.
unfoldable pub pad : (fill n : ℕ) → Bytes → Bytes
pad fill zero h = []
pad fill (suc n) [] = fill ∷ pad fill n []
pad fill (suc n) (b ∷ bs) = bit_xor fill b ∷ pad fill n bs

module _ (c : Crypto) where
  -- `Sha1::digest`.
  abbrev pub sha1 : Bytes → Bytes
  sha1 b = c.hash_bytes HashAlgorithm.sha1 b

  -- The loop of `derive_standard_key`, from iteration `i` on.
  unfoldable pub spin_rounds : (rounds i : ℕ) → Bytes → Bytes
  spin_rounds zero i h = h
  spin_rounds (suc rounds) i h = spin_rounds rounds (suc i) (sha1 (to_le_bytes 4 i ++ h))

  unfoldable pub derive_standard_key : (password salt : Bytes) → (key_size_bytes : ℕ) → Result Bytes
  unfolding spin_rounds pad
  derive_standard_key password salt key_size_bytes = do
    reject_if (ltb (2 * sha1_len) key_size_bytes)
        (Error.invariant_violated Invariant.key_ladder_length)
    let h = spin_rounds spin_count 0 (sha1 (salt ++ password))
    let h_final = sha1 (h ++ to_le_bytes 4 0)
    ok (take key_size_bytes (sha1 (pad 0x36 64 h_final) ++ sha1 (pad 0x5C 64 h_final)))

  -- `h.get(..SHA1_LEN).is_some_and(..)`.
  abbrev pub digest_matches : (computed dec_hash : Bytes) → Bool
  digest_matches computed dec_hash = elim (slice dec_hash 0 sha1_len) [
    | none ↦ false
    | some digest ↦ ct_eq computed digest
  ]

  unfoldable pub verify_password : (key : Bytes) → StandardParams → Result (Unit {0})
  verify_password key params = do
    dec_verifier ← aes_ecb_decrypt c key params.encrypted_verifier
    dec_hash ← aes_ecb_decrypt c key params.encrypted_verifier_hash
    reject_if (not (digest_matches (sha1 dec_verifier) dec_hash)) Error.wrong_password

-- `StandardKeyMaterial`.
pub record StandardKeyMaterial : Type 0 where
  pub key_size : AesKeySize
  pub salt : Bytes
  pub key : Bytes
  pub encrypted_verifier : Bytes
  pub encrypted_verifier_hash : Bytes

-- `try_into` an array of `n` bytes.
abbrev pub to_array : ℕ → Bytes → Result Bytes
to_array n b = if length b == n then ok b else err Error.cipher_error

unfoldable pub generate :
    Crypto → (password : Bytes) → AesKeySize → Rng → Result StandardKeyMaterial
generate c password key_size rng = do
  salt ← rng 0 16
  key ← derive_standard_key c password salt (key_size.bits / 8)
  verifier ← rng 1 16
  encrypted_verifier ← aes_ecb_encrypt c key verifier
  let verifier_hash = zero_padded (sha1 c verifier) 32
  encrypted_verifier_hash ← aes_ecb_encrypt c key verifier_hash
  verifier_blob ← to_array 16 encrypted_verifier
  hash_blob ← to_array 32 encrypted_verifier_hash
  ok (record {
    key_size = key_size;
    salt = salt;
    key = key;
    encrypted_verifier = verifier_blob;
    encrypted_verifier_hash = hash_blob;
  })
