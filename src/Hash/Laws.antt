-- ===== src/Hash/Laws.antt =====
-- What the code relies on of RustCrypto, and the lengths in src/hash.rs.
use msoffice_crypto.Base.{
  ℕ, ◌-◌, ◌%◌, ◌≤◌, ◌≡◌, ◌⊎◌, arith, ◌++◌, length, replicate, length-append, length-take,
  length-replicate,
}
use msoffice_crypto.Base.Bytes.{Bytes}
use msoffice_crypto.Classification.{HashAlgorithm}
use msoffice_crypto.Error.{ok}
use msoffice_crypto.Hash.{Crypto, digest_len, digest_two, fit_iv, derive_iv}

-- Whole blocks; a key and a vector of a length that AES takes.
abbrev pub IsWhole : Bytes → Type 0
IsWhole b = length b % 16 ≡ 0

abbrev pub IsAesKey : Bytes → Type 0
IsAesKey key = (length key ≡ 16) ⊎ (length key ≡ 24) ⊎ (length key ≡ 32)

-- The documented behaviour of the digests, HMAC and AES: lengths, and that decryption undoes
-- encryption.
pub record IsCrypto (c : Crypto) : Type 0 where
  pub length-hash : (h : HashAlgorithm) (b : Bytes) → length (c.hash_bytes h b) ≡ digest_len h
  pub length-md5 : (b : Bytes) → length (c.md5 b) ≡ 16
  pub length-hmac : (h : HashAlgorithm) (k m : Bytes) → length (c.hmac h k m) ≡ digest_len h
  pub length-cbc_encrypt : (k iv p : Bytes) → IsWhole p → length (c.cbc_encrypt k iv p) ≡ length p
  pub length-cbc_decrypt : (k iv p : Bytes) → IsWhole p → length (c.cbc_decrypt k iv p) ≡ length p
  pub length-ecb_encrypt : (k p : Bytes) → IsWhole p → length (c.ecb_encrypt k p) ≡ length p
  pub length-ecb_decrypt : (k p : Bytes) → IsWhole p → length (c.ecb_decrypt k p) ≡ length p
  pub cbc_decrypt-encrypt :
      (k iv p : Bytes)
      → IsAesKey k
      → length iv ≡ 16
      → IsWhole p
      → c.cbc_decrypt k iv (c.cbc_encrypt k iv p) ≡ p
  pub ecb_decrypt-encrypt :
      (k p : Bytes) → IsAesKey k → IsWhole p → c.ecb_decrypt k (c.ecb_encrypt k p) ≡ p

pub digest_len_bounds : (h : HashAlgorithm) → (16 ≤ digest_len h) × (digest_len h ≤ 64)
unfolding digest_len
digest_len_bounds HashAlgorithm.sha1 = omega arith
digest_len_bounds h = omega arith

-- `fit_iv` always fills the block exactly.
pub length-fit_iv : (b : Bytes) (n : ℕ) → length (fit_iv b n) ≡ n
unfolding fit_iv
length-fit_iv b n = ground (
  arith,
  length-take n b,
  length-append b (replicate (n - length b) 0x36),
  length-replicate {A = ℕ} (n - length b) 0x36,
)

pub derive_iv_lem :
    (c : Crypto) (laws : IsCrypto c) (h : HashAlgorithm) (salt suffix : Bytes) (n : ℕ)
    → n ≤ digest_len h
    → derive_iv c h salt suffix n ≡ ok (fit_iv (digest_two c h salt suffix) n)
unfolding derive_iv digest_two
derive_iv_lem c laws h salt suffix n p = ground (arith, laws.length-hash h (salt ++ suffix))
