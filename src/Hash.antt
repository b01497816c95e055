-- ===== src/Hash.antt =====
-- src/hash.rs: the four digests by name, and the two ways an initialisation vector is cut. The
-- digests, HMAC and AES are the RustCrypto crates', and a parameter here.
pub mod Laws
use msoffice_crypto.Base.{
  ℕ, ◌+◌, ◌-◌, ◌*◌, ◌/◌, Bool, ltb, leb, if◌then◌else◌, List, [], ◌++◌, length, take, replicate,
  Option, none, some,
}
use msoffice_crypto.Base.Bytes.{Bytes}
use msoffice_crypto.Classification.{HashAlgorithm}
use msoffice_crypto.FileParams.{Invariant}
use msoffice_crypto.Error.{Error, Result, ok, err}

unfoldable pub digest_len : HashAlgorithm → ℕ
digest_len HashAlgorithm.sha1 = 20
digest_len HashAlgorithm.sha256 = 32
digest_len HashAlgorithm.sha384 = 48
digest_len HashAlgorithm.sha512 = 64

unfoldable pub can_carry_key_bits : HashAlgorithm → ℕ → Bool
unfolding digest_len
can_carry_key_bits hash key_bits = leb (key_bits / 8) (digest_len hash)

-- What the code takes from RustCrypto. The block modes are called on a whole number of blocks,
-- under a key of 16, 24 or 32 bytes and, for CBC, a vector of 16.
pub record Crypto : Type 0 where
  pub hash_bytes : HashAlgorithm → Bytes → Bytes
  pub md5 : Bytes → Bytes
  pub hmac : HashAlgorithm → Bytes → Bytes → Bytes
  pub cbc_encrypt : (key iv plaintext : Bytes) → Bytes
  pub cbc_decrypt : (key iv ciphertext : Bytes) → Bytes
  pub ecb_encrypt : (key plaintext : Bytes) → Bytes
  pub ecb_decrypt : (key ciphertext : Bytes) → Bytes
  pub rc4_keystream : (key : Bytes) → ℕ → ℕ

module _ (c : Crypto) where
  -- `HashAlgorithm::digest_two`: one hasher, updated twice.
  unfoldable pub digest_two : HashAlgorithm → Bytes → Bytes → Bytes
  digest_two hash first second = c.hash_bytes hash (first ++ second)

  unfoldable pub digest : HashAlgorithm → Bytes → Bytes
  unfolding digest_two
  digest hash bytes = digest_two hash bytes []

  -- The bytes that `digest_two_into` leaves in a zeroed slot of `n` bytes.
  unfoldable pub digest_two_into : HashAlgorithm → Bytes → Bytes → ℕ → Bytes
  unfolding digest_two
  digest_two_into hash first second n =
      let out = take n (digest_two hash first second) in out ++ replicate (n - length out) 0

-- `fit_iv`: cut to the block, or padded up to it with 0x36.
unfoldable pub fit_iv : Bytes → ℕ → Bytes
fit_iv bytes block_size =
    if leb block_size (length bytes)
    then take block_size bytes
    else bytes ++ replicate (block_size - length bytes) 0x36

module _ (c : Crypto) where
  unfoldable pub derive_iv : HashAlgorithm → (salt suffix : Bytes) → ℕ → Result Bytes
  unfolding digest_two fit_iv
  derive_iv hash salt suffix block_size =
      let d = digest_two c hash salt suffix in
      if ltb (length d) block_size
      then err (Error.invariant_violated Invariant.block_size_over_digest)
      else ok (fit_iv d block_size)

-- An HMAC under way: the key, and what it was given so far.
pub record HmacState : Type 0 where
  pub hash : HashAlgorithm
  pub key : Bytes
  pub message : Bytes

-- `HashAlgorithm::hmac_state`.
unfoldable pub hmac_state : HashAlgorithm → Bytes → HmacState
hmac_state hash key = record { hash = hash; key = key; message = [] }

-- `HmacState::update`.
unfoldable pub update : HmacState → Bytes → HmacState
update mac bytes = record mac { message = mac.message ++ bytes }

-- `if let Some(mac) = &mut mac { mac.update(..) }`.
unfoldable pub update_some : Option HmacState → Bytes → Option HmacState
unfolding update
update_some none bytes = none
update_some (some mac) bytes = some (update mac bytes)

-- `HmacState::finalize`.
unfoldable pub finalize : Crypto → HmacState → Bytes
finalize c mac = c.hmac mac.hash mac.key mac.message
