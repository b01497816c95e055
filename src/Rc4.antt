-- ===== src/Rc4.antt =====
-- src/rc4.rs: RC4 over numbered blocks, and the verifier check on one keystream. The keystream of a
-- key is the `rc4` crate's.
pub mod Blocks
pub mod Verify
pub mod Masked
use msoffice_crypto.Base.{
  ℕ, zero, suc, ◌+◌, ◌^◌, Bool, not, ◌&&◌, leb, ltb, ◌==◌, if◌then◌else◌, List, [], ◌∷◌, ◌++◌,
  length, take, drop, bit_xor,
}
use msoffice_crypto.Base.Bytes.{Bytes}
use msoffice_crypto.FileParams.{Invariant}
use msoffice_crypto.Error.{Error, Result, ok, err, ◌>>=◌, ◌>>◌, reject_if}
use msoffice_crypto.Hash.{Crypto}
use msoffice_crypto.Integrity.{ct_eq}

-- `BlockKeySchedule::block_key`.
abbrev pub BlockKeySchedule : Type 0
BlockKeySchedule = ℕ → Bytes

-- A cipher part-way through its keystream.
pub record Keystream : Type 0 where
  pub key : Bytes
  pub position : ℕ

unfoldable pub new : Bytes → Result Keystream
new key = do
  reject_if (not (leb 5 (length key) && leb (length key) 16))
      (Error.invariant_violated Invariant.rc4_key_length)
  ok (record { key = key; position = 0 })

-- `data` under the keystream `k` from `at` on.
unfoldable pub xor_from : (ℕ → ℕ) → (at : ℕ) → Bytes → Bytes
xor_from k at [] = []
xor_from k at (b ∷ bs) = bit_xor b (k at) ∷ xor_from k (suc at) bs

module _ (c : Crypto) where
  -- `Keystream::apply`: the data changed in place, and the keystream moved on.
  unfoldable pub apply : Keystream → Bytes → Bytes × Keystream
  unfolding xor_from
  apply k data' = (
    xor_from (c.rc4_keystream k.key) k.position data',
    record k { position = k.position + length data' },
  )

  -- The loop over `data.chunks_mut(block_size)`, from chunk `i` on.
  unfoldable pub decrypt_chunks : BlockKeySchedule → ℕ → (block_size i : ℕ) → Bytes → Result Bytes
  unfolding new
  decrypt_chunks schedule zero block_size i data' = ok []
  decrypt_chunks schedule (suc fuel) block_size i [] = ok []
  decrypt_chunks schedule (suc fuel) block_size i (b ∷ bs) =
      let rest = decrypt_chunks schedule fuel block_size (suc i) (drop block_size (b ∷ bs)) in
      do
        reject_if (leb (2 ^ 32) i) (Error.invariant_violated Invariant.counter_overflow)
        keystream ← new (schedule i)
        let chunk = (apply keystream (take block_size (b ∷ bs))).0
        tail ← rest
        ok (chunk ++ tail)

  unfoldable pub decrypt_in_blocks : BlockKeySchedule → Bytes → (block_size : ℕ) → Result Bytes
  unfolding decrypt_chunks
  decrypt_in_blocks schedule data' block_size = do
    reject_if (block_size == 0) (Error.invariant_violated Invariant.rc4_block_size)
    decrypt_chunks schedule (suc (length data')) block_size 0 data'

  unfoldable pub decrypt_with_block : BlockKeySchedule → Bytes → (block : ℕ) → Result Bytes
  decrypt_with_block schedule data' block = do
    keystream ← new (schedule block)
    ok ((apply keystream data').0)

  unfoldable pub verify_password :
      BlockKeySchedule
      → (encrypted_verifier encrypted_verifier_hash : Bytes) → (Bytes → Bytes)
      → Result (Unit {0})
  verify_password schedule encrypted_verifier encrypted_verifier_hash digest = do
    keystream ← new (schedule 0)
    let (verifier, keystream') = apply keystream encrypted_verifier
    let verifier_hash = (apply keystream' encrypted_verifier_hash).0
    reject_if (not (ct_eq (digest verifier) verifier_hash)) Error.wrong_password
