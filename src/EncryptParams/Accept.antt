-- ===== src/EncryptParams/Accept.antt =====
-- `validate` and `nearest_supported_key_bits` of src/encrypt_params.rs.
use msoffice_crypto.Base.{ℕ, ◌*◌, ◌≤◌, ◌≡◌, ◌⊎◌, ◌↔◌, arith}
use msoffice_crypto.Error.{ok}
use msoffice_crypto.Hash.{digest_len, can_carry_key_bits}
use msoffice_crypto.EncryptParams.{EncryptParams, abs_diff, nearest_supported_key_bits, validate}

abbrev pub IsAesBits : ℕ → Type 0
IsAesBits bits = (bits ≡ 128) ⊎ (bits ≡ 192) ⊎ (bits ≡ 256)

-- The parameters that a writer can use: AES key widths, a password key no longer than the digest,
-- salts of 1 to 65536 bytes and at most ten million rounds.
pub record IsUsable (p : EncryptParams) : Type 0 where
  pub key_data_bits : IsAesBits p.key_data_key_bits
  pub password_bits : IsAesBits p.password_key_bits
  pub carried : p.password_key_bits ≤ 8 * digest_len p.hash
  pub key_data_salt : (1 ≤ p.key_data_salt_size) × (p.key_data_salt_size ≤ 65536)
  pub password_salt : (1 ≤ p.password_salt_size) × (p.password_salt_size ≤ 65536)
  pub spins : p.spin_count ≤ 10000000

pub validate→IsUsable : (p : EncryptParams) → validate p ≡ ok tt → IsUsable p
unfolding validate can_carry_key_bits
validate→IsUsable p h = record {
  key_data_bits = ground arith;
  password_bits = ground arith;
  carried = ground arith;
  key_data_salt = (ground arith, ground arith);
  password_salt = (ground arith, ground arith);
  spins = ground arith;
}

pub IsUsable→validate : (p : EncryptParams) → IsUsable p → validate p ≡ ok tt
unfolding validate can_carry_key_bits
IsUsable→validate p u =
    ground (
      arith, u.key_data_bits, u.password_bits, u.carried, u.key_data_salt, u.password_salt, u.spins,
    )

-- `validate` accepts exactly the parameters that a writer can use.
pub validate_iff : (p : EncryptParams) → (validate p ≡ ok tt) ↔ IsUsable p
validate_iff p = (validate→IsUsable p, IsUsable→validate p)

-- The suggested key width is an AES width, and no AES width is nearer to the one asked for.
pub nearest_supported_key_bits-IsNearest :
    (requested other : ℕ)
    → IsAesBits other
    → IsAesBits (nearest_supported_key_bits requested)
      × (abs_diff (nearest_supported_key_bits requested) requested ≤ abs_diff other requested)
unfolding nearest_supported_key_bits
nearest_supported_key_bits-IsNearest requested other h = (ground arith, ground arith)
