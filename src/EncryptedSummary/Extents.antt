-- ===== src/EncryptedSummary/Extents.antt =====
-- The extents of the streams that `decrypt_stream` of src/encrypted_summary.rs restores.
use msoffice_crypto.Base.{ℕ, ◌-◌, ◌≤◌, ◌≡◌, ◌⊎◌, arith, false, List, [], ◌∷◌, length, All, take}
use msoffice_crypto.Base.Bytes.{Bytes}
use msoffice_crypto.Hash.{Crypto}
use msoffice_crypto.Rc4.{BlockKeySchedule, xor_from}
use msoffice_crypto.EncryptedSummary.{Entry, same_name}

-- An extent between the prefix and the descriptor array, as long as the restored stream.
abbrev pub IsInside : (limit : ℕ) → Entry → Type 0
IsInside limit e =
    (8 ≤ e.start) × (e.start ≤ e.end) × (e.end ≤ limit) × (length e.bytes ≡ e.end - e.start)

-- Different names, and extents that share no byte.
abbrev pub IsApart : Entry → Entry → Type 0
IsApart e f = (same_name e.name f.name ≡ false) × ((e.end ≤ f.start) ⊎ (f.end ≤ e.start))

abbrev pub IsDisjoint : List Entry → Type 0
IsDisjoint [] = Unit
IsDisjoint (e ∷ entries) = All (IsApart e) entries × IsDisjoint entries

abbrev pub IsSound : (limit : ℕ) → List Entry → Type 0
IsSound limit entries = All (IsInside limit) entries × IsDisjoint entries

-- At most two streams can be apart: there are two names.
pub length-IsDisjoint : (entries : List Entry) → IsDisjoint entries → length entries ≤ 2
unfolding same_name
length-IsDisjoint [] d = omega arith
length-IsDisjoint (a ∷ []) d = omega arith
length-IsDisjoint (a ∷ b ∷ []) d = omega arith
length-IsDisjoint (a ∷ b ∷ e ∷ entries) d = absurd (ground arith)

module _ (c : Crypto) (schedule : BlockKeySchedule) where
  -- The first eight bytes, decrypted under the key of block 0: where the descriptor array lies.
  abbrev pub prefix_of : Bytes → Bytes
  prefix_of data' = xor_from (c.rc4_keystream (schedule 0)) 0 (take 8 data')
