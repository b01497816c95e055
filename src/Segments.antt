-- ===== src/Segments.antt =====
-- src/segments.rs: a payload cut into 4096-byte segments as it is read, each with the vector that
-- its index derives. The slot is the caller's buffer of 4096 bytes, reused between segments.
pub mod Fill
use msoffice_crypto.Base.{
  ℕ, ◌+◌, ◌-◌, ◌*◌, ◌/◌, ◌^◌, Option, none, some, ltb, leb, ◌==◌, if◌then◌else◌, ◌++◌, length, take,
  drop, replicate,
}
use msoffice_crypto.Base.Bytes.{Bytes, to_le_bytes}
use msoffice_crypto.Classification.{HashAlgorithm}
use msoffice_crypto.FileParams.{Invariant}
use msoffice_crypto.Error.{Error, Result, ok, err, ◌>>=◌, ok_or}
use msoffice_crypto.Hash.{Crypto, digest_len, derive_iv}
use msoffice_crypto.Reader.{Take, read_full_take}

abbrev pub segment_len : ℕ
segment_len = 4096

-- `n.div_ceil(16) * 16`.
abbrev pub round_up_block : ℕ → ℕ
round_up_block n = (n + 15) / 16 * 16

pub record Filled : Type 0 where
  pub len : ℕ
  pub padded_len : ℕ
  pub iv : Bytes

-- `next_index` is `none` once `u32::MAX` has been used.
pub record Segmenter : Type 0 where
  pub hash : HashAlgorithm
  pub salt : Bytes
  pub block_size : ℕ
  pub next_index : Option ℕ

-- `Segmenter::new`.
unfoldable pub new : HashAlgorithm → Bytes → ℕ → Result Segmenter
new hash salt block_size =
    if ltb (digest_len hash) block_size
    then err (Error.invariant_violated Invariant.block_size_over_digest)
    else ok (record { hash = hash; salt = salt; block_size = block_size; next_index = some 0 })

-- `index.checked_add(1)` on `u32`.
abbrev pub next_of : ℕ → Option ℕ
next_of index = if ltb (index + 1) (2 ^ 32) then some (index + 1) else none

-- The slot after `data` was read into its front, and its tail zeroed up to an AES block.
abbrev pub slot_with : (data' slot : Bytes) → Bytes
slot_with data' slot = data' ++ drop (length data') slot

unfoldable pub zero_tail : Bytes → (len padded_len : ℕ) → Bytes
zero_tail slot len padded_len =
    if leb padded_len (length slot)
    then take len slot ++ (replicate (padded_len - len) 0 ++ drop padded_len slot)
    else slot

-- What a call of `fill` leaves: the segment, if there was input, and the moved-on state.
pub record Step : Type 0 where
  pub filled : Option Filled
  pub segmenter : Segmenter
  pub source : Take
  pub slot : Bytes

-- `Segmenter::fill`.
unfoldable pub fill : Crypto → Segmenter → Take → Bytes → Result Step
unfolding zero_tail
fill c s source slot = do
  (got, source') ← read_full_take source segment_len
  let len = length got
  let slot' = slot_with got slot
  if len == 0
      then ok (record { filled = none; segmenter = s; source = source'; slot = slot' })
      else do
        index ← ok_or s.next_index (Error.invariant_violated Invariant.counter_overflow)
        let padded_len = round_up_block len
        iv ← derive_iv c s.hash s.salt (to_le_bytes 4 index) s.block_size
        ok (record {
          filled = some (record { len = len; padded_len = padded_len; iv = iv });
          segmenter = record s { next_index = next_of index };
          source = source';
          slot = zero_tail slot' len padded_len;
        })
