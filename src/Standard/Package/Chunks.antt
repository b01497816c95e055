-- ===== src/Standard/Package/Chunks.antt =====
-- The chunks of the package of standard encryption (src/standard.rs, src/standard_encrypt.rs): its
-- ciphertext, one read and one block of the slot.
use msoffice_crypto.Base.{
  ℕ, ◌≤◌, min, ◌≡◌, arith, some, List, [], ◌++◌, length, take, drop, length-append, length-take,
  length-drop, take_front, take-take,
}
use msoffice_crypto.Base.Bytes.{Bytes, slice}
use msoffice_crypto.Error.{Result, ok}
use msoffice_crypto.Hash.{Crypto}
use msoffice_crypto.Hash.Laws.{IsCrypto}
use msoffice_crypto.Reader.{Take, Event, read_full_take}
use msoffice_crypto.Reader.Full.{NoFailure, read_full-IsFilled}
use msoffice_crypto.Segments.{segment_len, round_up_block, slot_with}
use msoffice_crypto.Segments.Fill.{padded, upcoming, after}
use msoffice_crypto.Agile.Package.Cut.{ciphertext}
use msoffice_crypto.Standard.Package.{zeroed_from}

-- The electronic code book seen as a mode with a vector that it ignores, so that the ciphertext of
-- the agile package is also that of the standard one.
abbrev pub ecb_view : Crypto → Crypto
ecb_view c = record c {
  cbc_encrypt = λ key iv p. c.ecb_encrypt key p;
  cbc_decrypt = λ key iv p. c.ecb_decrypt key p;
}

pub ecb_view-IsCrypto : (c : Crypto) → IsCrypto c → IsCrypto (ecb_view c)
ecb_view-IsCrypto c laws = record {
  length-hash = laws.length-hash;
  length-md5 = laws.length-md5;
  length-hmac = laws.length-hmac;
  length-cbc_encrypt = λ key iv p w. laws.length-ecb_encrypt key p w;
  length-cbc_decrypt = λ key iv p w. laws.length-ecb_decrypt key p w;
  length-ecb_encrypt = laws.length-ecb_encrypt;
  length-ecb_decrypt = laws.length-ecb_decrypt;
  cbc_decrypt-encrypt = λ key iv p k v w. laws.ecb_decrypt-encrypt key p k w;
  ecb_decrypt-encrypt = laws.ecb_decrypt-encrypt;
}

abbrev pub no_iv : ℕ → Bytes
no_iv index = []

-- Every chunk zero-padded to whole blocks and encrypted by itself.
abbrev pub ecb_text : Crypto → Bytes → ℕ → ℕ → Bytes → Bytes
ecb_text c key fuel index p = ciphertext (ecb_view c) key no_iv fuel index p

-- What a read of the next chunk gives.
pub record IsRead (source : Take) (result : Result (Bytes × Take)) : Type 0 where
  pub events : List Event
  pub calm : NoFailure events
  pub returns : result ≡ ok (upcoming source, after source events)

pub read_full_take-IsRead :
    (source : Take)
    → NoFailure source.inner.schedule
    → IsRead source (read_full_take source segment_len)
read_full_take-IsRead source calm =
    let filled = read_full-IsFilled source.inner (min segment_len source.limit) calm in
    record {
      events = filled.events;
      calm = filled.calm;
      returns = unfold read_full_take in ground (arith, filled.returns);
    }

-- The block of the slot that a chunk fills, once its tail is zeroed.
pub block_lem :
    (got slot : Bytes)
    → length slot ≡ segment_len
    → length got ≤ segment_len
    → (block : Bytes) × (slice (slot_with got slot) 0 (round_up_block (length got)) ≡ some block)
      × (zeroed_from (length got) block ≡ padded got)
unfolding slice drop
block_lem got slot h k =
    let buf = slot_with got slot in
    let n = round_up_block (length got) in
    let size = length-append got (drop (length got) slot) in
    let rest = length-drop (length got) slot in
    (
      take n buf,
      ground (arith, size, rest),
      ground (
        arith,
        size,
        rest,
        length-take n buf,
        take-take (length got) n buf,
        take_front got (drop (length got) slot) (length got),
      ),
    )

-- The slot keeps its length through a round.
pub length-next_buf :
    (sealed got slot : Bytes)
    → length slot ≡ segment_len
    → length got ≤ segment_len
    → length sealed ≡ round_up_block (length got)
    → length (sealed ++ drop (round_up_block (length got)) (slot_with got slot)) ≡ segment_len
length-next_buf sealed got slot h k e = omega (
  arith,
  length-append sealed (drop (round_up_block (length got)) (slot_with got slot)),
  length-drop (round_up_block (length got)) (slot_with got slot),
  length-append got (drop (length got) slot),
  length-drop (length got) slot,
)
