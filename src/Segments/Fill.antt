-- ===== src/Segments/Fill.antt =====
-- One call of `Segmenter::fill` of src/segments.rs on a source that does not fail.
use mathlib.Core.List.{append_assoc}
use msoffice_crypto.Base.{
  ℕ, ◌-◌, ◌≤◌, min, none, some, ◌≡◌, ◌≢◌, arith, List, [], ◌++◌, length, take, drop, replicate,
  length-append, length-take, length-drop, length-replicate, take_front, drop_past, drop-drop,
  eq-nil_of_length,
}
use msoffice_crypto.Base.Bytes.{Bytes, to_le_bytes}
use msoffice_crypto.Error.{Result, ok}
use msoffice_crypto.Hash.{Crypto, digest_len, digest_two, fit_iv}
use msoffice_crypto.Hash.Laws.{IsCrypto, derive_iv_lem, digest_len_bounds}
use msoffice_crypto.Classification.{HashAlgorithm}
use msoffice_crypto.Segments
use msoffice_crypto.Reader.{Event, Take, read_full_take}
use msoffice_crypto.Reader.Full.{NoFailure, read_full-IsFilled}
use msoffice_crypto.Segments.{
  segment_len, round_up_block, Filled, Segmenter, next_of, slot_with, zero_tail, Step, fill,
}

-- Data zero-padded to whole AES blocks.
abbrev pub padded : Bytes → Bytes
padded b = b ++ replicate (round_up_block (length b) - length b) 0

pub length-padded : (b : Bytes) → length (padded b) ≡ round_up_block (length b)
length-padded b = omega (
  arith,
  length-append b (replicate (round_up_block (length b) - length b) 0),
  length-replicate {A = ℕ} (round_up_block (length b) - length b) 0,
)

-- The vector of segment `index`.
abbrev pub segment_iv : Crypto → Segmenter → ℕ → Bytes
segment_iv c s index = fit_iv (digest_two c s.hash s.salt (to_le_bytes 4 index)) s.block_size

-- The slot once a segment is in it: the padded data in front.
zero_tail_front :
    (slot got : Bytes)
    → length slot ≡ segment_len
    → length got ≤ segment_len
    → zero_tail (slot_with got slot) (length got) (round_up_block (length got))
      ≡ padded got ++ drop (round_up_block (length got)) slot
unfolding zero_tail
zero_tail_front slot got h k = ground (
  arith,
  length-append got (drop (length got) slot),
  length-drop (length got) slot,
  take_front got (drop (length got) slot) (length got),
  drop_past got (drop (length got) slot) (round_up_block (length got)),
  drop-drop (round_up_block (length got) - length got) (length got) slot,
  append_assoc got (replicate (round_up_block (length got) - length got) 0)
      (drop (round_up_block (length got)) slot),
)

-- What the next call of `fill` takes from its source.
abbrev pub upcoming : Take → Bytes
upcoming source = take (min segment_len source.limit) source.inner.content

-- The source after that call, with the events `events` still to come.
abbrev pub after : Take → List Event → Take
after source events = record {
  inner = record {
    content = drop (min segment_len source.limit) source.inner.content;
    schedule = events;
  };
  limit = source.limit - length (upcoming source);
}

-- `result` is a segment with the vector of `index`, its padded data in the slot.
pub record IsSegment (c : Crypto) (s : Segmenter) (index : ℕ) (source : Take) (slot : Bytes)
    (result : Result Step) : Type 0 where
  pub events : List Event
  pub calm : NoFailure events
  pub returns :
      result
      ≡ ok (record {
        filled = some (record {
          len = length (upcoming source);
          padded_len = round_up_block (length (upcoming source));
          iv = segment_iv c s index;
        });
        segmenter = record s { next_index = next_of index };
        source = after source events;
        slot = padded (upcoming source) ++ drop (round_up_block (length (upcoming source))) slot;
      })

-- `result` says that the source is empty.
pub record IsEnd (s : Segmenter) (source : Take) (slot : Bytes) (result : Result Step)
    : Type 0 where
  pub events : List Event
  pub calm : NoFailure events
  pub returns :
      result
      ≡ ok (record {
        filled = none;
        segmenter = s;
        source = after source events;
        slot = slot_with (upcoming source) slot;
      })

pub length-upcoming : (source : Take) → length (upcoming source) ≤ segment_len
length-upcoming source =
    omega (arith, length-take (min segment_len source.limit) source.inner.content)

module _ (c : Crypto) (laws : IsCrypto c) (s : Segmenter) (source : Take) (slot : Bytes) where
  -- A segmenter at `index`, with vectors no longer than its digest, on a source that does not
  -- fail and has input left: `fill` takes the next 4096 bytes or what is left, puts them
  -- zero-padded into the front of the slot, names their length, their padded length and the
  -- vector of `index`, and moves the index on.
  pub fill-IsSegment :
      (index : ℕ)
      → s.next_index ≡ some index
      → s.block_size ≤ digest_len s.hash
      → NoFailure source.inner.schedule
      → length slot ≡ segment_len
      → upcoming source ≢ []
      → IsSegment c s index source slot (fill c s source slot)
  fill-IsSegment index e fits calm h more =
      let filled = read_full-IsFilled source.inner (min segment_len source.limit) calm in
      record {
        events = filled.events;
        calm = filled.calm;
        returns =
            unfold fill read_full_take in
            ground (
              arith,
              filled.returns,
              eq-nil_of_length (upcoming source),
              derive_iv_lem c laws s.hash s.salt (to_le_bytes 4 index) s.block_size fits,
              zero_tail_front slot (upcoming source) h (length-upcoming source),
            );
      }

  -- An empty source yields nothing.
  pub fill-IsEnd :
      NoFailure source.inner.schedule
      → upcoming source ≡ []
      → IsEnd s source slot (fill c s source slot)
  unfolding fill read_full_take
  fill-IsEnd calm e =
      let filled = read_full-IsFilled source.inner (min segment_len source.limit) calm in
      record {
        events = filled.events;
        calm = filled.calm;
        returns = ground (arith, filled.returns);
      }

-- A block of 16 bytes is never longer than a digest.
pub new_lem :
    (hash : HashAlgorithm) (salt : Bytes)
    → Segments.new hash salt 16
      ≡ ok (record { hash = hash; salt = salt; block_size = 16; next_index = some 0 })
unfolding Segments.new
new_lem hash salt = ground (arith, digest_len_bounds hash)
