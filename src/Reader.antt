-- ===== src/Reader.antt =====
-- The readers of src/cfb_reader.rs: `std::io::Read` as a source that may answer short, be
-- interrupted or fail, and the loops over it.
pub mod Full
use msoffice_crypto.Base.{
  ℕ, zero, suc, ◌-◌, ◌+◌, min, String, List, [], ◌∷◌, ◌++◌, length, take, drop, ltb, if◌then◌else◌,
}
use msoffice_crypto.Base.Bytes.{Bytes}
use msoffice_crypto.Error.{Error, IoError, Result, ok, err, ◌>>=◌}

-- What the next call of `Read::read` does. `short n` answers with at most `n + 1` bytes; a call
-- that no event decides fills the buffer as far as the content goes.
pub data Event : Type 0 where
  short : ℕ → Event
  interrupted failed : Event

pub record Reader : Type 0 where
  pub content : Bytes
  pub schedule : List Event

-- `read_full`: reads until `room` bytes are there or a read answers none. An interrupted read is
-- made again, and any other error is returned.
unfoldable pub read_full_events : List Event → Bytes → ℕ → Result (Bytes × Reader)
read_full_events events content zero = ok ([], record { content = content; schedule = events })
read_full_events [] content (suc room) =
    ok (take (suc room) content, record { content = drop (suc room) content; schedule = [] })
read_full_events (interrupted ∷ events) content (suc room) =
    read_full_events events content (suc room)
read_full_events (failed ∷ events) content (suc room) = err (Error.io IoError.other)
read_full_events (short n ∷ events) [] (suc room) =
    ok ([], record { content = []; schedule = events })
read_full_events (short n ∷ events) (b ∷ content) (suc room) =
    let got = b ∷ take (min n room) content in
    let rest = read_full_events events (drop (min n room) content) (suc room - length got) in
    do (more, reader) ← rest; ok (got ++ more, reader)

unfoldable pub read_full : Reader → ℕ → Result (Bytes × Reader)
unfolding read_full_events
read_full reader room = read_full_events reader.schedule reader.content room

-- `reader.take(limit)`.
pub record Take : Type 0 where
  pub inner : Reader
  pub limit : ℕ

unfoldable pub read_full_take : Take → ℕ → Result (Bytes × Take)
unfolding read_full
read_full_take t room = do
  (got, inner) ← read_full t.inner (min room t.limit)
  ok (got, record { inner = inner; limit = t.limit - length got })

-- `read_capped`: one byte past the cap is asked for, so that a stream that is too large shows.
unfoldable pub read_capped : Reader → ℕ → String → Result Bytes
unfolding read_full
read_capped stream cap what = do
  (buf, _) ← read_full stream (cap + 1)
  if ltb cap (length buf) then err (Error.stream_too_large what cap) else ok buf
