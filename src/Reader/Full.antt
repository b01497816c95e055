-- ===== src/Reader/Full.antt =====
-- `read_full` of src/cfb_reader.rs on sources that do not fail.
use msoffice_crypto.Base.{
  ℕ, zero, suc, ◌-◌, ◌≤◌, min, List, [], ◌∷◌, ◌++◌, ◌≡◌, refl, length, take, drop, arith,
  length-take, take_add, drop-drop, take-length-take, drop-length-take,
}
use msoffice_crypto.Base.Bytes.{Bytes}
use msoffice_crypto.Error.{Result, ok, ◌>>=◌}
use msoffice_crypto.Reader.{Event, short, interrupted, failed, Reader, read_full_events, read_full}

-- A schedule with no failing read.
abbrev pub NoFailure : List Event → Type 0
NoFailure [] = Unit {0}
NoFailure (short n ∷ events) = NoFailure events
NoFailure (interrupted ∷ events) = NoFailure events
NoFailure (failed ∷ events) = ⊥

-- `result` is the first `room` bytes, and a reader of the rest that will not fail either.
pub record IsFilled (content : Bytes) (room : ℕ) (result : Result (Bytes × Reader)) : Type 0 where
  pub events : List Event
  pub calm : NoFailure events
  pub returns :
      result ≡ ok (take room content, record { content = drop room content; schedule = events })

-- A first answer of at most `k` bytes, and what is read behind it.
IsFilled-append :
    (k room : ℕ) (content : Bytes) (tail : Result (Bytes × Reader))
    → length (take k content) ≤ room
    → IsFilled (drop k content) (room - length (take k content)) tail
    → IsFilled content room (tail >>= λ r. ok (take k content ++ r.0, r.1))
IsFilled-append k room content tail h rest = record {
  events = rest.events;
  calm = rest.calm;
  returns =
      let n = length (take k content) in
      ground (
        arith,
        rest.returns,
        take_add n (room - n) content,
        drop-drop (room - n) n content,
        take-length-take k content,
        drop-length-take k content,
      );
}

read_full_events-IsFilled :
    (events : List Event) (content : Bytes) (room : ℕ)
    → NoFailure events
    → IsFilled content room (read_full_events events content room)
unfolding read_full_events take drop
read_full_events-IsFilled events content zero calm = record {
  events = events;
  calm = calm;
  returns = refl;
}
read_full_events-IsFilled [] content (suc room) calm = record {
  events = [];
  calm = tt;
  returns = refl;
}
read_full_events-IsFilled (interrupted ∷ events) content (suc room) calm =
    read_full_events-IsFilled events content (suc room) calm
read_full_events-IsFilled (failed ∷ events) content (suc room) calm = absurd calm
read_full_events-IsFilled (short n ∷ events) [] (suc room) calm = record {
  events = events;
  calm = calm;
  returns = refl;
}
read_full_events-IsFilled (short n ∷ events) (b ∷ content) (suc room) calm =
    let k = min n room in
    IsFilled-append (suc k) (suc room) (b ∷ content) _ (omega (arith, length-take k content)) (
      read_full_events-IsFilled events (drop k content) (suc room - suc (length (take k content)))
        calm)

-- Whatever short or interrupted reads a source makes that does not fail, `read_full` returns
-- its first `room` bytes, or all there are, and leaves the rest.
pub read_full-IsFilled :
    (r : Reader) (room : ℕ) → NoFailure r.schedule → IsFilled r.content room (read_full r room)
unfolding read_full
read_full-IsFilled r room calm = read_full_events-IsFilled r.schedule r.content room calm
