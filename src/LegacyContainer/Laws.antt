-- ===== src/LegacyContainer/Laws.antt =====
-- What the code relies on of the `cfb` crate, and the operations of src/legacy_container.rs.
use msoffice_crypto.Base.{◌≡◌, ◌≢◌, arith, some, length, [], ◌≤◌, ◌+◌, take_all}
use msoffice_crypto.Base.Bytes.{Bytes}
use msoffice_crypto.Error.{ok}
use msoffice_crypto.Reader.{Reader, read_capped, read_full, read_full_events}
use msoffice_crypto.BinaryOffice.{StreamName}
use msoffice_crypto.LegacyContainer.{CompoundFile, read, overwrite, legacy_stream_read_cap}

-- A stream of the given bytes, read without interruption.
abbrev pub plain_stream : Bytes → Reader
plain_stream bytes = record { content = bytes; schedule = [] }

-- Documented behaviour: a write shows in the stream it is made to, and in no other. A stream of the
-- same length in memory can be written.
pub record IsCompoundFile {S : Type 0} (file : CompoundFile S) : Type 0 where
  pub writes :
      (s : S) (name : StreamName) (bytes : Bytes) (old : Reader)
      → (file.cfb s).open_stream name ≡ some old
      → length old.content ≡ length bytes
      → (s' : S) × (file.write_stream s name bytes ≡ ok s')
        × ((file.cfb s').open_stream name ≡ some (plain_stream bytes))
        × ((other : StreamName)
            → other ≢ name
            → (file.cfb s').open_stream other ≡ (file.cfb s).open_stream other)

module _ {S : Type 0} (file : CompoundFile S) (laws : IsCompoundFile file) where
  -- Bytes of the stream's length replace it, and no other stream changes.
  pub overwrite_lem :
      (s : S) (name : StreamName) (bytes : Bytes) (old : Reader)
      → (file.cfb s).open_stream name ≡ some old
      → length old.content ≡ length bytes
      → (s' : S) × (overwrite file s name bytes ≡ ok s')
        × ((file.cfb s').open_stream name ≡ some (plain_stream bytes))
        × ((other : StreamName)
            → other ≢ name
            → (file.cfb s').open_stream other ≡ (file.cfb s).open_stream other)
  unfolding overwrite
  overwrite_lem s name bytes old e l =
      let (s', w, same, others) = laws.writes s name bytes old e l in
      (s', ground (arith, e, l, w), same, others)

  -- A stream within the cap is read whole.
  pub read_lem :
      (s : S) (name : StreamName) (bytes : Bytes)
      → (file.cfb s).open_stream name ≡ some (plain_stream bytes)
      → length bytes ≤ legacy_stream_read_cap
      → read file s name ≡ ok bytes
  unfolding read read_capped read_full read_full_events
  read_lem s name bytes e l =
      let whole = take_all (legacy_stream_read_cap + 1) bytes (omega arith) in
      ground (arith, e, whole)
