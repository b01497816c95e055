-- ===== src/LegacyContainer.antt =====
-- src/legacy_container.rs: the streams of a legacy document in memory. The container itself is the
-- `cfb` crate's, and an interface here.
pub mod Laws
use msoffice_crypto.Base.{
  ℕ, ◌+◌, ◌^◌, Bool, true, false, not, ◌&&◌, ◌==◌, if◌then◌else◌, Option, none, some, String,
  length,
}
use msoffice_crypto.Base.Bytes.{Bytes}
use msoffice_crypto.FileParams.{Invariant}
use msoffice_crypto.Error.{Error, Result, ok, err, ◌>>=◌, ◌>>◌, reject_if, ok_or}
use msoffice_crypto.Reader.{Reader, read_capped}
use msoffice_crypto.BinaryOffice.{Cfb, StreamName}

-- What the code takes from `cfb::CompoundFile` over a buffer: what it shows, and the writes. `write_stream` is `seek(0)`, `write_all` and `flush` on an open stream.
pub record CompoundFile (S : Type 0) : Type 0 where
  pub cfb : S → Cfb
  pub write_stream : S → StreamName → Bytes → Result S
  pub create_stream : S → StreamName → Bytes → Result S
  pub remove_stream : S → StreamName → Result S

abbrev pub legacy_stream_read_cap : ℕ
legacy_stream_read_cap = 2 ^ 30

-- The name without its slash, as the errors give it.
unfoldable pub what : StreamName → String
what StreamName.word_document = "WordDocument"
what StreamName.table_0 = "0Table"
what StreamName.table_1 = "1Table"
what StreamName.data_stream = "Data"
what StreamName.workbook = "Workbook"
what StreamName.book = "Book"
what StreamName.power_point_document = "PowerPoint Document"
what StreamName.current_user = "Current User"
what StreamName.pictures = "Pictures"
what StreamName.encryption = "encryption"
what StreamName.encrypted_summary = "EncryptedSummary"
what StreamName.summary_information = "\u{5}SummaryInformation"
what StreamName.document_summary_information = "\u{5}DocumentSummaryInformation"
what StreamName.data_space_map = "DataSpaceMap"
what StreamName.drm_content = "\tDRMContent"
what StreamName.encryption_info = "EncryptionInfo"

module _ {S : Type 0} (file : CompoundFile S) where
  unfoldable pub exists : S → StreamName → Bool
  exists s name = (file.cfb s).exists name

  unfoldable pub read : S → StreamName → Result Bytes
  unfolding what read_capped
  read s name = do
    stream ← ok_or ((file.cfb s).open_stream name) (Error.missing_stream (what name))
    read_capped stream legacy_stream_read_cap (what name)

  unfoldable pub overwrite : S → StreamName → Bytes → Result S
  unfolding what
  overwrite s name bytes = do
    stream ← ok_or ((file.cfb s).open_stream name) (Error.missing_stream (what name))
    reject_if (not (length stream.content == length bytes))
        (Error.invariant_violated Invariant.rewrite_length)
    file.write_stream s name bytes

  -- `entry(name)` is a stream whose length is that of the bytes.
  unfoldable pub same_length : S → StreamName → Bytes → Bool
  same_length s name bytes = (file.cfb s).is_stream name && elim ((file.cfb s).open_stream name) [
    | none ↦ false
    | some stream ↦ length stream.content == length bytes
  ]

  unfoldable pub replace : S → StreamName → Bytes → Result S
  unfolding overwrite same_length
  replace s name bytes =
      if same_length s name bytes then overwrite s name bytes else file.create_stream s name bytes

  unfoldable pub remove : S → StreamName → Result S
  unfolding what
  remove s name = do
    reject_if (not ((file.cfb s).is_stream name)) (Error.missing_stream (what name))
    file.remove_stream s name
