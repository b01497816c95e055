-- ===== src/Classify/Plain.antt =====
-- A workbook that src/classify.rs reports as unencrypted, and its decryption in src/excel97.rs.
use msoffice_crypto.Base.{ℕ, ◌≡◌, ◌≢◌, arith, inl, inr, false, some, Option-cases, List}
use msoffice_crypto.Base.Bytes.{Bytes}
use msoffice_crypto.Error.{ok}
use msoffice_crypto.Hash.{Crypto}
use msoffice_crypto.Classification.{Family}
use msoffice_crypto.LegacyContainer.Laws.{plain_stream}
use msoffice_crypto.BinaryOffice.{
  BinaryFormat, BinaryVerdict, Cfb, StreamName, format_of, workbook_stream_name,
}
use msoffice_crypto.BinaryOffice.Probe.{probe_in, probe_format, probe_excel, pre_97_of}
use msoffice_crypto.BinaryOffice.Probe.Verdict.{probe_excel-decrypt_book}
use msoffice_crypto.Classify.{binary_family, rc4_family, classify_binary, unknown_cfb}
use msoffice_crypto.Excel97.{Scheme, decrypt_book}

-- Only a verdict of no encryption makes the family so.
binary_family_plain :
    (v : BinaryVerdict) → binary_family v ≡ Family.unencrypted → v.encrypted ≡ some false
unfolding binary_family rc4_family
binary_family_plain v e = ground arith

module _ (cfb : Cfb) (book : Bytes) (format : format_of cfb ≡ some BinaryFormat.excel)
    (name : workbook_stream_name cfb ≡ some StreamName.workbook)
    (stream : cfb.open_stream StreamName.workbook ≡ some (plain_stream book)) where
  -- For a container whose format is a workbook with its stream: when it is classified as
  -- unencrypted, the decryption of the stream is refused whatever the password.
  pub classify_binary-decrypt_book :
      (classify_binary cfb).family ≡ Family.unencrypted
      → (c : Crypto) (password : List ℕ) (plain : Bytes) (scheme : Scheme)
      → decrypt_book c password book ≢ ok (plain, scheme)
  unfolding classify_binary probe_in probe_format
  classify_binary-decrypt_book e c password plain scheme = elim (Option-cases (probe_excel cfb)) [
    | inl n ↦ absurd (unfold unknown_cfb in ground (arith, format, n))
    | inr (v, p) ↦
        let w : BinaryVerdict = record v { pre_97 = pre_97_of cfb v.format } in
        let family : binary_family w ≡ Family.unencrypted = ground (arith, format, p) in
        probe_excel-decrypt_book cfb book name stream v p (binary_family_plain w family) c password
          plain scheme
  ]
