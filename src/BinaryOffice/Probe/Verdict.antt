-- ===== src/BinaryOffice/Probe/Verdict.antt =====
-- The verdict of src/binary_office.rs on a workbook, and what src/excel97.rs makes of the same one.
use msoffice_crypto.Base.{
  ℕ, zero, suc, ◌+◌, ◌≤◌, ◌≡◌, ◌≢◌, refl, sym, ap, ◌∙◌, arith, inl, inr, false, some, Option-cases,
  length, get_elem?, take, length-take, List, ◌∷◌, [],
}
use msoffice_crypto.Base.Bytes.{Bytes}
use msoffice_crypto.Error.{ok, Result-cases}
use msoffice_crypto.Hash.{Crypto}
use msoffice_crypto.Reader.{read_full_take, read_full, read_full_events}
use msoffice_crypto.LegacyContainer.Laws.{plain_stream}
use msoffice_crypto.BinaryOffice.{Cfb, StreamName, BinaryVerdict, le16, workbook_stream_name}
use msoffice_crypto.BinaryOffice.Records.{FilePassScan, scan_from, scan_for_filepass, record_at}
use msoffice_crypto.BinaryOffice.Probe.{
  read_prefix, probe_excel, scan_verdict, filepass_verdict, with_header, biff_scan_cap,
}
use msoffice_crypto.Excel97.{Scheme, find_filepass, decrypt_book}
use msoffice_crypto.Excel97.Find.{find_filepass_iff}

get_take :
    (n : ℕ) (b : Bytes) (i : ℕ) {x : ℕ} → get_elem? (take n b) i ≡ some x → get_elem? b i ≡ some x
unfolding take get_elem?
get_take zero b i e = absurd cc
get_take (suc n) [] i e = e
get_take (suc n) (y ∷ b) zero e = e
get_take (suc n) (y ∷ b) (suc i) e = get_take n b i e

le16-take : (n : ℕ) (b : Bytes) (i : ℕ) {x : ℕ} → le16 (take n b) i ≡ some x → le16 b i ≡ some x
unfolding le16
le16-take n b i e = elim (Option-cases (get_elem? (take n b) i)) [
  | inl m ↦ absurd (ground arith)
  | inr (x, p) ↦ elim (Option-cases (get_elem? (take n b) (i + 1))) [
    | inl m ↦ absurd (ground arith)
    | inr (y, q) ↦ ground (arith, get_take n b i p, get_take n b (i + 1) q)
  ]
]

record_take :
    (n : ℕ) (b : Bytes) (i : ℕ) {header : ℕ × ℕ}
    → record_at (take n b) i ≡ some header
    → record_at b i ≡ some header
unfolding record_at
record_take n b i e = elim (Option-cases (le16 (take n b) i)) [
  | inl m ↦ absurd (ground arith)
  | inr (x, p) ↦ elim (Option-cases (le16 (take n b) (i + 2))) [
    | inl m ↦ absurd (ground arith)
    | inr (y, q) ↦ ground (arith, le16-take n b i p, le16-take n b (i + 2) q)
  ]
]

-- A record outside the set, met in a part of the book, is met in the whole of it.
scan_from-take :
    (n : ℕ) (b : Bytes) (fuel more pos : ℕ)
    → fuel ≤ more
    → scan_from fuel (take n b) pos ≡ FilePassScan.proven_absent
    → scan_from more b pos ≡ FilePassScan.proven_absent
unfolding scan_from
scan_from-take n b zero more pos l e = absurd cc
scan_from-take n b (suc fuel) zero pos l e = absurd (omega arith)
scan_from-take n b (suc fuel) (suc more) pos l e = elim (Option-cases (record_at (take n b) pos)) [
  | inl m ↦ absurd (ground arith)
  | inr ((id, len), p) ↦
      let whole = record_take n b pos p in
      let rest = scan_from-take n b fuel more (pos + 4 + len) (omega arith) in
      ground (arith, whole, rest, length-take n b)
]

-- What the first bytes of a book prove about it holds of the book: where a scan of any number of
-- its first bytes proves that there is no `FILEPASS`, the scan of the whole proves it too.
pub scan_for_filepass-take :
    (n : ℕ) (book : Bytes)
    → scan_for_filepass (take n book) ≡ FilePassScan.proven_absent
    → scan_for_filepass book ≡ FilePassScan.proven_absent
unfolding scan_for_filepass
scan_for_filepass-take n book e = elim (Option-cases (le16 (take n book) 0)) [
  | inl m ↦ absurd (ground arith)
  | inr (id, p) ↦
      let whole = le16-take n book 0 p in
      let scan =
        scan_from-take n book (suc (length (take n book))) (suc (length book)) 0
          (omega (arith, length-take n book)) in
      ground (arith, whole, scan)
]

-- A workbook that the scan proves plain is opened by no password.
plain_not_opened :
    (c : Crypto) (password : List ℕ) (book plain : Bytes) (scheme : Scheme)
    → scan_for_filepass book ≡ FilePassScan.proven_absent
    → decrypt_book c password book ≢ ok (plain, scheme)
unfolding decrypt_book
plain_not_opened c password book plain scheme e h = elim (Result-cases (find_filepass book)) [
  | inr f ↦ ground arith
  | inl (fp, p) ↦ let found = (find_filepass_iff book fp).0 p in grind arith
]

module _ (cfb : Cfb) (book : Bytes) (name : workbook_stream_name cfb ≡ some StreamName.workbook)
    (stream : cfb.open_stream StreamName.workbook ≡ some (plain_stream book)) where
  prefix_lem : read_prefix cfb StreamName.workbook biff_scan_cap ≡ some (take biff_scan_cap book)
  unfolding read_prefix read_full_take read_full read_full_events
  prefix_lem = ground (arith, stream)

  probe_lem :
      probe_excel cfb
      ≡ some (scan_verdict (take biff_scan_cap book) (scan_for_filepass (take biff_scan_cap book)))
  unfolding probe_excel
  probe_lem = ground (arith, name, prefix_lem)

  -- Only a proof of absence makes the verdict "not encrypted".
  verdict_plain :
      (part : Bytes) (scan : FilePassScan)
      → (scan_verdict part scan).encrypted ≡ some false
      → scan ≡ FilePassScan.proven_absent
  unfolding scan_verdict filepass_verdict with_header
  verdict_plain part FilePassScan.proven_absent e = refl
  verdict_plain part FilePassScan.unreadable e = absurd cc
  verdict_plain part (FilePassScan.found r) e = ground arith

  -- A workbook stream that is reported as not encrypted, by its first 2^20 bytes, is refused by the
  -- decryption of the whole stream whatever the password.
  pub probe_excel-decrypt_book :
      (v : BinaryVerdict)
      → probe_excel cfb ≡ some v
      → v.encrypted ≡ some false
      → (c : Crypto) (password : List ℕ) (plain : Bytes) (scheme : Scheme)
      → decrypt_book c password book ≢ ok (plain, scheme)
  probe_excel-decrypt_book v p e c password plain scheme =
      let part = take biff_scan_cap book in
      let same : v ≡ scan_verdict part (scan_for_filepass part) = grind (arith, probe_lem) in
      let absent =
        verdict_plain part (scan_for_filepass part) (sym (ap (λ w. w.encrypted) same) ∙ e) in
      plain_not_opened c password book plain scheme
        (scan_for_filepass-take biff_scan_cap book absent)
