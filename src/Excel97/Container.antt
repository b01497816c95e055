-- ===== src/Excel97/Container.antt =====
-- `decrypt` of src/excel97.rs on a container.
use msoffice_crypto.Base.{
  ℕ, suc, ◌+◌, ◌-◌, ◌%◌, ◌^◌, ◌≤◌, ◌≡◌, ◌≢◌, refl, sym, ap, ◌∙◌, arith, inl, inr, none, some, List,
  [], ◌∷◌, length, replicate, length-replicate,
}
use msoffice_crypto.Base.Bytes.{Bytes, range, copy_at}
use msoffice_crypto.Base.Slots.{length-range, length-copy_at}
use msoffice_crypto.Error.{ok, Result-cases}
use msoffice_crypto.Hash.{Crypto}
use msoffice_crypto.Rc4.{decrypt_in_blocks}
use msoffice_crypto.Rc4.Blocks.{length-decrypt_in_blocks}
use msoffice_crypto.XorObfuscation
use msoffice_crypto.XorObfuscation.{XorObfuscator, decrypt_from}
use msoffice_crypto.BinaryOffice.{StreamName, workbook_stream_name}
use msoffice_crypto.BinaryOffice.Records.{BiffRecord, Item, biff_records}
use msoffice_crypto.BinaryOffice.Records.Walk.{biff_records-IsWalk}
use msoffice_crypto.LegacyContainer.{CompoundFile, legacy_stream_read_cap}
use msoffice_crypto.LegacyContainer.Laws.{IsCompoundFile, plain_stream, overwrite_lem, read_lem}
use msoffice_crypto.Excel97.{
  Scheme, unmask, unmask_all, decrypt_records, clear_filepass, clear_prefix, find_filepass,
  scheme_of, decrypt_book, restored_summary, write_some, decrypt, excel_block_size,
}
use msoffice_crypto.Excel97.Restore.{
  IsInside, IsAllInside, IsWalk-IsAllInside, length-restore_all, clear_prefix_bound,
}
use msoffice_crypto.Excel97.Book.{filepass-IsKept}

length-decrypt_from : (array b : Bytes) (index : ℕ) → length (decrypt_from array b index) ≡ length b
unfolding decrypt_from
length-decrypt_from array [] index = refl
length-decrypt_from array (x ∷ b) index = ap suc (length-decrypt_from array b (suc index % 2 ^ 64))

length-unmask :
    (x : XorObfuscator) (plain : Bytes) (r : BiffRecord)
    → IsInside (length plain) r
    → length (unmask x plain r) ≡ length plain
unfolding unmask XorObfuscation.decrypt
length-unmask x plain r b =
    let start = r.start + clear_prefix r in
    let bound = clear_prefix_bound r in
    let part = range plain start r.end in
    let size = length-range plain start r.end (omega (arith, b)) in
    let new = length-decrypt_from x.array part (r.end + clear_prefix r) in
    length-copy_at plain start (decrypt_from x.array part (r.end + clear_prefix r))
      (omega (arith, b, bound, size, new))

length-unmask_all :
    (x : XorObfuscator) (plain : Bytes) (size : ℕ) (items : List Item)
    → IsAllInside size items
    → length plain ≡ size
    → length (unmask_all x plain items) ≡ size
unfolding unmask_all
length-unmask_all x plain size [] b e = e
length-unmask_all x plain size (inl f ∷ items) b e = length-unmask_all x plain size items b e
length-unmask_all x plain size (inr r ∷ items) b e =
    let once = length-unmask x plain r (rw e (b.0)) in
    length-unmask_all x (unmask x plain r) size items b.1 (once ∙ e)

length-decrypt_records :
    (c : Crypto) (scheme : Scheme) (book plain : Bytes)
    → decrypt_records c scheme book ≡ ok plain
    → length plain ≡ length book
unfolding decrypt_records
length-decrypt_records c (Scheme.xor x) book plain h =
    let size =
      length-unmask_all x book (length book) (biff_records book)
        (IsWalk-IsAllInside (biff_records-IsWalk book)) refl in
    ground (arith, size)
length-decrypt_records c (Scheme.rc4 schedule clear) book plain h =
    elim (Result-cases (decrypt_in_blocks c schedule book excel_block_size)) [
      | inr f ↦ absurd (ground arith)
      | inl (out, e) ↦
          let size = length-decrypt_in_blocks c schedule book out excel_block_size e in
          let whole =
            length-restore_all book out (biff_records book)
              (IsWalk-IsAllInside (biff_records-IsWalk book)) size in
          ground (arith, e, whole)
    ]

length-clear_filepass :
    (fp : BiffRecord) (plain : Bytes)
    → IsInside (length plain) fp
    → length (clear_filepass fp plain) ≡ length plain
unfolding clear_filepass
length-clear_filepass fp plain b =
    let two = length-replicate {A = ℕ} 2 0 in
    let zeros = length-replicate {A = ℕ} (fp.end - fp.start) 0 in
    let untyped = length-copy_at plain (fp.start - 4) (replicate 2 0) (omega (arith, b, two)) in
    length-copy_at (copy_at plain (fp.start - 4) (replicate 2 0)) fp.start
      (replicate (fp.end - fp.start) 0) (omega (arith, b, untyped, zeros))
    ∙ untyped

-- Whatever the scheme, a decrypted book is as long as the encrypted one.
pub length-decrypt_book :
    (c : Crypto) (password : List ℕ) (book plain : Bytes) (scheme : Scheme)
    → decrypt_book c password book ≡ ok (plain, scheme)
    → length plain ≡ length book
unfolding decrypt_book
length-decrypt_book c password book plain scheme h = elim (Result-cases (find_filepass book)) [
  | inr f ↦ absurd (ground arith)
  | inl (fp, e) ↦ elim (Result-cases (scheme_of c password (range book fp.start fp.end))) [
    | inr f ↦ absurd (ground arith)
    | inl (made, p) ↦ elim (Result-cases (decrypt_records c made book)) [
      | inr f ↦ absurd (ground arith)
      | inl (out, q) ↦
          let size = length-decrypt_records c made book out q in
          let inside = (filepass-IsKept book fp e).0 in
          let whole = length-clear_filepass fp out (rw size inside) in
          ground (arith, whole, size, e, p, q)
    ]
  ]
]

-- A container with a workbook stream of at most 2^30 bytes, which the password opens and whose
-- summary is not encrypted, is decrypted in place: the workbook stream becomes the decrypted book,
-- and every other stream stays.
pub decrypt_lem :
    {S : Type 0} (file : CompoundFile S) (laws : IsCompoundFile file) (c : Crypto) (s : S)
    (password : List ℕ) (book plain : Bytes) (scheme : Scheme)
    → workbook_stream_name (file.cfb s) ≡ some StreamName.workbook
    → (file.cfb s).open_stream StreamName.workbook ≡ some (plain_stream book)
    → length book ≤ legacy_stream_read_cap
    → decrypt_book c password book ≡ ok (plain, scheme)
    → restored_summary file c s scheme ≡ ok none
    → (s' : S) × (decrypt file c s password ≡ ok s')
      × ((file.cfb s').open_stream StreamName.workbook ≡ some (plain_stream plain))
      × ((other : StreamName)
          → other ≢ StreamName.workbook
          → (file.cfb s').open_stream other ≡ (file.cfb s).open_stream other)
unfolding decrypt write_some
decrypt_lem file laws c s password book plain scheme name stream fits opened summary =
    let there = read_lem file laws s StreamName.workbook book stream fits in
    let size = length-decrypt_book c password book plain scheme opened in
    let (s', w, same, others) =
      overwrite_lem file laws s StreamName.workbook plain (plain_stream book) stream (sym size) in
    (s', ground (arith, name, there, opened, summary, w), same, others)
