-- ===== src/Excel97/Find.antt =====
-- The first walk of src/excel97.rs and `scan_for_filepass` of src/binary_office.rs: two readers of
-- the same records.
use msoffice_crypto.Base.{
  ℕ, zero, suc, ◌+◌, ◌≤◌, ◌<◌, ◌≡◌, ◌↔◌, refl, sym, ap, ◌∙◌, arith, inl, inr, not, ◌==◌,
  if◌then◌else◌, none, some, Bool-cases, List, [], ◌∷◌, length,
}
use msoffice_crypto.Base.Bytes.{Bytes}
use msoffice_crypto.Error.{ok, Result-cases}
use msoffice_crypto.BinaryOffice.{le16}
use msoffice_crypto.Base.Slots.{get_outside}
use msoffice_crypto.BinaryOffice.Records.{
  BiffRecord, Item, record_at, biff_records, never_encrypted, biff_filepass, FilePassScan,
  scan_from, scan_for_filepass,
}
use msoffice_crypto.BinaryOffice.Records.Walk.{
  IsWalk, done, broken, step, IsClean, biff_records-IsWalk,
}
use msoffice_crypto.Excel97.{Seen, see, see_all, unseen, or_first, find_filepass}

-- The scan, on records that are read already.
scan_items : List Item → FilePassScan
scan_items [] = FilePassScan.unreadable
scan_items (inl e ∷ items) = FilePassScan.unreadable
scan_items (inr r ∷ items) =
    if r.id == biff_filepass
    then FilePassScan.found r
    else if not (never_encrypted r.id)
    then FilePassScan.proven_absent
    else scan_items items

past_end : (book : Bytes) (at : ℕ) → length book ≤ at → record_at book at ≡ none
unfolding record_at le16
past_end book at l = ground (arith, get_outside book at l)

scan_from_lem :
    {book : Bytes} (fuel : ℕ) {at : ℕ} {items : List Item}
    → IsWalk book at items
    → IsClean items
    → length book < at + fuel
    → scan_from fuel book at ≡ scan_items items
unfolding scan_from scan_items
scan_from_lem zero (done l) c h = refl
scan_from_lem zero (broken l b) c h = absurd c
scan_from_lem zero (step id len l e b w) c h = absurd (omega arith)
scan_from_lem {book} (suc fuel) (done {at} l) c h = ground (arith, past_end book at l)
scan_from_lem (suc fuel) (broken l b) c h = absurd c
scan_from_lem {book} (suc fuel) (step {at} {items} id len l e b w) c h =
    let rest = scan_from_lem fuel w c (omega arith) in ground (arith, e, b, rest)

-- The walk of an open book that has been seen to a point.
settled : Seen → List Item → Seen
settled seen [] = seen
settled seen (inl e ∷ items) = settled seen items
settled seen (inr r ∷ items) = settled (see seen r) items

see_all_lem :
    (seen : Seen) (items : List Item) → IsClean items → see_all seen items ≡ ok (settled seen items)
unfolding see_all settled
see_all_lem seen [] c = refl
see_all_lem seen (inl e ∷ items) c = absurd c
see_all_lem seen (inr r ∷ items) c = see_all_lem (see seen r) items c

see_all-IsClean :
    (seen last : Seen) (items : List Item) → see_all seen items ≡ ok last → IsClean items
unfolding see_all
see_all-IsClean seen last [] e = tt
see_all-IsClean seen last (inl x ∷ items) e = absurd cc
see_all-IsClean seen last (inr r ∷ items) e = see_all-IsClean (see seen r) last items e

pub find_filepass-IsClean :
    (book : Bytes) (r : BiffRecord) → find_filepass book ≡ ok r → IsClean (biff_records book)
unfolding find_filepass
find_filepass-IsClean book r e = elim (Result-cases (see_all unseen (biff_records book))) [
  | inl (last, p) ↦ see_all-IsClean unseen last (biff_records book) p
  | inr f ↦ absurd (ground arith)
]

-- Once `FILEPASS` is found, the rest of the walk changes neither it nor what came out of order.
settled_found :
    (seen : Seen) (r : BiffRecord) (items : List Item)
    → seen.filepass_record ≡ some r
    → ((settled seen items).filepass_record ≡ some r)
      × ((settled seen items).out_of_order ≡ seen.out_of_order)
unfolding settled see
settled_found seen r [] f = (f, refl)
settled_found seen r (inl e ∷ items) f = settled_found seen r items f
settled_found seen r (inr q ∷ items) f =
    ground
      (arith, f, settled_found (record seen { first_id = or_first seen.first_id q.id }) r items f)

-- A record out of order is remembered.
settled_out :
    (seen : Seen) (k : ℕ) (items : List Item)
    → seen.out_of_order ≡ some k
    → (settled seen items).out_of_order ≡ some k
unfolding settled see
settled_out seen k [] o = o
settled_out seen k (inl e ∷ items) o = settled_out seen k items o
settled_out seen k (inr q ∷ items) o =
    let next : (see seen q).out_of_order ≡ some k = ground (arith, o) in
    settled_out (see seen q) k items next

-- From where nothing is found and nothing is out of order.
settled_scan :
    (seen : Seen) (items : List Item) (r : BiffRecord)
    → IsClean items
    → seen.filepass_record ≡ none
    → seen.out_of_order ≡ none
    → (((settled seen items).filepass_record ≡ some r) × ((settled seen items).out_of_order ≡ none))
      ↔ (scan_items items ≡ FilePassScan.found r)
unfolding settled scan_items see
settled_scan seen [] r c f o = (λ h. absurd cc, λ h. absurd cc)
settled_scan seen (inl e ∷ items) r c f o = absurd c
settled_scan seen (inr q ∷ items) r c f o = elim (Bool-cases (q.id == biff_filepass)) [
  | inl p ↦
      let found = settled_found (see seen q) q items (ground (arith, f, p)) in
      let out : (see seen q).out_of_order ≡ none = ground (arith, f, o, p) in
      let same : scan_items (inr q ∷ items) ≡ FilePassScan.found r → q ≡ r =
        λ h. ground (arith, p, h) in
      (λ h. ground (arith, found, p, h), λ h. (found.0 ∙ ap some (same h), found.1 ∙ out))
  | inr p ↦ elim (Bool-cases (never_encrypted q.id)) [
    | inl n ↦
        let f' : (see seen q).filepass_record ≡ none = ground (arith, f, p, n) in
        let o' : (see seen q).out_of_order ≡ none = ground (arith, f, o, p, n) in
        let (front, back) = settled_scan (see seen q) items r c f' o' in
        (λ h. ground (arith, front h, p, n), λ h. back (ground (arith, p, n)))
    | inr n ↦
        let out = settled_out (see seen q) q.id items (ground (arith, f, o, p, n)) in
        (λ h. absurd cc, λ h. absurd (ground (arith, p, n)))
  ]
]

-- The first id stays the first.
settled_first :
    (seen : Seen) (k : ℕ) (items : List Item)
    → seen.first_id ≡ some k
    → (settled seen items).first_id ≡ some k
unfolding settled see
settled_first seen k [] e = e
settled_first seen k (inl x ∷ items) e = settled_first seen k items e
settled_first seen k (inr q ∷ items) e =
    let next : (see seen q).first_id ≡ some k = ground (arith, e) in
    settled_first (see seen q) k items next

-- The walk's first id is the one that the scan looks at.
first_lem :
    {book : Bytes} {at : ℕ} {items : List Item}
    → IsWalk book at items
    → IsClean items
    → (settled unseen items).first_id ≡ le16 book at
unfolding settled see
first_lem {book} (done {at} l) c = unfold le16 in ground (arith, get_outside book at l)
first_lem (broken l b) c = absurd c
first_lem (step {at} {items} id len l e b w) c =
    let r : BiffRecord = record { id = id; start = at + 4; end = at + 4 + len } in
    let first : (see unseen r).first_id ≡ some id = ground arith in
    settled_first (see unseen r) id items first ∙ sym (unfold record_at in ground (arith, e))

module _ (book : Bytes) (r : BiffRecord) (c : IsClean (biff_records book)) where
  items : List Item
  items = biff_records book

  clean_lem : (find_filepass book ≡ ok r) ↔ (scan_for_filepass book ≡ FilePassScan.found r)
  unfolding find_filepass scan_for_filepass items
  clean_lem =
      let seen = see_all_lem unseen items c in
      let first = first_lem (biff_records-IsWalk book) c in
      let scan = scan_from_lem (suc (length book)) (biff_records-IsWalk book) c (omega arith) in
      let (front, back) = settled_scan unseen items r c refl refl in
      (λ h. ground (arith, seen, first, scan, front), λ h. ground (arith, seen, first, scan, back))

-- `decrypt` finds a `FILEPASS` record exactly when the scan that classifies a workbook finds it and
-- every record of the stream can be read.
pub find_filepass_iff :
    (book : Bytes) (r : BiffRecord)
    → (find_filepass book ≡ ok r)
      ↔ ((scan_for_filepass book ≡ FilePassScan.found r) × IsClean (biff_records book))
find_filepass_iff book r = (
  λ h. let c = find_filepass-IsClean book r h in ((clean_lem book r c).0 h, c),
  λ h. (clean_lem book r h.1).1 h.0,
)
