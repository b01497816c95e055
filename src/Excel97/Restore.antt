-- ===== src/Excel97/Restore.antt =====
-- The second walk of src/excel97.rs: the bytes of a workbook that stay in the clear.
use msoffice_crypto.Base.{
  ℕ, ◌+◌, ◌-◌, ◌≤◌, ◌<◌, ◌≡◌, refl, ap, ◌∙◌, arith, inl, inr, Bool, false, ◌&&◌, ◌||◌, ltb, leb,
  if◌then◌else◌, List, [], ◌∷◌, length, get_elem?,
}
use native.Mathlib.Decide.{dec_le}
use msoffice_crypto.Base.Bytes.{Bytes, range, copy_at}
use msoffice_crypto.Base.Slots.{
  get_elem?-range, length-range, length-copy_at, copy_at_before, copy_at_inside, copy_at_after,
}
use msoffice_crypto.BinaryOffice.Records.{BiffRecord, Item}
use msoffice_crypto.BinaryOffice.Records.Walk.{IsWalk, done, broken, step}
use msoffice_crypto.Excel97.{clear_prefix, restore, restore_all}

abbrev pub IsInside : (size : ℕ) → BiffRecord → Type 0
IsInside size r = (4 ≤ r.start) × (r.start ≤ r.end) × (r.end ≤ size)

abbrev pub IsAllInside : (size : ℕ) → List Item → Type 0
IsAllInside size [] = Unit
IsAllInside size (inl e ∷ items) = IsAllInside size items
IsAllInside size (inr r ∷ items) = IsInside size r × IsAllInside size items

pub IsWalk-IsAllInside :
    {book : Bytes} {at : ℕ} {items : List Item}
    → IsWalk book at items
    → IsAllInside (length book) items
IsWalk-IsAllInside (done l) = tt
IsWalk-IsAllInside (broken l b) = tt
IsWalk-IsAllInside (step id len l e b w) =
    ((omega arith, omega arith, omega arith), IsWalk-IsAllInside w)

-- Whether byte `j` is of a header or of a clear prefix.
unfoldable pub in_clear : List Item → (j : ℕ) → Bool
in_clear [] j = false
in_clear (inl e ∷ items) j = in_clear items j
in_clear (inr r ∷ items) j =
    (leb (r.start - 4) j && ltb j (r.start + clear_prefix r)) || in_clear items j

pub clear_prefix_bound : (r : BiffRecord) → clear_prefix r ≤ r.end - r.start
unfolding clear_prefix
clear_prefix_bound r = ground arith

module _ (book plain : Bytes) (r : BiffRecord) (b : IsInside (length book) r)
    (e : length plain ≡ length book) where
  header : Bytes
  header = range book (r.start - 4) r.start

  prefix : Bytes
  prefix = range book r.start (r.start + clear_prefix r)

  length-header : length header ≡ 4
  unfolding header
  length-header = omega (arith, length-range book (r.start - 4) r.start (omega (arith, b)), b)

  length-prefix : length prefix ≡ clear_prefix r
  unfolding prefix
  length-prefix =
      let bound = clear_prefix_bound r in
      let fits : r.start + clear_prefix r ≤ length book = omega (arith, b, bound) in
      omega (arith, length-range book r.start (r.start + clear_prefix r) fits)

  once : Bytes
  once = copy_at plain (r.start - 4) header

  header_fits : r.start - 4 + length header ≤ length plain
  header_fits = omega (arith, b, e, length-header)

  length-once : length once ≡ length plain
  unfolding once
  length-once = length-copy_at plain (r.start - 4) header header_fits

  prefix_fits : r.start + length prefix ≤ length once
  prefix_fits = omega (arith, b, e, length-prefix, length-once, clear_prefix_bound r)

  pub length-restore : length (restore book plain r) ≡ length book
  unfolding restore once header prefix
  length-restore = length-copy_at once r.start prefix prefix_fits ∙ length-once ∙ e

  -- Inside the header and the prefix a byte is the book's; outside it stays.
  pub restore_inside :
      (j : ℕ)
      → r.start - 4 ≤ j
      → j < r.start + clear_prefix r
      → get_elem? (restore book plain r) j ≡ get_elem? book j
  unfolding restore once header prefix
  restore_inside j h l = elim (dec_le r.start j) [
    | yes p ↦
        let there : r.start + (j - r.start) ≡ j = omega arith in
        copy_at_inside once r.start prefix prefix_fits j p (omega (arith, length-prefix))
        ∙ get_elem?-range book r.start (r.start + clear_prefix r) (j - r.start) (omega arith)
        ∙ ap (get_elem? book) there
    | no p ↦
        let there : r.start - 4 + (j - (r.start - 4)) ≡ j = omega arith in
        copy_at_before once r.start prefix prefix_fits j (omega arith)
        ∙ copy_at_inside plain (r.start - 4) header header_fits j h (omega (arith, length-header))
        ∙ get_elem?-range book (r.start - 4) r.start (j - (r.start - 4)) (omega arith)
        ∙ ap (get_elem? book) there
  ]

  pub restore_before :
      (j : ℕ) → j < r.start - 4 → get_elem? (restore book plain r) j ≡ get_elem? plain j
  unfolding restore once header prefix
  restore_before j h =
      copy_at_before once r.start prefix prefix_fits j (omega arith)
      ∙ copy_at_before plain (r.start - 4) header header_fits j h

  pub restore_after :
      (j : ℕ)
      → r.start + clear_prefix r ≤ j
      → get_elem? (restore book plain r) j ≡ get_elem? plain j
  unfolding restore once header prefix
  restore_after j h =
      copy_at_after once r.start prefix prefix_fits j (omega (arith, length-prefix))
      ∙ copy_at_after plain (r.start - 4) header header_fits j (omega (arith, length-header, b))

pub length-restore_all :
    (book plain : Bytes) (items : List Item)
    → IsAllInside (length book) items
    → length plain ≡ length book
    → length (restore_all book plain items) ≡ length book
unfolding restore_all
length-restore_all book plain [] b e = e
length-restore_all book plain (inl x ∷ items) b e = length-restore_all book plain items b e
length-restore_all book plain (inr r ∷ items) b e =
    length-restore_all book (restore book plain r) items b.1 (length-restore book plain r b.0 e)

-- A byte that stays in the clear is the book's; every other byte is the one that was there.
pub restore_all_lem :
    (book plain : Bytes) (items : List Item) (j : ℕ)
    → IsAllInside (length book) items
    → length plain ≡ length book
    → get_elem? (restore_all book plain items) j
      ≡ (if in_clear items j then get_elem? book j else get_elem? plain j)
unfolding restore_all in_clear
restore_all_lem book plain [] j b e = refl
restore_all_lem book plain (inl x ∷ items) j b e = restore_all_lem book plain items j b e
restore_all_lem book plain (inr r ∷ items) j b e =
    let rest =
      restore_all_lem book (restore book plain r) items j b.1 (length-restore book plain r b.0 e) in
    ground (
      arith,
      rest,
      restore_inside book plain r b.0 e j,
      restore_before book plain r b.0 e j,
      restore_after book plain r b.0 e j,
    )
