-- ===== src/BinaryOffice/Records.antt =====
-- The BIFF records of src/binary_office.rs: the strict walk that `BiffRecords` iterates, and the
-- scan towards `FILEPASS`.
pub mod Walk
pub mod Written
use msoffice_crypto.Base.{
  ℕ, zero, suc, ◌+◌, ◌≤◌, ◌<◌, min, Bool, true, false, not, ◌&&◌, ◌||◌, leb, ltb, ◌==◌,
  if◌then◌else◌, Option, none, some, List, [], ◌∷◌, length, ◌⊎◌, inl, inr,
}
use msoffice_crypto.Base.Bytes.{Bytes}
use msoffice_crypto.BinaryOffice.{le16}

abbrev pub biff_bof : ℕ
biff_bof = 0x0809

abbrev pub biff_filepass : ℕ
biff_filepass = 0x002F

abbrev pub biff_boundsheet8 : ℕ
biff_boundsheet8 = 0x0085

-- `BIFF_NEVER_ENCRYPTED.contains(&id)`.
unfoldable pub never_encrypted : ℕ → Bool
never_encrypted id =
    id == biff_bof
    || id == biff_filepass
    || id == 0x00E1
    || id == 0x0138
    || id == 0x0194
    || id == 0x0195
    || id == 0x0196

-- The body is the range from `start` to `end`, without `end`.
pub record BiffRecord : Type 0 where
  pub id : ℕ
  pub start : ℕ
  pub end : ℕ

pub record BiffWalkError : Type 0 where
  pub at : ℕ

abbrev pub Item : Type 0
Item = BiffWalkError ⊎ BiffRecord

-- `BiffRecords`, over the book that the functions take.
pub record BiffRecords : Type 0 where
  pub pos : ℕ
  pub failed : Bool

-- The id and the length of a record's header at `at`.
unfoldable pub record_at : Bytes → ℕ → Option (ℕ × ℕ)
unfolding le16
record_at book at = elim (le16 book at) [
  | none ↦ none
  | some id ↦ elim (le16 book (at + 2)) [ none ↦ none | some len ↦ some (id, len) ]
]

-- What `next` makes of that header.
unfoldable pub item_at : Bytes → ℕ → Option (ℕ × ℕ) → Item × BiffRecords
item_at book at none = (inl (record { at = at }), record { pos = at; failed = true })
item_at book at (some (id, len)) =
    let start = at + 4 in
    let end = start + len in
    if ltb (length book) end
    then (inl (record { at = at }), record { pos = at; failed = true })
    else (inr (record { id = id; start = start; end = end }), record { pos = end; failed = false })

-- `Iterator::next` of `BiffRecords`.
unfoldable pub next : Bytes → BiffRecords → Option (Item × BiffRecords)
unfolding record_at item_at
next book s =
    if s.failed || leb (length book) s.pos
    then none
    else some (item_at book s.pos (record_at book s.pos))

-- The items of the iterator, until it answers `None`.
unfoldable pub drain : ℕ → Bytes → BiffRecords → List Item
unfolding next
drain zero book s = []
drain (suc fuel) book s = elim (next book s) [
  | none ↦ []
  | some answer ↦ answer.0 ∷ drain fuel book (answer.1)
]

-- `for record in biff_records(book)`.
unfoldable pub biff_records : Bytes → List Item
unfolding drain
biff_records book = drain (suc (length book)) book (record { pos = 0; failed = false })

pub data FilePassScan : Type 0 where
  found : BiffRecord → FilePassScan
  proven_absent unreadable : FilePassScan

-- The loop of `scan_for_filepass` from `pos` on.
unfoldable pub scan_from : ℕ → Bytes → (pos : ℕ) → FilePassScan
unfolding record_at never_encrypted
scan_from zero book pos = unreadable
scan_from (suc fuel) book pos = elim (record_at book pos) [
  | none ↦ unreadable
  | some header ↦
      let (id, len) = header in
      let start = pos + 4 in
      let end = start + len in
      let rest = scan_from fuel book end in
      if id == biff_filepass
      then found (record { id = id; start = start; end = min end (length book) })
      else if not (never_encrypted id)
      then proven_absent
      else if ltb (length book) end
      then unreadable
      else rest
]

unfoldable pub scan_for_filepass : Bytes → FilePassScan
unfolding scan_from
scan_for_filepass book = elim (le16 book 0) [
  | none ↦ unreadable
  | some id ↦ if not (id == biff_bof) then unreadable else scan_from (suc (length book)) book 0
]
