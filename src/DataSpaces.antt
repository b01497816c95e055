-- ===== src/DataSpaces.antt =====
-- src/data_space_map.rs: the rights management that a container declares. A name is the list of its
-- UTF-16 units; a unit that is no character is in none of the names that are looked for.
pub mod Streams
pub mod Written
use msoffice_crypto.Base.{
  ℕ, zero, suc, ◌+◌, ◌-◌, ◌*◌, ◌%◌, Bool, false, not, ◌||◌, ltb, ◌==◌, if◌then◌else◌, Option, none,
  some, and_then, List, [], ◌∷◌, length,
}
use msoffice_crypto.Base.Bytes.{Bytes, slice, checked_add}
use msoffice_crypto.Error.{ok, err}
use msoffice_crypto.Reader.{read_capped}
use msoffice_crypto.Integrity.{ct_eq}
use msoffice_crypto.BinaryOffice.{Cfb, StreamName, le32}

abbrev pub data_space_map_read_cap : ℕ
data_space_map_read_cap = 4096

abbrev pub header_length : ℕ
header_length = 8

abbrev pub entry_fixed_len : ℕ
entry_fixed_len = 8

-- "DRMEncryptedDataSpace".
abbrev pub ecma376_data_space : List ℕ
ecma376_data_space =
    0x44 ∷ 0x52 ∷ 0x4D ∷ 0x45 ∷ 0x6E ∷ 0x63 ∷ 0x72 ∷ 0x79 ∷ 0x70 ∷ 0x74 ∷ 0x65 ∷ 0x64 ∷ 0x44 ∷ 0x61
    ∷ 0x74 ∷ 0x61 ∷ 0x53 ∷ 0x70 ∷ 0x61 ∷ 0x63 ∷ 0x65 ∷ []

-- "DRMDataSpace".
abbrev pub drm_data_space : List ℕ
drm_data_space =
    0x44 ∷ 0x52 ∷ 0x4D ∷ 0x44 ∷ 0x61 ∷ 0x74 ∷ 0x61 ∷ 0x53 ∷ 0x70 ∷ 0x61 ∷ 0x63 ∷ 0x65 ∷ []

pub data RightsManagement : Type 0 where
  ecma376 binary : RightsManagement

-- Little-endian pairs.
unfoldable pub units_of : Bytes → List ℕ
units_of [] = []
units_of (b ∷ []) = []
units_of (b ∷ b' ∷ rest) = (b + 256 * b') ∷ units_of rest

-- `lp_p4`: the string at `at`, inside `end`, and the position behind its padding.
unfoldable pub lp_p4 : Bytes → (at end : ℕ) → Option (List ℕ × ℕ)
lp_p4 b at end = and_then (le32 b at) λ len. and_then (checked_add at 4) λ start.
    and_then (checked_add start len) λ stop.
      if not (len % 2 == 0) || ltb end stop
      then none
      else and_then (slice b start len)
          λ text. and_then (checked_add stop ((4 - len % 4) % 4)) λ next. some (units_of text, next)

-- `for _ in 0..components`: past the reference components of an entry, each a type and a name.
unfoldable pub past_components : (components : ℕ) → Bytes → (p end : ℕ) → Option ℕ
past_components zero map' p end = some p
past_components (suc components) map' p end =
    and_then (checked_add p 4)
      λ q. and_then (lp_p4 map' q end) λ (text, next'). past_components components map' next' end

-- The entry at `at`: its name, and where it ends.
unfoldable pub entry_at : Bytes → (at : ℕ) → Option (List ℕ × ℕ)
entry_at map' at = and_then (le32 map' at) λ entry_len. and_then (checked_add at entry_len) λ end.
    if ltb (length map') end
    then none
    else and_then (le32 map' (at + 4)) λ components.
      and_then (past_components components map' (at + entry_fixed_len) end)
        λ p. and_then (lp_p4 map' p end) λ (name, next'). some (name, end)

-- `for _ in 0..count`, which stops at the first entry that is cut short.
unfoldable pub names_from : (count : ℕ) → Bytes → (at : ℕ) → List (List ℕ)
names_from zero map' at = []
names_from (suc count) map' at = elim (entry_at map' at) [
  | none ↦ []
  | some entry ↦ entry.0 ∷ names_from count map' (entry.1)
]

unfoldable pub data_space_names : Bytes → List (List ℕ)
data_space_names map' = elim (le32 map' 0) [
  | none ↦ []
  | some header ↦
      if not (header == header_length)
      then []
      else elim (le32 map' 4) [ none ↦ [] | some count ↦ names_from count map' header_length ]
]

unfoldable pub any_is : List ℕ → List (List ℕ) → Bool
any_is name [] = false
any_is name (n ∷ names) = ct_eq n name || any_is name names

-- The names of the map, where it can be read whole.
unfoldable pub names_in : Cfb → List (List ℕ)
names_in cfb = elim (cfb.open_stream StreamName.data_space_map) [
  | none ↦ []
  | some stream ↦ elim (read_capped stream data_space_map_read_cap "DataSpaceMap") [
    | err problem ↦ []
    | ok map' ↦ data_space_names map'
  ]
]

unfoldable pub rights_management_in : Cfb → Option RightsManagement
rights_management_in cfb =
    let names = names_in cfb in
    if any_is ecma376_data_space names
    then some ecma376
    else if any_is (9 ∷ drm_data_space) names
        || any_is (9 ∷ 0x4C ∷ 0x5A ∷ 0x58 ∷ drm_data_space) names
        || cfb.is_stream StreamName.drm_content
    then some binary
    else none
