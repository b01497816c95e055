-- ===== src/BinaryOffice/Persist.antt =====
-- The PowerPoint structures of src/binary_office.rs, read at offsets of the document in memory.
pub mod Directory
pub mod Run
pub mod Loop
use msoffice_crypto.Base.{
  ℕ, zero, suc, ◌+◌, ◌*◌, ◌/◌, ◌%◌, ◌^◌, Bool, true, false, not, ◌&&◌, ◌||◌, ltb, leb, ◌==◌,
  if◌then◌else◌, Option, none, some, and_then, List, [], ◌∷◌, length,
}
use msoffice_crypto.Base.Bytes.{Bytes, slice, checked_add}
use msoffice_crypto.BinaryOffice.{le16, le32}

abbrev pub rt_user_edit_atom : ℕ
rt_user_edit_atom = 0x0FF5

abbrev pub rt_persist_directory_atom : ℕ
rt_persist_directory_atom = 0x1772

abbrev pub rt_crypt_session10_container : ℕ
rt_crypt_session10_container = 0x2F14

abbrev pub user_edit_atom_len_plain : ℕ
user_edit_atom_len_plain = 0x1C

abbrev pub user_edit_atom_len_encrypted : ℕ
user_edit_atom_len_encrypted = 0x20

abbrev pub record_header_len : ℕ
record_header_len = 8

abbrev pub ppt_persist_objects_max : ℕ
ppt_persist_objects_max = 2 ^ 20

abbrev pub ppt_persist_directory_read_cap : ℕ
ppt_persist_directory_read_cap = ppt_persist_objects_max * 8

abbrev pub encryption_header_structure_max : ℕ
encryption_header_structure_max = 12 + 1024 + 60

-- `ReadAt::read_at`.
unfoldable pub read_at : Bytes → (at len : ℕ) → Option Bytes
read_at src at len = slice src at len

pub record RecordHeader : Type 0 where
  pub ver_instance : ℕ
  pub rec_type : ℕ
  pub rec_len : ℕ

-- `ver_instance & 0x000F`.
unfoldable pub rec_ver : RecordHeader → ℕ
rec_ver rh = rh.ver_instance % 16

unfoldable pub record_header : Bytes → (at : ℕ) → Option RecordHeader
record_header src at = and_then (read_at src at record_header_len) λ b.
    and_then (le16 b 0) λ ver_instance. and_then (le16 b 2) λ rec_type.
      and_then (le32 b 4) λ rec_len.
        some (record { ver_instance = ver_instance; rec_type = rec_type; rec_len = rec_len })

unfoldable pub current_edit_offset : Bytes → Option ℕ
current_edit_offset current_user = le32 current_user 16

pub record UserEditAtom : Type 0 where
  pub rec_len : ℕ
  pub offset_last_edit : ℕ
  pub offset_persist_directory : ℕ
  pub encrypt_session_persist_id_ref : Option ℕ

-- The last field, which the longer atom has.
abbrev session_ref : (rec_len : ℕ) → Bytes → Option (Option ℕ)
session_ref rec_len body =
    if rec_len == user_edit_atom_len_encrypted
    then and_then (le32 body 0x1C) (λ id. some (some id))
    else some none

unfoldable pub user_edit_atom : Bytes → (at : ℕ) → Option UserEditAtom
user_edit_atom src at = and_then (record_header src at) λ rh.
    if not (rh.ver_instance == 0) || not (rh.rec_type == rt_user_edit_atom)
    then none
    else if not (rh.rec_len == user_edit_atom_len_plain)
        && not (rh.rec_len == user_edit_atom_len_encrypted)
    then none
    else and_then (checked_add at record_header_len) λ body_at.
      and_then (read_at src body_at rh.rec_len) λ body. and_then (le32 body 8) λ last.
        and_then (le32 body 12) λ directory. and_then (session_ref rh.rec_len body) λ session.
          some (record {
            rec_len = rh.rec_len;
            offset_last_edit = last;
            offset_persist_directory = directory;
            encrypt_session_persist_id_ref = session;
          })

-- A `BTreeMap<u32, u32>`, as its pairs in the order of their keys.
abbrev pub Directory : Type 0
Directory = List (ℕ × ℕ)

unfoldable pub insert : ℕ → ℕ → Directory → Directory
insert id offset [] = (id, offset) ∷ []
insert id offset ((k, v) ∷ rest) =
    let later = insert id offset rest in
    if ltb id k
    then (id, offset) ∷ (k, v) ∷ rest
    else if id == k
    then (id, offset) ∷ rest
    else (k, v) ∷ later

unfoldable pub lookup : ℕ → Directory → Option ℕ
lookup id [] = none
lookup id ((k, v) ∷ rest) = let later = lookup id rest in if id == k then some v else later

-- `for i in 0..count`: the offsets at `pos` go to the identifiers from `id` on.
unfoldable pub insert_run :
    (count : ℕ) → (entries : Bytes) → (id pos : ℕ) → Directory → Option Directory
insert_run zero entries id pos directory = some directory
insert_run (suc count) entries id pos directory = and_then (le32 entries pos) λ offset.
    if leb (2 ^ 32) id
    then none
    else insert_run count entries (suc id) (pos + 4) (insert id offset directory)

-- `while pos < entries.len()`.
unfoldable pub directory_from :
    ℕ → (entries : Bytes) → (objects pos : ℕ) → Directory → Option Directory
directory_from zero entries objects pos directory = none
directory_from (suc fuel) entries objects pos directory =
    if leb (length entries) pos
    then some directory
    else and_then (le32 entries pos) λ word.
      let first_id = word % 2 ^ 20 in
      let count = word / 2 ^ 20 in
      if count == 0
      then none
      else if ltb ppt_persist_objects_max (objects + count)
      then none
      else and_then (insert_run count entries first_id (pos + 4) directory) λ directory'.
        directory_from fuel entries (objects + count) (pos + 4 + 4 * count) directory'

unfoldable pub persist_directory : Bytes → (at : ℕ) → Option Directory
persist_directory src at = and_then (record_header src at) λ rh.
    if not (rh.ver_instance == 0) || not (rh.rec_type == rt_persist_directory_atom)
    then none
    else if ltb ppt_persist_directory_read_cap rh.rec_len
    then none
    else and_then (checked_add at record_header_len) λ body_at.
      and_then (read_at src body_at rh.rec_len)
        λ entries. directory_from (suc (length entries)) entries 0 0 []

unfoldable pub crypt_session_container : Bytes → (at : ℕ) → Option Bytes
crypt_session_container src at = and_then (record_header src at) λ rh.
    if not (rec_ver rh == 0xF) || not (rh.rec_type == rt_crypt_session10_container)
    then none
    else if ltb encryption_header_structure_max rh.rec_len
    then none
    else and_then (checked_add at record_header_len) λ body_at. read_at src body_at rh.rec_len

unfoldable pub presentation_encryption_header : Bytes → UserEditAtom → Option Bytes
presentation_encryption_header src atom = and_then atom.encrypt_session_persist_id_ref λ id.
    and_then (persist_directory src atom.offset_persist_directory)
      λ directory. and_then (lookup id directory) λ offset. crypt_session_container src offset
