-- ===== src/PowerPoint97.antt =====
-- src/powerpoint97.rs: the decryption of a presentation.
pub mod Pictures
use msoffice_crypto.Base.{
  ℕ, zero, suc, ◌+◌, ◌-◌, min, Bool, true, false, not, leb, ltb, ◌==◌, if◌then◌else◌, Option, none,
  some, List, [], ◌∷◌, ◌++◌, length, replicate, map,
}
use msoffice_crypto.Base.Bytes.{Bytes, range, copy_at, to_le_bytes}
use msoffice_crypto.FileParams.{FileField, FileProblem, Bound}
use msoffice_crypto.Error.{Error, Result, ok, err, ◌>>=◌, ◌>>◌, reject_if, ok_or, bad}
use msoffice_crypto.Hash.{Crypto}
use msoffice_crypto.Integrity.{ct_eq}
use msoffice_crypto.Rc4.{BlockKeySchedule, decrypt_with_block}
use msoffice_crypto.Rc4Cryptoapi.{
  CryptoApiHeader, parse_cryptoapi, new_cryptoapi, cryptoapi_block_key, verify_cryptoapi,
  doc_props_in_the_clear,
}
use msoffice_crypto.BinaryOffice.{StreamName}
use msoffice_crypto.BinaryOffice.Persist.{
  UserEditAtom, user_edit_atom, Directory, persist_directory, lookup, record_header,
  crypt_session_container, current_edit_offset, user_edit_atom_len_plain,
}
use msoffice_crypto.LegacyContainer.{CompoundFile, exists, read, overwrite}
use msoffice_crypto.EncryptedSummary.{RestoredSummary, decrypt_summary, write_summary}
use msoffice_crypto.PowerPoint97.Pictures.{decrypt_pictures}

abbrev pub header_token_plain : ℕ
header_token_plain = 0xE391C05F

-- Where the edit atom leads: the directory, and the session container in it.
pub record Session : Type 0 where
  pub edit_offset : ℕ
  pub directory_offset : ℕ
  pub directory : Directory
  pub session_offset : ℕ
  pub session_len : ℕ
  pub structure : Bytes

abbrev rec_len_at : Bytes → ℕ → ℕ
rec_len_at doc at = elim (record_header doc at) [ none ↦ 0 | some rh ↦ rh.rec_len ]

-- The walk from the current edit to the encryption header.
unfoldable pub find_session : (current_user doc : Bytes) → Result Session
find_session current_user doc = do
  edit_offset ←
      ok_or (current_edit_offset current_user)
        (Error.missing_stream "Current User stream shorter than its atom")
  atom ←
      ok_or (user_edit_atom doc edit_offset)
        (bad FileField.user_edit_atom (FileProblem.unreadable edit_offset))
  reject_if (atom.rec_len == user_edit_atom_len_plain) Error.not_encrypted
  reject_if (not (atom.offset_last_edit == 0)) (
      bad FileField.offset_last_edit
        (FileProblem.not_required_value atom.offset_last_edit 0 Bound.spec))
  directory ←
      ok_or (persist_directory doc atom.offset_persist_directory)
        (bad FileField.persist_directory (FileProblem.unreadable atom.offset_persist_directory))
  session_id ←
      ok_or atom.encrypt_session_persist_id_ref
        (bad FileField.encrypt_session_persist_id_ref FileProblem.missing)
  session_offset ←
      ok_or (lookup session_id directory)
        (bad FileField.encrypt_session_persist_id_ref (FileProblem.unrecognized session_id))
  structure ←
      ok_or (crypt_session_container doc session_offset)
        (bad FileField.crypt_session10_container (FileProblem.unreadable session_offset))
  ok (record {
    edit_offset = edit_offset;
    directory_offset = atom.offset_persist_directory;
    directory = directory;
    session_offset = session_offset;
    session_len = rec_len_at doc session_offset;
    structure = structure;
  })

-- `for (&id, &offset) in &directory`: every object lies before the directory.
unfoldable pub checked_objects : (directory_offset : ℕ) → Directory → Result Directory
checked_objects directory_offset [] = ok []
checked_objects directory_offset ((id, offset) ∷ rest) = do
  reject_if (leb directory_offset offset) (
      bad FileField.persist_object
        (FileProblem.out_of_range offset 0 (directory_offset - 1) Bound.spec))
  others ← checked_objects directory_offset rest
  ok ((id, offset) ∷ others)

-- `sort_by_key(|&(_, offset)| offset)`, which keeps the order of equal offsets.
unfoldable pub place : (id offset : ℕ) → Directory → Directory
place id offset [] = (id, offset) ∷ []
place id offset ((k, v) ∷ rest) =
    let later = place id offset rest in
    if leb offset v then (id, offset) ∷ (k, v) ∷ rest else (k, v) ∷ later

unfoldable pub sort_by_offset : Directory → Directory
sort_by_offset [] = []
sort_by_offset ((id, offset) ∷ rest) = place id offset (sort_by_offset rest)

-- The end of an object: the offset of the next one, or that of the directory.
unfoldable pub end_before : (directory_offset : ℕ) → Directory → ℕ
end_before directory_offset [] = directory_offset
end_before directory_offset ((id, offset) ∷ rest) = offset

module _ (c : Crypto) (schedule : BlockKeySchedule) (session_offset session_len : ℕ)
    (directory_offset : ℕ) where
  -- One turn of the loop over the objects, which changes `plain` between `offset` and `end`.
  unfoldable pub decrypt_object : (id offset end : ℕ) → (plain : Bytes) → Result Bytes
  decrypt_object id offset end plain =
      if offset == session_offset
      then ok (
          copy_at plain offset
            (replicate (min (offset + (8 + session_len)) (length plain) - offset) 0))
      else if leb end offset
      then ok plain
      else decrypt_with_block c schedule (range plain offset end) id >>= λ object.
          ok (copy_at plain offset object)

  unfoldable pub decrypt_objects : (objects : Directory) → (plain : Bytes) → Result Bytes
  decrypt_objects [] plain = ok plain
  decrypt_objects ((id, offset) ∷ rest) plain = do
    plain' ← decrypt_object id offset (end_before directory_offset rest) plain
    decrypt_objects rest plain'

-- The edit atom of a presentation that is not encrypted.
unfoldable pub clear_edit_atom : (edit_offset : ℕ) → Bytes → Bytes
clear_edit_atom edit_offset plain =
    copy_at (copy_at plain (edit_offset + 4) (to_le_bytes 4 user_edit_atom_len_plain))
      (edit_offset + (8 + 0x1C)) (replicate 4 0)

-- `headerToken`, where the stream is long enough to have it.
unfoldable pub plain_current_user : Bytes → Bytes
plain_current_user current_user =
    if leb (12 + 4) (length current_user)
    then copy_at current_user 12 (to_le_bytes 4 header_token_plain)
    else current_user

unfoldable pub decrypt_document : Crypto → BlockKeySchedule → Session → (doc : Bytes) → Result Bytes
decrypt_document c schedule session doc = do
  objects ← checked_objects session.directory_offset session.directory
  plain ←
      decrypt_objects c schedule session.session_offset session.session_len session.directory_offset
        (sort_by_offset objects) doc
  ok (clear_edit_atom session.edit_offset plain)

module _ {S : Type 0} (file : CompoundFile S) (c : Crypto) where
  unfoldable pub plain_pictures : S → BlockKeySchedule → Result (Option Bytes)
  plain_pictures s schedule =
      if exists file s StreamName.pictures
      then (read file s StreamName.pictures >>= λ pictures.
          decrypt_pictures c schedule pictures >>= λ plain. ok (some plain))
      else ok none

  unfoldable pub plain_summary :
      (in_the_clear : Bool) → S → BlockKeySchedule → Result (Option RestoredSummary)
  plain_summary true s schedule = ok none
  plain_summary false s schedule = do
    summary ← decrypt_summary file c s schedule StreamName.encrypted_summary
    ok (some summary)

  unfoldable pub overwrite_changed : S → (old new : Bytes) → Result S
  overwrite_changed s old new =
      if ct_eq new old then ok s else overwrite file s StreamName.current_user new

  unfoldable pub overwrite_pictures : S → Option Bytes → Result S
  overwrite_pictures s none = ok s
  overwrite_pictures s (some plain) = overwrite file s StreamName.pictures plain

  unfoldable pub write_plain_summary : S → Option RestoredSummary → Result S
  write_plain_summary s none = ok s
  write_plain_summary s (some summary) = write_summary file s summary

  -- `decrypt`: nothing is written before everything is decrypted.
  unfoldable pub decrypt : S → (password : List ℕ) → Result S
  decrypt s password = do
    current_user ← read file s StreamName.current_user
    doc ← read file s StreamName.power_point_document
    session ← find_session current_user doc
    header ← parse_cryptoapi session.structure
    made ← new_cryptoapi c password header.salt header.key_bits
    verify_cryptoapi c made header
    let schedule = cryptoapi_block_key c made
    pictures ← plain_pictures s schedule
    summary ← plain_summary (doc_props_in_the_clear header) s schedule
    plain ← decrypt_document c schedule session doc
    s1 ← overwrite file s StreamName.power_point_document plain
    s2 ← overwrite_changed s1 current_user (plain_current_user current_user)
    s3 ← overwrite_pictures s2 pictures
    write_plain_summary s3 summary
