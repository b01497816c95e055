-- ===== src/PowerPoint97/Pictures.antt =====
-- `decrypt_pictures` of src/powerpoint97.rs. The numbers of a record header are below 2^32.
pub mod RoundTrip
use msoffice_crypto.Base.{
  ℕ, zero, suc, ◌+◌, ◌-◌, ◌*◌, ◌/◌, ◌%◌, Bool, true, false, not, ◌&&◌, ◌||◌, leb, ltb, ◌==◌,
  if◌then◌else◌, Option, none, some, and_then, List, [], ◌∷◌, ◌++◌, length, take, drop,
}
use msoffice_crypto.Base.Bytes.{Bytes, slice}
use msoffice_crypto.FileParams.{FileField, FileProblem, Invariant, AllowedSet, Bound}
use msoffice_crypto.Error.{Error, Result, ok, err, ◌>>=◌, ◌>>◌, reject_if, ok_or, bad}
use msoffice_crypto.Hash.{Crypto}
use msoffice_crypto.Rc4.{BlockKeySchedule, decrypt_with_block}
use msoffice_crypto.BinaryOffice.{le16, le32}

abbrev pub uid_len : ℕ
uid_len = 16

abbrev pub rt_fbse : ℕ
rt_fbse = 0xF007

-- The two instances of a blip type, less the low bit, and the length of its trailer.
unfoldable pub blip_kind : (rec_type : ℕ) → Option (ℕ × ℕ × ℕ)
blip_kind rec_type =
    if rec_type == 0xF01A
    then some (0x3D4, 0x3D4, 34)
    else if rec_type == 0xF01B
    then some (0x216, 0x216, 34)
    else if rec_type == 0xF01C
    then some (0x542, 0x542, 34)
    else if rec_type == 0xF01D
    then some (0x46A, 0x6E2, 1)
    else if rec_type == 0xF01E
    then some (0x6E0, 0x6E0, 1)
    else if rec_type == 0xF01F
    then some (0x7A8, 0x7A8, 1)
    else if rec_type == 0xF029
    then some (0x6E4, 0x6E4, 1)
    else none

-- The refusal of a type that is none of these.
unfoldable pub other_blip : (rec_type : ℕ) → Error
other_blip rec_type =
    if leb 0xF018 rec_type && leb rec_type 0xF117
    then Error.unsupported_encrypted_content
        "a Pictures record of a blip type [MS-ODRAW] does not define"
    else bad FileField.pictures_record
        (FileProblem.not_in_set rec_type AllowedSet.pictures_record_types Bound.spec)

-- `blip_fields`: the lengths of the fields that are decrypted one by one. `rec_ver` is the low four
-- bits, and the instance the other twelve.
unfoldable pub blip_fields : (rec_type ver_instance : ℕ) → Result (List ℕ)
blip_fields rec_type ver_instance = do
  let instance' = ver_instance / 16
  reject_if (rec_type == rt_fbse) (
      Error.unsupported_encrypted_content
        "a file-block entry (OfficeArtFBSE) in the Pictures stream")
  (one, two, trailer) ← ok_or (blip_kind rec_type) (other_blip rec_type)
  let even = instance' / 2 * 2
  reject_if (not (ver_instance % 16 == 0) || not (even == one || even == two))
      (bad FileField.pictures_record (FileProblem.unrecognized ver_instance))
  ok (if instance' % 2 == 1 then uid_len ∷ uid_len ∷ trailer ∷ [] else uid_len ∷ trailer ∷ [])

-- The type, the version with the instance, and the length of a decrypted record header.
unfoldable pub header_fields : Bytes → Option (ℕ × ℕ × ℕ)
header_fields header = and_then (le16 header 0) λ ver_instance.
    and_then (le16 header 2)
      λ rec_type. and_then (le32 header 4) λ rec_len. some (rec_type, ver_instance, rec_len)

module _ (c : Crypto) (schedule : BlockKeySchedule) where
  -- `for size in fields`, and then the rest of the body: each piece on a keystream of its own.
  unfoldable pub decrypt_fields : List ℕ → (rec_len field_start : ℕ) → (body : Bytes) → Result Bytes
  decrypt_fields [] rec_len field_start body = decrypt_with_block c schedule body 0
  decrypt_fields (size ∷ sizes) rec_len field_start body = do
    cipher ←
        ok_or (slice body 0 size)
          (bad FileField.pictures_record (FileProblem.truncated rec_len (field_start + size)))
    field ← decrypt_with_block c schedule cipher 0
    rest ← decrypt_fields sizes rec_len (field_start + size) (drop size body)
    ok (field ++ rest)

  -- One turn of `while at < len`, on the bytes from `at` on: the header, the length of the body, and
  -- the body.
  unfoldable pub decrypt_picture : (len at : ℕ) → (from : Bytes) → Result (Bytes × ℕ × Bytes)
  decrypt_picture len at from = do
    cipher ←
        ok_or (slice from 0 8) (bad FileField.pictures_record (FileProblem.truncated (len - at) 8))
    header ← decrypt_with_block c schedule cipher 0
    (rec_type, ver_instance, rec_len) ←
        ok_or (header_fields header) (Error.invariant_violated Invariant.internal_slice)
    fields ← blip_fields rec_type ver_instance
    reject_if (ltb len (at + 8 + rec_len))
        (bad FileField.pictures_record (FileProblem.out_of_bounds (at + 8) rec_len len))
    body ← ok_or (slice from 8 rec_len) (Error.invariant_violated Invariant.internal_slice)
    plain ← decrypt_fields fields rec_len 0 body
    ok (header, rec_len, plain)

  unfoldable pub pictures_from : ℕ → (len at : ℕ) → (from : Bytes) → Result Bytes
  pictures_from zero len at from = ok []
  pictures_from (suc fuel) len at [] = ok []
  pictures_from (suc fuel) len at (b ∷ bs) = do
    (header, rec_len, body) ← decrypt_picture len at (b ∷ bs)
    rest ← pictures_from fuel len (at + 8 + rec_len) (drop (8 + rec_len) (b ∷ bs))
    ok (header ++ (body ++ rest))

  -- `decrypt_pictures`.
  unfoldable pub decrypt_pictures : Bytes → Result Bytes
  decrypt_pictures pictures = pictures_from (suc (length pictures)) (length pictures) 0 pictures
