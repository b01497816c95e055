-- ===== src/PowerPoint97/Pictures/RoundTrip.antt =====
-- A Pictures stream that is written picture by picture, and `decrypt_pictures` of
-- src/powerpoint97.rs.
use msoffice_crypto.Base.{
  ℕ, zero, suc, ◌+◌, ◌*◌, ◌≤◌, ◌<◌, ◌≡◌, refl, sym, ap, ◌∙◌, arith, some, List, [], ◌∷◌, ◌++◌,
  length, drop, length-append, drop_front, drop-drop, get_elem?, ◌/◌, ◌%◌, All,
}
use msoffice_crypto.Base.Bytes.{Bytes, slice, slice_middle, to_le_bytes}
use msoffice_crypto.Error.{ok}
use msoffice_crypto.Hash.{Crypto}
use msoffice_crypto.Rc4.{BlockKeySchedule, xor_from, decrypt_with_block, new, apply}
use msoffice_crypto.Rc4.Blocks.{length-xor_from, xor_from_twice}
use msoffice_crypto.BinaryOffice.{le16, le32}
use msoffice_crypto.PowerPoint97.Pictures.{
  blip_fields, header_fields, decrypt_fields, decrypt_picture, pictures_from, decrypt_pictures,
}

-- A picture: the fields that are encrypted one by one, and the data behind them.
pub record Picture : Type 0 where
  pub rec_type : ℕ
  pub ver_instance : ℕ
  pub fields : List Bytes
  pub image : Bytes

unfoldable pub lengths : List Bytes → List ℕ
lengths [] = []
lengths (f ∷ fs) = length f ∷ lengths fs

abbrev pub joined : List Bytes → Bytes → Bytes
joined [] image = image
joined (f ∷ fs) image = f ++ joined fs image

abbrev pub picture_header : Picture → Bytes
picture_header p =
    to_le_bytes 2 p.ver_instance
    ++ (to_le_bytes 2 p.rec_type ++ to_le_bytes 4 (length (joined p.fields p.image)))

abbrev pub plain_pictures : List Picture → Bytes
plain_pictures [] = []
plain_pictures (p ∷ ps) = picture_header p ++ (joined p.fields p.image ++ plain_pictures ps)

-- A type and an instance that take fields of these lengths, in numbers of their width.
abbrev pub IsPicture : Picture → Type 0
IsPicture p =
    (p.rec_type < 65536)
    × (p.ver_instance < 65536)
    × (length (joined p.fields p.image) < 4294967296)
    × (blip_fields p.rec_type p.ver_instance ≡ ok (lengths p.fields))

module _ (c : Crypto) (schedule : BlockKeySchedule)
    (usable : (5 ≤ length (schedule 0)) × (length (schedule 0) ≤ 16)) where
  -- A piece under the keystream of block 0 from its start.
  abbrev pub masked : Bytes → Bytes
  masked b = xor_from (c.rc4_keystream (schedule 0)) 0 b

  abbrev pub masked_fields : List Bytes → List Bytes
  masked_fields [] = []
  masked_fields (f ∷ fs) = masked f ∷ masked_fields fs

  abbrev pub encrypted_pictures : List Picture → Bytes
  encrypted_pictures [] = []
  encrypted_pictures (p ∷ ps) =
      masked (picture_header p)
      ++ (joined (masked_fields p.fields) (masked p.image) ++ encrypted_pictures ps)

  unmask_lem : (b : Bytes) → decrypt_with_block c schedule (masked b) 0 ≡ ok b
  unfolding decrypt_with_block new apply
  unmask_lem b = ground (arith, usable, xor_from_twice (c.rc4_keystream (schedule 0)) 0 b)

  length-masked : (b : Bytes) → length (masked b) ≡ length b
  length-masked b = length-xor_from (c.rc4_keystream (schedule 0)) 0 b

  length-joined :
      (fs : List Bytes) (image : Bytes)
      → length (joined (masked_fields fs) (masked image)) ≡ length (joined fs image)
  length-joined [] image = length-masked image
  length-joined (f ∷ fs) image = omega (
    arith,
    length-append (masked f) (joined (masked_fields fs) (masked image)),
    length-append f (joined fs image),
    length-masked f,
    length-joined fs image,
  )

  fields_lem :
      (fs : List Bytes) (image : Bytes) (rec_len start : ℕ)
      → decrypt_fields c schedule
          (lengths fs)
          rec_len
          start
          (joined (masked_fields fs) (masked image))
        ≡ ok (joined fs image)
  unfolding decrypt_fields lengths
  fields_lem [] image rec_len start = unmask_lem image
  fields_lem (f ∷ fs) image rec_len start =
      let rest = joined (masked_fields fs) (masked image) in
      let size : length f ≡ length (masked f) = sym (length-masked f) in
      let cut : slice (masked f ++ rest) 0 (length f) ≡ some (masked f) =
        slice_middle [] (masked f) rest 0 (length f) refl size in
      let past : drop (length f) (masked f ++ rest) ≡ rest =
        drop_front (masked f) rest (length f) size in
      let later = fields_lem fs image rec_len (start + length f) in
      ground (arith, cut, past, unmask_lem f, later)

  header_lem :
      (p : Picture)
      → IsPicture p
      → header_fields (picture_header p)
        ≡ some (p.rec_type, p.ver_instance, length (joined p.fields p.image))
  unfolding header_fields le16 le32 to_le_bytes get_elem?
  header_lem p (t, v, l, b) =
      let n = length (joined p.fields p.image) in
      let x : p.ver_instance % 256 + 256 * (p.ver_instance / 256 % 256) ≡ p.ver_instance =
        omega arith in
      let y : p.rec_type % 256 + 256 * (p.rec_type / 256 % 256) ≡ p.rec_type = omega arith in
      let z : (n % 256
            + 256 * (n / 256 % 256)
            + 65536 * (n / 256 / 256 % 256)
            + 16777216 * (n / 256 / 256 / 256 % 256))
          ≡ n =
        omega arith in
      rw (x, y, z) refl

  picture_lem :
      (p : Picture) (rest : Bytes) (len at : ℕ)
      → IsPicture p
      → at + 8 + length (joined p.fields p.image) ≤ len
      → decrypt_picture c schedule len at
          (masked (picture_header p) ++ (joined (masked_fields p.fields) (masked p.image) ++ rest))
        ≡ ok (picture_header p, length (joined p.fields p.image), joined p.fields p.image)
  unfolding decrypt_picture to_le_bytes
  picture_lem p rest len at h fits =
      let header = masked (picture_header p) in
      let body = joined (masked_fields p.fields) (masked p.image) in
      let n = length (joined p.fields p.image) in
      let eight : 8 ≡ length header = sym (length-masked (picture_header p)) in
      let size : n ≡ length body = sym (length-joined p.fields p.image) in
      let first : slice (header ++ (body ++ rest)) 0 8 ≡ some header =
        slice_middle [] header (body ++ rest) 0 8 refl eight in
      let second : slice (header ++ (body ++ rest)) 8 n ≡ some body =
        slice_middle header body rest 8 n eight size in
      let (t, v, l, kinds) = h in
      ground (
        arith,
        first,
        second,
        unmask_lem (picture_header p),
        header_lem p h,
        kinds,
        fits,
        fields_lem p.fields p.image n 0,
      )

  past_picture :
      (p : Picture) (rest : Bytes)
      → drop
          (8 + length (joined p.fields p.image))
          (masked (picture_header p) ++ (joined (masked_fields p.fields) (masked p.image) ++ rest))
        ≡ rest
  unfolding to_le_bytes drop xor_from
  past_picture p rest =
      let n = length (joined p.fields p.image) in
      let body = joined (masked_fields p.fields) (masked p.image) in
      sym (drop-drop n 8 (masked (picture_header p) ++ (body ++ rest)))
      ∙ drop_front body rest n (sym (length-joined p.fields p.image))

  -- A stream that is not empty is decrypted by its first picture and the rest.
  unroll :
      (fuel len at : ℕ) (from header body plain : Bytes) (n : ℕ)
      → 0 < length from
      → decrypt_picture c schedule len at from ≡ ok (header, n, body)
      → pictures_from c schedule fuel len (at + 8 + n) (drop (8 + n) from) ≡ ok plain
      → pictures_from c schedule (suc fuel) len at from ≡ ok (header ++ (body ++ plain))
  unfolding pictures_from
  unroll fuel len at [] header body plain n l e f = absurd (omega arith)
  unroll fuel len at (b ∷ from) header body plain n l e f = ground (arith, e, f)

  stream_lem :
      (fuel len at : ℕ) (ps : List Picture)
      → All IsPicture ps
      → length (encrypted_pictures ps) < fuel
      → at + length (encrypted_pictures ps) ≤ len
      → pictures_from c schedule fuel len at (encrypted_pictures ps) ≡ ok (plain_pictures ps)
  unfolding to_le_bytes
  stream_lem zero len at ps h l s = absurd (omega arith)
  stream_lem (suc fuel) len at [] h l s = unfold pictures_from in refl
  stream_lem (suc fuel) len at (p ∷ ps) h l s =
      let n = length (joined p.fields p.image) in
      let header = masked (picture_header p) in
      let body = joined (masked_fields p.fields) (masked p.image) in
      let rest = encrypted_pictures ps in
      let size = length-append header (body ++ rest) in
      let size' = length-append body rest in
      let eight = length-masked (picture_header p) in
      let part = length-joined p.fields p.image in
      let first = picture_lem p rest len at h.0 (omega (arith, size, size', eight, part)) in
      let later =
        stream_lem fuel len (at + 8 + n) ps h.1 (omega (arith, size, size', eight, part))
          (omega (arith, size, size', eight, part)) in
      unroll fuel len at (header ++ (body ++ rest)) (picture_header p) (joined p.fields p.image)
        (plain_pictures ps) n (omega (arith, size, eight)) first
        (ap (pictures_from c schedule fuel len (at + 8 + n)) (past_picture p rest) ∙ later)

  -- For a key of block 0 of 5 to 16 bytes and pictures of types and instances that the format
  -- defines, with fields of the lengths that these take and a body shorter than 2^32 bytes: the
  -- stream of the encrypted pictures decrypts to the pictures.
  pub decrypt_pictures-encrypted_pictures :
      (ps : List Picture)
      → All IsPicture ps
      → decrypt_pictures c schedule (encrypted_pictures ps) ≡ ok (plain_pictures ps)
  unfolding decrypt_pictures
  decrypt_pictures-encrypted_pictures ps h =
      let b = encrypted_pictures ps in
      stream_lem (suc (length b)) (length b) 0 ps h (omega arith) (omega arith)
