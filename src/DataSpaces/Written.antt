-- ===== src/DataSpaces/Written.antt =====
-- The strings and the map that src/dataspaces.rs writes, read back by src/data_space_map.rs.
use msoffice_crypto.Base.{
  ℕ, ◌+◌, ◌-◌, ◌*◌, ◌%◌, ◌/◌, ◌≤◌, ◌<◌, ◌^◌, ◌≡◌, refl, sym, ap, ◌∙◌, arith, some, List, [], ◌∷◌,
  ◌++◌, length, replicate, length-append, length-replicate, All, take, drop,
}
use mathlib.Core.List.{append_assoc}
use native.Mathlib.Nat.{add-zero}
use msoffice_crypto.Base.Bytes.{Bytes, slice, to_le_bytes, slice_middle}
use msoffice_crypto.BinaryOffice.{le32}
use msoffice_crypto.BinaryOffice.Fields.{le32-front, le32-append}
use msoffice_crypto.DataSpaces.{
  lp_p4, units_of, data_space_names, names_from, entry_at, past_components,
}
use msoffice_crypto.DataSpaces.Streams.{
  utf16_bytes, write_lp_p4, data_space_map, strong_encryption_data_space, map_entry,
}

abbrev pub IsUnits : List ℕ → Type 0
IsUnits = All (λ u. u < 65536)

length-utf16_bytes : (text : List ℕ) → length (utf16_bytes text) ≡ length text * 2
unfolding utf16_bytes to_le_bytes
length-utf16_bytes [] = refl
length-utf16_bytes (u ∷ text) = omega (arith, length-utf16_bytes text)

units_of-utf16_bytes : (text : List ℕ) → IsUnits text → units_of (utf16_bytes text) ≡ text
unfolding utf16_bytes to_le_bytes units_of
units_of-utf16_bytes [] h = refl
units_of-utf16_bytes (u ∷ text) (b, h) =
    let unit : u % 256 + 256 * (u / 256 % 256) ≡ u = omega arith in
    rw (unit, units_of-utf16_bytes text h) refl

module _ (front back : Bytes) (text : List ℕ) where
  abbrev size : ℕ
  size = length text * 2

  abbrev padding : Bytes
  padding = replicate ((4 - size % 4) % 4) 0

  abbrev written : Bytes
  written = write_lp_p4 front text ++ back

  length-write_lp_p4 :
      length (write_lp_p4 front text) ≡ length front + (4 + (size + (4 - size % 4) % 4))
  unfolding write_lp_p4 to_le_bytes
  length-write_lp_p4 = omega (
    arith,
    length-append front (to_le_bytes 4 size ++ (utf16_bytes text ++ padding)),
    length-append (utf16_bytes text) padding,
    length-utf16_bytes text,
    length-replicate {A = ℕ} ((4 - size % 4) % 4) 0,
  )

  apart_lem : written ≡ front ++ (to_le_bytes 4 size ++ (utf16_bytes text ++ (padding ++ back)))
  unfolding write_lp_p4
  apart_lem =
      append_assoc front (to_le_bytes 4 size ++ (utf16_bytes text ++ padding)) back
      ∙ ap (λ r. front ++ r)
          (append_assoc (to_le_bytes 4 size) (utf16_bytes text ++ padding) back
            ∙ ap (λ r. to_le_bytes 4 size ++ r) (append_assoc (utf16_bytes text) padding back))

  count_lem : size < 2 ^ 32 → le32 written (length front) ≡ some size
  count_lem fits =
      let rest = to_le_bytes 4 size ++ (utf16_bytes text ++ (padding ++ back)) in
      ap (λ b. le32 b (length front)) apart_lem
      ∙ ap (le32 (front ++ rest)) (sym (add-zero (length front)))
      ∙ le32-append front rest 0
      ∙ le32-front size (utf16_bytes text ++ (padding ++ back)) fits

  at_lem : length front + 4 ≡ length (front ++ to_le_bytes 4 size)
  unfolding to_le_bytes
  at_lem = omega (arith, length-append front (to_le_bytes 4 size))

  text_lem : slice written (length front + 4) size ≡ some (utf16_bytes text)
  text_lem =
      ap (λ b. slice b (length front + 4) size)
        (apart_lem
          ∙ sym (append_assoc front (to_le_bytes 4 size) (utf16_bytes text ++ (padding ++ back))))
      ∙ slice_middle (front ++ to_le_bytes 4 size) (utf16_bytes text) (padding ++ back)
          (length front + 4) size at_lem (sym (length-utf16_bytes text))

  -- For a text of UTF-16 units whose bytes number below 2^32, in a buffer of less than 2^64 bytes,
  -- and for an end behind the units: the string that `write_lp_p4` appends is read back where it
  -- starts, and the reader stands behind its padding.
  pub lp_p4-write_lp_p4 :
      (end : ℕ)
      → IsUnits text
      → size < 2 ^ 32
      → length (write_lp_p4 front text) < 2 ^ 64
      → length front + 4 + size ≤ end
      → lp_p4 written (length front) end ≡ some (text, length (write_lp_p4 front text))
  unfolding lp_p4
  lp_p4-write_lp_p4 end u fits whole inside =
      ground (arith, count_lem fits, text_lem, length-write_lp_p4, units_of-utf16_bytes text u)

-- The map that is written has one entry, and its data space is read back.
data_space_names_map : data_space_names data_space_map ≡ strong_encryption_data_space ∷ []
unfolding data_space_names names_from entry_at past_components lp_p4 units_of le32 slice
    data_space_map map_entry write_lp_p4 utf16_bytes to_le_bytes replicate take drop
data_space_names_map = refl

length-data_space_map : length data_space_map ≡ 112
unfolding data_space_map map_entry write_lp_p4 utf16_bytes to_le_bytes replicate
length-data_space_map = refl
