-- ===== src/DataSpaces/Streams.antt =====
-- src/dataspaces.rs: the four streams under `\x06DataSpaces` that say how a package is encrypted. The
-- container that they are written into is the third-party `cfb`'s. A text is the list of its UTF-16
-- units.
use msoffice_crypto.Base.{ℕ, ◌+◌, ◌-◌, ◌*◌, ◌%◌, List, [], ◌∷◌, ◌++◌, length, replicate}
use msoffice_crypto.Base.Bytes.{Bytes, to_le_bytes}

-- "Microsoft.Container.DataSpaces".
abbrev pub container_data_spaces : List ℕ
container_data_spaces =
    0x4D ∷ 0x69 ∷ 0x63 ∷ 0x72 ∷ 0x6F ∷ 0x73 ∷ 0x6F ∷ 0x66 ∷ 0x74 ∷ 0x2E ∷ 0x43 ∷ 0x6F ∷ 0x6E ∷ 0x74
    ∷ 0x61 ∷ 0x69 ∷ 0x6E ∷ 0x65 ∷ 0x72 ∷ 0x2E ∷ 0x44 ∷ 0x61 ∷ 0x74 ∷ 0x61 ∷ 0x53 ∷ 0x70 ∷ 0x61
    ∷ 0x63 ∷ 0x65 ∷ 0x73 ∷ []

-- "EncryptedPackage".
abbrev pub encrypted_package : List ℕ
encrypted_package =
    0x45 ∷ 0x6E ∷ 0x63 ∷ 0x72 ∷ 0x79 ∷ 0x70 ∷ 0x74 ∷ 0x65 ∷ 0x64 ∷ 0x50 ∷ 0x61 ∷ 0x63 ∷ 0x6B ∷ 0x61
    ∷ 0x67 ∷ 0x65 ∷ []

-- "StrongEncryptionDataSpace".
abbrev pub strong_encryption_data_space : List ℕ
strong_encryption_data_space =
    0x53 ∷ 0x74 ∷ 0x72 ∷ 0x6F ∷ 0x6E ∷ 0x67 ∷ 0x45 ∷ 0x6E ∷ 0x63 ∷ 0x72 ∷ 0x79 ∷ 0x70 ∷ 0x74 ∷ 0x69
    ∷ 0x6F ∷ 0x6E ∷ 0x44 ∷ 0x61 ∷ 0x74 ∷ 0x61 ∷ 0x53 ∷ 0x70 ∷ 0x61 ∷ 0x63 ∷ 0x65 ∷ []

-- "StrongEncryptionTransform".
abbrev pub strong_encryption_transform : List ℕ
strong_encryption_transform =
    0x53 ∷ 0x74 ∷ 0x72 ∷ 0x6F ∷ 0x6E ∷ 0x67 ∷ 0x45 ∷ 0x6E ∷ 0x63 ∷ 0x72 ∷ 0x79 ∷ 0x70 ∷ 0x74 ∷ 0x69
    ∷ 0x6F ∷ 0x6E ∷ 0x54 ∷ 0x72 ∷ 0x61 ∷ 0x6E ∷ 0x73 ∷ 0x66 ∷ 0x6F ∷ 0x72 ∷ 0x6D ∷ []

-- "{FF9A3F03-56EF-4613-BDD5-5A41C1D07246}".
abbrev pub transform_id : List ℕ
transform_id =
    0x7B ∷ 0x46 ∷ 0x46 ∷ 0x39 ∷ 0x41 ∷ 0x33 ∷ 0x46 ∷ 0x30 ∷ 0x33 ∷ 0x2D ∷ 0x35 ∷ 0x36 ∷ 0x45 ∷ 0x46
    ∷ 0x2D ∷ 0x34 ∷ 0x36 ∷ 0x31 ∷ 0x33 ∷ 0x2D ∷ 0x42 ∷ 0x44 ∷ 0x44 ∷ 0x35 ∷ 0x2D ∷ 0x35 ∷ 0x41
    ∷ 0x34 ∷ 0x31 ∷ 0x43 ∷ 0x31 ∷ 0x44 ∷ 0x30 ∷ 0x37 ∷ 0x32 ∷ 0x34 ∷ 0x36 ∷ 0x7D ∷ []

-- "Microsoft.Container.EncryptionTransform".
abbrev pub transform_name : List ℕ
transform_name =
    0x4D ∷ 0x69 ∷ 0x63 ∷ 0x72 ∷ 0x6F ∷ 0x73 ∷ 0x6F ∷ 0x66 ∷ 0x74 ∷ 0x2E ∷ 0x43 ∷ 0x6F ∷ 0x6E ∷ 0x74
    ∷ 0x61 ∷ 0x69 ∷ 0x6E ∷ 0x65 ∷ 0x72 ∷ 0x2E ∷ 0x45 ∷ 0x6E ∷ 0x63 ∷ 0x72 ∷ 0x79 ∷ 0x70 ∷ 0x74
    ∷ 0x69 ∷ 0x6F ∷ 0x6E ∷ 0x54 ∷ 0x72 ∷ 0x61 ∷ 0x6E ∷ 0x73 ∷ 0x66 ∷ 0x6F ∷ 0x72 ∷ 0x6D ∷ []

-- The units, each as two bytes.
unfoldable pub utf16_bytes : List ℕ → Bytes
utf16_bytes [] = []
utf16_bytes (unit ∷ units) = to_le_bytes 2 unit ++ utf16_bytes units

-- `write_lp_p4`: the byte count, the units, and zeros to the next multiple of four.
unfoldable pub write_lp_p4 : Bytes → (text : List ℕ) → Bytes
write_lp_p4 buffer text =
    let byte_len = length text * 2 in
    buffer ++ (to_le_bytes 4 byte_len ++ (utf16_bytes text ++ replicate ((4 - byte_len % 4) % 4) 0))

unfoldable pub write_version : Bytes → (major minor : ℕ) → Bytes
write_version buffer major minor = buffer ++ (to_le_bytes 2 major ++ to_le_bytes 2 minor)

-- The reader's, the updater's and the writer's version, 1.0 each.
unfoldable pub write_versions : Bytes → Bytes
unfolding write_version
write_versions buffer = write_version (write_version (write_version buffer 1 0) 1 0) 1 0

unfoldable pub data_space_version_info : Bytes
unfolding write_lp_p4 write_versions
data_space_version_info = write_versions (write_lp_p4 [] container_data_spaces)

-- The entry of the map behind its length.
unfoldable pub map_entry : Bytes
unfolding write_lp_p4
map_entry =
    write_lp_p4 (write_lp_p4 (to_le_bytes 4 1 ++ to_le_bytes 4 0) encrypted_package)
      strong_encryption_data_space

unfoldable pub data_space_map : Bytes
unfolding map_entry
data_space_map =
    to_le_bytes 4 8 ++ (to_le_bytes 4 1 ++ (to_le_bytes 4 (length map_entry + 4) ++ map_entry))

unfoldable pub data_space_definition : Bytes
unfolding write_lp_p4
data_space_definition = write_lp_p4 (to_le_bytes 4 8 ++ to_le_bytes 4 1) strong_encryption_transform

-- The header of the transform behind its length.
unfoldable pub transform_header : Bytes
unfolding write_lp_p4
transform_header = write_lp_p4 (to_le_bytes 4 1) transform_id

unfoldable pub transform_info : Bytes
unfolding transform_header write_lp_p4 write_versions
transform_info =
    write_versions
      (write_lp_p4 (to_le_bytes 4 (length transform_header + 4) ++ transform_header) transform_name)
    ++ (to_le_bytes 4 0 ++ (to_le_bytes 4 0 ++ (to_le_bytes 4 0 ++ to_le_bytes 4 4)))
