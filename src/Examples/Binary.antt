-- ===== src/Examples/Binary.antt =====
-- The theorems on the headers, the directories and the streams of binary documents at concrete
-- inputs.
use msoffice_crypto.DataSpaces.{lp_p4}
use msoffice_crypto.DataSpaces.Streams.{write_lp_p4, utf16_bytes}
use msoffice_crypto.DataSpaces.Written.{lp_p4-write_lp_p4}
use msoffice_crypto.Base.{
  ℕ, ◌+◌, ◌*◌, ◌≤◌, ◌<◌, ◌≡◌, ◌↔◌, refl, arith, false, some, List, [], ◌∷◌, ◌++◌, length, replicate,
  length-replicate, ◌^◌, take, drop, get_elem?,
}
use msoffice_crypto.Base.Bytes.{Bytes, to_le_bytes, slice}
use msoffice_crypto.Error.{ok, ◌>>=◌}
use msoffice_crypto.Rc4.{BlockKeySchedule, xor_from}
use msoffice_crypto.Rc4.Blocks.{IsRc4Schedule}
use msoffice_crypto.Rc4Office97.{parse_office97, new_office97, verify_office97}
use msoffice_crypto.Rc4Office97.Check.{office97_bytes, stored_office97, check_office97-stored}
use msoffice_crypto.Rc4Cryptoapi.{
  CryptoApiHeader, CryptoApiKeySchedule, parse_cryptoapi, new_cryptoapi, cryptoapi_block_key,
  verify_cryptoapi,
}
use msoffice_crypto.Rc4Cryptoapi.Check.{IsRc4KeyBits, new_cryptoapi-parse_cryptoapi}
use msoffice_crypto.Rc4Cryptoapi.RoundTrip.{
  IsCryptoApiFlags, IsWritable, cryptoapi_bytes, parse_written,
}
use msoffice_crypto.Rc4Cryptoapi.Accept.{stored_cryptoapi, check_cryptoapi-stored}
use msoffice_crypto.BinaryOffice.{
  StreamName, FibBase, parse_fib, encrypted, obfuscated, has_flag, le16, le32,
}
use msoffice_crypto.BinaryOffice.Persist.{
  RecordHeader, persist_directory, directory_from, ppt_persist_objects_max, read_at, record_header,
  insert_run, insert,
}
use msoffice_crypto.BinaryOffice.Persist.Directory.{IsOrdered, persist_directory-IsOrdered}
use msoffice_crypto.BinaryOffice.Persist.Loop.{IsRead, persist_directory_iff}
use msoffice_crypto.EncryptedSummary.{Entry, ascii_utf16, summary_name}
use msoffice_crypto.Word97.{decrypt_word_stream}
use msoffice_crypto.Word97.Restore.{plain_at, decrypt_word_stream_lem, decrypt_word_stream-plain}
use msoffice_crypto.PowerPoint97.Pictures.{decrypt_pictures, blip_fields, blip_kind}
use msoffice_crypto.PowerPoint97.Pictures.RoundTrip.{
  Picture, IsPicture, lengths, plain_pictures, encrypted_pictures,
  decrypt_pictures-encrypted_pictures,
}
use msoffice_crypto.Examples.Toy.{toy, toy-IsCrypto}

abbrev password : List ℕ
password = 0x70 ∷ 0x77 ∷ []

abbrev salt : Bytes
salt = replicate 16 3

abbrev verifier : Bytes
verifier = replicate 16 5

check_office97-stored_example :
    (parse_office97 (office97_bytes (stored_office97 toy toy-IsCrypto password salt verifier))
      >>= λ header. verify_office97 toy (new_office97 toy password header.salt) header)
    ≡ ok tt
check_office97-stored_example =
    check_office97-stored toy toy-IsCrypto password salt verifier (length-replicate 16 3)
      (length-replicate 16 5)

bits-IsRc4KeyBits : IsRc4KeyBits 128
bits-IsRc4KeyBits = (omega arith, omega arith, refl)

flags-IsCryptoApiFlags : IsCryptoApiFlags 0x0C
unfolding has_flag
flags-IsCryptoApiFlags = (omega arith, refl, refl, refl)

abbrev stored : CryptoApiHeader
stored =
    stored_cryptoapi toy toy-IsCrypto password 0x0C 128 flags-IsCryptoApiFlags bits-IsRc4KeyBits
      salt verifier (length-replicate 16 3) (length-replicate 16 5)

abbrev csp_name : Bytes
csp_name = 0x4D ∷ 0 ∷ 0 ∷ 0 ∷ []

check_cryptoapi-stored_example :
    (parse_cryptoapi (cryptoapi_bytes stored csp_name) >>= λ header.
    new_cryptoapi toy password header.salt header.key_bits >>= λ made.
    verify_cryptoapi toy made header)
    ≡ ok tt
check_cryptoapi-stored_example =
    check_cryptoapi-stored toy toy-IsCrypto password 0x0C 128 flags-IsCryptoApiFlags
      bits-IsRc4KeyBits salt verifier (length-replicate 16 3) (length-replicate 16 5) csp_name
      (omega arith)

abbrev plain_header : CryptoApiHeader
plain_header = record {
  key_bits = 40;
  flags = 0x0C;
  salt = replicate 16 1;
  encrypted_verifier = replicate 16 2;
  encrypted_verifier_hash = replicate 20 3;
}

plain_header-IsWritable : IsWritable plain_header
plain_header-IsWritable = (
  flags-IsCryptoApiFlags,
  (omega arith, omega arith, refl),
  length-replicate 16 1,
  length-replicate 16 2,
  length-replicate 20 3,
)

plain_header_parsed : parse_cryptoapi (cryptoapi_bytes plain_header csp_name) ≡ ok plain_header
plain_header_parsed = parse_written plain_header csp_name plain_header-IsWritable (omega arith)

new_cryptoapi-parse_cryptoapi_example :
    (schedule : CryptoApiKeySchedule) × (new_cryptoapi toy password (replicate 16 1) 40
      ≡ ok schedule)
    × IsRc4Schedule (cryptoapi_block_key toy schedule)
new_cryptoapi-parse_cryptoapi_example =
    new_cryptoapi-parse_cryptoapi toy toy-IsCrypto (cryptoapi_bytes plain_header csp_name)
      plain_header password plain_header_parsed

abbrev schedule : BlockKeySchedule
schedule block = block ∷ replicate 6 7

schedule-IsRc4Schedule : IsRc4Schedule schedule
unfolding replicate
schedule-IsRc4Schedule i = (omega arith, omega arith)

-- Two runs: identifiers 1 and 2, then 2 again.
abbrev directory_atom : Bytes
directory_atom =
    to_le_bytes 2 0
    ++ (to_le_bytes 2 0x1772
        ++ (to_le_bytes 4 20
            ++ (to_le_bytes 4 (2 * 1048576 + 1)
                ++ (to_le_bytes 4 100
                    ++ (to_le_bytes 4 200 ++ (to_le_bytes 4 (1048576 + 2) ++ to_le_bytes 4 300))))))

directory_read : persist_directory directory_atom 0 ≡ some ((1, 100) ∷ (2, 300) ∷ [])
unfolding persist_directory directory_from insert_run insert read_at record_header slice take drop
    to_le_bytes le16 le32 get_elem?
directory_read = refl

persist_directory-IsOrdered_example :
    IsOrdered 0 ((1, 100) ∷ (2, 300) ∷ []) × (2 ≤ ppt_persist_objects_max)
persist_directory-IsOrdered_example =
    persist_directory-IsOrdered directory_atom 0 ((1, 100) ∷ (2, 300) ∷ []) directory_read

abbrev atom_header : RecordHeader
atom_header = record { ver_instance = 0; rec_type = 0x1772; rec_len = 20 }

atom_header_read : record_header directory_atom 0 ≡ some atom_header
unfolding record_header read_at slice take drop to_le_bytes le16 le32 get_elem?
atom_header_read = refl

atom_entries_read : read_at directory_atom 8 20 ≡ some (drop 8 directory_atom)
unfolding read_at slice take drop to_le_bytes
atom_entries_read = refl

persist_directory_iff_example :
    (persist_directory directory_atom 0 ≡ some ((1, 100) ∷ (2, 300) ∷ []))
    ↔ IsRead (drop 8 directory_atom) 0 0 [] (some ((1, 100) ∷ (2, 300) ∷ []))
persist_directory_iff_example =
    persist_directory_iff directory_atom (drop 8 directory_atom) 0 atom_header
      (some ((1, 100) ∷ (2, 300) ∷ [])) (omega arith) atom_header_read refl refl (omega arith)
      atom_entries_read

-- A document that says it is encrypted.
abbrev word : Bytes
word = 0xEC ∷ 0xA5 ∷ (replicate 9 0 ++ (0x01 ∷ replicate 60 9))

abbrev fib : FibBase
fib = record { flags = 0x0100; l_key = 0x09090909 }

word-fib : parse_fib word ≡ some fib
unfolding parse_fib le16 le32 replicate get_elem?
word-fib = refl

word_long : 68 ≤ length word
unfolding replicate
word_long = omega arith

word_short : length word ≤ 2 ^ 32
unfolding replicate
word_short = omega arith

decrypt_word_stream_lem_example :
    (plain : Bytes) × (decrypt_word_stream toy schedule fib word ≡ ok plain)
    × (length plain ≡ length word)
    × ((j : ℕ) → get_elem? plain j ≡ plain_at toy schedule schedule-IsRc4Schedule 0x0100 word j)
decrypt_word_stream_lem_example =
    decrypt_word_stream_lem toy schedule schedule-IsRc4Schedule fib word word_long word_short

decrypt_word_stream-plain_example :
    (plain : Bytes) × (read : FibBase) × (decrypt_word_stream toy schedule fib word ≡ ok plain)
    × (parse_fib plain ≡ some read)
    × (encrypted read ≡ false)
    × (obfuscated read ≡ false)
    × (read.l_key ≡ 0)
decrypt_word_stream-plain_example =
    decrypt_word_stream-plain toy schedule schedule-IsRc4Schedule word fib word_long word_short
      word-fib

-- A PNG of four bytes of image data.
abbrev png : Picture
png = record {
  rec_type = 0xF01E;
  ver_instance = 0x6E00;
  fields = replicate 16 1 ∷ (0xFF ∷ []) ∷ [];
  image = 0x89 ∷ 0x50 ∷ 0x4E ∷ 0x47 ∷ [];
}

png-IsPicture : IsPicture png
unfolding blip_fields blip_kind lengths replicate
png-IsPicture = (omega arith, omega arith, omega arith, refl)

decrypt_pictures-encrypted_pictures_example :
    decrypt_pictures toy schedule
      (encrypted_pictures toy schedule (schedule-IsRc4Schedule 0) (png ∷ png ∷ []))
    ≡ ok (plain_pictures (png ∷ png ∷ []))
decrypt_pictures-encrypted_pictures_example =
    decrypt_pictures-encrypted_pictures toy schedule (schedule-IsRc4Schedule 0) (png ∷ png ∷ [])
      (png-IsPicture, (png-IsPicture, tt))

-- A summary stream of one property set of three bytes, on the keystream of block 1.
abbrev under : ℕ → Bytes → Bytes
under block b = xor_from (toy.rc4_keystream (schedule block)) 0 b

abbrev summary_array : Bytes
summary_array =
    to_le_bytes 4 1
    ++ (to_le_bytes 4 8
        ++ (to_le_bytes 4 3
            ++ (to_le_bytes 2 1
                ++ (19
                    ∷ 1
                    ∷ (to_le_bytes 4 0 ++ (ascii_utf16 (5 ∷ summary_name) ++ (0 ∷ 0 ∷ [])))))))

abbrev summary_data : Bytes
summary_data =
    under 0 (to_le_bytes 4 11 ++ to_le_bytes 4 60)
    ++ (under 1 (1 ∷ 2 ∷ 3 ∷ []) ++ under 0 summary_array)

abbrev summary_entries : List Entry
summary_entries =
    record { name = StreamName.summary_information; bytes = 1 ∷ 2 ∷ 3 ∷ []; start = 8; end = 11 }
    ∷ []

abbrev name_units : List ℕ
name_units = 0x41 ∷ 0x42 ∷ 0x43 ∷ []

abbrev name_front : Bytes
name_front = 7 ∷ []

length-name : length (write_lp_p4 name_front name_units) < 2 ^ 64
unfolding write_lp_p4 utf16_bytes to_le_bytes replicate
length-name = omega arith

lp_p4-write_lp_p4_example :
    lp_p4 (write_lp_p4 name_front name_units ++ (9 ∷ [])) 1 12
    ≡ some (name_units, length (write_lp_p4 name_front name_units))
lp_p4-write_lp_p4_example =
    lp_p4-write_lp_p4 name_front (9 ∷ []) name_units 12
      (omega arith, (omega arith, (omega arith, tt))) (omega arith) length-name (omega arith)
