-- ===== src/Examples/Workbook.antt =====
-- The theorems on workbooks at concrete inputs.
use msoffice_crypto.Base.{
  ℕ, ◌≤◌, ◌≡◌, ◌≢◌, ◌↔◌, refl, arith, Bool, true, false, Option, none, some, List, [], ◌∷◌, ◌++◌,
  length, replicate, get_elem?, if◌then◌else◌, take, drop, All, ◌^◌,
}
use mathlib.Core.Path.{ap, ◌∙◌}
use msoffice_crypto.Base.Bytes.{Bytes, range, copy_at, to_le_bytes}
use msoffice_crypto.Error.{ok}
use msoffice_crypto.Classification.{Family}
use msoffice_crypto.Rc4.Blocks.{IsRc4Schedule, block_stream}
use msoffice_crypto.Rc4.Masked.{masked}
use msoffice_crypto.Reader.{Reader, read_full_take}
use msoffice_crypto.Rc4.{BlockKeySchedule, xor_from}
use msoffice_crypto.Rc4Office97.{Office97Header, new_office97, office97_block_key}
use msoffice_crypto.Rc4Office97.Check.{
  IsOffice97Header, office97_bytes, stored_office97, parse_office97_lem, verify_office97-stored,
  office97_block_key-IsRc4Schedule,
}
use msoffice_crypto.BinaryOffice.{StreamName, Cfb, le16, format_of, workbook_stream_name}
use msoffice_crypto.BinaryOffice.Probe.{
  probe_in, probe_format, probe_excel, read_prefix, scan_verdict,
}
use msoffice_crypto.BinaryOffice.Records.{
  BiffRecord, FilePassScan, never_encrypted, biff_records, scan_for_filepass,
}
use msoffice_crypto.BinaryOffice.Records.Walk.{
  IsWalk, IsClean, covered, biff_records-IsWalk, covered-biff_records,
}
use msoffice_crypto.BinaryOffice.Records.Written.{
  Written, IsWritten, write_records, placed, biff_records-write_records,
}
use msoffice_crypto.LegacyContainer.{CompoundFile, legacy_stream_read_cap}
use msoffice_crypto.LegacyContainer.Laws.{IsCompoundFile, plain_stream}
use msoffice_crypto.LegacyScheme.{version_of, office97_schedule, schedule_of}
use msoffice_crypto.Classify.{classify_binary, binary_family}
use msoffice_crypto.Classify.Plain.{classify_binary-decrypt_book}
use msoffice_crypto.Excel97.RoundTrip.{is_clear, decrypt_records_lem}
use msoffice_crypto.Excel97.Container.{decrypt_lem, length-decrypt_book}
use msoffice_crypto.Excel97.{
  Scheme, see_all, rc4_scheme, restored_summary, decrypt, find_filepass, scheme_of, decrypt_records,
  decrypt_book, clear_filepass,
}
use msoffice_crypto.Excel97.Find.{find_filepass_iff}
use msoffice_crypto.Excel97.Book.{decrypt_book-encrypted}
use msoffice_crypto.Examples.Toy.{toy, toy-IsCrypto}

abbrev password : List ℕ
password = 0x70 ∷ 0x77 ∷ []

abbrev salt : Bytes
salt = replicate 16 3

abbrev header : Office97Header
header = stored_office97 toy toy-IsCrypto password salt (replicate 16 5)

-- `BOF`, a `FILEPASS` of the Office 97 family, and a record that is encrypted.
abbrev records : List Written
records =
    (0x0809, 0x00 ∷ 0x06 ∷ [])
    ∷ (0x002F, to_le_bytes 2 1 ++ office97_bytes header)
    ∷ (0x00FC, 0x41 ∷ 0x42 ∷ 0x43 ∷ [])
    ∷ []

abbrev book : Bytes
book = write_records records

abbrev filepass : BiffRecord
filepass = record { id = 0x002F; start = 10; end = 64 }

abbrev schedule : BlockKeySchedule
schedule = office97_block_key toy (new_office97 toy password salt)

usable : IsRc4Schedule schedule
usable = office97_block_key-IsRc4Schedule toy toy-IsCrypto (new_office97 toy password salt)

header-IsOffice97Header : IsOffice97Header header
unfolding replicate xor_from
header-IsOffice97Header = (refl, refl, refl)

office97_opened : office97_schedule toy password (office97_bytes header) ≡ ok (schedule, true)
unfolding office97_schedule
office97_opened = ground (
  arith,
  parse_office97_lem header header-IsOffice97Header,
  verify_office97-stored toy toy-IsCrypto password salt (replicate 16 5),
)

structure_opened : schedule_of toy password (office97_bytes header) ≡ ok (schedule, true)
unfolding schedule_of version_of le16 to_le_bytes get_elem?
structure_opened = office97_opened

book_body : range book 10 64 ≡ 1 ∷ 0 ∷ office97_bytes header
unfolding range take drop write_records replicate to_le_bytes xor_from
book_body = refl

book_found : find_filepass book ≡ ok filepass
unfolding find_filepass see_all biff_records write_records replicate xor_from never_encrypted
    to_le_bytes
book_found = refl

body_opened : scheme_of toy password (1 ∷ 0 ∷ office97_bytes header) ≡ ok (Scheme.rc4 schedule true)
unfolding scheme_of rc4_scheme le16 get_elem? drop
body_opened = ground (arith, structure_opened)

book_opened : scheme_of toy password (range book 10 64) ≡ ok (Scheme.rc4 schedule true)
book_opened = ap (scheme_of toy password) book_body ∙ body_opened

length-book : length book ≤ 2 ^ 32
unfolding write_records replicate to_le_bytes xor_from
length-book = omega arith

records-IsWritten : All IsWritten records
unfolding replicate to_le_bytes xor_from
records-IsWritten =
    ((omega arith, omega arith), ((omega arith, omega arith), ((omega arith, omega arith), tt)))

book-IsClean : IsClean (biff_records book)
unfolding biff_records write_records replicate xor_from to_le_bytes
book-IsClean = tt

biff_records-write_records_example : biff_records (write_records records) ≡ placed 0 records
biff_records-write_records_example = biff_records-write_records records records-IsWritten

covered-biff_records_example : covered book (biff_records book) ≡ book
covered-biff_records_example = covered-biff_records book book-IsClean

biff_records-IsWalk_example : IsWalk book 0 (biff_records book)
biff_records-IsWalk_example = biff_records-IsWalk book

find_filepass_iff_example :
    (find_filepass book ≡ ok filepass)
    ↔ ((scan_for_filepass book ≡ FilePassScan.found filepass) × IsClean (biff_records book))
find_filepass_iff_example = find_filepass_iff book filepass

decrypt_book-encrypted_example :
    (cipher : Bytes) × (decrypt_records toy (Scheme.rc4 schedule true) book ≡ ok cipher)
    × (decrypt_book toy password cipher
        ≡ ok (clear_filepass filepass book, Scheme.rc4 schedule true))
decrypt_book-encrypted_example =
    decrypt_book-encrypted toy toy-IsCrypto password schedule true book filepass length-book
      book_found book_opened

decrypt_records_lem_example :
    (plain : Bytes) × (decrypt_records toy (Scheme.rc4 schedule true) book ≡ ok plain)
    × (length plain ≡ length book)
    × ((j : ℕ)
        → get_elem? plain j ≡ (
            if is_clear toy schedule true usable book j
            then get_elem? book j
            else masked (block_stream toy schedule 1024) j (get_elem? book j)))
decrypt_records_lem_example = decrypt_records_lem toy schedule true usable book length-book

-- A container of one stream.
abbrev one_stream : Bytes → StreamName → Option Reader
one_stream b StreamName.workbook = some (plain_stream b)
one_stream b other = none

abbrev is_workbook : StreamName → Bool
is_workbook StreamName.workbook = true
is_workbook other = false

abbrev one_file : CompoundFile Bytes
one_file = record {
  cfb = λ b. record { exists = is_workbook; open_stream = one_stream b; is_stream = is_workbook };
  write_stream = λ b name new. ok new;
  create_stream = λ b name new. ok new;
  remove_stream = λ b name. ok b;
}

others_stay :
    (b new : Bytes) (other : StreamName)
    → other ≢ StreamName.workbook
    → one_stream new other ≡ one_stream b other
others_stay b new StreamName.word_document h = refl
others_stay b new StreamName.table_0 h = refl
others_stay b new StreamName.table_1 h = refl
others_stay b new StreamName.data_stream h = refl
others_stay b new StreamName.workbook h = absurd (h refl)
others_stay b new StreamName.book h = refl
others_stay b new StreamName.power_point_document h = refl
others_stay b new StreamName.current_user h = refl
others_stay b new StreamName.pictures h = refl
others_stay b new StreamName.encryption h = refl
others_stay b new StreamName.encrypted_summary h = refl
others_stay b new StreamName.summary_information h = refl
others_stay b new StreamName.document_summary_information h = refl
others_stay b new StreamName.data_space_map h = refl
others_stay b new StreamName.drm_content h = refl
others_stay b new StreamName.encryption_info h = refl

written :
    (b : Bytes) (name : StreamName) (new : Bytes) (old : Reader)
    → one_stream b name ≡ some old
    → length old.content ≡ length new
    → (s' : Bytes) × (one_file.write_stream b name new ≡ ok s')
      × (one_stream s' name ≡ some (plain_stream new))
      × ((other : StreamName) → other ≢ name → one_stream s' other ≡ one_stream b other)
written b StreamName.word_document new old e l = absurd cc
written b StreamName.table_0 new old e l = absurd cc
written b StreamName.table_1 new old e l = absurd cc
written b StreamName.data_stream new old e l = absurd cc
written b StreamName.workbook new old e l = (new, refl, refl, others_stay b new)
written b StreamName.book new old e l = absurd cc
written b StreamName.power_point_document new old e l = absurd cc
written b StreamName.current_user new old e l = absurd cc
written b StreamName.pictures new old e l = absurd cc
written b StreamName.encryption new old e l = absurd cc
written b StreamName.encrypted_summary new old e l = absurd cc
written b StreamName.summary_information new old e l = absurd cc
written b StreamName.document_summary_information new old e l = absurd cc
written b StreamName.data_space_map new old e l = absurd cc
written b StreamName.drm_content new old e l = absurd cc
written b StreamName.encryption_info new old e l = absurd cc

one_file-IsCompoundFile : IsCompoundFile one_file
one_file-IsCompoundFile = record { writes = written }

-- The encrypted book, and what decrypts it.
decrypt_book-encrypted_again :
    (cipher : Bytes) × (decrypt_records toy (Scheme.rc4 schedule true) book ≡ ok cipher)
    × (decrypt_book toy password cipher
        ≡ ok (clear_filepass filepass book, Scheme.rc4 schedule true))
decrypt_book-encrypted_again =
    decrypt_book-encrypted toy toy-IsCrypto password schedule true book filepass length-book
      book_found book_opened

cipher_book : Bytes
cipher_book = decrypt_book-encrypted_again.0

cipher_opened :
    decrypt_book toy password cipher_book
    ≡ ok (clear_filepass filepass book, Scheme.rc4 schedule true)
unfolding cipher_book
cipher_opened = decrypt_book-encrypted_again.2

length-cipher : length cipher_book ≤ legacy_stream_read_cap
unfolding clear_filepass copy_at take drop write_records replicate to_le_bytes xor_from
length-cipher =
    let size =
      length-decrypt_book toy password cipher_book (clear_filepass filepass book)
        (Scheme.rc4 schedule true) cipher_opened in
    omega (arith, size)

cipher_name : workbook_stream_name (one_file.cfb cipher_book) ≡ some StreamName.workbook
unfolding workbook_stream_name
cipher_name = refl

cipher_summary : restored_summary one_file toy cipher_book (Scheme.rc4 schedule true) ≡ ok none
unfolding restored_summary
cipher_summary = refl

decrypt_lem_example :
    (s' : Bytes) × (decrypt one_file toy cipher_book password ≡ ok s')
    × (one_stream s' StreamName.workbook ≡ some (plain_stream (clear_filepass filepass book)))
    × ((other : StreamName)
        → other ≢ StreamName.workbook
        → one_stream s' other ≡ one_stream cipher_book other)
decrypt_lem_example =
    decrypt_lem one_file one_file-IsCompoundFile toy cipher_book password cipher_book
      (clear_filepass filepass book) (Scheme.rc4 schedule true) cipher_name refl length-cipher
      cipher_opened cipher_summary

-- `BOF`, `INTERFACEHDR`, and a record that an encrypted workbook would encrypt.
abbrev plain_book : Bytes
plain_book = write_records ((0x0809, 0 ∷ 6 ∷ []) ∷ (0x00E1, []) ∷ (0x00C1, 0 ∷ 0 ∷ []) ∷ [])

abbrev plain_cfb : Cfb
plain_cfb = one_file.cfb plain_book

plain_classified : (classify_binary plain_cfb).family ≡ Family.unencrypted
unfolding classify_binary probe_in format_of probe_format probe_excel workbook_stream_name
    read_prefix read_full_take binary_family scan_verdict scan_for_filepass take write_records
plain_classified = refl

classify_binary-decrypt_book_example :
    decrypt_book toy password plain_book ≢ ok ([], Scheme.rc4 schedule true)
unfolding format_of workbook_stream_name
classify_binary-decrypt_book_example =
    classify_binary-decrypt_book plain_cfb plain_book refl refl refl plain_classified toy password
      [] (Scheme.rc4 schedule true)
