-- ===== src/Examples/Ooxml.antt =====
-- The theorems on whole files at a concrete input.
use msoffice_crypto.Base.{
  ◌≡◌, ◌∙◌, refl, ap, true, false, Option, none, some, [], ◌∷◌, ◌++◌, length, take, drop,
}
use msoffice_crypto.Base.Bytes.{Bytes}
use msoffice_crypto.Error.{Result, ok}
use msoffice_crypto.Reader.{Reader, read_full, read_full_events, read_capped}
use msoffice_crypto.Integrity.{IntegrityPolicy, IntegrityOutcome, ct_eq}
use msoffice_crypto.BinaryOffice.{StreamName}
use msoffice_crypto.BinaryDecrypt.{is_cfb_office}
use msoffice_crypto.DataSpaces.{rights_management_in, names_in, any_is}
use msoffice_crypto.Classify.{read_encryption_info_in}
use msoffice_crypto.Agile.{AgileParams}
use msoffice_crypto.Agile.Open.RoundTrip.{read_sealed}
use msoffice_crypto.OoxmlDecrypt.{
  OpenFile, OpenPackage, PackageStream, decrypt_ooxml_core, open_streams, open_file, open_package,
  check_ceiling,
}
use msoffice_crypto.OoxmlDecrypt.RoundTrip.{agile_header, core_lem}
use msoffice_crypto.OoxmlDecrypt.Policy.{IsKept, decrypt_ooxml_core-IsKept}
use msoffice_crypto.Examples.{package_bytes, password, ragged, opening, sealed_package}
use msoffice_crypto.Examples.Toy.{toy}

abbrev signature : Bytes
signature = 0xD0 ∷ 0xCF ∷ 0x11 ∷ 0xE0 ∷ 0xA1 ∷ 0xB1 ∷ 0x1A ∷ 0xE1 ∷ []

abbrev whole_file : Reader
whole_file = record { content = signature ++ (0 ∷ []); schedule = [] }

abbrev rest_of_file : Reader
rest_of_file = record { content = 0 ∷ []; schedule = [] }

-- The only stream by name is `EncryptionInfo`.
abbrev streams : StreamName → Option Reader
streams StreamName.encryption_info = some (record { content = agile_header; schedule = [] })
streams other = none

abbrev package_stream : PackageStream
package_stream = record {
  len = length sealed_package.stream;
  first = record { content = sealed_package.stream; schedule = ragged };
  second = record { content = sealed_package.stream; schedule = [] };
}

abbrev agile_file : OpenFile
agile_file = OpenFile.container (record {
  cfb = record { exists = λ name. false; open_stream = streams; is_stream = λ name. false };
  stream = OpenPackage.opened package_stream;
})

abbrev parsed_as_sealed : Bytes → Result AgileParams
parsed_as_sealed xml = ok (read_sealed sealed_package)

magic_read : read_full whole_file 8 ≡ ok (signature, rest_of_file)
unfolding read_full read_full_events take drop
magic_read = refl

signature_accepted : is_cfb_office signature ≡ true
unfolding is_cfb_office ct_eq take
signature_accepted = refl

streams_open : open_streams agile_file none ≡ ok (agile_header ++ [], package_stream)
unfolding open_streams open_file open_package check_ceiling rights_management_in names_in any_is
    read_encryption_info_in read_capped take
streams_open = refl

opened_core :
    decrypt_ooxml_core toy parsed_as_sealed whole_file agile_file password IntegrityPolicy.require
      none
    ≡ (package_bytes, ok IntegrityOutcome.verified)
opened_core =
    core_lem toy parsed_as_sealed whole_file rest_of_file signature [] agile_file none
      package_stream (read_sealed sealed_package) password IntegrityPolicy.require magic_read
      signature_accepted streams_open refl
    ∙ opening.2

decrypt_ooxml_core-IsKept_example : IsKept IntegrityPolicy.require IntegrityOutcome.verified
decrypt_ooxml_core-IsKept_example =
    decrypt_ooxml_core-IsKept toy parsed_as_sealed whole_file agile_file password
      IntegrityPolicy.require none IntegrityOutcome.verified (ap (λ w. w.1) opened_core)
