-- ===== src/BinaryDecrypt.antt =====
-- `decrypt_binary_office` and `is_cfb_office` of src/lib.rs.
use msoffice_crypto.Base.{ℕ, Bool, not, leb, ◌&&◌, Option, none, some, List, [], ◌∷◌, length, take}
use msoffice_crypto.Base.Bytes.{Bytes}
use msoffice_crypto.Error.{Error, Result, err, ◌>>=◌, ◌>>◌, reject_if}
use msoffice_crypto.Integrity.{ct_eq}
use msoffice_crypto.Hash.{Crypto}
use msoffice_crypto.BinaryOffice.{BinaryFormat, format_of}
use msoffice_crypto.LegacyContainer.{CompoundFile}
use msoffice_crypto.DataSpaces.{rights_management_in}
use msoffice_crypto.Word97
use msoffice_crypto.Excel97
use msoffice_crypto.PowerPoint97

unfoldable pub is_cfb_office : Bytes → Bool
is_cfb_office data' =
    leb 8 (length data')
    && ct_eq (take 8 data') (0xD0 ∷ 0xCF ∷ 0x11 ∷ 0xE0 ∷ 0xA1 ∷ 0xB1 ∷ 0x1A ∷ 0xE1 ∷ [])

abbrev pub is_managed : {A : Type 0} → Option A → Bool
is_managed none = Bool.false
is_managed (some kind) = Bool.true

-- `open` and `into_bytes` are what the `cfb` crate makes of a buffer and of a container.
module _ {S : Type 0} (file : CompoundFile S) (c : Crypto) (open_container : Bytes → Result S)
    (into_bytes : S → Result Bytes) where
  -- The decryption that the format asks for.
  unfoldable pub decrypt_format : Option BinaryFormat → S → (password : List ℕ) → Result S
  decrypt_format none s password =
      err (Error.missing_stream "WordDocument, Workbook or PowerPoint Document")
  decrypt_format (some BinaryFormat.word) s password = Word97.decrypt file c s password
  decrypt_format (some BinaryFormat.excel) s password = Excel97.decrypt file c s password
  decrypt_format (some BinaryFormat.power_point) s password = PowerPoint97.decrypt file c s password

  unfoldable pub decrypt_binary_office : (data' : Bytes) → (password : List ℕ) → Result Bytes
  decrypt_binary_office data' password = do
    reject_if (not (is_cfb_office data')) Error.not_a_cfb_file
    s ← open_container data'
    reject_if (is_managed (rights_management_in (file.cfb s))) (
        Error.unsupported_encrypted_content
          "rights-managed (IRM) content, whose key a rights-management server holds; no password opens it")
    s' ← decrypt_format (format_of (file.cfb s)) s password
    into_bytes s'
