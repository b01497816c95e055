-- ===== src/Standard/Package.antt =====
-- The `EncryptedPackage` stream of standard encryption: `encrypt_package_to` of
-- src/standard_encrypt.rs and `decrypt_package_to` of src/standard.rs, 4096 bytes at a time under
-- AES-ECB. Loops take fuel, one more than the bytes that are left.
pub mod Chunks
pub mod Encrypt
pub mod Decrypt
pub mod RoundTrip
use msoffice_crypto.Base.{
  ℕ, zero, suc, ◌+◌, ◌-◌, ◌*◌, ◌/◌, min, not, ltb, ◌==◌, if◌then◌else◌, Option, none, some, List,
  [], ◌++◌, length, take, drop, replicate,
}
use msoffice_crypto.Base.Bytes.{Bytes, slice, to_le_bytes, from_le_bytes}
use msoffice_crypto.FileParams.{FileField, FileProblem, Bound}
use msoffice_crypto.Error.{Error, Result, ok, err, ◌>>=◌, ◌>>◌, reject_if, bad}
use msoffice_crypto.Hash.{Crypto}
use msoffice_crypto.Reader.{Reader, Take, read_full, read_full_take}
use msoffice_crypto.Writer.{Written, or_stop}
use msoffice_crypto.Cipher.{aes_ecb_encrypt_in_place, aes_ecb_decrypt_in_place}
use msoffice_crypto.Segments.{segment_len, round_up_block, slot_with}
use msoffice_crypto.Agile.Package.{held_to_length, empty_slot}

-- What the encrypting loop has put out and read, and the source it leaves.
pub record EcbSealing : Type 0 where
  pub out : Bytes
  pub read : ℕ
  pub source : Take

-- `block` with everything from `len` on filled with zeros.
abbrev pub zeroed_from : (len : ℕ) → Bytes → Bytes
zeroed_from len block = take len block ++ replicate (length block - len) 0

module _ (c : Crypto) (key : Bytes) where
  unfoldable pub encrypt_chunks : ℕ → Take → (slot out : Bytes) → ℕ → Result EcbSealing
  encrypt_chunks zero source slot out read = ok (record { out = out; read = read; source = source })
  encrypt_chunks (suc fuel) source slot out read = do
    (got, source') ← read_full_take source segment_len
    let n = length got
    let buf = slot_with got slot
    if n == 0
        then ok (record { out = out; read = read; source = source' })
        else elim (slice buf 0 (round_up_block n)) [
          | none ↦ err Error.cipher_error
          | some block ↦ do
            sealed ← aes_ecb_encrypt_in_place c key (zeroed_from n block)
            encrypt_chunks fuel source' (sealed ++ drop (round_up_block n) buf) (out ++ sealed)
                (read + n)
        ]

  unfoldable pub decrypt_chunks :
      ℕ → Take → (slot : Bytes) → (remaining : ℕ) → (written : Bytes) → Written (Unit {0})
  decrypt_chunks zero source slot remaining written = (written, ok tt)
  decrypt_chunks (suc fuel) source slot remaining written =
      or_stop written (read_full_take source segment_len) λ (got, source').
        let len = length got in
        let buf = slot_with got slot in
        if len == 0 then (written, ok tt) else elim (slice buf 0 (round_up_block len)) [
          | none ↦ (written, err Error.cipher_error)
          | some block ↦
              or_stop written (aes_ecb_decrypt_in_place c key (zeroed_from len block)) λ plain.
                decrypt_chunks fuel source' (plain ++ drop (round_up_block len) buf)
                  (remaining - min remaining len) (written ++ take (min remaining len) plain)
        ]

-- `standard_encrypt::encrypt_package_to`: the stream written.
unfoldable pub encrypt_package : Crypto → Reader → (len : ℕ) → (key : Bytes) → Result Bytes
encrypt_package c reader len key = do
  st ←
      encrypt_chunks c key (suc len) (record { inner = reader; limit = len }) empty_slot
        (to_le_bytes 8 len) 0
  held_to_length st.source.inner len st.read
  ok st.out

-- `standard::decrypt_package_to`; `stream_len` is what a seek to the end answers.
unfoldable pub decrypt_package :
    Crypto → (key : Bytes) → (stream_len : ℕ) → Reader → Written (Unit {0})
decrypt_package c key stream_len reader =
    let too_short = Error.missing_stream "EncryptedPackage too short" in
    let data_len = stream_len - 8 in
    or_stop [] (reject_if (ltb stream_len 8) too_short) λ _.
      or_stop [] (read_full reader 8) λ (prefix, body).
        or_stop [] (reject_if (ltb (length prefix) 8) too_short) λ _.
          or_stop []
            (reject_if (ltb data_len (from_le_bytes prefix)) (
              bad FileField.encrypted_package_size
                (FileProblem.out_of_range (from_le_bytes prefix) 0 data_len Bound.spec)))
            λ _.
              decrypt_chunks c key (suc data_len) (record { inner = body; limit = data_len })
                empty_slot (from_le_bytes prefix) []
