-- ===== src/Agile/Package.antt =====
-- The `EncryptedPackage` stream: `encrypt_package_to` of src/agile_encrypt.rs, and
-- `decrypt_package_to` of src/agile.rs. Loops take fuel, one more than the bytes that are left,
-- and every round takes a byte at least.
pub mod Cut
pub mod Encrypt
pub mod Whole
pub mod Decrypt
pub mod RoundTrip
pub mod Authentic
use msoffice_crypto.Base.{
  ℕ, zero, suc, ◌+◌, ◌-◌, ◌/◌, min, Option, none, some, not, ltb, ◌==◌, if◌then◌else◌, List, [],
  ◌++◌, length, take, drop, replicate,
}
use msoffice_crypto.Base.Bytes.{Bytes, slice, to_le_bytes, from_le_bytes}
use msoffice_crypto.Classification.{HashAlgorithm}
use msoffice_crypto.FileParams.{FileField, FileProblem, Bound}
use msoffice_crypto.Error.{Error, IoError, Result, ok, err, ◌>>=◌, ◌>>◌, reject_if, bad}
use msoffice_crypto.Hash.{Crypto, HmacState, update, update_some}
use msoffice_crypto.Reader.{Reader, Take, read_full}
use msoffice_crypto.Writer.{Written, or_stop}
use msoffice_crypto.Cipher.{aes_block_len, aes_cbc_encrypt_in_place, aes_cbc_decrypt_in_place}
use msoffice_crypto.Segments.{segment_len, Segmenter, Step, fill}
use msoffice_crypto.Segments
use msoffice_crypto.Agile.{AgileParams}
use msoffice_crypto.Integrity.{IntegrityCheck, start, finish}

-- 8 bytes of prefix leave 0x7FFF_FFF0 of a version 3 stream to whole AES blocks.
abbrev pub streamed_package_max : ℕ
streamed_package_max = 0x7FFF_FFF0

unfoldable pub refuse_past_v3_stream : ℕ → Result (Unit {0})
refuse_past_v3_stream len =
    reject_if (ltb streamed_package_max len) (Error.package_too_large len streamed_package_max)

-- The input must be as long as it was measured, neither shorter nor longer.
unfoldable pub held_to_length : Reader → (len read : ℕ) → Result (Unit {0})
held_to_length reader len read = do
  reject_if (ltb read len) (Error.io IoError.unexpected_eof)
  (probe, _) ← read_full reader 1
  reject_if (not (length probe == 0)) (Error.io IoError.invalid_data)

-- A slot of zeros.
abbrev pub empty_slot : Bytes
empty_slot = replicate segment_len 0

-- What the encrypting loop has put out, fed to the HMAC and read; and the source it leaves.
pub record Sealing : Type 0 where
  pub out : Bytes
  pub mac : Option HmacState
  pub read : ℕ
  pub source : Take

module _ (c : Crypto) (key : Bytes) where
  unfoldable pub encrypt_loop :
      ℕ → Segmenter → Take → (slot out : Bytes) → Option HmacState → ℕ → Result Sealing
  encrypt_loop zero s source slot out mac read =
      ok (record { out = out; mac = mac; read = read; source = source })
  encrypt_loop (suc fuel) s source slot out mac read = do
    st ← fill c s source slot
    elim st.filled [
      | none ↦ ok (record { out = out; mac = mac; read = read; source = st.source })
      | some seg ↦ elim (slice st.slot 0 seg.padded_len) [
        | none ↦ err Error.cipher_error
        | some block ↦ do
          sealed ← aes_cbc_encrypt_in_place c block key seg.iv
          encrypt_loop fuel st.segmenter st.source (sealed ++ drop seg.padded_len st.slot)
              (out ++ sealed) (update_some mac sealed) (read + seg.len)
      ]
    ]

-- The stream written, and the HMAC state after it.
unfoldable pub encrypt_package_to :
    Crypto
    → Reader
    → (len : ℕ) → (session_key key_data_salt : Bytes) → HashAlgorithm
    → Option HmacState
    → Result (Bytes × Option HmacState)
encrypt_package_to c reader len session_key key_data_salt hash mac = do
  let prefix = to_le_bytes 8 len
  segmenter ← Segments.new hash key_data_salt aes_block_len
  st ←
      encrypt_loop c session_key (suc len) segmenter (record { inner = reader; limit = len })
        empty_slot prefix (update_some mac prefix) 0
  held_to_length st.source.inner len st.read
  ok (st.out, st.mac)

module _ (c : Crypto) (key : Bytes) where
  unfoldable pub decrypt_loop :
      ℕ
      → Segmenter
      → Take
      → (slot : Bytes) → (remaining : ℕ) → Option HmacState
      → (written : Bytes) → Written (Option HmacState)
  decrypt_loop zero s source slot remaining mac written = (written, ok mac)
  decrypt_loop (suc fuel) s source slot remaining mac written =
      or_stop written (fill c s source slot) λ st. elim st.filled [
        | none ↦ (written, ok mac)
        | some seg ↦ elim (slice st.slot 0 seg.padded_len) [
          | none ↦ (written, err Error.cipher_error)
          | some stored ↦ or_stop written (aes_cbc_decrypt_in_place c stored key seg.iv) λ plain.
              decrypt_loop fuel st.segmenter st.source (plain ++ drop seg.padded_len st.slot)
                (remaining - min remaining seg.len) (update_some mac (take seg.len stored))
                (written ++ take (min remaining seg.len) plain)
        ]
      ]

-- `check.map(IntegrityCheck::start)`.
abbrev pub start_some : Crypto → Option IntegrityCheck → Option HmacState
start_some c none = none
start_some c (some check) = some (start c check)

-- The comparison at the end, where there is one to make.
unfoldable pub finish_some : Crypto → Option IntegrityCheck → Option HmacState → Result (Unit {0})
finish_some c (some check) (some mac) = finish c check mac
finish_some c _ _ = ok tt

-- `stream_len` is what a seek to the end answers, and `reader` the stream read from its start.
unfoldable pub decrypt_package_to :
    Crypto
    → (session_key : Bytes) → AgileParams
    → (stream_len : ℕ) → Reader
    → Option IntegrityCheck
    → Written (Unit {0})
unfolding finish_some
decrypt_package_to c session_key params stream_len reader check =
    let too_short = Error.missing_stream "EncryptedPackage too short" in
    let key_len = params.key_data_key_bits / 8 in
    let data_len = stream_len - 8 in
    or_stop [] (reject_if (ltb stream_len 8) too_short) λ _.
      or_stop [] (read_full reader 8) λ (prefix, body).
        or_stop [] (reject_if (ltb (length prefix) 8) too_short) λ _.
          or_stop []
            (reject_if (not (length session_key == key_len)) (
              bad FileField.session_key
                (FileProblem.disagrees (length session_key) key_len FileField.key_data_key_bits)))
            λ _.
              or_stop []
                (reject_if (ltb data_len (from_le_bytes prefix)) (
                  bad FileField.encrypted_package_size
                    (FileProblem.out_of_range (from_le_bytes prefix) 0 data_len Bound.spec)))
                λ _.
                  or_stop []
                    (Segments.new params.key_data_hash params.outer_salt params.key_data_block_size)
                    λ segmenter.
                      let (written, result) =
                        decrypt_loop c session_key (suc data_len) segmenter
                          (record { inner = body; limit = data_len }) empty_slot
                          (from_le_bytes prefix) (update_some (start_some c check) prefix) [] in
                      or_stop written result λ mac. (written, finish_some c check mac)
