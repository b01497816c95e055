-- ===== src/Agile/Package/Whole.antt =====
-- `encrypt_package_to` of src/agile_encrypt.rs as a whole, with the check of the promised length.
use msoffice_crypto.Base.{
  ℕ, suc, ◌+◌, ◌^◌, ◌≤◌, min, ◌≡◌, refl, ap, arith, Option, some, ◌++◌, ltb, if◌then◌else◌, length,
  take, drop, length-replicate, length-take, length-drop,
}
use msoffice_crypto.Base.Bytes.{Bytes, to_le_bytes}
use msoffice_crypto.Error.{Error, IoError, Result, ok, err, ◌>>=◌}
use msoffice_crypto.Hash.{Crypto, HmacState, update_some, digest_two, fit_iv}
use msoffice_crypto.Hash.Laws.{IsCrypto, IsAesKey}
use msoffice_crypto.Reader.{Reader}
use msoffice_crypto.Reader.Full.{NoFailure, read_full-IsFilled}
use msoffice_crypto.Segments.{segment_len, Segmenter}
use msoffice_crypto.Segments.Fill.{
  padded, length-padded, segment_iv, upcoming, after, IsSegment, fill-IsSegment, fill-IsEnd,
  length-upcoming,
}
use msoffice_crypto.Classification.{HashAlgorithm}
use msoffice_crypto.Segments.Fill
use msoffice_crypto.Agile.Package.{encrypt_package_to, held_to_length, empty_slot}
use msoffice_crypto.Agile.Package.Cut.{ciphertext, ciphertext_fuel}
use msoffice_crypto.Agile.Package.Encrypt.{update_some-append, encrypt_loop-IsSealed}

-- The `EncryptedPackage` stream: the length in 8 bytes, then the segments.
abbrev pub stream_of : Crypto → (key salt : Bytes) → HashAlgorithm → Bytes → Bytes
stream_of c key salt hash p =
    to_le_bytes 8 (length p)
    ++ ciphertext c key (λ index. fit_iv (digest_two c hash salt (to_le_bytes 4 index)) 16)
        (suc (length p)) 0 p

-- A payload held against the length it was promised.
abbrev pub held : ℕ → Bytes → Result (Unit {0})
held len content =
    if ltb (length content) len
    then err (Error.io IoError.unexpected_eof)
    else if ltb len (length content)
    then err (Error.io IoError.invalid_data)
    else ok tt

pub held_to_length_lem :
    (reader : Reader) (len read : ℕ) (content : Bytes)
    → NoFailure reader.schedule
    → reader.content ≡ drop len content
    → read ≡ min len (length content)
    → held_to_length reader len read ≡ held len content
unfolding held_to_length
held_to_length_lem reader len read content calm e r =
    let filled = read_full-IsFilled reader 1 calm in
    ground
      (arith, filled.returns, length-take 1 reader.content, length-drop len content, ap length e)

-- Under an AES key, on a source that does not fail, for a promised length of at most 2^44:
-- where the source has that length, `encrypt_package_to` returns the length prefix and the
-- segments, each padded and encrypted under the vector of its index, and the HMAC is fed the
-- same bytes; a shorter source is `UnexpectedEof`, and a longer one `InvalidData`.
pub encrypt_package_to_lem :
    (c : Crypto) (laws : IsCrypto c) (key salt : Bytes) (hash : HashAlgorithm) (reader : Reader)
    (len : ℕ) (mac : Option HmacState)
    → IsAesKey key
    → NoFailure reader.schedule
    → len ≤ 2 ^ 44
    → encrypt_package_to c reader len key salt hash mac ≡ (
        held len reader.content >>= λ _. ok (
          stream_of c key salt hash (take len reader.content),
          update_some mac (stream_of c key salt hash (take len reader.content)),
        ))
unfolding encrypt_package_to
encrypt_package_to_lem c laws key salt hash reader len mac k calm b =
    let prefix = to_le_bytes 8 len in
    let s : Segmenter = record { hash = hash; salt = salt; block_size = 16; next_index = some 0 } in
    let sealed =
      encrypt_loop-IsSealed c laws key k (suc len) 0 s (record { inner = reader; limit = len })
        empty_slot prefix (update_some mac prefix) 0 refl refl calm (length-replicate segment_len 0)
        (omega (arith, length-take len reader.content))
        (omega (arith, length-take len reader.content)) in
    let held' =
      held_to_length_lem sealed.last.inner len (0 + length (take len reader.content)) reader.content
        sealed.calm sealed.rest (omega (arith, length-take len reader.content)) in
    ground (
      arith,
      Fill.new_lem hash salt,
      sealed.returns,
      held',
      length-take len reader.content,
      ciphertext_fuel c key (segment_iv c s) (suc len) (suc (length (take len reader.content))) 0
          (take len reader.content),
      update_some-append mac prefix
          (ciphertext c key (segment_iv c s) (suc len) 0 (take len reader.content)),
    )
