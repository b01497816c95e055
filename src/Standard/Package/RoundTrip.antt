-- ===== src/Standard/Package/RoundTrip.antt =====
-- The two package functions of src/standard_encrypt.rs and src/standard.rs, one after the other.
use msoffice_crypto.Base.{
  ℕ, suc, ◌+◌, ◌-◌, ◌^◌, ◌<◌, ◌≡◌, sym, ap, arith, List, [], ◌++◌, length, take, drop,
  length-append, length-replicate, length-take, take_all, take_front,
}
use msoffice_crypto.Base.Bytes.{Bytes, to_le_bytes, length-to_le_bytes, from_le_bytes-to_le_bytes}
use msoffice_crypto.Error.{ok, ◌>>=◌}
use msoffice_crypto.Hash.{Crypto}
use msoffice_crypto.Hash.Laws.{IsCrypto, IsAesKey}
use msoffice_crypto.Reader.{Reader, Event}
use msoffice_crypto.Reader.Full.{NoFailure, read_full-IsFilled}
use msoffice_crypto.Segments.{segment_len}
use msoffice_crypto.Agile.Package.{empty_slot}
use msoffice_crypto.Agile.Package.Cut.{ciphertext_fuel}
use msoffice_crypto.Agile.Package.Whole.{held, held_to_length_lem}
use msoffice_crypto.Agile.Package.Decrypt.{length-ciphertext}
use msoffice_crypto.Agile.Package.RoundTrip.{found-payload}
use msoffice_crypto.Standard.Package.{encrypt_package, decrypt_package}
use msoffice_crypto.Standard.Package.Chunks.{ecb_view, ecb_view-IsCrypto, no_iv, ecb_text}
use msoffice_crypto.Standard.Package.Encrypt.{encrypt_chunks-IsEcbSealed}
use msoffice_crypto.Standard.Package.Decrypt.{decrypt_chunks_lem}

module _ (c : Crypto) (laws : IsCrypto c) (key : Bytes) (k : IsAesKey key) where
  -- The length in 8 bytes, then the chunks.
  abbrev pub ecb_stream : Bytes → Bytes
  ecb_stream p = to_le_bytes 8 (length p) ++ ecb_text c key (suc (length p)) 0 p

  -- On a source that does not fail: where it has the promised length, `encrypt_package_to` returns the
  -- length prefix and the chunks, each padded and encrypted by itself; a shorter source is
  -- `UnexpectedEof`, and a longer one `InvalidData`.
  pub encrypt_package_lem :
      (reader : Reader) (len : ℕ)
      → NoFailure reader.schedule
      → encrypt_package c reader len key
        ≡ (held len reader.content >>= λ _. ok (ecb_stream (take len reader.content)))
  unfolding encrypt_package
  encrypt_package_lem reader len calm =
      let prefix = to_le_bytes 8 len in
      let got = take len reader.content in
      let sealed =
        encrypt_chunks-IsEcbSealed c laws key k (suc len) 0 (record { inner = reader; limit = len })
          empty_slot prefix 0 calm (length-replicate segment_len 0)
          (omega (arith, length-take len reader.content)) in
      let held' =
        held_to_length_lem sealed.last.inner len (0 + length got) reader.content sealed.calm
          sealed.rest (omega (arith, length-take len reader.content)) in
      ground (
        arith,
        sealed.returns,
        held',
        length-take len reader.content,
        ciphertext_fuel (ecb_view c) key no_iv (suc len) (suc (length got)) 0 got,
      )

  decrypt_package_lem :
      (p : Bytes) (events : List Event)
      → NoFailure events
      → length p < 2 ^ 64
      → decrypt_package c key
          (length (ecb_stream p))
          (record { content = ecb_stream p; schedule = events })
        ≡ (p, ok tt)
  unfolding decrypt_package
  decrypt_package_lem p events calm small =
      let prefix = to_le_bytes 8 (length p) in
      let text = ecb_text c key (suc (length p)) 0 p in
      let filled =
        read_full-IsFilled (record { content = ecb_stream p; schedule = events }) 8 calm in
      let size = length-append prefix text in
      let front = length-to_le_bytes 8 (length p) in
      let found = found-payload prefix text front in
      let opened =
        decrypt_chunks_lem c laws key k (suc (length (ecb_stream p) - 8)) (suc (length p)) 0
          (record {
            inner = record { content = drop 8 (ecb_stream p); schedule = filled.events };
            limit = length (ecb_stream p) - 8;
          })
          empty_slot p [] filled.calm (length-replicate segment_len 0) found (omega arith)
          (omega (arith, ap length found, size, front)) in
      ground (
        arith,
        filled.returns,
        size,
        front,
        length-ciphertext (ecb_view c) (ecb_view-IsCrypto c laws) key no_iv (suc (length p)) 0 p,
        from_le_bytes-to_le_bytes 8 (length p),
        take_front prefix text 8 (sym front),
        opened,
      )

  -- Under an AES key, a payload of less than 2^64 bytes that `encrypt_package_to` of standard
  -- encryption encrypts, its `decrypt_package_to` writes out again, whatever short and interrupted
  -- reads two sources make that do not fail.
  pub decrypt_package-encrypt_package :
      (p : Bytes) (events events' : List Event)
      → NoFailure events
      → NoFailure events'
      → length p < 2 ^ 64
      → (stream : Bytes) × (encrypt_package c
            (record { content = p; schedule = events })
            (length p)
            key
          ≡ ok stream)
        × (decrypt_package c key (length stream) (record { content = stream; schedule = events' })
            ≡ (p, ok tt))
  decrypt_package-encrypt_package p events events' calm calm' small = (
    ecb_stream p,
    ground (
      arith,
      encrypt_package_lem (record { content = p; schedule = events }) (length p) calm,
      take_all (length p) p,
    ),
    decrypt_package_lem p events' calm' small,
  )
