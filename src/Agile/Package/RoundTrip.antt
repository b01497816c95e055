-- ===== src/Agile/Package/RoundTrip.antt =====
-- `encrypt_package_to` of src/agile_encrypt.rs and `decrypt_package_to` of src/agile.rs, one after
-- the other.
use msoffice_crypto.Base.{
  suc, ◌-◌, ◌/◌, ◌≤◌, ◌≡◌, refl, sym, ap, ◌∙◌, arith, Option, some, List, [], ◌++◌, length, take,
  drop, length-append, length-replicate, take_all, take_front, drop_front,
}
use msoffice_crypto.Base.Bytes.{Bytes, to_le_bytes, length-to_le_bytes, from_le_bytes-to_le_bytes}
use msoffice_crypto.Error.{ok}
use msoffice_crypto.Hash.{Crypto, HmacState, update_some, hmac_state, update, finalize}
use msoffice_crypto.Hash.Laws.{IsCrypto, IsAesKey}
use msoffice_crypto.Reader.{Event}
use msoffice_crypto.Reader.Full.{NoFailure, read_full-IsFilled}
use msoffice_crypto.Segments.{segment_len, Segmenter}
use msoffice_crypto.Segments.Fill
use msoffice_crypto.Segments.Fill.{segment_iv}
use msoffice_crypto.Agile.{AgileParams}
use msoffice_crypto.Integrity.{IntegrityCheck, start}
use msoffice_crypto.Integrity.Laws.{finish_iff}
use msoffice_crypto.Agile.Package.{
  encrypt_package_to, decrypt_package_to, streamed_package_max, start_some, finish_some, empty_slot,
}
use msoffice_crypto.Agile.Package.Cut.{ciphertext}
use msoffice_crypto.Agile.Package.Encrypt.{update_some-append}
use msoffice_crypto.Agile.Package.Whole.{stream_of, encrypt_package_to_lem}
use msoffice_crypto.Agile.Package.Decrypt.{decrypt_loop-IsOpened, length-ciphertext}

pub found-payload :
    (prefix ct : Bytes)
    → length prefix ≡ 8
    → take (length (prefix ++ ct) - 8) (drop 8 (prefix ++ ct)) ≡ ct
found-payload prefix ct h = ground (
  arith,
  length-append prefix ct,
  drop_front prefix ct 8 (sym h),
  take_all (length (prefix ++ ct) - 8) ct,
)

module _ (c : Crypto) (laws : IsCrypto c) (key : Bytes) (k : IsAesKey key) (params : AgileParams)
    (fits : params.key_data_key_bits / 8 ≡ length key)
    (block : params.key_data_block_size ≡ 16) where
  abbrev pub sealed : Bytes → Bytes
  sealed p = stream_of c key params.outer_salt params.key_data_hash p

  -- What `decrypt_package_to` leaves on a stream written for `p`: `p`, and the verdict of the check.
  pub decrypt_package_to_lem :
      (p : Bytes) (events : List Event) (check : Option IntegrityCheck)
      → NoFailure events
      → length p ≤ streamed_package_max
      → decrypt_package_to c key params
          (length (sealed p))
          (record { content = sealed p; schedule = events })
          check
        ≡ (p, finish_some c check (update_some (start_some c check) (sealed p)))
  unfolding decrypt_package_to
  decrypt_package_to_lem p events check calm small =
      let prefix = to_le_bytes 8 (length p) in
      let s : Segmenter = record {
        hash = params.key_data_hash;
        salt = params.outer_salt;
        block_size = 16;
        next_index = some 0;
      } in
      let ct = ciphertext c key (segment_iv c s) (suc (length p)) 0 p in
      let filled = read_full-IsFilled (record { content = sealed p; schedule = events }) 8 calm in
      let size = length-append prefix ct in
      let front = length-to_le_bytes 8 (length p) in
      let found = found-payload prefix ct front in
      let opened =
        decrypt_loop-IsOpened c laws key k (suc (length (sealed p) - 8)) (suc (length p)) 0 s
          (record {
            inner = record { content = drop 8 (sealed p); schedule = filled.events };
            limit = length (sealed p) - 8;
          })
          empty_slot p (update_some (start_some c check) prefix) [] refl refl filled.calm
          (length-replicate segment_len 0) found (omega arith)
          (omega (arith, ap length found, size, front)) (omega arith) in
      ground (
        arith,
        filled.returns,
        size,
        front,
        length-ciphertext c laws key (segment_iv c s) (suc (length p)) 0 p,
        from_le_bytes-to_le_bytes 8 (length p),
        take_front prefix ct 8 (sym front),
        Fill.new_lem params.key_data_hash params.outer_salt,
        opened,
        found,
        update_some-append (start_some c check) prefix ct,
      )

  encrypt_whole :
      (p hmac_key : Bytes) (events : List Event)
      → NoFailure events
      → length p ≤ streamed_package_max
      → encrypt_package_to c
          (record { content = p; schedule = events })
          (length p)
          key
          params.outer_salt
          params.key_data_hash
          (some (hmac_state params.key_data_hash hmac_key))
        ≡ ok (sealed p, some (update (hmac_state params.key_data_hash hmac_key) (sealed p)))
  unfolding update_some
  encrypt_whole p hmac_key events calm small = ground (
    arith,
    encrypt_package_to_lem c laws key params.outer_salt params.key_data_hash
        (record { content = p; schedule = events }) (length p)
        (some (hmac_state params.key_data_hash hmac_key)) k calm,
    take_all (length p) p,
  )

  -- Under an AES key, for parameters that name its width and a block size of 16: a payload of
  -- at most 0x7FFFFFF0 bytes that `encrypt_package_to` encrypts, `decrypt_package_to` writes
  -- out again, and the HMAC over the stream passes, whatever short and interrupted reads two
  -- sources make that do not fail.
  pub decrypt-encrypt_package_to :
      (p hmac_key : Bytes) (events events' : List Event)
      → NoFailure events
      → NoFailure events'
      → length p ≤ streamed_package_max
      → (stream : Bytes) × (mac : HmacState) × (encrypt_package_to c
            (record { content = p; schedule = events })
            (length p)
            key
            params.outer_salt
            params.key_data_hash
            (some (hmac_state params.key_data_hash hmac_key))
          ≡ ok (stream, some mac))
        × (decrypt_package_to c key params
              (length stream)
              (record { content = stream; schedule = events' })
              (some (record {
                hash = params.key_data_hash;
                hmac_key = hmac_key;
                expected = finalize c mac;
              }))
            ≡ (p, ok tt))
  unfolding start finish_some update_some
  decrypt-encrypt_package_to p hmac_key events events' calm calm' small =
      let mac = update (hmac_state params.key_data_hash hmac_key) (sealed p) in
      let check : IntegrityCheck = record {
        hash = params.key_data_hash;
        hmac_key = hmac_key;
        expected = finalize c mac;
      } in
      (
        sealed p,
        mac,
        encrypt_whole p hmac_key events calm small,
        decrypt_package_to_lem p events' (some check) calm' small
            ∙ ap (λ r. (p, r)) ((finish_iff c check mac).1 refl),
      )
