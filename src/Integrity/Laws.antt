-- ===== src/Integrity/Laws.antt =====
-- The comparison, the check and the blobs of src/integrity.rs.
use msoffice_crypto.Base.{
  ℕ, ◌-◌, ◌%◌, ◌≡◌, ◌↔◌, ◌⊎◌, inl, inr, Bool-cases, refl, arith, true, [], ◌∷◌, length, replicate,
  length-append, length-replicate, take_front,
}
use msoffice_crypto.Base.Bytes.{Bytes}
use msoffice_crypto.Classification.{HashAlgorithm}
use msoffice_crypto.Error.{Error, ok, err}
use msoffice_crypto.FileParams.{FileField}
use msoffice_crypto.Hash.{Crypto, digest_len, digest_two, fit_iv, derive_iv, HmacState, finalize}
use msoffice_crypto.Hash.Laws.{IsCrypto, IsAesKey, derive_iv_lem, digest_len_bounds, length-fit_iv}
use msoffice_crypto.Cipher.Laws.{cbc_encrypt_lem, cbc_decrypt_lem}
use msoffice_crypto.Integrity.{
  ct_eq, IntegrityMaterial, IntegrityCheck, IntegrityBlobs, unwrap_blob, new, finish, seal,
  zero_padded, padded_len, block_data_integrity_key, block_data_integrity_value,
}

pub ct_eq_refl : (a : Bytes) → ct_eq a a ≡ true
unfolding ct_eq
ct_eq_refl [] = refl
ct_eq_refl (x ∷ a) = ground (arith, ct_eq_refl a)

pub ct_eq→eq : (a b : Bytes) → ct_eq a b ≡ true → a ≡ b
unfolding ct_eq
ct_eq→eq [] [] h = refl
ct_eq→eq [] (y ∷ b) h = cc
ct_eq→eq (x ∷ a) [] h = cc
ct_eq→eq (x ∷ a) (y ∷ b) h = ground (arith, ct_eq→eq a b)

length-zero_padded :
    (b : Bytes) → length (zero_padded b (padded_len (length b) 16)) ≡ padded_len (length b) 16
length-zero_padded b = omega (
  arith,
  length-append b (replicate (padded_len (length b) 16 - length b) 0),
  length-replicate {A = ℕ} (padded_len (length b) 16 - length b) 0,
)

module _ (c : Crypto) (laws : IsCrypto c) (session_key : Bytes) (k : IsAesKey session_key) where
  -- A blob of `b`, zero-padded and encrypted.
  abbrev pub blob_of : (iv b : Bytes) → Bytes
  blob_of iv b = c.cbc_encrypt session_key iv (zero_padded b (padded_len (length b) 16))

  pub unwrap_blob_lem :
      (b iv : Bytes) (n : ℕ) (field : FileField)
      → length iv ≡ 16
      → length b ≡ n
      → unwrap_blob c session_key (blob_of iv b) iv n field ≡ ok b
  unfolding unwrap_blob
  unwrap_blob_lem b iv n field v e =
      let w : length (zero_padded b (padded_len (length b) 16)) % 16 ≡ 0 =
        omega (arith, length-zero_padded b) in
      ground (
        arith,
        length-zero_padded b,
        laws.length-cbc_encrypt session_key iv (zero_padded b (padded_len (length b) 16)) w,
        cbc_decrypt_lem c session_key iv (blob_of iv b) k v,
        laws.cbc_decrypt-encrypt session_key iv (zero_padded b (padded_len (length b) 16)) k v w,
        take_front b (replicate (padded_len (length b) 16 - length b) 0) n,
      )

  module _ (hash : HashAlgorithm) (salt : Bytes) where
    -- The vectors of the two blobs.
    abbrev pub blob_iv : Bytes → Bytes
    blob_iv block = fit_iv (digest_two c hash salt block) 16

    blob_iv_lem : (block : Bytes) → derive_iv c hash salt block 16 ≡ ok (blob_iv block)
    blob_iv_lem block = derive_iv_lem c laws hash salt block 16 (digest_len_bounds hash).0

    abbrev pub sealed : (hmac_key tag : Bytes) → IntegrityBlobs
    sealed hmac_key tag = record {
      encrypted_hmac_key = blob_of (blob_iv block_data_integrity_key) hmac_key;
      encrypted_hmac_value = blob_of (blob_iv block_data_integrity_value) tag;
    }

    pub seal_lem :
        (hmac_key : Bytes) (mac : HmacState)
        → seal c session_key hash salt 16 hmac_key mac ≡ ok (sealed hmac_key (finalize c mac))
    unfolding seal
    seal_lem hmac_key mac =
        let tag = finalize c mac in
        ground (
          arith,
          blob_iv_lem block_data_integrity_key,
          blob_iv_lem block_data_integrity_value,
          length-zero_padded hmac_key,
          length-zero_padded tag,
          length-fit_iv (digest_two c hash salt block_data_integrity_key) 16,
          length-fit_iv (digest_two c hash salt block_data_integrity_value) 16,
          cbc_encrypt_lem c session_key (blob_iv block_data_integrity_key)
              (zero_padded hmac_key (padded_len (length hmac_key) 16)) k,
          cbc_encrypt_lem c session_key (blob_iv block_data_integrity_value)
              (zero_padded tag (padded_len (length tag) 16)) k,
        )

    abbrev pub material : IntegrityBlobs → IntegrityMaterial
    material blobs = record {
      key_data_salt = salt;
      block_size = 16;
      hash_size = digest_len hash;
      hash = hash;
      encrypted_hmac_key = blobs.encrypted_hmac_key;
      encrypted_hmac_value = blobs.encrypted_hmac_value;
    }

    pub new_lem :
        (hmac_key tag : Bytes)
        → length hmac_key ≡ digest_len hash
        → length tag ≡ digest_len hash
        → new c session_key (material (sealed hmac_key tag))
          ≡ ok (record { hash = hash; hmac_key = hmac_key; expected = tag })
    unfolding new
    new_lem hmac_key tag p q = ground (
      arith,
      blob_iv_lem block_data_integrity_key,
      blob_iv_lem block_data_integrity_value,
      unwrap_blob_lem hmac_key (blob_iv block_data_integrity_key) (digest_len hash)
          FileField.encrypted_hmac_key
          (length-fit_iv (digest_two c hash salt block_data_integrity_key) 16) p,
      unwrap_blob_lem tag (blob_iv block_data_integrity_value) (digest_len hash)
          FileField.encrypted_hmac_value
          (length-fit_iv (digest_two c hash salt block_data_integrity_value) 16) q,
    )

    -- Under an AES key and with an HMAC key of the digest's length, what `seal` writes for a
    -- message, `IntegrityCheck::new` reads back: the same HMAC key, and the tag of the message.
    pub new-seal :
        (hmac_key message : Bytes)
        → length hmac_key ≡ digest_len hash
        → (blobs : IntegrityBlobs) × (seal c session_key hash salt 16 hmac_key
              (record { hash = hash; key = hmac_key; message = message })
            ≡ ok blobs)
          × (new c session_key (material blobs)
              ≡ ok (record {
                hash = hash;
                hmac_key = hmac_key;
                expected = c.hmac hash hmac_key message;
              }))
    unfolding finalize
    new-seal hmac_key message p =
        let mac : HmacState = record { hash = hash; key = hmac_key; message = message } in
        let tag = c.hmac hash hmac_key message in
        (
          sealed hmac_key tag,
          seal_lem hmac_key mac,
          new_lem hmac_key tag p (laws.length-hmac hash hmac_key message),
        )

-- A check passes exactly when the tag of what was read is the stored one.
pub finish_iff :
    (c : Crypto) (check : IntegrityCheck) (mac : HmacState)
    → (finish c check mac ≡ ok tt) ↔ (finalize c mac ≡ check.expected)
unfolding finish
finish_iff c check mac =
    (λ h. ct_eq→eq (finalize c mac) check.expected (ground arith), λ e. rw e (rw ct_eq_refl refl))

-- Any other answer of a check is `IntegrityCheckFailed`.
pub finish_cases :
    (c : Crypto) (check : IntegrityCheck) (mac : HmacState)
    → (finish c check mac ≡ ok tt) ⊎ (finish c check mac ≡ err Error.integrity_check_failed)
unfolding finish
finish_cases c check mac = elim (Bool-cases (ct_eq (finalize c mac) check.expected)) [
  | inl e ↦ inl (rw e refl)
  | inr e ↦ inr (rw e refl)
]
