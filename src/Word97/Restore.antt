-- ===== src/Word97/Restore.antt =====
-- The `WordDocument` stream of src/word97.rs, decrypted, and its FIB.
use msoffice_crypto.Base.{
  ℕ, ◌+◌, ◌-◌, ◌^◌, ◌≤◌, ◌≡◌, ap, ◌∙◌, arith, refl, some, false, Option, bit_and, ◌<◌, ◌&&◌, ltb,
  leb, if◌then◌else◌, length, get_elem?,
}
use native.Mathlib.Decide.{dec_lt}
use msoffice_crypto.Base.Bytes.{Bytes, range, to_le_bytes}
use msoffice_crypto.Base.Slots.{
  get_elem?-range, length-range, length-copy_at, copy_at_inside, copy_at_after,
}
use msoffice_crypto.Error.{ok}
use msoffice_crypto.Hash.{Crypto}
use msoffice_crypto.Rc4.{BlockKeySchedule, xor_from}
use msoffice_crypto.Rc4.Blocks.{IsRc4Schedule, block_stream, decrypt_in_blocks_lem, length-xor_from}
use msoffice_crypto.Rc4.Masked.{masked, get_elem?-xor_from}
use msoffice_crypto.BinaryOffice.{FibBase, parse_fib, encrypted, obfuscated, le16, le32}
use msoffice_crypto.Word97.Cleared.{length-clear_fib, clear_fib_at, clear_fib-plain}
use msoffice_crypto.Word97.{
  restore_fib, clear_fib, decrypt_past_fib, decrypt_word_stream, word_block_size,
}

module _ (word plain : Bytes) (e : length plain ≡ length word) (l : 68 ≤ length word) where
  length-fib : length (range word 0 68) ≡ 68
  length-fib = length-range word 0 68 l

  fits : 0 + length (range word 0 68) ≤ length plain
  fits = omega (arith, e, length-fib)

  length-restore_fib : length (restore_fib word plain) ≡ length word
  unfolding restore_fib
  length-restore_fib = length-copy_at plain 0 (range word 0 68) fits ∙ e

  restore_fib_lem :
      (j : ℕ)
      → get_elem? (restore_fib word plain) j
        ≡ (if ltb j 68 then get_elem? word j else get_elem? plain j)
  unfolding restore_fib
  restore_fib_lem j = elim (dec_lt j 68) [
    | yes h ↦
        let inside =
          copy_at_inside plain 0 (range word 0 68) fits j (omega arith)
            (omega (arith, length-fib)) in
        let from = get_elem?-range word 0 68 (j - 0) (omega arith) in
        let there : 0 + (j - 0) ≡ j = omega arith in
        inside ∙ from ∙ ap (get_elem? word) there ∙ ground (arith, h)
    | no h ↦
        copy_at_after plain 0 (range word 0 68) fits j (omega (arith, length-fib))
        ∙ ground (arith, h)
  ]

module _ (c : Crypto) (schedule : BlockKeySchedule) (usable : IsRc4Schedule schedule) where
  abbrev stream : ℕ → ℕ
  stream = block_stream c schedule word_block_size

  abbrev past_fib : Bytes → Bytes
  past_fib word = restore_fib word (xor_from stream 0 word)

  past_fib_lem :
      (word : Bytes) → length word ≤ 2 ^ 32 → decrypt_past_fib c schedule word ≡ ok (past_fib word)
  unfolding decrypt_past_fib
  past_fib_lem word l =
      ground (arith, decrypt_in_blocks_lem c schedule word_block_size usable (omega arith) word l)

  length-past_fib : (word : Bytes) → 68 ≤ length word → length (past_fib word) ≡ length word
  length-past_fib word l =
      length-restore_fib word (xor_from stream 0 word) (length-xor_from stream 0 word) l

  past_fib_at :
      (word : Bytes) (j : ℕ)
      → 68 ≤ length word
      → get_elem? (past_fib word) j
        ≡ (if ltb j 68 then get_elem? word j else masked stream j (get_elem? word j))
  past_fib_at word j l =
      let there : masked stream (0 + j) (get_elem? word j) ≡ masked stream j (get_elem? word j) =
        ap (λ i. masked stream i (get_elem? word j)) (omega arith) in
      restore_fib_lem word (xor_from stream 0 word) (length-xor_from stream 0 word) l j
      ∙ ap (λ o. if ltb j 68 then get_elem? word j else o)
          (get_elem?-xor_from stream 0 word j ∙ there)

  -- Byte by byte, what the FIB keeps, what is cleared in it, and what lies under the keystream.
  abbrev pub plain_at : (flags : ℕ) → Bytes → ℕ → Option ℕ
  plain_at flags word j =
      if leb 10 j && ltb j 12
      then get_elem? (to_le_bytes 2 (bit_and flags 0x7EFF)) (j - 10)
      else if leb 14 j && ltb j 18
      then some 0
      else if ltb j 68
      then get_elem? word j
      else masked (block_stream c schedule 512) j (get_elem? word j)

  plain_at_lem :
      (flags : ℕ) (word : Bytes) (j : ℕ) {o : Option ℕ}
      → o ≡ (if ltb j 68 then get_elem? word j else masked stream j (get_elem? word j))
      → (if leb 10 j && ltb j 12
          then get_elem? (to_le_bytes 2 (bit_and flags 0x7EFF)) (j - 10)
          else if leb 14 j && ltb j 18
          then some 0
          else o)
        ≡ plain_at flags word j
  plain_at_lem flags word j e = rw e refl

  -- For a schedule of keys of 5 to 16 bytes and a stream of 68 to 2^32 bytes: the stream decrypts to
  -- one of the same length, in which bytes 10 and 11 are the flags without `fEncrypted` and
  -- `fObfuscated`, bytes 14 to 17 are 0, the other bytes below 68 are what they were, and every later
  -- byte falls under its own byte of the keystream of 512-byte blocks.
  pub decrypt_word_stream_lem :
      (fib : FibBase) (word : Bytes)
      → 68 ≤ length word
      → length word ≤ 2 ^ 32
      → (plain : Bytes) × (decrypt_word_stream c schedule fib word ≡ ok plain)
        × (length plain ≡ length word)
        × ((j : ℕ) → get_elem? plain j ≡ plain_at fib.flags word j)
  unfolding decrypt_word_stream
  decrypt_word_stream_lem fib word l u =
      let size = length-past_fib word l in
      let long : 68 ≤ length (past_fib word) = rw (size) l in
      (
        clear_fib fib.flags (past_fib word),
        ground (arith, past_fib_lem word u),
        length-clear_fib (past_fib word) fib.flags long ∙ size,
        λ j.
            clear_fib_at (past_fib word) fib.flags long j
            ∙ plain_at_lem fib.flags word j (past_fib_at word j l),
      )

  parse_fib-past_fib :
      (word : Bytes) → 68 ≤ length word → parse_fib (past_fib word) ≡ parse_fib word
  unfolding parse_fib le16 le32
  parse_fib-past_fib word l =
      let same : (j : ℕ) → j < 68 → get_elem? (past_fib word) j ≡ get_elem? word j =
        λ j h. past_fib_at word j l ∙ ground arith in
      rw
        (
          same 0 (omega arith),
          same 1 (omega arith),
          same 10 (omega arith),
          same 11 (omega arith),
          same 14 (omega arith),
          same 15 (omega arith),
          same 16 (omega arith),
          same 17 (omega arith),
        )
        refl

  -- For a schedule of keys of 5 to 16 bytes and a stream of 68 to 2^32 bytes with a FIB: the stream
  -- decrypts, and what comes out has a FIB that says neither encrypted nor obfuscated, and whose
  -- `lKey` is 0.
  pub decrypt_word_stream-plain :
      (word : Bytes) (fib : FibBase)
      → 68 ≤ length word
      → length word ≤ 2 ^ 32
      → parse_fib word ≡ some fib
      → (plain : Bytes) × (read : FibBase) × (decrypt_word_stream c schedule fib word ≡ ok plain)
        × (parse_fib plain ≡ some read)
        × (encrypted read ≡ false)
        × (obfuscated read ≡ false)
        × (read.l_key ≡ 0)
  unfolding decrypt_word_stream
  decrypt_word_stream-plain word fib l u e =
      let long : 68 ≤ length (past_fib word) = rw (length-past_fib word l) l in
      let (read, found, clear, plain, key) =
        clear_fib-plain (past_fib word) fib long (parse_fib-past_fib word l ∙ e) in
      (
        clear_fib fib.flags (past_fib word),
        read,
        ground (arith, past_fib_lem word u),
        found,
        clear,
        plain,
        key,
      )
