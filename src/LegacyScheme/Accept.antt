-- ===== src/LegacyScheme/Accept.antt =====
-- The schedules that a password opens in src/word97.rs and src/excel97.rs.
use msoffice_crypto.Base.{
  ℕ, ◌≡◌, sym, arith, inl, inr, Bool, Bool-cases, leb, ◌&&◌, ◌==◌, Option-cases, List,
}
use msoffice_crypto.Base.Bytes.{Bytes}
use msoffice_crypto.Error.{ok, Result-cases}
use msoffice_crypto.Hash.{Crypto}
use msoffice_crypto.Hash.Laws.{IsCrypto}
use msoffice_crypto.Rc4.{BlockKeySchedule}
use msoffice_crypto.Rc4.Blocks.{IsRc4Schedule}
use msoffice_crypto.Rc4Office97.{parse_office97, new_office97, office97_block_key}
use msoffice_crypto.Rc4Office97.Check.{office97_block_key-IsRc4Schedule}
use msoffice_crypto.Rc4Cryptoapi.{parse_cryptoapi, cryptoapi_block_key}
use msoffice_crypto.Rc4Cryptoapi.Check.{new_cryptoapi-parse_cryptoapi}
use msoffice_crypto.LegacyScheme.{version_of, office97_schedule, cryptoapi_schedule, schedule_of}

module _ (c : Crypto) (laws : IsCrypto c) (password : List ℕ) (structure : Bytes)
    (schedule : BlockKeySchedule) (clear : Bool) where
  office97_usable :
      office97_schedule c password structure ≡ ok (schedule, clear) → IsRc4Schedule schedule
  unfolding office97_schedule
  office97_usable h = elim (Result-cases (parse_office97 structure)) [
    | inr f ↦ absurd (ground arith)
    | inl (header, p) ↦
        let made = new_office97 c password header.salt in
        let same : office97_block_key c made ≡ schedule = ground arith in
        rw (sym same) (office97_block_key-IsRc4Schedule c laws made)
  ]

  cryptoapi_usable :
      cryptoapi_schedule c password structure ≡ ok (schedule, clear) → IsRc4Schedule schedule
  unfolding cryptoapi_schedule
  cryptoapi_usable h = elim (Result-cases (parse_cryptoapi structure)) [
    | inr f ↦ absurd (ground arith)
    | inl (header, p) ↦
        let (made, q, usable) = new_cryptoapi-parse_cryptoapi c laws structure header password p in
        let same : cryptoapi_block_key c made ≡ schedule = ground (arith, q) in rw (sym same) usable
  ]

  -- A schedule that a password opens gives RC4 only keys of 5 to 16 bytes, in both families.
  pub schedule_of-IsRc4Schedule :
      schedule_of c password structure ≡ ok (schedule, clear) → IsRc4Schedule schedule
  unfolding schedule_of
  schedule_of-IsRc4Schedule h = elim (Option-cases (version_of structure)) [
    | inl n ↦ absurd (ground arith)
    | inr ((major, minor), p) ↦ elim (Bool-cases (major == 1 && minor == 1)) [
      | inl t ↦ office97_usable (ground (arith, t))
      | inr t ↦ elim (Bool-cases (leb 2 major && leb major 4 && minor == 2)) [
        | inl u ↦ cryptoapi_usable (ground (arith, t, u))
        | inr u ↦ absurd (ground (arith, t, u))
      ]
    ]
  ]
