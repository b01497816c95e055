-- ===== src/Examples/Legacy.antt =====
-- The theorems on standard encryption, RC4 and XOR obfuscation at concrete inputs.
use msoffice_crypto.Base.{
  ◌≤◌, ◌≡◌, ◌↔◌, refl, arith, [], ◌∷◌, length, drop, replicate, length-replicate,
}
use msoffice_crypto.Base.Bytes.{Bytes, IsBytes}
use msoffice_crypto.Error.{ok}
use msoffice_crypto.Standard.{
  AesKeySize, StandardParams, parse_encryption_info, write_encryption_info,
}
use msoffice_crypto.Standard
use msoffice_crypto.Hash.Laws.{IsAesKey}
use msoffice_crypto.Standard.Info.{parse_encryption_info-write_encryption_info}
use msoffice_crypto.Standard.Keys.{
  StandardKeyMaterial, generate, derive_standard_key, verify_password,
}
use msoffice_crypto.Standard.Keys.Accept.{derive_standard_key_lem, verify_password-generate}
use msoffice_crypto.Rc4.{BlockKeySchedule, xor_from, decrypt_in_blocks}
use msoffice_crypto.Rc4.Blocks.{IsRc4Schedule, block_stream, decrypt_in_blocks_lem}
use msoffice_crypto.XorObfuscation
use msoffice_crypto.XorObfuscation.{XorObfuscator, verify, decrypt}
use msoffice_crypto.XorObfuscation.Decode.{
  obfuscate_from, obfuscator, decrypt-obfuscate_from, new_iff,
}
use msoffice_crypto.Examples.Toy.{toy, toy-IsCrypto, toy_rng, toy_rng-IsRng}

abbrev password : Bytes
password = 0x61 ∷ 0x00 ∷ []

abbrev aes_192 : AesKeySize
aes_192 = record { bits = 192; alg_id = 0x660F }

aes_192-new : Standard.new 192 ≡ ok aes_192
unfolding Standard.new
aes_192-new = refl

parse_encryption_info-write_encryption_info_example :
    parse_encryption_info
      (drop 8 (write_encryption_info aes_192 (replicate 16 1) (replicate 16 2) (replicate 32 3)))
    ≡ ok (record {
      salt = replicate 16 1;
      encrypted_verifier = replicate 16 2;
      encrypted_verifier_hash = replicate 32 3;
      key_size_bytes = 24;
    })
parse_encryption_info-write_encryption_info_example =
    parse_encryption_info-write_encryption_info (replicate 16 1) (replicate 16 2) (replicate 32 3)
      (length-replicate 16 1) (length-replicate 16 2) (length-replicate 32 3) 192 aes_192
      aes_192-new

verify_password-generate_example :
    (m : StandardKeyMaterial) × (params : StandardParams) × (generate toy password aes_192 toy_rng
      ≡ ok m)
    × (parse_encryption_info (
          drop 8 (
            write_encryption_info m.key_size m.salt m.encrypted_verifier m.encrypted_verifier_hash))
        ≡ ok params)
    × (derive_standard_key toy password params.salt params.key_size_bytes ≡ ok m.key)
    × (verify_password toy m.key params ≡ ok tt)
    × IsAesKey m.key
verify_password-generate_example =
    verify_password-generate toy toy-IsCrypto password 192 aes_192 toy_rng aes_192-new toy_rng-IsRng

derive_standard_key_lem_example :
    (key : Bytes) × (derive_standard_key toy password (replicate 16 1) 32 ≡ ok key)
    × (length key ≡ 32)
derive_standard_key_lem_example =
    derive_standard_key_lem toy toy-IsCrypto password (replicate 16 1) 32 (omega arith)

abbrev schedule : BlockKeySchedule
schedule block = block ∷ replicate 6 7

schedule-IsRc4Schedule : IsRc4Schedule schedule
unfolding replicate
schedule-IsRc4Schedule i = (omega arith, omega arith)

abbrev record_bytes : Bytes
record_bytes = 0x09 ∷ 0x08 ∷ 0x10 ∷ 0x00 ∷ 0xFF ∷ []

decrypt_in_blocks_lem_example :
    decrypt_in_blocks toy schedule record_bytes 2
    ≡ ok (xor_from (block_stream toy schedule 2) 0 record_bytes)
decrypt_in_blocks_lem_example =
    decrypt_in_blocks_lem toy schedule 2 schedule-IsRc4Schedule (omega arith) record_bytes
      (omega arith)

abbrev xor_password : Bytes
xor_password = 0x61 ∷ 0x62 ∷ 0x63 ∷ []

decrypt-obfuscate_from_example :
    decrypt
      (obfuscator xor_password)
      (obfuscate_from (obfuscator xor_password).array record_bytes 14)
      14
    ≡ record_bytes
decrypt-obfuscate_from_example =
    decrypt-obfuscate_from (obfuscator xor_password) record_bytes 14
      (omega arith, (omega arith, (omega arith, (omega arith, (omega arith, tt)))))

new_iff_example :
    (XorObfuscation.new xor_password ≡ ok (obfuscator xor_password))
    ↔ ((1 ≤ length xor_password) × (length xor_password ≤ 15) × IsBytes xor_password)
new_iff_example = new_iff xor_password
