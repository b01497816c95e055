-- ===== src/Examples/Standard.antt =====
-- The theorems on the package of standard encryption at concrete inputs.
use msoffice_crypto.Base.{◌≡◌, inl, refl, arith, List, [], ◌∷◌, length, take, drop, replicate}
use msoffice_crypto.Base.Bytes.{Bytes}
use msoffice_crypto.Error.{ok, ◌>>=◌}
use msoffice_crypto.Hash.Laws.{IsAesKey}
use msoffice_crypto.Reader.{Event, short, interrupted}
use msoffice_crypto.Agile.Package.Whole.{held}
use msoffice_crypto.Standard
use msoffice_crypto.Standard.{AesKeySize}
use msoffice_crypto.Standard.Package.{encrypt_package, decrypt_package}
use msoffice_crypto.Standard.Package.RoundTrip.{
  ecb_stream, encrypt_package_lem, decrypt_package-encrypt_package,
}
use msoffice_crypto.Standard.Open.{encrypt_to, decrypt_to}
use msoffice_crypto.Standard.Open.RoundTrip.{decrypt_to-encrypt_to_standard}
use msoffice_crypto.Examples.Toy.{toy, toy-IsCrypto, toy_rng, toy_rng-IsRng}

abbrev package_bytes : Bytes
package_bytes = 0x50 ∷ 0x4B ∷ 0x03 ∷ 0x04 ∷ 0x14 ∷ []

abbrev password : Bytes
password = 0x61 ∷ 0x00 ∷ []

abbrev ragged : List Event
ragged = interrupted ∷ short 1 ∷ short 0 ∷ []

abbrev toy_key : Bytes
toy_key = replicate 16 9

toy_key-IsAesKey : IsAesKey toy_key
unfolding replicate
toy_key-IsAesKey = inl refl

abbrev aes_256 : AesKeySize
aes_256 = record { bits = 256; alg_id = 0x6610 }

aes_256-new : Standard.new 256 ≡ ok aes_256
unfolding Standard.new
aes_256-new = refl

decrypt_to-encrypt_to_standard_example :
    (info stream : Bytes) × (encrypt_to toy
        (record { content = package_bytes; schedule = ragged })
        (length package_bytes)
        password
        256
        toy_rng
      ≡ ok (info, stream))
    × (decrypt_to toy
          (drop 8 info)
          (length stream)
          (record { content = stream; schedule = [] })
          password
        ≡ (package_bytes, ok tt))
decrypt_to-encrypt_to_standard_example =
    decrypt_to-encrypt_to_standard toy toy-IsCrypto package_bytes password 256 aes_256 toy_rng
      ragged [] aes_256-new toy_rng-IsRng tt tt (omega arith)

decrypt_package-encrypt_package_example :
    (stream : Bytes) × (encrypt_package toy
        (record { content = package_bytes; schedule = ragged })
        (length package_bytes)
        toy_key
      ≡ ok stream)
    × (decrypt_package toy toy_key (length stream) (record { content = stream; schedule = [] })
        ≡ (package_bytes, ok tt))
decrypt_package-encrypt_package_example =
    decrypt_package-encrypt_package toy toy-IsCrypto toy_key toy_key-IsAesKey package_bytes ragged
      [] tt tt (omega arith)

-- One byte fewer than the length that was promised.
encrypt_package_lem_example :
    encrypt_package toy (record { content = package_bytes; schedule = ragged }) 6 toy_key ≡ (
      held 6 package_bytes >>= λ _.
      ok (ecb_stream toy toy-IsCrypto toy_key toy_key-IsAesKey (take 6 package_bytes)))
encrypt_package_lem_example =
    encrypt_package_lem toy toy-IsCrypto toy_key toy_key-IsAesKey
      (record { content = package_bytes; schedule = ragged }) 6 tt
