-- ===== src/Examples/Toy.antt =====
-- A concrete stand-in for RustCrypto: the block modes swap neighbouring bytes, and a digest repeats
-- the sum of what it reads.
use msoffice_crypto.Base.{
  ℕ, suc, ◌+◌, ◌%◌, ◌≡◌, refl, ap, [], ◌∷◌, ◌++◌, length, replicate, length-replicate,
}
use msoffice_crypto.Base.Bytes.{Bytes}
use msoffice_crypto.Error.{ok}
use msoffice_crypto.Hash.{Crypto, digest_len}
use msoffice_crypto.Hash.Laws.{IsCrypto}
use msoffice_crypto.Agile.Generate.{Rng}
use msoffice_crypto.Agile.Generate.Written.{IsRng}

unfoldable pub swap : Bytes → Bytes
swap [] = []
swap (a ∷ []) = a ∷ []
swap (a ∷ b ∷ rest) = b ∷ a ∷ swap rest

swap_twice : (b : Bytes) → swap (swap b) ≡ b
unfolding swap
swap_twice [] = refl
swap_twice (a ∷ []) = refl
swap_twice (a ∷ b ∷ rest) = ap (λ t. a ∷ b ∷ t) (swap_twice rest)

length-swap : (b : Bytes) → length (swap b) ≡ length b
unfolding swap
length-swap [] = refl
length-swap (a ∷ []) = refl
length-swap (a ∷ b ∷ rest) = ap (λ n. suc (suc n)) (length-swap rest)

unfoldable pub sum : Bytes → ℕ
sum [] = 0
sum (b ∷ bs) = b + sum bs

abbrev pub toy : Crypto
toy = record {
  hash_bytes = λ h b. replicate (digest_len h) (sum b % 256);
  md5 = λ b. replicate 16 (sum b % 256);
  hmac = λ h k m. replicate (digest_len h) (sum (k ++ m) % 256);
  cbc_encrypt = λ k iv p. swap p;
  cbc_decrypt = λ k iv p. swap p;
  ecb_encrypt = λ k p. swap p;
  ecb_decrypt = λ k p. swap p;
  rc4_keystream = λ k i. (sum k + i) % 256;
}

pub toy-IsCrypto : IsCrypto toy
toy-IsCrypto = record {
  length-hash = λ h b. length-replicate (digest_len h) (sum b % 256);
  length-md5 = λ b. length-replicate 16 (sum b % 256);
  length-hmac = λ h k m. length-replicate (digest_len h) (sum (k ++ m) % 256);
  length-cbc_encrypt = λ k iv p w. length-swap p;
  length-cbc_decrypt = λ k iv p w. length-swap p;
  length-ecb_encrypt = λ k p w. length-swap p;
  length-ecb_decrypt = λ k p w. length-swap p;
  cbc_decrypt-encrypt = λ k iv p a b w. swap_twice p;
  ecb_decrypt-encrypt = λ k p a w. swap_twice p;
}

-- Draw `k` repeats the byte `k + 1`.
abbrev pub toy_rng : Rng
toy_rng draw n = ok (replicate n (draw + 1))

pub toy_rng-IsRng : IsRng toy_rng
toy_rng-IsRng = record {
  draws = λ draw n. (replicate n (draw + 1), refl, length-replicate n (draw + 1));
}
