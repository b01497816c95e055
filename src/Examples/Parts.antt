-- ===== src/Examples/Parts.antt =====
-- The theorems on the parts of agile encryption at concrete inputs.
use msoffice_crypto.Base.{
  ◌≤◌, ◌≡◌, ◌≢◌, ◌↔◌, inl, refl, arith, some, [], take, replicate, length-replicate,
}
use msoffice_crypto.Classification.{HashAlgorithm}
use msoffice_crypto.Error.{ok}
use msoffice_crypto.Hash.{HmacState, digest_len}
use msoffice_crypto.Reader.{Take, read_full}
use msoffice_crypto.Reader.Full.{IsFilled, read_full-IsFilled}
use msoffice_crypto.Segments.{Segmenter, fill}
use msoffice_crypto.Segments.Fill.{upcoming, IsSegment, fill-IsSegment}
use msoffice_crypto.EncryptParams.{validate, nearest_supported_key_bits, abs_diff}
use msoffice_crypto.EncryptParams.Accept.{
  IsUsable, IsAesBits, validate_iff, nearest_supported_key_bits-IsNearest,
}
use msoffice_crypto.Examples.Toy.{toy, toy-IsCrypto}
use msoffice_crypto.Examples.{package_bytes, ragged, small_params}

abbrev toy_mac : HmacState
toy_mac = record { hash = HashAlgorithm.sha1; key = replicate 20 5; message = package_bytes }

read_full-IsFilled_example :
    IsFilled package_bytes 4 (read_full (record { content = package_bytes; schedule = ragged }) 4)
read_full-IsFilled_example =
    read_full-IsFilled (record { content = package_bytes; schedule = ragged }) 4 tt

abbrev toy_segmenter : Segmenter
toy_segmenter = record {
  hash = HashAlgorithm.sha1;
  salt = replicate 16 1;
  block_size = 16;
  next_index = some 3;
}

abbrev toy_take : Take
toy_take = record { inner = record { content = package_bytes; schedule = ragged }; limit = 5 }

block_fits : 16 ≤ digest_len HashAlgorithm.sha1
unfolding digest_len
block_fits = omega arith

toy_more : upcoming toy_take ≢ []
unfolding take
toy_more e = cc

fill-IsSegment_example :
    IsSegment toy toy_segmenter 3 toy_take
      (replicate 4096 0)
      (fill toy toy_segmenter toy_take (replicate 4096 0))
fill-IsSegment_example =
    fill-IsSegment toy toy-IsCrypto toy_segmenter toy_take (replicate 4096 0) 3 refl block_fits tt
      (length-replicate 4096 0) toy_more

validate_iff_example : (validate small_params ≡ ok tt) ↔ IsUsable small_params
validate_iff_example = validate_iff small_params

nearest_supported_key_bits-IsNearest_example :
    IsAesBits (nearest_supported_key_bits 160)
    × (abs_diff (nearest_supported_key_bits 160) 160 ≤ abs_diff 128 160)
nearest_supported_key_bits-IsNearest_example =
    nearest_supported_key_bits-IsNearest 160 128 (inl refl)
