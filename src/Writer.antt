-- ===== src/Writer.antt =====
-- What a decrypting function leaves: the bytes it wrote to its writer, and its result. Bytes that
-- are written stay written when a later step fails.
use msoffice_crypto.Error.{Result, ok, err}
use msoffice_crypto.Base.Bytes.{Bytes}

abbrev pub Written {ℓ} : Type ℓ → Type ℓ
Written A = Bytes × Result A

-- `r?` with `written` already out.
abbrev pub or_stop {ℓ κ} :
    {A : Type ℓ} {B : Type κ} → Bytes → Result A → (A → Written B) → Written B
or_stop written (ok a) k = k a
or_stop written (err e) k = (written, err e)
