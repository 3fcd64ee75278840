-- ===== src/Tests/Envelopes.antt =====
-- Columns in base64, by runs, and the theorem on them applied to a concrete envelope.
use passd.Base.{[], ◌∷◌, All, ◌≡◌, refl, arith}
use passd.Text.{codes}
use passd.Errors.{ok, err, internal}
use passd.Tests.World.{toy, toy-IsLawful}
use passd.Crypto.{Envelope}
use passd.Crypto.Base64.{IsByte, b64e, b64d}
use passd.Crypto.Column.{dumps, loads, loads-dumps}

-- Four bytes and five, so that padding of both lengths is taken off and restored.
abbrev sealed : Envelope
sealed = record { nonce = 251 ∷ 0 ∷ 255 ∷ 7 ∷ []; ciphertext = 104 ∷ 101 ∷ 108 ∷ 108 ∷ 111 ∷ [] }

two_letters : b64e sealed.nonce ≡ codes "-wD_Bw"
unfolding b64e passd.Text.rstrip passd.Text.lstrip passd.Crypto.Base64.urlsafe_b64encode
    passd.Crypto.Base64.char64
two_letters = refl

five_letters : b64d (codes "aGVsbG8") ≡ ok sealed.ciphertext
unfolding b64d passd.Crypto.Base64.urlsafe_b64decode passd.Crypto.Base64.decode
    passd.Crypto.Base64.read_char passd.Crypto.Base64.sextet passd.Crypto.Base64.read_sextet
    passd.Crypto.Base64.read_padding
five_letters = refl

one_letter : b64d (codes "a") ≡ err internal
unfolding b64d passd.Crypto.Base64.urlsafe_b64decode passd.Crypto.Base64.decode
    passd.Crypto.Base64.read_char passd.Crypto.Base64.sextet passd.Crypto.Base64.read_sextet
    passd.Crypto.Base64.read_padding
one_letter = refl

nonce_bytes : All IsByte sealed.nonce
nonce_bytes = (omega arith, (omega arith, (omega arith, (omega arith, tt))))

ciphertext_bytes : All IsByte sealed.ciphertext
ciphertext_bytes = (omega arith, (omega arith, (omega arith, (omega arith, (omega arith, tt)))))

loads-dumps_example : loads (dumps sealed) ≡ ok sealed
loads-dumps_example = loads-dumps sealed toy-IsLawful nonce_bytes ciphertext_bytes
