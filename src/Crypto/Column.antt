-- ===== src/Crypto/Column.antt =====
-- Envelope.dumps and Envelope.loads of passd/crypto.py: the text of a column. JSON is an interface;
-- whatever is no object of the expected keys and types ends in an exception.
use passd.Base.{eqb, ◌≡◌, All, not, refl}
use passd.Errors.{Result, ok, internal, raise_if, or_raise, ◌>>=◌, ◌>>◌}
use passd.Text.{Text}
use passd.Platform.{Platform, IsLawful}
use passd.Crypto.{Envelope}
use passd.Crypto.Base64.{IsByte, b64e, b64d}
use passd.Crypto.RoundTrip.{b64d-b64e}

module _ ⦃p : Platform⦄ where
  unfoldable pub dumps : Envelope → Text
  dumps env = p.envelope_codec.dumps (record { v = 1; n = b64e env.nonce; c = b64e env.ciphertext })

  unfoldable pub loads : Text → Result Envelope
  loads raw = do
    obj ← or_raise (p.envelope_codec.loads raw) internal
    raise_if (not (eqb obj.v 1)) internal
    nonce ← b64d obj.n
    ciphertext ← b64d obj.c
    ok (record { nonce = nonce; ciphertext = ciphertext })

-- An envelope of bytes that was written to a column is read back from it, whatever its nonce and its
-- ciphertext are, if `json` reads the object that it wrote.
pub loads-dumps :
    ⦃p : Platform⦄ (env : Envelope)
    → IsLawful p
    → All IsByte env.nonce
    → All IsByte env.ciphertext
    → loads (dumps env) ≡ ok env
unfolding loads dumps
loads-dumps env lawful nonce ciphertext =
    rw
      (
        lawful.envelope.loads-dumps (record { v = 1; n = b64e env.nonce; c = b64e env.ciphertext }),
        b64d-b64e env.nonce nonce,
        b64d-b64e env.ciphertext ciphertext,
      )
      refl
