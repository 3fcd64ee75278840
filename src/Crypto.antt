-- ===== src/Crypto.antt =====
-- passd/crypto.py: sealed envelopes. A column is modelled as the nonce and the ciphertext that its text
-- holds: Base64 and Column are about that text.
pub mod Base64
pub mod Decoding
pub mod RoundTrip
pub mod Column
use passd.Base.{◌≡◌}
use passd.Errors.{internal, ok, or_raise, ◌>>=◌, Result}
use passd.Text.{Text}
use passd.Platform.{Platform, Codec, IsCodec, IsLawful}

pub record Envelope : Type 0 where
  pub nonce : Text
  pub ciphertext : Text

module _ ⦃p : Platform⦄ where
  -- `seal`, with the nonce that `os.urandom` gave
  unfoldable pub seal : Text → Text → Text → Text → Envelope
  seal nonce key plaintext aad = record {
    nonce = nonce;
    ciphertext = p.encrypt key nonce plaintext aad;
  }

  -- `InvalidTag` is no `PassdError`
  unfoldable pub open_sealed : Text → Envelope → Text → Result Text
  open_sealed key env aad = or_raise (p.decrypt key env.nonce env.ciphertext aad) internal

  unfoldable pub seal_json : {A : Type 0} → Codec A → Text → Text → A → Text → Envelope
  unfolding seal
  seal_json c nonce key value aad = seal nonce key (c.dumps value) aad

  unfoldable pub open_json : {A : Type 0} → Codec A → Text → Envelope → Text → Result A
  unfolding open_sealed
  open_json c key env aad = do raw ← open_sealed key env aad; or_raise (c.loads raw) internal

-- What was sealed opens again under the same key and associated text.
pub open_sealed-seal :
    ⦃p : Platform⦄
    → IsLawful p
    → (nonce key plaintext aad : Text)
    → open_sealed key (seal nonce key plaintext aad) aad ≡ ok plaintext
unfolding open_sealed seal
open_sealed-seal l nonce key plaintext aad = rw (l.decrypt-encrypt key nonce plaintext aad)

-- A value that was sealed is read back from its envelope, under the same key and associated text,
-- whatever the nonce, if decryption undoes encryption and the codec reads what it writes.
pub open_json-seal_json :
    ⦃p : Platform⦄ {A : Type 0} (c : Codec A)
    → IsLawful p
    → IsCodec c
    → (nonce key : Text) (value : A) (aad : Text)
    → open_json c key (seal_json c nonce key value aad) aad ≡ ok value
unfolding open_json seal_json
open_json-seal_json c l lc nonce key value aad =
    rw (l.decrypt-encrypt key nonce (c.dumps value) aad, lc.loads-dumps value)
