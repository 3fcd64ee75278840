-- ===== src/Config.antt =====
-- passd/config.py: the salt and the check value of an installation, and the master password. The
-- directory is what `config.json` holds, if it is there; its JSON text is not modelled.
use passd.Base.{
  refl, inr, ap, ◌∙◌, inl, sym, Bool-cases, if◌then◌else◌, false, is_empty, some, Option, ◌≡◌, none,
}
use passd.Errors.{
  wrong_password, ok_injective, guard_ok, sequence_ok, internal, auth_error, not_found, conflict,
  err, raise_if, ok, or_raise, Result, ◌>>=◌, ◌>>◌,
}
use passd.Text.{codes, ◌==◌, Text}
use passd.Platform.{IsLawful, Platform}
use passd.Crypto.{open_sealed-seal, open_sealed, seal, Envelope}
use passd.Text.Laws.{eq_iff}
use mathlib.Core.Path.{subst}

pub record Config : Type 0 where
  pub salt : Text
  pub root_check : Envelope

abbrev pub root_check_text : Text
root_check_text = codes "passd-root-check-v1"

abbrev pub root_check_aad : Text
root_check_aad = codes "passd/config/root-check/v1"

-- The text that the check value opened to, against what it must be. Any exception of opening it
-- refuses the password.
unfoldable pub checked_key : Text → Result Text → Result Text
unfolding ◌==◌
checked_key key (err e) = err (auth_error wrong_password)
checked_key key (ok text) =
    if text == root_check_text then ok key else err (auth_error wrong_password)

module _ ⦃p : Platform⦄ where
  -- passd/crypto.py: `ValueError` on an empty password
  unfoldable pub derive_root_key : Text → Text → Result Text
  derive_root_key password salt = do
    raise_if (is_empty password) internal
    ok (p.scrypt password salt)

  unfoldable pub derive_and_verify : Config → Text → Result Text
  unfolding derive_root_key checked_key open_sealed
  derive_and_verify config password = do
    key ← derive_root_key password config.salt
    checked_key key (open_sealed key config.root_check root_check_aad)

  -- `initialize`, with the salt and the nonce that were drawn
  unfoldable pub initialize : Option Config → Text → (salt nonce : Text) → Result Config
  unfolding derive_root_key seal
  initialize (some there) password salt nonce = err conflict
  initialize none password salt nonce = do
    root_key ← derive_root_key password salt
    ok (record { salt = salt; root_check = seal nonce root_key root_check_text root_check_aad })

  unfoldable pub load : Option Config → Result Config
  load config = or_raise config not_found

checked_key_ok :
    (key : Text) (opened : Result Text) {k : Text}
    → checked_key key opened ≡ ok k
    → (key ≡ k) × (opened ≡ ok root_check_text)
unfolding checked_key
checked_key_ok key (err e) h = absurd (cc h)
checked_key_ok key (ok text) h = elim (Bool-cases (text == root_check_text)) [
  | inl same ↦ (ok_injective (rw same at h), ap ok ((eq_iff text root_check_text).0 same))
  | inr other ↦ absurd (cc (rw other at h))
]

checked_key_opened : (key : Text) → checked_key key (ok root_check_text) ≡ ok key
unfolding checked_key ◌==◌
checked_key_opened key = refl

module _ ⦃p : Platform⦄ where
  derive_root_key_ok :
      (password salt key : Text)
      → derive_root_key password salt ≡ ok key
      → (is_empty password ≡ false) × (key ≡ p.scrypt password salt)
  unfolding derive_root_key
  derive_root_key_ok password salt key h =
      let (some_text, h1) = guard_ok (is_empty password) _ _ h in (some_text, sym (ok_injective h1))

  -- The password that an installation was made with unlocks it, with the key of the password and the
  -- drawn salt, provided that decryption undoes encryption.
  pub derive_and_verify-initialize :
      (password salt nonce : Text) (config : Config)
      → IsLawful p
      → initialize none password salt nonce ≡ ok config
      → derive_and_verify config password ≡ ok (p.scrypt password salt)
  unfolding initialize derive_and_verify
  derive_and_verify-initialize password salt nonce config l h =
      let (key, derived, h1) = sequence_ok (derive_root_key password salt) _ h in
      let made = ok_injective h1 in
      let same = (derive_root_key_ok password salt key derived).1 in
      subst (λ (c : Config). derive_and_verify c password ≡ ok (p.scrypt password salt)) made
        (rw derived (
          ap (checked_key key) (open_sealed-seal l nonce key root_check_text root_check_aad)
          ∙ checked_key_opened key
          ∙ ap ok same))

  -- A password that unlocks an installation is not empty, the key is its own, and the check value
  -- opens under that key to what it must be.
  pub derive_and_verify_sound :
      (config : Config) (password key : Text)
      → derive_and_verify config password ≡ ok key
      → (is_empty password ≡ false)
        × (key ≡ p.scrypt password config.salt)
        × (open_sealed key config.root_check root_check_aad ≡ ok root_check_text)
  unfolding derive_and_verify
  derive_and_verify_sound config password key h =
      let (found, derived, h1) = sequence_ok (derive_root_key password config.salt) _ h in
      let (same, opened) =
        checked_key_ok found (open_sealed found config.root_check root_check_aad) h1 in
      let (some_text, is_key) = derive_root_key_ok password config.salt found derived in
      (some_text, sym same ∙ is_key, rw (sym same) opened)
