-- ===== src/Broker/Admin.antt =====
-- What the master password proves: `verify_admin_password` of passd/service.py.
use passd.Base.{none, sym, refl, false, ap, ◌∙◌, true, not, some, Bool, Option, ◌≡◌}
use passd.Platform.{Platform}
use passd.Broker.{check_root_key, verify_admin_password}
use passd.Text.{◌==◌, Text}
use passd.Db.{Service}
use passd.Errors.{sequence_ok, raise_if, Error, ok}
use passd.Exec.Laws.{gets_ok, lifted, check_ok}
use passd.Config.{derive_and_verify}
use passd.Vaults.{truthy}
use passd.Text.Laws.{eq_iff}

same_of : (same : Bool) (code : Error) → raise_if (not same) code ≡ ok tt → same ≡ true
same_of true code h = refl
same_of false code h = absurd (cc h)

module _ ⦃p : Platform⦄ where
  -- The password unlocks the installation, with the very key that the service runs under.
  pub record IsAdmin (password : Option Text) (s : Service) : Type 0 where
    pub given : Text
    pub there : password ≡ some given
    pub unlocks : derive_and_verify s.config given ≡ ok s.root_key

  check_root_key_ok :
      (s : Service) (password : Text)
      → check_root_key s password ≡ ok tt
      → derive_and_verify s.config password ≡ ok s.root_key
  unfolding check_root_key
  check_root_key_ok s password h =
      let (key, derived, k) = sequence_ok (derive_and_verify s.config password) _ h in
      derived ∙ ap ok ((eq_iff key s.root_key).0 (same_of (key == s.root_key) _ k))

  -- A password is accepted only if it unlocks the installation with the service's own key, and
  -- nothing is changed.
  pub verify_admin_password-IsAdmin :
      (password : Option Text) (s s' : Service)
      → verify_admin_password password s ≡ (ok tt, s')
      → (s' ≡ s) × IsAdmin password s
  unfolding verify_admin_password
  verify_admin_password-IsAdmin none s s' h = absurd (cc (check_ok (not (truthy none)) _ _ s h).0)
  verify_admin_password-IsAdmin (some password) s s' h =
      let (some_text, k) = check_ok (not (truthy (some password))) _ _ s h in
      let (checked, still) = lifted (check_root_key s password) s (gets_ok _ _ s k) in
      (
        sym still,
        record { given = password; there = refl; unlocks = check_root_key_ok s password checked },
      )
