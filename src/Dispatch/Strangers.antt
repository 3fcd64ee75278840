-- ===== src/Dispatch/Strangers.antt =====
-- Sequences of requests to `handle` of passd/service.py from callers without the master password.
use passd.Base.{
  inr, inl, if◌then◌else◌, sym, Bool-cases, or_else, Bool, ◌+◌, ◌≡◌, refl, ap, ◌∙◌, ◌∷◌, [], List,
  ℕ, All, Option,
}
use passd.Platform.{Platform}
use passd.Db.{Service}
use passd.Errors.{AuthMessage, needs_password, Result, auth_error, err}
use passd.Text.{Text}
use passd.Dispatch.{Request}
use passd.Dispatch.Handle.{handle}
use passd.Dispatch.Guarded.{handle-NothingGranted}
use passd.Dispatch.Sessions.{session}
use passd.Broker.{check_root_key, verify_admin_password}
use passd.Access.Table.Granting.{NothingGranted, nothing_done, NothingGranted-trans}
use passd.Vaults.{truthy}
use passd.Exec.{◌>>=◌}

module _ ⦃p : Platform⦄ where
  -- The password of a request is not accepted.
  abbrev IsRefused : Service → ℕ × Request → Type 0
  IsRefused s sent =
      (why : AuthMessage) × (verify_admin_password sent.1.admin_password s
        ≡ (err (auth_error why), s))

  same_check :
      (s t : Service) (password : Text)
      → t.config ≡ s.config
      → t.root_key ≡ s.root_key
      → check_root_key t password ≡ check_root_key s password
  unfolding check_root_key
  same_check s t password config key = rw (config, key) refl

  verdict : Bool → Result (Unit {0}) → Result (Unit {0})
  verdict given checked = if given then checked else err (auth_error needs_password)

  -- The verdict on a password is that on the key it derives, if there is a password.
  verify_admin_password-verdict :
      (s : Service) (password : Option Text)
      → verify_admin_password password s
        ≡ (verdict (truthy password) (check_root_key s (or_else password [])), s)
  unfolding verify_admin_password ◌>>=◌ verdict
  verify_admin_password-verdict s password = elim (Bool-cases (truthy password)) [
    | inl given ↦ rw given refl
    | inr absent ↦ rw absent refl
  ]

  still-IsRefused :
      (s t : Service) (sent : ℕ × Request)
      → t.config ≡ s.config
      → t.root_key ≡ s.root_key
      → IsRefused s sent
      → IsRefused t sent
  still-IsRefused s t sent config key (why, refused) =
      let password = sent.1.admin_password in
      (
        why,
        verify_admin_password-verdict t password
            ∙ ap (λ checked. (verdict (truthy password) checked, t))
                (same_check s t (or_else password []) config key)
            ∙ ap (λ result. (result.0, t))
                (sym (verify_admin_password-verdict s password) ∙ refused),
      )

  All-IsRefused :
      (requests : List (ℕ × Request)) (s t : Service)
      → NothingGranted s t
      → All (IsRefused s) requests
      → All (IsRefused t) requests
  All-IsRefused [] s t kept h = tt
  All-IsRefused (sent ∷ requests) s t kept (refused, h) = (
    still-IsRefused s t sent kept.config kept.root_key refused,
    All-IsRefused requests s t kept h,
  )

  waited : (s : Service) (wait : ℕ) → NothingGranted s (record s { clock = s.clock + wait })
  waited s wait = record { rows = (nothing_done s).rows; config = refl; root_key = refl }

  -- Whatever requests reach `handle`, none of which has the master password, of any operation, with
  -- any tokens and parameters, in any order and with any time between them, returning or raising:
  -- they make no lease. An access request that is approved afterwards was approved before, and its
  -- sealed payload, item, expiry and budget are the same; and none of those that they file is
  -- approved. The installation and its key are the same.
  pub session-NothingGranted :
      (requests : List (ℕ × Request)) (s : Service)
      → All (IsRefused s) requests
      → NothingGranted s (session requests s)
  unfolding session
  session-NothingGranted [] s h = nothing_done s
  session-NothingGranted (sent ∷ requests) s (refused, h) =
      let later = record s { clock = s.clock + sent.0 } in
      let next = (handle sent.1 later).1 in
      let kept : NothingGranted s next =
        NothingGranted-trans s later next (waited s sent.0)
          (handle-NothingGranted sent.1 later (still-IsRefused s later sent refl refl refused).1) in
      NothingGranted-trans s next (session requests next) kept
        (session-NothingGranted requests next (All-IsRefused requests s next kept h))
