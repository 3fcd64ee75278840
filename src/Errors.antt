-- ===== src/Errors.antt =====
-- passd/errors.py, and pure code that may raise. An error is its `code`; an `AuthError` has its message
-- too, and that of other errors is not kept.
use passd.Base.{ap, inr, inl, ◌⊎◌, Bool, true, false, Option, none, some, ◌≡◌, refl}

-- The messages of an `AuthError`: of the master password, and of a token.
pub data AuthMessage : Type 0 where
  needs_password wrong_password : AuthMessage
  needs_token unknown_token revoked_token expired_token invalid_token : AuthMessage

-- `internal` stands for every exception that is no `PassdError`.
pub data Error : Type 0 where
  auth_error : AuthMessage → Error
  permission_denied not_found conflict validation_error internal : Error

-- What a call gives: an exception, or its value.
pub data Result (A : Type 0) : Type 0 where
  err : Error → Result A
  ok : A → Result A

module _ {B : Type 0} where
  infixl 5 ◌>>=◌ ◌>>◌
  abbrev pub ◌>>=◌ : {A : Type 0} → Result A → (A → Result B) → Result B
  ◌>>=◌ (err code) go_on = err code
  ◌>>=◌ (ok value) go_on = go_on value

  -- A check, and what follows it.
  abbrev pub ◌>>◌ : Result (Unit {0}) → Result B → Result B
  ◌>>◌ check rest = check >>= λ _. rest

-- `if c: raise e`
abbrev pub raise_if : Bool → Error → Result (Unit {0})
raise_if true e = err e
raise_if false e = ok tt

abbrev pub or_raise : {A : Type 0} → Option A → Error → Result A
or_raise none e = err e
or_raise (some a) e = ok a

-- Where a sequence of checks has returned, each of them has.
pub sequence_ok :
    {A B : Type 0} {last : B} (first : Result A) (go_on : A → Result B)
    → first >>= go_on ≡ ok last
    → (value : A) × (first ≡ ok value) × (go_on value ≡ ok last)
sequence_ok (err code) go_on returned = absurd (cc returned)
sequence_ok (ok value) go_on returned = (value, refl, returned)

pub guard_ok :
    {B : Type 0} {last : B} (refused : Bool) (code : Error) (rest : Result B)
    → raise_if refused code >> rest ≡ ok last
    → (refused ≡ false) × (rest ≡ ok last)
guard_ok false code rest returned = (refl, returned)
guard_ok true code rest returned = absurd (cc returned)

pub Result-cases :
    {A : Type 0} (called : Result A)
    → ((value : A) × (called ≡ ok value)) ⊎ ((code : Error) × (called ≡ err code))
Result-cases (err code) = inr (code, refl)
Result-cases (ok value) = inl (value, refl)

pub ok_injective : {A : Type 0} {a b : A} → ok a ≡ ok b → a ≡ b
ok_injective {A} {a} {b} h = ap value_or h
  where
    value_or : Result A → A
    value_or (ok value) = value
    value_or (err code) = a
