-- ===== src/Exec.antt =====
-- The methods of `PassdService`: they read and write the service, and may raise. What was committed
-- before a raise stays committed. A method runs at one reading of the clock.
pub mod Moves
pub mod Laws
use passd.Base.{◌+◌, Bool, true, false, none, some, Option, ℕ}
use passd.Errors.{Error, Result, ok, err}
use passd.Text.{Text}
use passd.Db.{Service}

abbrev pub Exec : Type 0 → Type 0
Exec A = Service → Result A × Service

module _ {A : Type 0} where
  pub pure : A → Exec A
  pure a s = (ok a, s)

  pub raise : Error → Exec A
  raise e s = (err e, s)

  -- a pure function that may raise
  pub lift : Result A → Exec A
  lift r s = (r, s)

  pub gets : (Service → A) → Exec A
  gets f s = (ok (f s), s)

  pub require : Option A → Error → Exec A
  require none e s = (err e, s)
  require (some a) e s = (ok a, s)

pub modify : (Service → Service) → Exec (Unit {0})
modify f s = (ok tt, f s)

-- `if c: raise e`
pub check : Bool → Error → Exec (Unit {0})
check true e s = (err e, s)
check false e s = (ok tt, s)

abbrev pub continue : {A B : Type 0} → Result A → (A → Exec B) → Exec B
continue (ok a) f s = f a s
continue (err e) f s = (err e, s)

-- The branch on a row that may be missing.
pub case_of : {A B : Type 0} → Option A → Exec B → (A → Exec B) → Exec B
case_of none n f = n
case_of (some a) n f = f a

pub now : Exec ℕ
now s = (ok s.clock, s)

-- The next random text: `os.urandom`, `uuid.uuid4`, `secrets.token_urlsafe`.
pub random : Exec Text
random s = (ok (s.entropy s.drawn), record s { drawn = s.drawn + 1 })

infixl 5 ◌>>=◌ ◌>>◌
-- Opening this opens the actions above too.
unfoldable pub ◌>>=◌ : {A B : Type 0} → Exec A → (A → Exec B) → Exec B
unfolding pure raise lift gets require modify check case_of now random
◌>>=◌ m f s = let (r, s') = m s in continue r f s'

abbrev pub ◌>>◌ : {B : Type 0} → Exec (Unit {0}) → Exec B → Exec B
m >> k = m >>= λ _. k
