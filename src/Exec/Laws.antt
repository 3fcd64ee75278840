-- ===== src/Exec/Laws.antt =====
-- Inversion of actions that returned.
use passd.Base.{ℕ, ◌+◌, none, some, Option, if◌then◌else◌, true, refl, false, Bool, ap, ◌≡◌}
use passd.Errors.{Error, Result, ok, err}
use passd.Db.{Service}
use passd.Exec.{
  now, random, modify, require, case_of, pure, raise, continue, Exec, lift, gets, check, ◌>>=◌,
  ◌>>◌,
}
use passd.Text.{Text}

module _ {A B : Type 0} where
  continue_ok :
      (r : Result A) (f : A → Exec B) (t : Service) {b : B} {s' : Service}
      → continue r f t ≡ (ok b, s')
      → (a : A) × (r ≡ ok a) × (f a t ≡ (ok b, s'))
  continue_ok (ok a) f t h = (a, refl, h)
  continue_ok (err e) f t h = absurd (cc h)

  -- Both parts of an action that returned did return.
  pub bind_ok :
      (m : Exec A) (f : A → Exec B) (s : Service) {b : B} {s' : Service}
      → (m >>= f) s ≡ (ok b, s')
      → (a : A) × (t : Service) × (m s ≡ (ok a, t)) × (f a t ≡ (ok b, s'))
  unfolding ◌>>=◌
  bind_ok m f s h =
      let (a, e, g) = continue_ok (m s).0 f (m s).1 h in (a, (m s).1, ap (λ r. (r, (m s).1)) e, g)

  pub lift_ok :
      (r : Result A) (f : A → Exec B) (s : Service) {b : B} {s' : Service}
      → (lift r >>= f) s ≡ (ok b, s')
      → (a : A) × (r ≡ ok a) × (f a s ≡ (ok b, s'))
  unfolding ◌>>=◌
  lift_ok r f s h = continue_ok r f s h

  pub gets_ok :
      (g : Service → A) (f : A → Exec B) (s : Service) {b : B} {s' : Service}
      → (gets g >>= f) s ≡ (ok b, s')
      → f (g s) s ≡ (ok b, s')
  unfolding ◌>>=◌
  gets_ok g f s h = h

pub check_ok :
    {B : Type 0} (c : Bool) (e : Error) (k : Exec B) (s : Service) {b : B} {s' : Service}
    → (check c e >> k) s ≡ (ok b, s')
    → (c ≡ false) × (k s ≡ (ok b, s'))
unfolding ◌>>=◌
check_ok true e k s h = absurd (cc h)
check_ok false e k s h = (refl, h)

-- An action that ends by a raise does not return.
pub never_ok :
    {A B : Type 0} (m : Exec A) (e : Error) (s : Service) {b : B} {s' : Service}
    → ¬ ((m >>= λ _. raise e) s ≡ (ok b, s'))
unfolding ◌>>=◌
never_ok m e s h = absurd (cc (bind_ok m (λ _. raise e) s h).3)

pub else_ok :
    {A : Type 0} (b : Bool) (m : Exec Unit) (e : Error) (n : Exec A) (s : Service) {a : A}
    {s' : Service}
    → (if b then (m >>= λ _. raise e) else n) s ≡ (ok a, s')
    → (b ≡ false) × (n s ≡ (ok a, s'))
else_ok true m e n s h = absurd (never_ok m e s h)
else_ok false m e n s h = (refl, h)

pub case_ok :
    {A B : Type 0} (o : Option A) (m : Exec Unit) (e : Error) (f : A → Exec B) (s : Service) {b : B}
    {s' : Service}
    → case_of o (m >>= λ _. raise e) f s ≡ (ok b, s')
    → (a : A) × (o ≡ some a) × (f a s ≡ (ok b, s'))
unfolding ◌>>=◌
case_ok none m e f s h = absurd (never_ok m e s h)
case_ok (some a) m e f s h = (a, refl, h)

pub pure_ok :
    {A : Type 0} (a : A) (s : Service) {b : A} {s' : Service}
    → pure a s ≡ (ok b, s')
    → (a ≡ b) × (s ≡ s')
unfolding ◌>>=◌
pure_ok a s h = (cc h, cc h)

module _ {A B : Type 0} where
  pub require_ok :
      (o : Option A) (e : Error) (f : A → Exec B) (s : Service) {b : B} {s' : Service}
      → (require o e >>= f) s ≡ (ok b, s')
      → (a : A) × (o ≡ some a) × (f a s ≡ (ok b, s'))
  unfolding ◌>>=◌
  require_ok none e f s h = absurd (cc h)
  require_ok (some a) e f s h = (a, refl, h)

pub random_ok :
    {B : Type 0} (f : Text → Exec B) (s : Service) {b : B} {s' : Service}
    → (random >>= f) s ≡ (ok b, s')
    → f (s.entropy s.drawn) (record s { drawn = s.drawn + 1 }) ≡ (ok b, s')
unfolding ◌>>=◌
random_ok f s h = h

pub modify_ok :
    {B : Type 0} (g : Service → Service) (k : Exec B) (s : Service) {b : B} {s' : Service}
    → (modify g >> k) s ≡ (ok b, s')
    → k (g s) ≡ (ok b, s')
unfolding ◌>>=◌
modify_ok g k s h = h

-- An action that ends by what it requires.
pub required :
    {A : Type 0} (o : Option A) (e : Error) (s : Service) {a : A} {s' : Service}
    → require o e s ≡ (ok a, s')
    → (o ≡ some a) × (s ≡ s')
unfolding ◌>>=◌
required none e s h = absurd (cc h)
required (some a) e s h = (cc h, cc h)

-- An action that gives nothing where there is no value has given something.
pub present_ok :
    {A B : Type 0} (o : Option A) (f : A → Exec (Option B)) (s : Service) {b : B} {s' : Service}
    → case_of o (pure none) f s ≡ (ok (some b), s')
    → (a : A) × (o ≡ some a) × (f a s ≡ (ok (some b), s'))
unfolding ◌>>=◌
present_ok none f s h = absurd (cc h)
present_ok (some a) f s h = (a, refl, h)

-- And so it has taken the branch that gives something.
pub then_ok :
    {B : Type 0} (c : Bool) (m : Exec (Option B)) (s : Service) {b : B} {s' : Service}
    → (if c then m else pure none) s ≡ (ok (some b), s')
    → (c ≡ true) × (m s ≡ (ok (some b), s'))
unfolding ◌>>=◌
then_ok true m s h = (refl, h)
then_ok false m s h = absurd (cc h)

pub now_ok :
    {B : Type 0} (f : ℕ → Exec B) (s : Service) {b : B} {s' : Service}
    → (now >>= f) s ≡ (ok b, s')
    → f s.clock s ≡ (ok b, s')
unfolding ◌>>=◌
now_ok f s h = h

-- An action that ends by pure code.
pub lifted :
    {B : Type 0} (r : Result B) (s : Service) {b : B} {s' : Service}
    → lift r s ≡ (ok b, s')
    → (r ≡ ok b) × (s ≡ s')
unfolding ◌>>=◌
lifted r s h = (ap (λ x. x.0) h, ap (λ x. x.1) h)
