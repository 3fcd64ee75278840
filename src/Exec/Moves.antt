-- ===== src/Exec/Moves.antt =====
-- A relation between the state before an action and the state after it, one rule for each way to
-- build an action. The relation is given once, with its reflexivity and transitivity, and what
-- the actions do that write to no table.
use passd.Base.{false, none, some, ◌+◌, true, if◌then◌else◌, ℕ, Bool, Option}
use passd.Errors.{err, ok, Error, Result}
use passd.Db.{Service}
use passd.Exec.{
  continue, Exec, pure, raise, lift, gets, require, modify, check, case_of, now, random, ◌>>=◌,
}

-- A relation of states that every action can only extend.
pub record Order (R : Service → Service → Type 0) : Type 0 where
  pub here : (s : Service) → R s s
  pub after : (s t u : Service) → R s t → R t u → R s u
  pub drawing : (s : Service) (n : ℕ) → R s (record s { drawn = n })

-- `m` moves every state by `R`, whether it returns or raises.
pub record Moves {A : Type 0} (R : Service → Service → Type 0) (m : Exec A) : Type 0 where
  pub at : (s : Service) → R s (m s).1

module _ {R : Service → Service → Type 0} (o : Order R) where
  module _ {A : Type 0} where
    pub Moves-pure : (a : A) → Moves R (pure a)
    unfolding ◌>>=◌
    Moves-pure a = record { at = o.here }

    pub Moves-raise : (e : Error) → Moves R (raise {A = A} e)
    unfolding ◌>>=◌
    Moves-raise e = record { at = o.here }

    pub Moves-lift : (r : Result A) → Moves R (lift r)
    unfolding ◌>>=◌
    Moves-lift r = record { at = o.here }

    pub Moves-gets : (f : Service → A) → Moves R (gets f)
    unfolding ◌>>=◌
    Moves-gets f = record { at = o.here }

    pub Moves-require : (a : Option A) (e : Error) → Moves R (require a e)
    unfolding ◌>>=◌
    Moves-require none e = record { at = o.here }
    Moves-require (some a) e = record { at = o.here }

    pub Moves-if : (b : Bool) (m n : Exec A) → Moves R m → Moves R n → Moves R (if b then m else n)
    Moves-if true m n km kn = km
    Moves-if false m n km kn = kn

  pub Moves-check : (b : Bool) (e : Error) → Moves R (check b e)
  unfolding ◌>>=◌
  Moves-check true e = record { at = o.here }
  Moves-check false e = record { at = o.here }

  pub Moves-now : Moves R now
  unfolding ◌>>=◌
  Moves-now = record { at = o.here }

  pub Moves-random : Moves R random
  unfolding ◌>>=◌
  Moves-random = record { at = λ s. o.drawing s (s.drawn + 1) }

  pub Moves-modify : (f : Service → Service) → ((s : Service) → R s (f s)) → Moves R (modify f)
  unfolding ◌>>=◌
  Moves-modify f h = record { at = h }

  module _ {A B : Type 0} where
    pub Moves-case_of :
        (a : Option A) (n : Exec B) (f : A → Exec B)
        → Moves R n
        → ((x : A) → Moves R (f x))
        → Moves R (case_of a n f)
    unfolding ◌>>=◌
    Moves-case_of none n f kn kf = kn
    Moves-case_of (some x) n f kn kf = kf x

    continue_moves :
        (r : Result A) (f : A → Exec B) (s t : Service)
        → R s t
        → ((a : A) → Moves R (f a))
        → R s (continue r f t).1
    continue_moves (ok a) f s t h kf = o.after s t (f a t).1 h ((kf a).at t)
    continue_moves (err e) f s t h kf = h

    pub Moves-bind :
        (m : Exec A) (f : A → Exec B) → Moves R m → ((a : A) → Moves R (f a)) → Moves R (m >>= f)
    unfolding ◌>>=◌
    Moves-bind m f km kf = record { at = λ s. continue_moves (m s).0 f s (m s).1 (km.at s) kf }

pub ruleset moves_rules = (
  Moves-pure, Moves-raise, Moves-lift, Moves-gets, Moves-require, Moves-if, Moves-check, Moves-now,
  Moves-random, Moves-case_of, Moves-bind,
)
