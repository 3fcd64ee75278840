-- ===== src/Numbers.antt =====
-- The numbers of passd/service.py that are not natural: an `int`, and a `float`.
use passd.Base.{ℕ, Bool, true, false, eqb, ltb, ◌||◌, ◌*◌, ◌^◌}

-- `negsuc n` is -(n + 1).
pub data ℤ : Type 0 where
  pos negsuc : ℕ → ℤ

-- A `float`: not a number, a number below zero, infinity, or a number of steps of 2 ^ -1074, the least
-- positive one: every finite `float` that is not negative is a multiple of it.
pub data Float : Type 0 where
  nan below infinite : Float
  steps : ℕ → Float

-- The steps of a whole number.
abbrev pub whole : ℕ → ℕ
whole n = n * 2 ^ 1074

-- `x <= 0 or x > most`: no comparison holds of what is not a number.
abbrev pub is_outside : ℕ → Float → Bool
is_outside most nan = false
is_outside most below = true
is_outside most infinite = true
is_outside most (steps n) = eqb n 0 || ltb (whole most) n
