-- ===== src/Text/Decimal.antt =====
-- `str` of a number that is not negative.
use Prim.Native.Nat.{zero, suc}
use passd.Base.{◌%◌, ◌++◌, ◌∷◌, ◌+◌, if◌then◌else◌, ◌/◌, [], ℕ, ltb}
use passd.Text.{Text}

-- The digits, for more rounds than the number has digits.
unfoldable pub digits : ℕ → ℕ → Text
digits zero n = []
digits (suc fuel) n =
    let rest = digits fuel (n / 10) in
    if ltb n 10 then (b'0' + n) ∷ [] else rest ++ (b'0' + n % 10) ∷ []

unfoldable pub decimal : ℕ → Text
unfolding digits
decimal n = digits (suc n) n
