-- ===== src/Cli/Values.antt =====
-- The values of arguments of passd/cli.py: `parse_ttl` and `kv_pairs`. `none` is a `ValueError`.
use passd.Base.{
  [], ◌&&◌, is_empty, false, eqb, leb, some, none, Bool, if◌then◌else◌, List, Option, ℕ, ◌∷◌, ◌*◌,
  ◌+◌, ◌-◌,
}
use passd.Text.{lower, Text, strip}
use passd.Url.{cut}
use passd.Capabilities.{set_header}
use mathlib.Core.List.{reverse}

abbrev is_digit : ℕ → Bool
is_digit c = leb 48 c && leb c 57

abbrev starts_digit : Text → Bool
starts_digit [] = false
starts_digit (c ∷ s) = is_digit c

-- The digits of `int(…)`, with those that were read so far; an underscore may stand between two.
unfoldable pub read_digits : ℕ → Text → Option ℕ
read_digits n [] = some n
read_digits n (c ∷ s) =
    let later = read_digits (n * 10 + (c - 48)) s in
    let separated = read_digits n s in
    if is_digit c then later else if eqb c b'_' && starts_digit s then separated else none

unfoldable pub read_natural : Text → Option ℕ
unfolding read_digits
read_natural s = if starts_digit s then read_digits 0 s else none

-- What a number below zero stands for.
abbrev below_zero : Option ℕ → Option ℕ
below_zero none = none
below_zero (some n) = some 0

-- A sign, if there is one.
abbrev signed : Text → Option ℕ
signed [] = none
signed (c ∷ s) =
    if eqb c b'-'
    then below_zero (read_natural s)
    else if eqb c b'+'
    then read_natural s
    else read_natural (c ∷ s)

-- `int(value)`; a number below zero is 0
unfoldable pub int_of : Text → Option ℕ
unfolding read_natural strip
int_of value = signed (strip value)

-- `units`, by the last character
abbrev pub unit_of : ℕ → Option ℕ
unit_of c =
    if eqb c b's'
    then some 1
    else if eqb c b'm'
    then some 60
    else if eqb c b'h'
    then some 3600
    else if eqb c b'd'
    then some 86400
    else if eqb c b'w'
    then some 604800
    else none

abbrev times : Option ℕ → ℕ → Option ℕ
times none unit = none
times (some n) unit = some (n * unit)

-- The last character, and what is before it; the text comes in reverse.
abbrev by_unit : Text → Option ℕ
by_unit [] = none
by_unit (c ∷ s) = elim (unit_of c) [
  | none ↦ int_of (reverse (c ∷ s))
  | some unit ↦ times (int_of (reverse s)) unit
]

-- `parse_ttl`, in seconds
unfoldable pub parse_ttl : Text → Option ℕ
unfolding int_of strip lower
parse_ttl value = by_unit (reverse (lower (strip value)))

-- One pair, NAME=VALUE, before the others.
abbrev pub add_pair : Text × Option Text → Option (List (Text × Text)) → Option (List (Text × Text))
add_pair (k, none) taken = none
add_pair (k, some v) none = none
add_pair (k, some v) (some taken) = if is_empty k then none else some (set_header k v taken)

-- `kv_pairs`, with the pairs that were taken so far
unfoldable pub kv_pairs : Option (List (Text × Text)) → List Text → Option (List (Text × Text))
unfolding cut set_header
kv_pairs taken [] = taken
kv_pairs taken (value ∷ values) = kv_pairs (add_pair (cut (eqb b'=') value) taken) values
