-- ===== src/Text.antt =====
-- Python's `str`: a list of code points, with the methods that the service calls. White space is
-- Unicode's; `lower` and `upper` map ASCII letters and leave every other code point alone.
pub mod Laws
pub mod Decimal
use Prim.Native.Char.{code}
use passd.Base.{
  order_by, ltb, ℕ, zero, suc, ◌+◌, ◌-◌, String, Bool, true, false, not, ◌&&◌, ◌||◌, List, [], ◌∷◌,
  ◌++◌, map, leb, eqb, if◌then◌else◌, any,
}
use mathlib.Core.List.{reverse}

abbrev pub Text : Type 0
Text = List ℕ

-- The code points of a literal.
abbrev pub codes : String → Text
codes String.[] = []
codes (String.◌∷◌ c s) = code c ∷ codes s

infix 50 ◌==◌
unfoldable pub ◌==◌ : Text → Text → Bool
[] == [] = true
[] == (y ∷ ys) = false
(x ∷ xs) == [] = false
(x ∷ xs) == (y ∷ ys) = eqb x y && xs == ys

abbrev pub between : ℕ → ℕ → ℕ → Bool
between lo hi c = leb lo c && leb c hi

-- `str.isspace`, for one code point
unfoldable pub is_space : ℕ → Bool
is_space c =
    between 9 13 c
    || between 28 32 c
    || eqb c 0x85
    || eqb c 0xa0
    || eqb c 0x1680
    || between 0x2000 0x200a c
    || between 0x2028 0x2029 c
    || eqb c 0x202f
    || eqb c 0x205f
    || eqb c 0x3000

-- `s.lstrip(…)` and `s.rstrip(…)`, for the characters that a test selects
unfoldable pub lstrip : (ℕ → Bool) → Text → Text
lstrip p [] = []
lstrip p (c ∷ s) = if p c then lstrip p s else c ∷ s

unfoldable pub rstrip : (ℕ → Bool) → Text → Text
unfolding lstrip
rstrip p s = reverse (lstrip p (reverse s))

-- `s.strip()`
unfoldable pub strip : Text → Text
unfolding lstrip rstrip is_space
strip s = rstrip is_space (lstrip is_space s)

unfoldable pub lower_char : ℕ → ℕ
lower_char c = if between b'A' b'Z' c then c + 32 else c

unfoldable pub upper_char : ℕ → ℕ
upper_char c = if between b'a' b'z' c then c - 32 else c

unfoldable pub lower : Text → Text
unfolding lower_char
lower = map lower_char

unfoldable pub upper : Text → Text
unfolding upper_char
upper = map upper_char

-- `s.startswith(t)`
unfoldable pub starts_with : Text → Text → Bool
starts_with s [] = true
starts_with [] (d ∷ t) = false
starts_with (c ∷ s) (d ∷ t) = eqb c d && starts_with s t

-- `s.endswith(t)`
unfoldable pub ends_with : Text → Text → Bool
unfolding starts_with
ends_with s t = starts_with (reverse s) (reverse t)

-- `c in s`, for one character
unfoldable pub has_char : ℕ → Text → Bool
has_char c s = any (eqb c) s

-- `s in l`, for a collection of texts
unfoldable pub mem : Text → List Text → Bool
unfolding ◌==◌
mem s [] = false
mem s (t ∷ l) = s == t || mem s l

-- one character of `split`, before the parts of the rest
unfoldable pub add_char : Bool → ℕ → List Text → List Text
add_char true x parts = [] ∷ parts
add_char false x [] = (x ∷ []) ∷ []
add_char false x (part ∷ parts) = (x ∷ part) ∷ parts

-- `s.split(c)`: never empty
unfoldable pub split_on : ℕ → Text → List Text
unfolding add_char
split_on c [] = [] ∷ []
split_on c (x ∷ s) = add_char (eqb x c) x (split_on c s)

-- `c.join(parts)`
unfoldable pub join_on : ℕ → List Text → Text
join_on c [] = []
join_on c (part ∷ []) = part
join_on c (part ∷ parts) = part ++ c ∷ join_on c parts

-- The order of texts, by code points.
abbrev pub text_le : Text → Text → Bool
text_le [] t = true
text_le (c ∷ s) [] = false
text_le (c ∷ s) (d ∷ t) = ltb c d || (eqb c d && text_le s t)

unfoldable pub dedup : List Text → List Text
unfolding mem
dedup [] = []
dedup (t ∷ ts) = let rest = dedup ts in if mem t rest then rest else t ∷ rest

-- `sorted(set(ts))`
unfoldable pub sort_texts : List Text → List Text
unfolding dedup
sort_texts ts = order_by text_le (dedup ts)
