-- ===== src/Crypto/Base64.antt =====
-- b64e and b64d of passd/crypto.py, with `base64.urlsafe_b64encode` and `base64.urlsafe_b64decode`
-- of the language's library. Bytes and characters are numbers.
use passd.Base.{
  ◌<◌, ℕ, zero, suc, ◌+◌, ◌-◌, ◌*◌, ◌/◌, ◌%◌, List, [], ◌∷◌, ◌++◌, length, Bool, true, false, ltb,
  leb, eqb, if◌then◌else◌, ◌||◌, Option, some, none, any,
}
use passd.Errors.{Result, internal, or_raise}
use passd.Text.{Text, rstrip, between}

-- The alphabet
unfoldable pub char64 : ℕ → ℕ
char64 i =
    if ltb i 26
    then b'A' + i
    else if ltb i 52
    then b'a' + (i - 26)
    else if ltb i 62
    then b'0' + (i - 52)
    else if eqb i 62
    then b'-'
    else b'_'

-- What a character stands for: the decoder takes both alphabets.
unfoldable pub sextet : ℕ → Option ℕ
sextet c =
    if between b'A' b'Z' c
    then some (c - b'A')
    else if between b'a' b'z' c
    then some (c - b'a' + 26)
    else if between b'0' b'9' c
    then some (c - b'0' + 52)
    else if eqb c b'-' || eqb c b'+'
    then some 62
    else if eqb c b'_' || eqb c b'/'
    then some 63
    else none

unfoldable pub urlsafe_b64encode : List ℕ → Text
urlsafe_b64encode [] = []
urlsafe_b64encode (a ∷ []) = char64 (a / 4) ∷ char64 (a % 4 * 16) ∷ b'=' ∷ b'=' ∷ []
urlsafe_b64encode (a ∷ b ∷ []) =
    char64 (a / 4) ∷ char64 (a % 4 * 16 + b / 16) ∷ char64 (b % 16 * 4) ∷ b'=' ∷ []
urlsafe_b64encode (a ∷ b ∷ c ∷ rest) =
    char64 (a / 4)
    ∷ char64 (a % 4 * 16 + b / 16)
    ∷ char64 (b % 16 * 4 + c / 64)
    ∷ char64 (c % 64)
    ∷ urlsafe_b64encode rest

-- The place in a group of four characters, with the bits that are left over; in the third place, has
-- one padding character been read?
pub data Place : Type 0 where
  first : Place
  second : ℕ → Place
  third : ℕ → Bool → Place
  fourth : ℕ → Place

-- After a character: go on, with the bytes that it completes, or stop at the end of the padding.
pub data Reading : Type 0 where
  go : List ℕ → Place → Reading
  stop : Reading

unfoldable pub read_sextet : Place → ℕ → Reading
read_sextet first v = go [] (second v)
read_sextet (second kept) v = go ((kept * 4 + v / 16) ∷ []) (third (v % 16) false)
read_sextet (third kept padded) v = go ((kept * 16 + v / 4) ∷ []) (fourth (v % 4))
read_sextet (fourth kept) v = go ((kept * 64 + v) ∷ []) first

unfoldable pub read_padding : Place → Reading
read_padding first = go [] first
read_padding (second kept) = go [] (second kept)
read_padding (third kept false) = go [] (third kept true)
read_padding (third kept true) = stop
read_padding (fourth kept) = stop

-- A character of no alphabet is passed over.
unfoldable pub read_char : Place → ℕ → Reading
read_char place c =
    if eqb c b'='
    then read_padding place
    else elim (sextet c) [ none ↦ go [] place | some v ↦ read_sextet place v ]

abbrev pub after : List ℕ → Option (List ℕ) → Option (List ℕ)
after out none = none
after out (some more) = some (out ++ more)

-- The text may end between two groups alone.
abbrev pub at_end : Place → Option (List ℕ)
at_end first = some []
at_end _ = none

-- Go on with the rest of the text, or leave it unread.
abbrev pub resume : Reading → (Place → Option (List ℕ)) → Option (List ℕ)
resume stop go_on = some []
resume (go out next) go_on = after out (go_on next)

unfoldable pub decode : Text → Place → Option (List ℕ)
decode [] place = at_end place
decode (c ∷ rest) place = resume (read_char place c) (decode rest)

-- The text must be ASCII.
unfoldable pub urlsafe_b64decode : Text → Option (List ℕ)
urlsafe_b64decode s = if any (leb 128) s then none else decode s first

unfoldable pub b64e : List ℕ → Text
b64e value = rstrip (eqb b'=') (urlsafe_b64encode value)

abbrev pub padding : ℕ → Text
padding zero = []
padding (suc n) = b'=' ∷ padding n

-- `-n % 4` is the number of characters that the last group misses.
unfoldable pub b64d : Text → Result (List ℕ)
b64d value = or_raise (urlsafe_b64decode (value ++ padding ((4 - length value % 4) % 4))) internal

abbrev pub IsByte : ℕ → Type 0
IsByte b = b < 256
