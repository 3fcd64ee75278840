-- ===== src/Url.antt =====
-- What the service uses of `urllib.parse`: `urlsplit` with the fields that are computed from the
-- authority, `unquote` and `quote`.
pub mod Quote
use passd.Base.{
  ◌-◌, ◌+◌, is_empty, ◌++◌, ◌*◌, ℕ, Bool, false, not, ◌&&◌, ◌||◌, Option, none, some, List, [], ◌∷◌,
  leb, eqb, if◌then◌else◌, all, filter,
}
use passd.Errors.{err, Result, ok, internal, ◌>>◌, raise_if}
use passd.Text.{Text, lower, has_char, lstrip}

-- What `urllib` and `codecs` do with characters outside ASCII: replacing decoding of UTF-8 bytes,
-- the check of an authority under NFKC, and the check of a bracketed address.
pub record Unicode : Type 0 where
  pub decode_utf8 : List ℕ → Text
  pub netloc_safe : Text → Bool
  pub bracketed_host : Text → Bool

-- The text before and behind the first character that a test selects: `partition`, without the
-- separator. `none` where there is no such character.
unfoldable pub cut : (ℕ → Bool) → Text → Text × Option Text
cut p [] = ([], none)
cut p (c ∷ s) = let (before, behind) = cut p s in if p c then ([], some s) else (c ∷ before, behind)

-- `s.rpartition("@")[2]`
unfoldable pub after_at : Text → Text
unfolding has_char
after_at [] = []
after_at (c ∷ s) = if has_char b'@' (c ∷ s) then after_at s else c ∷ s

pub record SplitResult : Type 0 where
  pub scheme : Text
  pub netloc : Text
  pub path : Text
  pub query : Text
  pub fragment : Text

-- tab, carriage return and newline, which `urlsplit` removes
abbrev is_unsafe : ℕ → Bool
is_unsafe c = eqb c 9 || eqb c 10 || eqb c 13

abbrev is_c0_or_space : ℕ → Bool
is_c0_or_space c = leb c 32

abbrev is_alpha : ℕ → Bool
is_alpha c = (leb b'a' c && leb c b'z') || (leb b'A' c && leb c b'Z')

abbrev is_digit : ℕ → Bool
is_digit c = leb b'0' c && leb c b'9'

abbrev is_scheme_char : ℕ → Bool
is_scheme_char c = is_alpha c || is_digit c || eqb c b'+' || eqb c b'-' || eqb c b'.'

abbrev first_is : (ℕ → Bool) → Text → Bool
first_is p [] = false
first_is p (c ∷ _) = p c

-- `scheme, url = url[:i].lower(), url[i+1:]`, where the text before the first colon is a scheme
unfoldable pub pick_scheme : Text → Text × Option Text → Text × Text
unfolding lower
pick_scheme url (before, none) = ([], url)
pick_scheme url (before, some behind) =
    if first_is is_alpha before && all is_scheme_char before
    then (lower before, behind)
    else ([], url)

unfoldable pub split_scheme : Text → Text × Text
unfolding cut pick_scheme
split_scheme url = pick_scheme url (cut (eqb b':') url)

-- `netloc, url = _splitnetloc(url, 2)` after "//"
abbrev ends_netloc : ℕ → Bool
ends_netloc c = eqb c b'/' || eqb c b'?' || eqb c b'#'

unfoldable pub span : (ℕ → Bool) → Text → Text × Text
span p [] = ([], [])
span p (c ∷ s) =
    let (before, behind) = span p s in if p c then ([], c ∷ s) else (c ∷ before, behind)

unfoldable pub split_netloc : Text → Text × Text
unfolding span
split_netloc (c ∷ d ∷ s) = if eqb c b'/' && eqb d b'/' then span ends_netloc s else ([], c ∷ d ∷ s)
split_netloc url = ([], url)

abbrev behind_or_empty : Text × Option Text → Text × Text
behind_or_empty (a, none) = (a, [])
behind_or_empty (a, some b) = (a, b)

-- The brackets of an authority: both or none, and what they hold is an address.
unfoldable pub check_brackets : Unicode → Text → Bool
check_brackets u netloc =
    let opens = has_char b'[' netloc in
    let closes = has_char b']' netloc in
    if opens && closes then u.bracketed_host netloc else not (opens || closes)

unfoldable pub urlsplit : Unicode → Text → Result SplitResult
unfolding split_scheme split_netloc check_brackets cut lstrip has_char
urlsplit u raw = do
  let url = filter (λ c. not (is_unsafe c)) (lstrip is_c0_or_space raw)
  let with_scheme = split_scheme url
  let with_netloc = split_netloc with_scheme.1
  raise_if (not (check_brackets u with_netloc.0)) internal
  let with_fragment = behind_or_empty (cut (eqb b'#') with_netloc.1)
  let with_query = behind_or_empty (cut (eqb b'?') with_fragment.0)
  raise_if (not (u.netloc_safe with_netloc.0)) internal
  ok (record {
    scheme = with_scheme.0;
    netloc = with_netloc.0;
    path = with_query.0;
    query = with_query.1;
    fragment = with_fragment.1;
  })

-- the text before the last "@"
unfoldable pub before_at : Text → Text
unfolding has_char
before_at [] = []
before_at (c ∷ s) = if has_char b'@' s then c ∷ before_at s else []

abbrev non_empty : Option Text → Bool
non_empty none = false
non_empty (some s) = not (is_empty s)

-- `SplitResult.username` and `password`, where one of them is there and not empty
unfoldable pub has_userinfo : SplitResult → Bool
unfolding cut has_char after_at
has_userinfo r =
    has_char b'@' r.netloc
    && (let (user, behind) = cut (eqb b':') (before_at r.netloc) in
        not (is_empty user) || non_empty behind)

-- the host and the port text of an authority, `_hostinfo`
unfoldable pub hostinfo : SplitResult → Text × Text
unfolding cut after_at has_char
hostinfo r =
    let info = after_at r.netloc in
    let (_, bracketed) = cut (eqb b'[') info in
    elim bracketed [
      | none ↦ behind_or_empty (cut (eqb b':') info)
      | some b ↦
          let (host, tail) = behind_or_empty (cut (eqb b']') b) in
          (host, (behind_or_empty (cut (eqb b':') tail)).1)
    ]

-- `SplitResult.hostname`: lower case up to a zone; empty where Python has `None`
unfoldable pub hostname : SplitResult → Text
unfolding hostinfo lower span
hostname r = let (host, zone) = span (eqb b'%') (hostinfo r).0 in lower host ++ zone

abbrev number_of : ℕ → Text → ℕ
number_of n [] = n
number_of n (c ∷ s) = number_of (n * 10 + (c - b'0')) s

unfoldable pub read_port : Text → Result (Option ℕ)
read_port [] = ok none
read_port (c ∷ s) =
    let n = number_of 0 (c ∷ s) in
    if all is_digit (c ∷ s) && leb n 65535 then ok (some n) else err internal

-- `SplitResult.port`: raises `ValueError` on a text that is no port
unfoldable pub port : SplitResult → Result (Option ℕ)
unfolding hostinfo read_port
port r = read_port (hostinfo r).1
