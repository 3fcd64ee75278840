-- ===== src/Hosts.antt =====
-- Host names: `_normalize_host` and `_host_allowed` of passd/service.py.
pub mod Patterns
use passd.Base.{is_some, ◌++◌, ◌||◌, not, is_empty, ◌&&◌, eqb, if◌then◌else◌, any, Bool, List}
use passd.Errors.{ok, ◌>>=◌, validation_error, raise_if, ◌>>◌, Result}
use passd.Text.{◌==◌, has_char, ends_with, starts_with, strip, lower, rstrip, Text, codes}
use passd.Platform.{Platform}
use mathlib.Core.List.{tail}
use passd.Url.{port, port, has_userinfo, hostname, urlsplit}

-- `s.rstrip(".")`
unfoldable pub rstrip_dots : Text → Text
unfolding rstrip
rstrip_dots = rstrip (eqb b'.')

-- One round of the loop, on a pattern in lower case with no dot at its end.
unfoldable pub matches : Text → Text → Bool
matches h p =
    if starts_with p (codes "*.")
    then (let suffix = tail p in ends_with h suffix && not (h == tail suffix))
    else h == p

unfoldable pub host_matches : Text → Text → Bool
unfolding rstrip_dots matches lower
host_matches h pattern = matches h (rstrip_dots (lower pattern))

-- Is a host under one of the patterns? `*.suffix` stands for every name below `suffix`.
unfoldable pub host_allowed : Text → List Text → Bool
unfolding host_matches
host_allowed host patterns = any (host_matches (rstrip_dots (lower host))) patterns

module _ ⦃p : Platform⦄ where
  unfoldable pub normalize_host : Text → Result Text
  unfolding rstrip_dots
  normalize_host host = do
    let raw = rstrip_dots (lower (strip host))
    raise_if (is_empty raw || has_char b'/' raw || has_char b'@' raw || starts_with raw (codes "."))
        validation_error
    parsed ← urlsplit p.unicode (codes "//" ++ raw)
    raise_if (is_empty (hostname parsed) || has_userinfo parsed || not (is_empty parsed.path))
        validation_error
    number ← port parsed
    raise_if (is_some number) validation_error
    ok (rstrip_dots (lower (hostname parsed)))
