-- ===== src/Refs.antt =====
-- passd/refs.py: `pass://VAULT/ITEM[/FIELD]` references.
use passd.Base.{[], is_empty, not, some, filter, if◌then◌else◌, ◌∷◌, map, none, List, Option}
use passd.Errors.{◌>>=◌, raise_if, ◌>>◌, ok, validation_error, err, Result}
use passd.Text.{starts_with, split_on, join_on, Text, codes}
use passd.Platform.{Platform}
use passd.Url.Quote.{unquote}
use passd.Url.{urlsplit}

-- A vault, an item and a field, if one is named.
pub record PassRef : Type 0 where
  pub vault : Text
  pub item : Text
  pub field : Option Text

-- `"/".join(parts[1:]) if len(parts) > 1 else None`
abbrev pub field_of : List Text → Option Text
field_of [] = none
field_of (part ∷ parts) = some (join_on b'/' (part ∷ parts))

unfoldable pub build_ref : Text → List Text → Result PassRef
build_ref vault [] = err validation_error
build_ref vault (item ∷ rest) =
    if is_empty vault
    then err validation_error
    else ok (record { vault = vault; item = item; field = field_of rest })

module _ ⦃p : Platform⦄ where
  -- `[unquote(p) for p in path.split("/") if p]`
  unfoldable pub path_parts : Text → List Text
  path_parts path =
      map (unquote p.unicode) (filter (λ part. not (is_empty part)) (split_on b'/' path))

  unfoldable pub parse_pass_ref : Text → Result PassRef
  unfolding build_ref path_parts
  parse_pass_ref value = do
    raise_if (not (starts_with value (codes "pass://"))) validation_error
    parsed ← urlsplit p.unicode value
    build_ref (unquote p.unicode parsed.netloc) (path_parts parsed.path)
