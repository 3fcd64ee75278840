-- ===== src/Capabilities/Path.antt =====
-- What `_validate_capability_invocation` lets through.
use passd.Base.{
  is_empty, ◌||◌, not, ◌∙◌, false, inr, inl, refl, [], Bool-cases, ap, ◌∷◌, any, ◌⊎◌, true, ◌++◌,
  ◌≡◌, arith,
}
use passd.Text.Laws.{eq_iff, starts_with-split}
use passd.Errors.{ok, sequence_ok, guard_ok}
use passd.Capabilities.{
  is_line_break, is_absolute, is_parent, rstrip_slashes, has_traversal, validate_invocation,
  path_in_capability,
}
use passd.Platform.{Platform}
use passd.Text.{strip, upper, ◌==◌, split_on, mem, codes, Text}
use passd.Payload.{Definition}
use passd.Url.Quote.{unquote}
use passd.Url.{urlsplit}
use mathlib.Core.Path.{subst}

-- The path is the base, or below it.
abbrev pub IsBelow : (base path : Text) → Type 0
IsBelow base path = (path ≡ base) ⊎ ((rest : Text) × (path ≡ base ++ b'/' ∷ rest))

append_slash : (base rest : Text) → (base ++ codes "/") ++ rest ≡ base ++ b'/' ∷ rest
append_slash [] rest = refl
append_slash (c ∷ base) rest = ap (λ t. c ∷ t) (append_slash base rest)

pub path_in_capability_iff :
    (path prefix : Text)
    → path_in_capability path prefix ≡ true
    → (prefix ≡ codes "/") ⊎ IsBelow (rstrip_slashes prefix) path
unfolding path_in_capability
path_in_capability_iff path prefix h =
    let base = rstrip_slashes prefix in
    elim (Bool-cases (prefix == codes "/")) [
      | inl all ↦ inl ((eq_iff prefix (codes "/")).0 all)
      | inr other ↦ elim (Bool-cases (path == base)) [
        | inl same ↦ inr (inl ((eq_iff path base).0 same))
        | inr more ↦
            let (rest, e) = starts_with-split path (base ++ codes "/") (ground arith) in
            inr (inr (rest, e ∙ append_slash base rest))
      ]
    ]

-- What `_validate_capability_invocation` has established when it returns.
pub record IsContained ⦃p : Platform⦄ (definition : Definition) (method path : Text) : Type 0 where
  pub method_listed : mem method definition.methods ≡ true
  pub no_parent : any is_parent (split_on b'/' (unquote p.unicode path)) ≡ false
  pub below :
      (unquote p.unicode definition.path_prefix ≡ codes "/")
      ⊎ IsBelow (rstrip_slashes (unquote p.unicode definition.path_prefix)) (unquote p.unicode path)

-- An invocation that is let through has one of the capability's methods, and a path that, decoded,
-- has no parent segment and is the decoded prefix or below it (any such path, if the prefix is `/`).
pub validate_invocation_sound :
    ⦃p : Platform⦄ (definition : Definition) (raw_method raw_path method path : Text)
    → validate_invocation definition raw_method raw_path ≡ ok (method, path)
    → IsContained definition method path
unfolding validate_invocation has_traversal
validate_invocation_sound ⦃p⦄ definition raw_method raw_path method path h =
    let (listed, h1) = guard_ok (not (mem (upper (strip raw_method)) definition.methods)) _ _ h in
    let (absolute, h2) =
      guard_ok (not (is_absolute (strip raw_path)) || any is_line_break (strip raw_path)) _ _ h1 in
    let (parsed, split, h3) = sequence_ok (urlsplit p.unicode (strip raw_path)) _ h2 in
    let (bare, h4) =
      guard_ok
        (not (is_empty parsed.scheme)
          || not (is_empty parsed.netloc)
          || not (is_empty parsed.query)
          || not (is_empty parsed.fragment))
        _ _ h3 in
    let (plain, h5) =
      guard_ok (any is_parent (split_on b'/' (unquote p.unicode parsed.path))) _ _ h4 in
    let (inside, h6) =
      guard_ok
        (not (
          path_in_capability (unquote p.unicode parsed.path)
            (unquote p.unicode definition.path_prefix)))
        _ _ h5 in
    let e_method : upper (strip raw_method) ≡ method = cc h6 in
    let e_path : parsed.path ≡ path = cc h6 in
    record {
      method_listed = subst (λ m. mem m definition.methods ≡ true) e_method (ground arith);
      no_parent =
          subst (λ q. any is_parent (split_on b'/' (unquote p.unicode q)) ≡ false) e_path plain;
      below =
          subst
            (λ q.
              (unquote p.unicode definition.path_prefix ≡ codes "/")
              ⊎ IsBelow (rstrip_slashes (unquote p.unicode definition.path_prefix))
                  (unquote p.unicode q))
            e_path
            (path_in_capability_iff (unquote p.unicode parsed.path)
              (unquote p.unicode definition.path_prefix) (ground arith));
    }
