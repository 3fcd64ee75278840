-- ===== src/Hosts/Patterns.antt =====
-- Which hosts a pattern stands for.
use mathlib.Core.List.{reverse-reverse, reverse-append}
use passd.Base.{
  refl, [], Among, inr, any, List, ap, inl, ◌∙◌, Bool-cases, Bool, ◌⊎◌, sym, not, &&-split, ◌∷◌,
  ◌≢◌, true, ◌≡◌, ◌++◌,
}
use passd.Hosts.{rstrip_dots, host_matches, host_allowed, matches}
use passd.Text.{lower, ◌==◌, starts_with, ends_with, codes, Text}
use passd.Text.Laws.{eq_iff, starts_with-split}
use mathlib.Core.List.{reverse}

-- The rest of a text before a suffix that it has.
ends_with-split : (s t : Text) → ends_with s t ≡ true → (r : Text) × (s ≡ r ++ t)
unfolding ends_with
ends_with-split s t h =
    let (r, e) = starts_with-split (reverse s) (reverse t) h in
    (
      reverse r,
      sym (reverse-reverse s)
          ∙ ap reverse e
          ∙ reverse-append (reverse t) r
          ∙ ap (λ u. reverse r ++ u) (reverse-reverse t),
    )

-- A pattern `*.suffix`, in lower case, stands for the names that end in `.suffix`, and never for
-- `suffix` itself.
pub matches-wildcard :
    (h suffix : Text)
    → matches h (codes "*." ++ suffix) ≡ true
    → (h ≢ suffix) × ((label : Text) × (h ≡ label ++ b'.' ∷ suffix))
unfolding matches starts_with
matches-wildcard h suffix e =
    let (ends, other) = &&-split (ends_with h (b'.' ∷ suffix)) (not (h == suffix)) e in
    (
      (λ same. absurd (cc ((eq_iff h suffix).1 same, other))),
      ends_with-split h (b'.' ∷ suffix) ends,
    )

-- A pattern covers its own name, or, if it is a wildcard, the names below its suffix.
abbrev pub Covers : (pattern host : Text) → Type 0
Covers pattern host =
    (host ≡ pattern)
    ⊎ ((suffix : Text) × (pattern ≡ codes "*." ++ suffix)
        × (host ≢ suffix)
        × ((label : Text) × (host ≡ label ++ b'.' ∷ suffix)))

matches-Covers : (h pattern : Text) → matches h pattern ≡ true → Covers pattern h
matches-Covers h pattern e = elim (Bool-cases (starts_with pattern (codes "*."))) [
  | inl wild ↦
      let (suffix, same) = starts_with-split pattern (codes "*.") wild in
      let (other, below) = matches-wildcard h suffix (ap (matches h) (sym same) ∙ e) in
      inr (suffix, same, other, below)
  | inr plain ↦ inl ((eq_iff h pattern).0 (unfold matches in rw plain at e))
]

any-Among :
    {A : Type 0} (p : A → Bool) (xs : List A)
    → any p xs ≡ true
    → (x : A) × Among x xs × (p x ≡ true)
any-Among p [] h = absurd (cc h)
any-Among p (x ∷ xs) h = elim (Bool-cases (p x)) [
  | inl t ↦ (x, inl refl, t)
  | inr f ↦ let (y, m, t) = any-Among p xs (rw f at h) in (y, inr m, t)
]

-- A host that is allowed is covered by one of the patterns, both in lower case and without the dots
-- at their ends: a wildcard covers no name but those below its suffix.
pub host_allowed-Covers :
    (host : Text) (patterns : List Text)
    → host_allowed host patterns ≡ true
    → (pattern : Text) × Among pattern patterns
      × Covers (rstrip_dots (lower pattern)) (rstrip_dots (lower host))
unfolding host_allowed host_matches
host_allowed-Covers host patterns h =
    let (pattern, among, e) = any-Among (host_matches (rstrip_dots (lower host))) patterns h in
    (pattern, among, matches-Covers (rstrip_dots (lower host)) (rstrip_dots (lower pattern)) e)
