-- ===== src/Broker/Hidden.antt =====
-- What a response shows of the secret that was sent: nothing, for `_redact` and `_execute_http` of
-- passd/service.py.
use passd.Base.{
  &&-split, zero, inr, inl, ◌-◌, length, suc, ◌||◌, Bool-cases, eqb, true, [], ℕ, false, is_empty,
  ◌≡◌, refl, ◌∷◌, ◌++◌, arith,
}
use passd.Broker.Redact.{redact, concealed, contains, replace_from}
use passd.Text.{codes, starts_with, Text, has_char}

-- A character that is not in a pattern is not its first.
first_differs :
    (x d : ℕ) (pattern : Text)
    → has_char x (d ∷ pattern) ≡ false
    → (eqb x d ≡ false) × (has_char x pattern ≡ false)
unfolding has_char
first_differs x d pattern plain = ground arith

replace_found :
    (old new : Text) (c : ℕ) (s : Text)
    → starts_with (c ∷ s) old ≡ true
    → replace_from 0 old new (c ∷ s) ≡ new ++ replace_from (length old - 1) old new s
unfolding replace_from
replace_found old new c s found = rw found

replace_kept :
    (old new : Text) (c : ℕ) (s : Text)
    → starts_with (c ∷ s) old ≡ false
    → replace_from 0 old new (c ∷ s) ≡ c ∷ replace_from 0 old new s
unfolding replace_from
replace_kept old new c s other = rw other

-- A pattern at the start of the output, which no placeholder begins, is at the start of the input.
replace_from-starts_with :
    (old pattern s : Text)
    → has_char b'<' pattern ≡ false
    → starts_with (replace_from 0 old concealed s) pattern ≡ true
    → starts_with s pattern ≡ true
unfolding starts_with replace_from
replace_from-starts_with old [] s plain h = refl
replace_from-starts_with old (d ∷ pattern) [] plain h = absurd (cc h)
replace_from-starts_with old (d ∷ pattern) (c ∷ s) plain h =
    let (differs, more) = first_differs b'<' d pattern plain in
    elim (Bool-cases (starts_with (c ∷ s) old)) [
      | inl found ↦ absurd (cc (rw (replace_found old concealed c s found, differs) at h))
      | inr other ↦
          let (same, rest) =
            &&-split (eqb c d) (starts_with (replace_from 0 old concealed s) pattern)
              (rw (replace_kept old concealed c s other) at h) in
          rw (same, replace_from-starts_with old pattern s more rest)
    ]

starts_with-before :
    (pattern u t : Text)
    → has_char b'>' pattern ≡ false
    → starts_with (u ++ b'>' ∷ t) pattern ≡ starts_with u pattern
unfolding starts_with
starts_with-before [] u t plain = refl
starts_with-before (d ∷ pattern) [] t plain = rw (first_differs b'>' d pattern plain).0
starts_with-before (d ∷ pattern) (c ∷ u) t plain =
    rw (starts_with-before pattern u t (first_differs b'>' d pattern plain).1)

starts_with_other :
    (pattern t : Text)
    → is_empty pattern ≡ false
    → has_char b'>' pattern ≡ false
    → starts_with (b'>' ∷ t) pattern ≡ false
unfolding starts_with
starts_with_other [] t some_text plain = absurd (cc some_text)
starts_with_other (d ∷ pattern) t some_text plain = rw (first_differs b'>' d pattern plain).0

starts_with_nothing : (pattern : Text) → is_empty pattern ≡ false → starts_with [] pattern ≡ false
unfolding starts_with
starts_with_nothing [] some_text = absurd (cc some_text)
starts_with_nothing (d ∷ pattern) some_text = refl

-- A pattern without `>` is on one side of it, or on the other.
contains-split :
    (pattern u t : Text)
    → is_empty pattern ≡ false
    → has_char b'>' pattern ≡ false
    → contains pattern (u ++ b'>' ∷ t) ≡ (contains pattern u || contains pattern t)
contains-split pattern [] t some_text plain =
    rw (starts_with_other pattern t some_text plain, starts_with_nothing pattern some_text)
contains-split pattern (c ∷ u) t some_text plain =
    ground (
      arith,
      starts_with-before pattern (c ∷ u) t plain,
      contains-split pattern u t some_text plain,
    )

abbrev opening : Text
opening = codes "<concealed by passd"

contains_across :
    (old u t : Text)
    → is_empty old ≡ false
    → has_char b'>' old ≡ false
    → contains old (u ++ b'>' ∷ []) ≡ false
    → contains old t ≡ false
    → contains old (u ++ b'>' ∷ t) ≡ false
contains_across old u t some_text plain apart rest =
    let left = contains-split old u t some_text plain in
    let right = contains-split old u [] some_text plain in ground arith

-- A placeholder, before a text without the secret, does not bring the secret back.
contains-concealed :
    (old t : Text)
    → is_empty old ≡ false
    → has_char b'>' old ≡ false
    → contains old concealed ≡ false
    → contains old t ≡ false
    → contains old (concealed ++ t) ≡ false
contains-concealed old t = contains_across old opening t

module _ (old : Text) (some_text : is_empty old ≡ false) (no_open : has_char b'<' old ≡ false)
    (no_close : has_char b'>' old ≡ false) (apart : contains old concealed ≡ false) where
  kept_hides :
      (c : ℕ) (s : Text)
      → starts_with (c ∷ s) old ≡ false
      → contains old (replace_from 0 old concealed s) ≡ false
      → contains old (c ∷ replace_from 0 old concealed s) ≡ false
  kept_hides c s other rest =
      elim (Bool-cases (starts_with (c ∷ replace_from 0 old concealed s) old)) [
        | inr absent ↦ rw (absent, rest)
        | inl there ↦
            let before =
              replace_from-starts_with old old (c ∷ s) no_open
                (rw (replace_kept old concealed c s other) there) in
            absurd (cc (before, other))
      ]

  replace_from_hides :
      (skip : ℕ) (s : Text) → contains old (replace_from skip old concealed s) ≡ false
  unfolding replace_from
  replace_from_hides skip [] = starts_with_nothing old some_text
  replace_from_hides (suc skip) (c ∷ s) = replace_from_hides skip s
  replace_from_hides zero (c ∷ s) = elim (Bool-cases (starts_with (c ∷ s) old)) [
    | inl found ↦
        rw (replace_found old concealed c s found) (
          contains-concealed old _ some_text no_close apart (replace_from_hides (length old - 1) s))
    | inr other ↦
        rw (replace_kept old concealed c s other) (kept_hides c s other (replace_from_hides zero s))
  ]

-- A secret that `_redact` can hide: it is not empty, and has no part of the placeholder's brackets
-- in it, and it is no part of the placeholder.
pub record IsConcealable (secret : Text) : Type 0 where
  pub some_text : is_empty secret ≡ false
  pub no_open : has_char b'<' secret ≡ false
  pub no_close : has_char b'>' secret ≡ false
  pub apart : contains secret concealed ≡ false

-- The text that `_redact` returns does not contain the secret, whatever the response was.
pub redact_hides :
    (value secret : Text) → IsConcealable secret → contains secret (redact value secret) ≡ false
unfolding redact
redact_hides value secret c =
    rw c.some_text (replace_from_hides secret c.some_text c.no_open c.no_close c.apart 0 value)
