-- ===== src/Text/Laws.antt =====
-- Laws of texts: equality and prefixes.
use passd.Base.{◌≡◌, refl, ◌↔◌, true, [], ◌∷◌, ◌++◌, arith, eqb, eqb_iff, &&-split}
use passd.Text.{Text, ◌==◌, starts_with}

pub eq_iff : (s t : Text) → ((s == t) ≡ true) ↔ (s ≡ t)
unfolding ◌==◌
eq_iff [] [] = ground arith
eq_iff [] (y ∷ ys) = ground arith
eq_iff (x ∷ xs) [] = ground arith
eq_iff (x ∷ xs) (y ∷ ys) = ground (arith, eq_iff xs ys, eqb_iff x y)

pub eq_refl : (s : Text) → (s == s) ≡ true
eq_refl s = (eq_iff s s).1 refl

-- The rest of a text behind a prefix that it has.
pub starts_with-split : (s t : Text) → starts_with s t ≡ true → (r : Text) × (s ≡ t ++ r)
unfolding starts_with
starts_with-split s [] h = (s, refl)
starts_with-split [] (d ∷ t) h = ground arith
starts_with-split (c ∷ s) (d ∷ t) h =
    let (same, more) = &&-split (eqb c d) (starts_with s t) h in
    let (r, e) = starts_with-split s t more in (r, ground (arith, eqb_iff c d))

pub starts_with-append : (t r : Text) → starts_with (t ++ r) t ≡ true
unfolding starts_with
starts_with-append [] r = refl
starts_with-append (d ∷ t) r = ground (arith, starts_with-append t r, eqb_iff d d)
