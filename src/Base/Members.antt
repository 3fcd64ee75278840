-- ===== src/Base/Members.antt =====
-- Membership as a type by recursion, and what filtering and sorting keep.
use passd.Base.Tests.{if◌then◌else◌}
use passd.Base.Lists.{All, filter, order_by, insert_by}
use mathlib.Core.Path.{◌≡◌, refl}
use mathlib.Core.Logic.{◌⊎◌, inl, inr}
use mathlib.Core.Bool.{Bool, true, false}
use mathlib.Core.List.{List, [], ◌∷◌}

abbrev pub Among : {A : Type 0} → A → List A → Type 0
Among x [] = ⊥
Among x (y ∷ ys) = (x ≡ y) ⊎ Among x ys

module _ {κ} {A : Type 0} (P : A → Type κ) where
  All-if :
      (b : Bool) (x : A) (ys : List A)
      → (b ≡ true → P x)
      → All P ys
      → All P (if b then x ∷ ys else ys)
  All-if true x ys p h = (p refl, h)
  All-if false x ys p h = h

  All-insert_by :
      (le : A → A → Bool) (x : A) (ys : List A) → P x → All P ys → All P (insert_by le x ys)
  All-insert_by le x [] p h = (p, tt)
  All-insert_by le x (y ∷ ys) p (q, h) = choose (le x y) (All-insert_by le x ys p h)
    where
      choose :
          (b : Bool)
          → All P (insert_by le x ys)
          → All P (if b then x ∷ y ∷ ys else y ∷ insert_by le x ys)
      choose true rest = (p, (q, h))
      choose false rest = (q, rest)

  pub All-order_by : (le : A → A → Bool) (xs : List A) → All P xs → All P (order_by le xs)
  All-order_by le [] h = tt
  All-order_by le (x ∷ xs) (p, h) = All-insert_by le x (order_by le xs) p (All-order_by le xs h)

  -- A filtered list: each element passes the test.
  pub All-filter :
      (q : A → Bool) (xs : List A) → ((x : A) → Among x xs → q x ≡ true → P x) → All P (filter q xs)
  All-filter q [] h = tt
  All-filter q (x ∷ xs) h =
      All-if (q x) x (filter q xs) (h x (inl refl)) (All-filter q xs (λ y m t. h y (inr m) t))
