-- ===== src/Tests/Formats.antt =====
-- A concrete lossless text format for the payloads, so that a platform with lawful codecs exists.
use Prim.Native.Nat.{zero, suc}
use passd.Base.{
  ap, inr, length, sym, some, inl, ◌∷◌, none, ℕ, ◌⊎◌, ◌≡◌, ◌++◌, List, [], Option, refl,
}
use passd.Platform.{IsCodec, Codec}
use passd.Text.{Text}

-- A writer and a reader that undo one another, whatever follows in the text.
pub record Format (A : Type 0) : Type 0 where
  pub write : A → Text
  pub read : Text → Option (A × Text)
  pub law : (a : A) (r : Text) → read (write a ++ r) ≡ some (a, r)

pub append_assoc : (s t u : Text) → (s ++ t) ++ u ≡ s ++ (t ++ u)
append_assoc [] t u = refl
append_assoc (c ∷ s) t u = ap (λ r. c ∷ r) (append_assoc s t u)

append_nil : (s : Text) → s ++ [] ≡ s
append_nil [] = refl
append_nil (c ∷ s) = ap (λ r. c ∷ r) (append_nil s)

abbrev read_number : Text → Option (ℕ × Text)
read_number [] = none
read_number (n ∷ r) = some (n, r)

abbrev pub number_format : Format ℕ
number_format = record { write = λ n. n ∷ []; read = read_number; law = λ n r. refl }

-- Through another type.
abbrev pub through :
    {A B : Type 0} → Format B → (to : A → B) (from : B → A) → ((a : A) → from (to a) ≡ a) → Format A
through f to from back = record {
  write = λ a. f.write (to a);
  read = λ t. elim (f.read t) [ none ↦ none | some (b, r) ↦ some (from b, r) ];
  law = λ a r. rw (f.law (to a) r, back a) refl;
}

abbrev and_then :
    {A B : Type 0} → Option (A × Text) → (A → Text → Option (B × Text)) → Option (B × Text)
and_then none k = none
and_then (some (a, r)) k = k a r

abbrev pub both : {A B : Type 0} → Format A → Format B → Format (A × B)
both f g = record {
  write = λ x. f.write x.0 ++ g.write x.1;
  read = λ t. and_then (f.read t) λ a r. and_then (g.read r) λ b u. some ((a, b), u);
  law = λ x r.
      rw (append_assoc (f.write x.0) (g.write x.1) r, f.law x.0 (g.write x.1 ++ r), g.law x.1 r)
        refl;
}

abbrev read_many : {A : Type 0} → (Text → Option (A × Text)) → ℕ → Text → Option (List A × Text)
read_many f zero t = some ([], t)
read_many f (suc n) t = and_then (f t) λ a r. and_then (read_many f n r) λ l u. some (a ∷ l, u)

abbrev write_many : {A : Type 0} → (A → Text) → List A → Text
write_many f [] = []
write_many f (a ∷ l) = f a ++ write_many f l

pub many_law :
    {A : Type 0} (f : Format A) (l : List A) (r : Text)
    → read_many f.read (length l) (write_many f.write l ++ r) ≡ some (l, r)
many_law f [] r = refl
many_law f (a ∷ l) r =
    rw
      (
        append_assoc (f.write a) (write_many f.write l) r,
        f.law a (write_many f.write l ++ r),
        many_law f l r,
      )
      refl

abbrev read_list : {A : Type 0} → (Text → Option (A × Text)) → Text → Option (List A × Text)
read_list f [] = none
read_list f (n ∷ t) = read_many f n t

abbrev pub many : {A : Type 0} → Format A → Format (List A)
many f = record {
  write = λ l. length l ∷ write_many f.write l;
  read = read_list f.read;
  law = λ l r. many_law f l r;
}

abbrev pub text_format : Format Text
text_format = many number_format

abbrev write_either : {A B : Type 0} → (A → Text) → (B → Text) → A ⊎ B → Text
write_either f g (inl a) = 0 ∷ f a
write_either f g (inr b) = 1 ∷ g b

abbrev read_either :
    {A B : Type 0}
    → (Text → Option (A × Text))
    → (Text → Option (B × Text))
    → Text
    → Option ((A ⊎ B) × Text)
read_either f g [] = none
read_either f g (zero ∷ t) = and_then (f t) λ a r. some (inl a, r)
read_either f g (suc n ∷ t) = and_then (g t) λ b r. some (inr b, r)

pub either_law :
    {A B : Type 0} (f : Format A) (g : Format B) (x : A ⊎ B) (r : Text)
    → read_either f.read g.read (write_either f.write g.write x ++ r) ≡ some (x, r)
either_law f g (inl a) r = rw (f.law a r) refl
either_law f g (inr b) r = rw (g.law b r) refl

abbrev pub either : {A B : Type 0} → Format A → Format B → Format (A ⊎ B)
either f g = record {
  write = write_either f.write g.write;
  read = read_either f.read g.read;
  law = either_law f g;
}

-- Nothing at all.
abbrev pub unit_format : Format (Unit {0})
unit_format = record { write = λ x. []; read = λ t. some (tt, t); law = λ x r. refl }

abbrev option_to : {A : Type 0} → Option A → Unit {0} ⊎ A
option_to none = inl tt
option_to (some a) = inr a

abbrev option_from : {A : Type 0} → Unit {0} ⊎ A → Option A
option_from (inl x) = none
option_from (inr a) = some a

pub option_back : {A : Type 0} (o : Option A) → option_from (option_to o) ≡ o
option_back none = refl
option_back (some a) = refl

abbrev pub maybe : {A : Type 0} → Format A → Format (Option A)
maybe f = through (either unit_format f) option_to option_from option_back

abbrev pub codec_of : {A : Type 0} → Format A → Codec A
codec_of f = record {
  dumps = f.write;
  loads = λ t. elim (f.read t) [ none ↦ none | some (a, r) ↦ some a ];
}

pub codec_of-IsCodec : {A : Type 0} (f : Format A) → IsCodec (codec_of f)
codec_of-IsCodec f = record {
  loads-dumps = λ a. rw (sym (append_nil (f.write a)), f.law a []) refl;
}
