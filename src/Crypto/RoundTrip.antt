-- ===== src/Crypto/RoundTrip.antt =====
-- b64e and b64d of passd/crypto.py undo each other.
use passd.Base.{
  ℕ, suc, ◌+◌, ◌-◌, ◌*◌, ◌/◌, ◌%◌, List, [], ◌∷◌, ◌++◌, length, Bool, true, false, leb, eqb,
  if◌then◌else◌, any, ◌≡◌, ◌<◌, All, arith, ap, ◌∙◌, refl,
}
use passd.Errors.{ok}
use passd.Text.{Text, rstrip, lstrip}
use passd.Crypto.Base64.{IsByte, char64, urlsafe_b64encode, urlsafe_b64decode, b64e, b64d, padding}
use mathlib.Core.List.{reverse, reverse-cons, reverse-append}
use passd.Crypto.Decoding.{decode-urlsafe_b64encode}

no_padding : (i : ℕ) → i < 64 → eqb b'=' (char64 i) ≡ false
unfolding char64
no_padding i h = ground arith

ascii : (i : ℕ) → i < 64 → leb 128 (char64 i) ≡ false
unfolding char64
ascii i h = ground arith

-- A character that data begin with stays.
lstrip-append_one :
    (p : ℕ → Bool) (s : Text) (c : ℕ) → p c ≡ false → lstrip p (s ++ c ∷ []) ≡ lstrip p s ++ c ∷ []
unfolding lstrip
lstrip-append_one p [] c h = rw h refl
lstrip-append_one p (x ∷ s) c h = one (p x) (lstrip-append_one p s c h)
  where
    one :
        (b : Bool)
        → lstrip p (s ++ c ∷ []) ≡ lstrip p s ++ c ∷ []
        → (if b then lstrip p (s ++ c ∷ []) else x ∷ s ++ c ∷ [])
          ≡ (if b then lstrip p s else x ∷ s) ++ c ∷ []
    one true e = e
    one false e = refl

rstrip-cons : (p : ℕ → Bool) (c : ℕ) (s : Text) → p c ≡ false → rstrip p (c ∷ s) ≡ c ∷ rstrip p s
unfolding rstrip
rstrip-cons p c s h =
    ap (λ l. reverse (lstrip p l)) (reverse-cons c s)
    ∙ ap reverse (lstrip-append_one p (reverse s) c h)
    ∙ reverse-append (lstrip p (reverse s)) (c ∷ [])

-- The characters, without padding
abbrev bare : List ℕ → Text
bare [] = []
bare (a ∷ []) = char64 (a / 4) ∷ char64 (a % 4 * 16) ∷ []
bare (a ∷ b ∷ []) = char64 (a / 4) ∷ char64 (a % 4 * 16 + b / 16) ∷ char64 (b % 16 * 4) ∷ []
bare (a ∷ b ∷ c ∷ rest) =
    char64 (a / 4)
    ∷ char64 (a % 4 * 16 + b / 16)
    ∷ char64 (b % 16 * 4 + c / 64)
    ∷ char64 (c % 64)
    ∷ bare rest

keeps_char :
    (i : ℕ) (s t : Text)
    → i < 64
    → rstrip (eqb b'=') s ≡ t
    → rstrip (eqb b'=') (char64 i ∷ s) ≡ char64 i ∷ t
keeps_char i s t h e =
    rstrip-cons (eqb b'=') (char64 i) s (no_padding i h) ∙ ap (λ l. char64 i ∷ l) e

two_dropped : rstrip (eqb b'=') (b'=' ∷ b'=' ∷ []) ≡ []
unfolding rstrip lstrip
two_dropped = refl

one_dropped : rstrip (eqb b'=') (b'=' ∷ []) ≡ []
unfolding rstrip lstrip
one_dropped = refl

none_dropped : rstrip (eqb b'=') [] ≡ []
unfolding rstrip lstrip
none_dropped = refl

rstrip-bare :
    (bytes : List ℕ) → All IsByte bytes → rstrip (eqb b'=') (urlsafe_b64encode bytes) ≡ bare bytes
unfolding urlsafe_b64encode
rstrip-bare [] h = none_dropped
rstrip-bare (a ∷ []) (ha, _) =
    keeps_char (a / 4) _ _ (omega arith) (keeps_char (a % 4 * 16) _ _ (omega arith) two_dropped)
rstrip-bare (a ∷ b ∷ []) (ha, (hb, _)) = keeps_char (a / 4) _ _ (omega arith) (
    keeps_char (a % 4 * 16 + b / 16) _ _ (omega arith)
      (keeps_char (b % 16 * 4) _ _ (omega arith) one_dropped))
rstrip-bare (a ∷ b ∷ c ∷ rest) (ha, (hb, (hc, h))) = keeps_char (a / 4) _ _ (omega arith) (
    keeps_char (a % 4 * 16 + b / 16) _ _ (omega arith) (
      keeps_char (b % 16 * 4 + c / 64) _ _ (omega arith)
        (keeps_char (c % 64) _ _ (omega arith) (rstrip-bare rest h))))

-- The padding that the decoder restores is the one that was taken off.
padded :
    (bytes : List ℕ)
    → bare bytes ++ padding ((4 - length (bare bytes) % 4) % 4) ≡ urlsafe_b64encode bytes
unfolding urlsafe_b64encode
padded [] = refl
padded (a ∷ []) = refl
padded (a ∷ b ∷ []) = refl
padded (a ∷ b ∷ c ∷ rest) =
    let four : (4 - suc (suc (suc (suc (length (bare rest))))) % 4) % 4
        ≡ (4 - length (bare rest) % 4) % 4 =
      omega arith in
    ap (λ n. bare (a ∷ b ∷ c ∷ rest) ++ padding n) four
    ∙ ap
        (λ l.
          char64 (a / 4)
          ∷ char64 (a % 4 * 16 + b / 16)
          ∷ char64 (b % 16 * 4 + c / 64)
          ∷ char64 (c % 64)
          ∷ l)
        (padded rest)

is_ascii : (bytes : List ℕ) → All IsByte bytes → any (leb 128) (urlsafe_b64encode bytes) ≡ false
unfolding urlsafe_b64encode
is_ascii [] h = refl
is_ascii (a ∷ []) (ha, _) = rw (ascii (a / 4) (omega arith), ascii (a % 4 * 16) (omega arith)) refl
is_ascii (a ∷ b ∷ []) (ha, (hb, _)) =
    rw
      (
        ascii (a / 4) (omega arith),
        ascii (a % 4 * 16 + b / 16) (omega arith),
        ascii (b % 16 * 4) (omega arith),
      )
      refl
is_ascii (a ∷ b ∷ c ∷ rest) (ha, (hb, (hc, h))) =
    rw
      (
        ascii (a / 4) (omega arith),
        ascii (a % 4 * 16 + b / 16) (omega arith),
        ascii (b % 16 * 4 + c / 64) (omega arith),
        ascii (c % 64) (omega arith),
        is_ascii rest h,
      )
      refl

-- Bytes that were written in base64 are read back, whatever they are: the padding that was taken
-- off is restored.
pub b64d-b64e : (bytes : List ℕ) → All IsByte bytes → b64d (b64e bytes) ≡ ok bytes
unfolding b64d b64e urlsafe_b64decode
b64d-b64e bytes h =
    rw (rstrip-bare bytes h, padded bytes, is_ascii bytes h, decode-urlsafe_b64encode bytes h) refl
