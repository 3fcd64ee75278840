-- ===== src/Crypto/Decoding.antt =====
-- The decoder of base64 reads what the encoder wrote, padding included.
use passd.Base.{
  ℕ, ◌+◌, ◌*◌, ◌/◌, ◌%◌, List, [], ◌∷◌, true, false, eqb, Option, some, none, ◌≡◌, ◌<◌, All, arith,
  ◌∙◌, refl,
}
use passd.Text.{Text}
use passd.Crypto.Base64.{
  IsByte, char64, sextet, urlsafe_b64encode, decode, read_char, read_sextet, read_padding, first,
  second, third, fourth, Place, after, go, stop,
}

sextet-char64 : (i : ℕ) → i < 64 → sextet (char64 i) ≡ some i
unfolding sextet char64
sextet-char64 i h = ground arith

is_data : (i : ℕ) → i < 64 → eqb (char64 i) b'=' ≡ false
unfolding char64
is_data i h = ground arith

read_char-char64 :
    (place : Place) (i : ℕ) → i < 64 → read_char place (char64 i) ≡ read_sextet place i
unfolding read_char
read_char-char64 place i h = rw (is_data i h, sextet-char64 i h) refl

after_nothing : (x : Option (List ℕ)) → after [] x ≡ x
after_nothing none = refl
after_nothing (some more) = refl

-- What three bytes are read as, from their four characters.
decode_group :
    (i j k l : ℕ) (s : Text)
    → i < 64
    → j < 64
    → k < 64
    → l < 64
    → decode (char64 i ∷ char64 j ∷ char64 k ∷ char64 l ∷ s) first
      ≡ after
          ((i * 4 + j / 16) ∷ [])
          (after ((j % 16 * 16 + k / 4) ∷ []) (after ((k % 4 * 64 + l) ∷ []) (decode s first)))
unfolding decode read_sextet
decode_group i j k l s hi hj hk hl =
    rw
      (
        read_char-char64 first i hi,
        read_char-char64 (second i) j hj,
        read_char-char64 (third (j % 16) false) k hk,
        read_char-char64 (fourth (k % 4)) l hl,
      )
      (after_nothing _)

fourth_padding : (kept : ℕ) → read_char (fourth kept) b'=' ≡ stop
unfolding read_char read_padding
fourth_padding kept = refl

third_padding : (kept : ℕ) → read_char (third kept false) b'=' ≡ go [] (third kept true)
unfolding read_char read_padding
third_padding kept = refl

last_padding : (kept : ℕ) → read_char (third kept true) b'=' ≡ stop
unfolding read_char read_padding
last_padding kept = refl

nothing_read : decode [] first ≡ some []
unfolding decode
nothing_read = refl

decode_two :
    (i j k : ℕ)
    → i < 64
    → j < 64
    → k < 64
    → decode (char64 i ∷ char64 j ∷ char64 k ∷ b'=' ∷ []) first
      ≡ some ((i * 4 + j / 16) ∷ (j % 16 * 16 + k / 4) ∷ [])
unfolding decode read_sextet
decode_two i j k hi hj hk =
    rw
      (
        read_char-char64 first i hi,
        read_char-char64 (second i) j hj,
        read_char-char64 (third (j % 16) false) k hk,
        fourth_padding (k % 4),
      )
      refl

decode_one :
    (i j : ℕ)
    → i < 64
    → j < 64
    → decode (char64 i ∷ char64 j ∷ b'=' ∷ b'=' ∷ []) first ≡ some ((i * 4 + j / 16) ∷ [])
unfolding decode read_sextet
decode_one i j hi hj =
    rw
      (
        read_char-char64 first i hi,
        read_char-char64 (second i) j hj,
        third_padding (j % 16),
        last_padding (j % 16),
      )
      refl

pub decode-urlsafe_b64encode :
    (bytes : List ℕ) → All IsByte bytes → decode (urlsafe_b64encode bytes) first ≡ some bytes
unfolding urlsafe_b64encode
decode-urlsafe_b64encode [] h = nothing_read
decode-urlsafe_b64encode (a ∷ []) (ha, _) =
    let first_byte : a / 4 * 4 + a % 4 * 16 / 16 ≡ a = omega arith in
    decode_one (a / 4) (a % 4 * 16) (omega arith) (omega arith) ∙ rw first_byte refl
decode-urlsafe_b64encode (a ∷ b ∷ []) (ha, (hb, _)) =
    let first_byte : a / 4 * 4 + (a % 4 * 16 + b / 16) / 16 ≡ a = omega arith in
    let second_byte : (a % 4 * 16 + b / 16) % 16 * 16 + b % 16 * 4 / 4 ≡ b = omega arith in
    decode_two (a / 4) (a % 4 * 16 + b / 16) (b % 16 * 4) (omega arith) (omega arith) (omega arith)
    ∙ rw (first_byte, second_byte) refl
decode-urlsafe_b64encode (a ∷ b ∷ c ∷ rest) (ha, (hb, (hc, h))) =
    let first_byte : a / 4 * 4 + (a % 4 * 16 + b / 16) / 16 ≡ a = omega arith in
    let second_byte : (a % 4 * 16 + b / 16) % 16 * 16 + (b % 16 * 4 + c / 64) / 4 ≡ b =
      omega arith in
    let third_byte : (b % 16 * 4 + c / 64) % 4 * 64 + c % 64 ≡ c = omega arith in
    decode_group (a / 4) (a % 4 * 16 + b / 16) (b % 16 * 4 + c / 64) (c % 64) _ (omega arith)
      (omega arith) (omega arith) (omega arith)
    ∙ rw (first_byte, second_byte, third_byte, decode-urlsafe_b64encode rest h) refl
