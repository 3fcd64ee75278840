-- ===== src/Url/Quote.antt =====
-- `urllib.parse.unquote` and `quote(…, safe="")`.
use passd.Base.{
  ℕ, ◌+◌, ◌-◌, ◌*◌, ◌/◌, ◌%◌, Bool, true, false, not, ◌&&◌, ◌||◌, List, [], ◌∷◌, ◌++◌, leb, ltb,
  eqb, if◌then◌else◌,
}
use passd.Text.{Text, has_char}
use passd.Url.{Unicode}

abbrev is_hex : ℕ → Bool
is_hex c = (leb b'0' c && leb c b'9') || (leb b'a' c && leb c b'f') || (leb b'A' c && leb c b'F')

abbrev hex_value : ℕ → ℕ
hex_value c = if leb c b'9' then c - b'0' else if leb c b'F' then c - 55 else c - 87

-- `unquote_to_bytes`, on a text in ASCII
unfoldable pub percent_decode : Text → List ℕ
percent_decode [] = []
percent_decode (c ∷ []) = c ∷ []
percent_decode (c ∷ d ∷ []) = c ∷ d ∷ []
percent_decode (c ∷ h ∷ l ∷ s) = elim (eqb c b'%' && is_hex h && is_hex l) [
  | true ↦ (hex_value h * 16 + hex_value l) ∷ percent_decode s
  | false ↦ c ∷ percent_decode (h ∷ l ∷ s)
]

abbrev same : Bool → Bool → Bool
same true b = b
same false b = not b

-- Runs of ASCII characters (marked `true`) and of others.
unfoldable pub add_run : Bool → ℕ → List (Bool × Text) → List (Bool × Text)
add_run b c [] = (b, c ∷ []) ∷ []
add_run b c ((b', run) ∷ runs) =
    if same b b' then (b', c ∷ run) ∷ runs else (b, c ∷ []) ∷ (b', run) ∷ runs

unfoldable pub ascii_runs : Text → List (Bool × Text)
unfolding add_run
ascii_runs [] = []
ascii_runs (c ∷ s) = add_run (ltb c 128) c (ascii_runs s)

unfoldable pub decode_runs : Unicode → List (Bool × Text) → Text
unfolding percent_decode
decode_runs u [] = []
decode_runs u ((true, run) ∷ runs) = u.decode_utf8 (percent_decode run) ++ decode_runs u runs
decode_runs u ((false, run) ∷ runs) = run ++ decode_runs u runs

unfoldable pub unquote : Unicode → Text → Text
unfolding ascii_runs decode_runs has_char
unquote u s = if has_char b'%' s then decode_runs u (ascii_runs s) else s

-- The UTF-8 bytes of a code point.
unfoldable pub encode_utf8 : ℕ → List ℕ
encode_utf8 c =
    if ltb c 0x80
    then c ∷ []
    else if ltb c 0x800
    then (0xc0 + c / 64) ∷ (0x80 + c % 64) ∷ []
    else if ltb c 0x10000
    then (0xe0 + c / 4096) ∷ (0x80 + c / 64 % 64) ∷ (0x80 + c % 64) ∷ []
    else (0xf0 + c / 262144) ∷ (0x80 + c / 4096 % 64) ∷ (0x80 + c / 64 % 64) ∷ (0x80 + c % 64) ∷ []

abbrev is_always_safe : ℕ → Bool
is_always_safe c =
    (leb b'a' c && leb c b'z')
    || (leb b'A' c && leb c b'Z')
    || (leb b'0' c && leb c b'9')
    || eqb c b'_'
    || eqb c b'.'
    || eqb c b'-'
    || eqb c b'~'

abbrev hex_digit : ℕ → ℕ
hex_digit n = if ltb n 10 then n + b'0' else n + 55

unfoldable pub quote_byte : ℕ → Text
quote_byte b =
    if is_always_safe b then b ∷ [] else b'%' ∷ hex_digit (b / 16) ∷ hex_digit (b % 16) ∷ []

unfoldable pub quote_bytes : List ℕ → Text
unfolding quote_byte
quote_bytes [] = []
quote_bytes (b ∷ bs) = quote_byte b ++ quote_bytes bs

unfoldable pub encode : Text → List ℕ
unfolding encode_utf8
encode [] = []
encode (c ∷ s) = encode_utf8 c ++ encode s

unfoldable pub quote : Text → Text
unfolding encode quote_bytes
quote s = quote_bytes (encode s)
