-- ===== src/Server/Framing.antt =====
-- The loop over the lines of a connection, passd/server.py: it ends, and answers each request.
use passd.Base.{
  ap, All, eqb_iff, eqb, ltb, inr, inl, Bool-cases, some, zero, false, suc, [], is_empty, Option,
  length, ℕ, List, ◌≡◌, refl, ◌++◌, ◌∷◌, ◌+◌, ◌<◌, ◌≤◌, arith,
}
use passd.Server.{
  IsRequestLine, request_too_large, failure, answer_request, answer_line, max_request, add_answer,
  connection, Wire, Answer, readline,
}
use passd.Platform.{Platform}
use passd.Text.{has_char}
use passd.Db.{Service}
use passd.Client.{request_all}
use passd.Dispatch.{Request}
use mathlib.Core.Path.{subst}

module _ {A : Type 0} where
  pub length-append : (xs ys : List A) → length (xs ++ ys) ≡ length xs + length ys
  length-append [] ys = omega arith
  length-append (x ∷ xs) ys = ground (arith, length-append xs ys)

within_line :
    (c : ℕ) (line : List ℕ)
    → has_char 10 (c ∷ line) ≡ false
    → (eqb c 10 ≡ false) × (has_char 10 line ≡ false)
unfolding has_char
within_line c line h = ground (arith, eqb_iff c 10, eqb_iff 10 c)

-- A line that fits is read whole, with its end.
readline-line :
    (n : ℕ) (line rest : List ℕ)
    → has_char 10 line ≡ false
    → length line < n
    → readline n (line ++ 10 ∷ rest) ≡ (line ++ 10 ∷ [], rest)
unfolding readline has_char
readline-line zero line rest plain fits = absurd (omega arith)
readline-line (suc n) [] rest plain fits = refl
readline-line (suc n) (c ∷ line) rest plain fits =
    let (inside, more) = within_line c line plain in
    rw (inside, readline-line n line rest more (omega arith))

-- What is read and what is left are the input.
readline-length :
    (n : ℕ) (input : List ℕ)
    → length (readline n input).0 + length (readline n input).1 ≡ length input
unfolding readline
readline-length zero input = omega arith
readline-length (suc n) [] = omega arith
readline-length (suc n) (c ∷ input) = ground (arith, readline-length n input)

length-some : (xs : List ℕ) → is_empty xs ≡ false → 0 < length xs
length-some [] h = absurd (cc h)
length-some (x ∷ xs) h = omega arith

some_line : (line : List ℕ) → is_empty (line ++ 10 ∷ []) ≡ false
some_line [] = refl
some_line (c ∷ line) = refl

shorter :
    (line rest : List ℕ) (fuel : ℕ) → length (line ++ 10 ∷ rest) < suc fuel → length rest < fuel
shorter line rest fuel h = let both = length-append line (10 ∷ rest) in omega arith

short_enough :
    (line : List ℕ)
    → length line + 1 ≤ max_request
    → ltb max_request (length (line ++ 10 ∷ [])) ≡ false
short_enough line h = let both = length-append line (10 ∷ []) in ground arith

add_answer-some :
    (answer : Answer) (later : Option (List Answer × Service)) (r : List Answer × Service)
    → later ≡ some r
    → add_answer answer later ≡ some (answer ∷ r.0, r.1)
add_answer-some answer later r h = rw h

module _ ⦃p : Platform⦄ where
  -- The requests of a connection one after another, each in the state that the one before has left.
  unfoldable pub answer_all : List Request → Service → List Answer × Service
  answer_all [] s = ([], s)
  answer_all (r ∷ rs) s =
      let served = answer_request r s in
      let later = answer_all rs served.1 in (served.0 ∷ later.0, later.1)

  pub answer_all-length : (rs : List Request) (s : Service) → length (answer_all rs s).0 ≡ length rs
  unfolding answer_all
  answer_all-length [] s = refl
  answer_all-length (r ∷ rs) s = ap suc (answer_all-length rs (answer_request r s).1)

module _ ⦃p : Platform⦄ (w : Wire) where
  -- One round, on a line that is there and is not too long.
  connection_round :
      (fuel : ℕ) (input : List ℕ) (line : List ℕ × List ℕ) (s : Service)
      (later : List Answer × Service)
      → readline (max_request + 1) input ≡ line
      → is_empty line.0 ≡ false
      → ltb max_request (length line.0) ≡ false
      → connection w fuel line.1 (answer_line w line.0 s).1 ≡ some later
      → connection w (suc fuel) input s ≡ some ((answer_line w line.0 s).0 ∷ later.0, later.1)
  unfolding connection
  connection_round fuel input line s later read some_left fits h =
      rw (read, some_left, fits, add_answer-some (answer_line w line.0 s).0 _ later h)

  -- The loop ends on every input: with more fuel than there are bytes it gives its answers and the
  -- service after them.
  pub connection_returns :
      (fuel : ℕ) (input : List ℕ) (s : Service)
      → length input < fuel
      → (r : List Answer × Service) × (connection w fuel input s ≡ some r)
  unfolding connection
  connection_returns zero input s enough = absurd (omega arith)
  connection_returns (suc fuel) input s enough =
      let line = readline (max_request + 1) input in
      elim (Bool-cases (is_empty line.0)) [
        | inl none_left ↦ (([], s), rw none_left)
        | inr some_left ↦ elim (Bool-cases (ltb max_request (length line.0))) [
          | inl too_long ↦ ((failure request_too_large ∷ [], s), rw (some_left, too_long))
          | inr fits ↦
              let shorter = readline-length (max_request + 1) input in
              let taken = length-some line.0 some_left in
              let served = answer_line w line.0 s in
              let (r, later) = connection_returns fuel line.1 served.1 (omega arith) in
              (
                (served.0 ∷ r.0, r.1),
                connection_round fuel input line s r refl some_left fits later,
              )
        ]
      ]

  answer_line-back :
      (r : Request) (s : Service)
      → IsRequestLine w r
      → answer_line w (w.write_request r ++ 10 ∷ []) s ≡ answer_request r s
  unfolding answer_line
  answer_line-back r s l = rw (l.back, answer_line)

  answered_first :
      (fuel : ℕ) (r : Request) (rs : List Request) (s : Service)
      → IsRequestLine w r
      → readline (max_request + 1) (w.write_request r ++ 10 ∷ request_all w rs)
        ≡ (w.write_request r ++ 10 ∷ [], request_all w rs)
      → ltb max_request (length (w.write_request r ++ 10 ∷ [])) ≡ false
      → connection w fuel (request_all w rs) (answer_request r s).1
        ≡ some (answer_all rs (answer_request r s).1)
      → connection w (suc fuel) (w.write_request r ++ 10 ∷ request_all w rs) s
        ≡ some (answer_all (r ∷ rs) s)
  unfolding answer_all
  answered_first fuel r rs s l whole fits later =
      subst
        (λ (x : Answer × Service).
          connection w fuel (request_all w rs) x.1 ≡ some (answer_all rs (answer_request r s).1)
          → connection w (suc fuel) (w.write_request r ++ 10 ∷ request_all w rs) s
            ≡ some (
              x.0 ∷ (answer_all rs (answer_request r s).1).0,
              (answer_all rs (answer_request r s).1).1,
            ))
        (answer_line-back r s l)
        (connection_round fuel _ (w.write_request r ++ 10 ∷ [], request_all w rs) s
          (answer_all rs (answer_request r s).1) whole (some_line (w.write_request r)) fits)
        later

  pub connection-answer_all :
      (fuel : ℕ) (rs : List Request) (s : Service)
      → All (IsRequestLine w) rs
      → length (request_all w rs) < fuel
      → connection w fuel (request_all w rs) s ≡ some (answer_all rs s)
  unfolding connection answer_all request_all
  connection-answer_all zero rs s fit enough = absurd (omega arith)
  connection-answer_all (suc fuel) [] s fit enough = refl
  connection-answer_all (suc fuel) (r ∷ rs) s (l, fit) enough =
      let whole =
        readline-line (max_request + 1) (w.write_request r) (request_all w rs) l.one_line
          (ground (arith, l.fits)) in
      let served = answer_request r s in
      let later =
        connection-answer_all fuel rs served.1 fit (shorter (w.write_request r) _ fuel enough) in
      answered_first fuel r rs s l whole (short_enough (w.write_request r) l.fits) later
