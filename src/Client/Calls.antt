-- ===== src/Client/Calls.antt =====
-- The client of passd/client.py against the server of passd/server.py: what a session's calls
-- return, however the bytes of the responses arrive.
use passd.Base.{
  suc, or_else, length, ap, inl, ◌∙◌, sym, none, inr, is_empty, Option-cases, some, Option, [], eqb,
  false, All, ℕ, List, ◌≡◌, refl, ◌++◌, ◌∷◌, ◌<◌, arith,
}
use passd.Client.{outcome, request_all, calls, at_line, Received, read_response}
use passd.Url.{cut}
use passd.Text.{has_char}
use mathlib.Core.Path.{subst}
use passd.Platform.{Platform}
use passd.Server.{IsRequestLine, IsAnswerLine, connection, Wire, send_all, Answer}
use passd.Db.{Service}
use passd.Dispatch.{Request}
use passd.Server.Framing.{answer_all-length, connection-answer_all, answer_all}

-- What the chunks hold.
abbrev pub joined : List (List ℕ) → List ℕ
joined [] = []
joined (chunk ∷ chunks) = chunk ++ joined chunks

abbrev pub AllSome : List (List ℕ) → Type 0
AllSome = All (λ chunk. is_empty chunk ≡ false)

cut-line :
    (line rest : List ℕ)
    → has_char 10 line ≡ false
    → cut (eqb 10) (line ++ 10 ∷ rest) ≡ (line, some rest)
unfolding cut has_char
cut-line [] rest plain = refl
cut-line (c ∷ line) rest plain = ground (arith, cut-line line rest)

cut-append :
    (buffer more after : List ℕ)
    → (cut (eqb 10) buffer).1 ≡ some after
    → cut (eqb 10) (buffer ++ more) ≡ ((cut (eqb 10) buffer).0, some (after ++ more))
unfolding cut
cut-append [] more after h = absurd (cc h)
cut-append (c ∷ buffer) more after h = ground (arith, cut-append buffer more after)

append_assoc : (xs ys zs : List ℕ) → (xs ++ ys) ++ zs ≡ xs ++ (ys ++ zs)
append_assoc [] ys zs = refl
append_assoc (x ∷ xs) ys zs = rw (append_assoc xs ys zs)

append_nil : (xs : List ℕ) → xs ++ [] ≡ xs
append_nil [] = refl
append_nil (x ∷ xs) = rw (append_nil xs)

-- A response that was read: its line, and what is still to be read.
abbrev HasRead : List ℕ → List ℕ → Option Received → Type 0
HasRead line rest found =
    (r : Received) × (found ≡ some r)
    × (r.line ≡ line)
    × (r.buffer ++ joined r.chunks ≡ rest)
    × AllSome r.chunks

-- The buffer has a line's end: the line is the first one of all that arrives.
at_line-found :
    (buffer after line rest : List ℕ) (chunks : List (List ℕ)) (otherwise : Option Received)
    → (cut (eqb 10) buffer).1 ≡ some after
    → has_char 10 line ≡ false
    → buffer ++ joined chunks ≡ line ++ 10 ∷ rest
    → AllSome chunks
    → HasRead line rest (at_line buffer chunks otherwise)
at_line-found buffer after line rest chunks otherwise there plain same all_some =
    let both =
      sym (cut-append buffer (joined chunks) after there)
      ∙ ap (cut (eqb 10)) same
      ∙ cut-line line rest plain in
    (
      record { line = (cut (eqb 10) buffer).0; buffer = after; chunks = chunks },
      rw (there, at_line),
      ap (λ x. x.0) both,
      ap (λ x. or_else x.1 []) both,
      all_some,
    )

read_response-more :
    (buffer chunk : List ℕ) (chunks : List (List ℕ))
    → (cut (eqb 10) buffer).1 ≡ none
    → is_empty chunk ≡ false
    → read_response buffer (chunk ∷ chunks) ≡ read_response (buffer ++ chunk) chunks
unfolding read_response
read_response-more buffer chunk chunks absent some_here = rw (absent, some_here, at_line)

-- However a response is cut into chunks, its line is read whole, and what follows it is kept.
read_response-HasRead :
    (chunks : List (List ℕ)) (buffer line rest : List ℕ)
    → has_char 10 line ≡ false
    → buffer ++ joined chunks ≡ line ++ 10 ∷ rest
    → AllSome chunks
    → HasRead line rest (read_response buffer chunks)
unfolding read_response
read_response-HasRead [] buffer line rest plain same all_some =
    elim (Option-cases (cut (eqb 10) buffer).1) [
      | inr (after, there) ↦ at_line-found buffer after line rest [] none there plain same all_some
      | inl absent ↦
          let whole =
            ap (cut (eqb 10)) (sym (append_nil buffer) ∙ same) ∙ cut-line line rest plain in
          absurd (cc (absent, ap (λ x. x.1) whole))
    ]
read_response-HasRead (chunk ∷ chunks) buffer line rest plain same (some_here, all_some) =
    elim (Option-cases (cut (eqb 10) buffer).1) [
      | inr (after, there) ↦
          at_line-found buffer after line rest (chunk ∷ chunks) _ there plain same
            (some_here, all_some)
      | inl absent ↦
          subst (HasRead line rest) (sym (read_response-more buffer chunk chunks absent some_here))
            (read_response-HasRead chunks (buffer ++ chunk) line rest plain
              (append_assoc buffer chunk (joined chunks) ∙ same) all_some)
    ]

calls_none : (w : Wire) (buffer : List ℕ) (chunks : List (List ℕ)) → calls w 0 buffer chunks ≡ []
unfolding calls
calls_none w buffer chunks = refl

calls-next :
    (w : Wire) (n : ℕ) (buffer : List ℕ) (chunks : List (List ℕ)) (r : Received)
    → read_response buffer chunks ≡ some r
    → calls w (suc n) buffer chunks ≡ outcome (w.read_answer r.line) ∷ calls w n r.buffer r.chunks
unfolding calls
calls-next w n buffer chunks r found = rw (found, calls)

outcome_of :
    (w : Wire) (answer : Answer) (line : List ℕ)
    → IsAnswerLine w answer
    → line ≡ w.write_answer answer
    → outcome (w.read_answer line) ≡ answer
outcome_of w answer line l same = rw (same, l.back)

-- The outcomes of as many calls as there were answers are these answers, in turn.
calls-send_all :
    (w : Wire) (answers : List Answer) (buffer : List ℕ) (chunks : List (List ℕ))
    → All (IsAnswerLine w) answers
    → buffer ++ joined chunks ≡ send_all w answers
    → AllSome chunks
    → calls w (length answers) buffer chunks ≡ answers
unfolding send_all
calls-send_all w [] buffer chunks l same all_some = calls_none w buffer chunks
calls-send_all w (answer ∷ answers) buffer chunks (l, all) same all_some =
    let (r, found, line_is, rest_is, later) =
      read_response-HasRead chunks buffer (w.write_answer answer) (send_all w answers) l.one_line
        same all_some in
    calls-next w (length answers) buffer chunks r found
    ∙ cc (
      outcome_of w answer r.line l line_is,
      calls-send_all w answers r.buffer r.chunks all rest_is later,
    )

abbrev pub sent_by : Option (List Answer × Service) → List Answer
sent_by none = []
sent_by (some (answers, s)) = answers

-- A session of calls over the socket returns what `handle` returns of their requests one after
-- another, with the code of the error where it raises: whatever pieces the bytes of the responses
-- arrive in, provided that each request fits in 2 MiB, and that JSON reads back the requests and
-- the answers that it wrote and escapes their line ends.
pub calls-answer_all :
    ⦃p : Platform⦄
    → (w : Wire) (fuel : ℕ) (requests : List Request) (s : Service) (chunks : List (List ℕ))
    → All (IsRequestLine w) requests
    → All (IsAnswerLine w) (answer_all requests s).0
    → length (request_all w requests) < fuel
    → joined chunks ≡ send_all w (sent_by (connection w fuel (request_all w requests) s))
    → AllSome chunks
    → calls w (length requests) [] chunks ≡ (answer_all requests s).0
calls-answer_all w fuel requests s chunks fit back enough arrives all_some =
    let served = connection-answer_all w fuel requests s fit enough in
    let answers = (answer_all requests s).0 in
    ap (λ n. calls w n [] chunks) (sym (answer_all-length requests s))
    ∙ calls-send_all w answers [] chunks back (rw served at arrives) all_some
