-- ===== src/Tests/Session.antt =====
-- The theorems on connections, each applied to a concrete session: two requests, and the bytes of
-- their answers in three pieces.
use passd.Tests.World.{toy}
use passd.Base.{
  sym, All, eqb, none, some, Option, if◌then◌else◌, ◌++◌, Bool, ℕ, [], length, List, ◌≡◌, refl, ◌∷◌,
  ◌<◌, arith,
}
use passd.Server.Framing.{connection_returns, answer_all}
use passd.Client.{request_all, calls}
use passd.Text.{◌==◌, codes, Text}
use passd.Client.Calls.{sent_by, calls-answer_all, joined}
use passd.Dispatch.{Reply, Request}
use passd.Server.{
  connection, service, send_all, failure, result, IsRequestLine, Wire, IsAnswerLine, Answer,
}
use passd.Tests.Served.{stranger, asking}
use passd.Db.{Service}
use mathlib.Core.Path.{subst}
use passd.Errors.{invalid_token, auth_error}

abbrev health_check : Request
health_check = record stranger { op = codes "health" }

-- A wire for two requests and two answers: each line is one character.
abbrev is_health : Text → Bool
is_health op = op == codes "health"

abbrev written_request : Request → List ℕ
written_request r = if r.op == codes "health" then codes "h" else codes "s"

abbrev read_first : List ℕ → Option Request
read_first [] = none
read_first (c ∷ line) = if eqb c b'h' then some health_check else some stranger

abbrev written_answer : Answer → List ℕ
written_answer (result reply) = codes "v"
written_answer (failure code) = codes "f"

abbrev read_answered : List ℕ → Option Answer
read_answered [] = none
read_answered (c ∷ line) =
    if eqb c b'v'
    then some (result (Reply.version 3))
    else some (failure (service (auth_error invalid_token)))

abbrev small_wire : Wire
small_wire = record {
  write_request = written_request;
  read_request = read_first;
  write_answer = written_answer;
  read_answer = read_answered;
}

abbrev two_requests : List Request
two_requests = health_check ∷ stranger ∷ []

abbrev two_answers : List Answer
two_answers = result (Reply.version 3) ∷ failure (service (auth_error invalid_token)) ∷ []

health_line : IsRequestLine small_wire health_check
unfolding ◌==◌ passd.Text.has_char
health_line = record { back = refl; one_line = refl; fits = omega arith }

stranger_line : IsRequestLine small_wire stranger
unfolding ◌==◌ passd.Text.has_char
stranger_line = record { back = refl; one_line = refl; fits = omega arith }

version_line : IsAnswerLine small_wire (result (Reply.version 3))
unfolding passd.Text.has_char
version_line = record { back = refl; one_line = refl }

refused_line : IsAnswerLine small_wire (failure (service (auth_error invalid_token)))
unfolding passd.Text.has_char
refused_line = record { back = refl; one_line = refl }

answers_are : (answer_all two_requests asking).0 ≡ two_answers
unfolding passd.Exec.◌>>=◌ answer_all passd.Dispatch.Handle.handle passd.Broker.Direct.reveal_secret
    passd.Agents.authenticate_agent passd.Agents.parse_token
answers_are = refl

abbrev pieces : List (List ℕ)
pieces = codes "v" ∷ (10 ∷ codes "f") ∷ (10 ∷ []) ∷ []

enough : length (request_all small_wire two_requests) < 5
unfolding request_all ◌==◌
enough = omega arith

arrive :
    joined pieces
    ≡ send_all small_wire
        (sent_by (connection small_wire 5 (request_all small_wire two_requests) asking))
unfolding passd.Exec.◌>>=◌ send_all connection request_all ◌==◌ passd.Dispatch.Handle.handle
    passd.Broker.Direct.reveal_secret passd.Agents.authenticate_agent passd.Agents.parse_token
arrive = refl

calls-answer_all_example : calls small_wire 2 [] pieces ≡ (answer_all two_requests asking).0
calls-answer_all_example =
    calls-answer_all small_wire 5 two_requests asking pieces (health_line, (stranger_line, tt))
      (subst (λ l. All (IsAnswerLine small_wire) l) (sym answers_are)
        (version_line, (refused_line, tt)))
      enough arrive (refl, (refl, (refl, tt)))

short : length (codes "x" ++ 10 ∷ []) < 3
short = omega arith

connection_returns_example :
    (r : List Answer × Service) × (connection small_wire 3 (codes "x" ++ 10 ∷ []) asking ≡ some r)
connection_returns_example = connection_returns small_wire 3 (codes "x" ++ 10 ∷ []) asking short
