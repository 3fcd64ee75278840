-- ===== src/Server.antt =====
-- passd/server.py: the requests of one connection, each a line of JSON, answered in turn. Bytes are
-- numbers; JSON is an interface, which the server and the client share.
pub mod Framing
use passd.Base.{
  ◌≤◌, length, ltb, zero, is_empty, eqb, false, if◌then◌else◌, ◌≡◌, some, suc, none, [], ℕ, Option,
  List, ◌++◌, ◌∷◌, ◌+◌, ◌*◌,
}
use passd.Errors.{internal, err, ok, Result, Error}
use passd.Dispatch.{Reply, Request}
use passd.Platform.{Platform}
use passd.Db.{Service}
use passd.Dispatch.Handle.{handle}
use passd.Text.{has_char}

-- The codes of an error that a caller is told: those of passd/errors.py (`internal` is
-- "internal_error"), and those of the transport.
pub data Code : Type 0 where
  service : Error → Code
  request_too_large transport_error undecodable : Code

-- `{"ok": true, "result": …}`, or `{"ok": false, "error": {"code": …}}`
pub data Answer : Type 0 where
  result : Reply → Answer
  failure : Code → Answer

-- `json.dumps(…).encode()` and `json.loads(….decode())`, of requests and of answers, without the
-- line's end. A request is read with it.
pub record Wire : Type 0 where
  pub write_request : Request → List ℕ
  pub read_request : List ℕ → Option Request
  pub write_answer : Answer → List ℕ
  pub read_answer : List ℕ → Option Answer

abbrev pub max_request : ℕ
max_request = 2 * 1024 * 1024

-- What both sides rely on, of a request: JSON reads back what it wrote, a line's end in a text is
-- escaped, and it fits. And of an answer.
pub record IsRequestLine (w : Wire) (r : Request) : Type 0 where
  pub back : w.read_request (w.write_request r ++ 10 ∷ []) ≡ some r
  pub one_line : has_char 10 (w.write_request r) ≡ false
  pub fits : length (w.write_request r) + 1 ≤ max_request

pub record IsAnswerLine (w : Wire) (a : Answer) : Type 0 where
  pub back : w.read_answer (w.write_answer a) ≡ some a
  pub one_line : has_char 10 (w.write_answer a) ≡ false

-- `rfile.readline(limit)`: the bytes up to a line's end and with it, at most so many, and the rest
unfoldable pub readline : ℕ → List ℕ → List ℕ × List ℕ
readline zero input = ([], input)
readline (suc n) [] = ([], [])
readline (suc n) (c ∷ input) =
    let rest = readline n input in if eqb c 10 then (c ∷ [], input) else (c ∷ rest.0, rest.1)

abbrev pub answer_of : Result Reply → Answer
answer_of (ok reply) = result reply
answer_of (err code) = failure (service code)

abbrev pub add_answer : Answer → Option (List Answer × Service) → Option (List Answer × Service)
add_answer answer none = none
add_answer answer (some (answers, s)) = some (answer ∷ answers, s)

module _ ⦃p : Platform⦄ where
  -- `{…} = self.server.service.handle(request)`
  abbrev pub answer_request : Request → Service → Answer × Service
  answer_request r s = (answer_of (handle r s).0, (handle r s).1)

  -- One line: what is no JSON is an internal error.
  unfoldable pub answer_line : Wire → List ℕ → Service → Answer × Service
  answer_line w line s = elim (w.read_request line) [
    | none ↦ (failure (service internal), s)
    | some r ↦ answer_request r s
  ]

  -- `PassdHandler.handle`, with fuel for its loop: the answers, in turn, and the service after them
  unfoldable pub connection : Wire → ℕ → List ℕ → Service → Option (List Answer × Service)
  unfolding readline answer_line
  connection w zero input s = none
  connection w (suc fuel) input s =
      let line = readline (max_request + 1) input in
      let served = answer_line w line.0 s in
      let later = connection w fuel line.1 served.1 in
      if is_empty line.0
      then some ([], s)
      else if ltb max_request (length line.0)
      then some (failure request_too_large ∷ [], s)
      else add_answer served.0 later

-- `_send`: each answer with its line's end
unfoldable pub send_all : Wire → List Answer → List ℕ
send_all w [] = []
send_all w (answer ∷ answers) = w.write_answer answer ++ 10 ∷ send_all w answers
