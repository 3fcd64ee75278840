-- ===== src/Client.antt =====
-- passd/client.py: requests on a connection, and the responses that are read from it. What `recv`
-- gives is a list of chunks; an empty chunk, or none, is the end.
pub mod Calls
use passd.Base.{zero, is_empty, suc, some, if◌then◌else◌, [], none, eqb, ℕ, Option, List, ◌++◌, ◌∷◌}
use passd.Server.{transport_error, undecodable, failure, Answer, Wire}
use passd.Url.{cut}
use passd.Dispatch.{Request}

-- `_request` of each call, one after another
unfoldable pub request_all : Wire → List Request → List ℕ
request_all w [] = []
request_all w (r ∷ rs) = w.write_request r ++ 10 ∷ request_all w rs

-- The response, the rest of the buffer, and the chunks that are still to come.
pub record Received : Type 0 where
  pub line : List ℕ
  pub buffer : List ℕ
  pub chunks : List (List ℕ)

-- The buffer at its first line's end, or what else is done.
abbrev pub at_line : List ℕ → List (List ℕ) → Option Received → Option Received
at_line buffer chunks otherwise = elim (cut (eqb 10) buffer).1 [
  | none ↦ otherwise
  | some rest ↦ some (record { line = (cut (eqb 10) buffer).0; buffer = rest; chunks = chunks })
]

-- `_read_response`, up to the line: `none` where the connection ends before it.
unfoldable pub read_response : List ℕ → List (List ℕ) → Option Received
unfolding cut
read_response buffer [] = at_line buffer [] none
read_response buffer (chunk ∷ chunks) =
    let more = read_response (buffer ++ chunk) chunks in
    at_line buffer (chunk ∷ chunks) (if is_empty chunk then none else more)

-- What the call returns, or the code of what it raises.
abbrev pub outcome : Option Answer → Answer
outcome none = failure undecodable
outcome (some answer) = answer

-- `PassdSession.call`, after its request was sent, for so many calls: their outcomes in turn. The
-- buffer is kept from one call to the next.
unfoldable pub calls : Wire → ℕ → List ℕ → List (List ℕ) → List Answer
unfolding read_response
calls w zero buffer chunks = []
calls w (suc n) buffer chunks = elim (read_response buffer chunks) [
  | none ↦ failure transport_error ∷ []
  | some r ↦ outcome (w.read_answer r.line) ∷ calls w n r.buffer r.chunks
]
