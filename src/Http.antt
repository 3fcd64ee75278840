-- ===== src/Http.antt =====
-- What an HTTP exchange of passd/service.py is about: the request that leaves, and what comes back.
use passd.Base.{Option, List, ℕ}
use passd.Text.{Text}
use passd.Numbers.{Float}

pub record HttpRequest : Type 0 where
  pub url : Text
  pub method : Text
  pub headers : List (Text × Text)
  pub body : Option Text
  pub timeout : Float

-- A response, an `HTTPError` with its response, or any other exception. Bodies are bytes.
pub data HttpReply : Type 0 where
  answered http_error : (status : ℕ) (headers : List (Text × Text)) (body : List ℕ) → HttpReply
  failed : HttpReply
