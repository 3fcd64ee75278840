-- ===== src/Broker/Response.antt =====
-- What `_execute_http` of passd/service.py returns of a response.
use passd.Base.{
  true, inr, inl, zero, [], if◌then◌else◌, suc, Bool, Bool-cases, refl, ◌∷◌, arith, none, ◌+◌, take,
  sym, All, some, length, false, ltb, Option, List, ℕ, ◌≡◌, ◌≤◌,
}
use passd.Capabilities.{set_header}
use passd.Text.{lower, mem, ◌==◌, Text}
use passd.Platform.{Platform}
use passd.Broker.{
  response_headers, max_response, HttpResult, read_reply, execute_http, limited, shown_headers,
}
use passd.Http.{failed, http_error, answered, HttpRequest, HttpReply}
use passd.Broker.Redact.{redact, contains}
use passd.Broker.Hidden.{redact_hides, IsConcealable}
use passd.Errors.{ok_injective, guard_ok, ok}
use mathlib.Core.Path.{subst}

-- A response, with the bytes of its body, whether it is an error or not.
abbrev pub parts_of : HttpReply → Option (ℕ × List (Text × Text) × List ℕ)
parts_of (answered status headers body) = some (status, headers, body)
parts_of (http_error status headers body) = some (status, headers, body)
parts_of failed = none

-- What one byte more than a limit tells of a list.
length-take_over :
    {A : Type 0} (n : ℕ) (xs : List A) → ltb n (length (take (n + 1) xs)) ≡ false → length xs ≤ n
length-take_over n [] h = ground arith
length-take_over zero (x ∷ xs) h = ground arith
length-take_over (suc n) (x ∷ xs) h = ground (arith, length-take_over n xs)

-- A header's value without the secret
abbrev pub Hides : Text → Text × Text → Type 0
Hides secret h = contains secret h.1 ≡ false

set_header-Hides :
    (secret k v : Text) (taken : List (Text × Text))
    → contains secret v ≡ false
    → All (Hides secret) taken
    → All (Hides secret) (set_header k v taken)
unfolding set_header
set_header-Hides secret k v [] hidden all = (hidden, tt)
set_header-Hides secret k v ((k', v') ∷ taken) hidden (first, all) = elim (Bool-cases (k' == k)) [
  | inl same ↦ rw same (hidden, all)
  | inr other ↦ rw other (first, set_header-Hides secret k v taken hidden all)
]

shown_headers-Hides :
    (secret : Text) (headers taken : List (Text × Text))
    → IsConcealable secret
    → All (Hides secret) taken
    → All (Hides secret) (shown_headers secret taken headers)
unfolding shown_headers
shown_headers-Hides secret [] taken c all = all
shown_headers-Hides secret ((k, v) ∷ headers) taken c all =
    shown_headers-Hides secret headers _ c (kept (mem (lower k) response_headers))
  where
    kept :
        (b : Bool) → All (Hides secret) (if b then set_header k (redact v secret) taken else taken)
    kept true = set_header-Hides secret k (redact v secret) taken (redact_hides v secret c) all
    kept false = all

module _ ⦃p : Platform⦄ where
  -- What is returned of a response that came.
  pub record IsShown (n : ℕ) (request : HttpRequest) (secret : Text) (result : HttpResult)
      : Type 0 where
    pub headers : List (Text × Text)
    pub body : List ℕ
    pub came : parts_of (p.exchange n request) ≡ some (result.status, headers, body)
    pub within : length body ≤ max_response
    pub body_hides : contains secret result.body ≡ false
    pub headers_hide : All (Hides secret) result.headers

  limited_ok :
      (secret : Text) (status : ℕ) (headers : List (Text × Text)) (body : List ℕ)
      (result : HttpResult)
      → limited secret status headers body ≡ ok result
      → IsConcealable secret
      → (result.status ≡ status)
        × (length body ≤ max_response)
        × (contains secret result.body ≡ false)
        × All (Hides secret) result.headers
  unfolding limited
  limited_ok secret status headers body result h c =
      let (short, made) = guard_ok _ _ _ h in
      subst
        (λ (r : HttpResult).
          (r.status ≡ status)
          × (length body ≤ max_response)
          × (contains secret r.body ≡ false)
          × All (Hides secret) r.headers)
        (ok_injective made)
        (
          refl,
          length-take_over max_response body short,
          redact_hides _ secret c,
          shown_headers-Hides secret headers [] c tt,
        )

  -- An exchange that returns had a response, an error or not, of at most 1 MiB; the status is the
  -- response's, and neither the body nor a header's value that is returned contains the secret;
  -- provided that the secret is not empty, has neither "<" nor ">" in it, and is no part of the
  -- placeholder.
  pub execute_http-IsShown :
      (n : ℕ) (request : HttpRequest) (secret : Text) (result : HttpResult)
      → IsConcealable secret
      → execute_http n request secret ≡ ok result
      → IsShown n request secret result
  unfolding execute_http read_reply
  execute_http-IsShown n request secret result c h = shown (p.exchange n request) refl h
    where
      shown :
          (reply : HttpReply)
          → reply ≡ p.exchange n request
          → read_reply secret reply ≡ ok result
          → IsShown n request secret result
      shown (answered status headers body) came returned =
          let (same, within, body_hides, headers_hide) =
            limited_ok secret status headers body result returned c in
          record {
            headers = headers;
            body = body;
            came = rw (sym came, same);
            within = within;
            body_hides = body_hides;
            headers_hide = headers_hide;
          }
      shown (http_error status headers body) came returned =
          let (same, within, body_hides, headers_hide) =
            limited_ok secret status headers body result returned c in
          record {
            headers = headers;
            body = body;
            came = rw (sym came, same);
            within = within;
            body_hides = body_hides;
            headers_hide = headers_hide;
          }
      shown failed came returned = absurd (cc returned)
