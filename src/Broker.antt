-- ===== src/Broker.antt =====
-- The use of a secret: `reveal_secret`, `invoke_capability`, `broker_http` and what they call, of
-- passd/service.py.
pub mod Redact
pub mod Direct
pub mod Hidden
pub mod Response
pub mod Target
pub mod Contract
pub mod Sent
pub mod Admin
pub mod Headers
pub mod Lent
use passd.Errors
use passd.Broker.Redact.{redact}
use passd.Base.{
  true, or_else, all, is_empty, ◌&&◌, length, not, ltb, [], ◌||◌, ◌++◌, ◌+◌, some, eqb, false, ◌∷◌,
  take, Option, Bool, ◌*◌, if◌then◌else◌, List, ℕ, none,
}
use passd.Text.{upper, ◌==◌, lower, codes, mem, Text}
use passd.Capabilities.{port_or, validate_invocation, default_port, set_header}
use passd.Platform.{Platform}
use passd.Text.Decimal.{decimal}
use passd.Payload.{
  Value, invoked, capability_invoke, on_use, https, http, Scheme, Secret, Definition,
}
use passd.Db.{Service, AgentRow}
use passd.Errors.{
  wrong_password, needs_password, permission_denied, ok, auth_error, internal, raise_if,
  validation_error, err, Result,
}
use passd.Http.{failed, http_error, answered, HttpReply, HttpRequest}
use passd.Config.{derive_and_verify}
use passd.Access.Claim.{consume_capability_grant, CapabilityClaim}
use passd.Url.{port, has_userinfo, hostname, urlsplit, SplitResult}
use passd.Exec.{pure, lift, check, gets, ◌>>=◌, ◌>>◌, Exec}
use passd.Agents.{authenticate_agent}
use passd.Access.{exceeds_ceiling}
use passd.Audit.{audit}
use passd.Items.{extract_field}
use passd.Vaults.{truthy}

-- `verify_admin_password`
module _ ⦃p : Platform⦄ where
  unfoldable pub check_root_key : Service → Text → Result (Unit {0})
  unfolding derive_and_verify ◌==◌
  check_root_key s password =
      Errors.◌>>=◌ (derive_and_verify s.config password)
        λ candidate. raise_if (not (candidate == s.root_key)) (auth_error wrong_password)

  unfoldable pub verify_admin_password : Option Text → Exec (Unit {0})
  unfolding check_root_key
  verify_admin_password password = do
    check (not (truthy password)) (auth_error needs_password)
    s ← gets (λ s. s)
    lift (check_root_key s (or_else password []))

-- `str(secret_value)`, of a value that is a text or a number
unfoldable pub secret_text : Secret → Result Text
unfolding decimal
secret_text (Secret.whole _) = err validation_error
secret_text (Secret.value Value.null) = err validation_error
secret_text (Secret.value (Value.boolean b)) = ok (if b then codes "True" else codes "False")
secret_text (Secret.value (Value.integer n)) = ok (decimal n)
secret_text (Secret.value (Value.number t)) = ok t
secret_text (Secret.value (Value.composite _)) = err validation_error
secret_text (Secret.value (Value.text t)) = ok t

abbrev pub max_response : ℕ
max_response = 1024 * 1024

abbrev pub response_headers : List Text
response_headers =
    codes "content-type"
    ∷ codes "content-length"
    ∷ codes "date"
    ∷ codes "etag"
    ∷ codes "location"
    ∷ []

-- What a caller is told of a response.
pub record HttpResult : Type 0 where
  pub status : ℕ
  pub headers : List (Text × Text)
  pub body : Text

-- The dict of the headers that are shown, with those that were taken so far.
unfoldable pub shown_headers : Text → List (Text × Text) → List (Text × Text) → List (Text × Text)
unfolding redact set_header mem lower
shown_headers secret taken [] = taken
shown_headers secret taken ((k, v) ∷ headers) =
    shown_headers secret
      (if mem (lower k) response_headers then set_header k (redact v secret) taken else taken)
      headers

-- `{"http", "https"}`, and the ports they stand for
abbrev pub is_web : Text → Bool
is_web scheme = scheme == codes "http" || scheme == codes "https"

abbrev pub web_port : Text → ℕ
web_port scheme = if scheme == codes "https" then 443 else 80

abbrev pub scheme_text : Scheme → Text
scheme_text http = codes "http"
scheme_text https = codes "https"

module _ ⦃p : Platform⦄ where
  -- The response, if it is not too long: at most one byte more than the limit is read.
  unfoldable pub limited : Text → ℕ → List (Text × Text) → List ℕ → Result HttpResult
  unfolding shown_headers
  limited secret status headers body =
      let read = take (max_response + 1) body in
      Errors.◌>>◌ (raise_if (ltb max_response (length read)) validation_error) (
        ok (record {
          status = status;
          headers = shown_headers secret [] headers;
          body = redact (p.unicode.decode_utf8 read) secret;
        }))

  unfoldable pub read_reply : Text → HttpReply → Result HttpResult
  unfolding limited
  read_reply secret (answered status headers body) = limited secret status headers body
  read_reply secret (http_error status headers body) = limited secret status headers body
  read_reply secret failed = err internal

  -- `_execute_http`, of the n-th request
  unfoldable pub execute_http : ℕ → HttpRequest → Text → Result HttpResult
  unfolding read_reply
  execute_http n request secret = read_reply secret (p.exchange n request)

  -- The addresses of a host: each must be public, unless private targets are allowed.
  unfoldable pub check_addresses : Bool → Option (List Text) → Result (Unit {0})
  check_addresses allow_private none = err validation_error
  check_addresses allow_private (some addresses) =
      raise_if (not allow_private && not (all p.is_global addresses)) permission_denied

  abbrev pub above_ceiling : Option AgentRow → Text → Bool
  above_ceiling none host = false
  above_ceiling (some agent) host = exceeds_ceiling agent host

  -- `_validate_target`. The first argument is `self.allow_private_broker_targets`.
  unfoldable pub validate_target : Bool → Option AgentRow → Text → Result SplitResult
  unfolding check_addresses
  validate_target allow_private agent url = Errors.◌>>=◌ (urlsplit p.unicode url) λ parsed.
      let host = lower (hostname parsed) in
      Errors.◌>>◌
        (raise_if (not (is_web parsed.scheme) || is_empty (hostname parsed)) validation_error)
        (Errors.◌>>◌
          (raise_if (not (parsed.scheme == codes "https") && not allow_private) permission_denied)
          (Errors.◌>>◌ (raise_if (has_userinfo parsed) validation_error) (
            Errors.◌>>◌ (raise_if (above_ceiling agent host) permission_denied) (
              Errors.◌>>=◌ (port parsed) λ number.
                Errors.◌>>◌
                  (check_addresses allow_private
                    (p.resolve host (port_or number (web_port parsed.scheme))))
                  (ok parsed)))))

  -- f"{scheme}://{host}{port_suffix}{path}"
  unfoldable pub target_url : Definition → Text → Text
  unfolding decimal
  target_url definition path =
      let suffix =
        if eqb definition.port (default_port definition.scheme)
        then []
        else b':' ∷ decimal definition.port in
      scheme_text definition.scheme ++ (codes "://" ++ (definition.host ++ (suffix ++ path)))

  -- The request of an invocation: the secret goes into the header of the contract.
  unfoldable pub invocation_request : Definition → Text → Text → Option Text → Text → HttpRequest
  unfolding target_url set_header
  invocation_request definition method path body secret = record {
    url = target_url definition path;
    method = upper method;
    headers =
        set_header definition.inject_header (definition.inject_prefix ++ secret)
          definition.static_headers;
    body = body;
    timeout = definition.timeout;
  }

  -- The claim, the secret and the request, up to the point where the request leaves.
  unfoldable pub prepare_invocation :
      AgentRow
      → Text
      → Text
      → Text
      → Option Text
      → Option Text
      → Exec (CapabilityClaim × HttpRequest × Text × Text × Text)
  unfolding invocation_request secret_text
  prepare_invocation agent capability_id raw_method raw_path body reason = do
    c ← consume_capability_grant agent capability_id raw_method raw_path reason
    found ← lift (extract_field c.claim.content c.field)
    secret ← lift (secret_text found)
    invocation ← lift (validate_invocation c.definition raw_method raw_path)
    let request = invocation_request c.definition invocation.0 invocation.1 body secret
    allow_private ← gets (λ s. s.allow_private_broker_targets)
    target ← lift (validate_target allow_private (some agent) request.url)
    pure (c, request, secret, invocation.0, invocation.1)

  -- The exchange, and its audit row.
  unfoldable pub invoke_prepared :
      AgentRow
      → Option Text
      → CapabilityClaim
      → HttpRequest
      → (secret method path : Text) → Exec HttpResult
  unfolding execute_http
  invoke_prepared agent reason c request secret method path = do
    n ← gets (λ s. s.drawn)
    result ← lift (execute_http n request secret)
    audit (some agent.id) (on_use capability_invoke) (some c.claim.item) (some c.definition.host)
        reason true
        (invoked c.claim.lease.id c.capability.id c.capability.version method path result.status)
    pure result

  unfoldable pub invoke_capability :
      Text → Text → Text → Option Text → Option Text → Option Text → Exec HttpResult
  unfolding prepare_invocation invoke_prepared
  invoke_capability capability_id raw_method raw_path body agent_token reason = do
    agent ← authenticate_agent agent_token
    ready ← prepare_invocation agent capability_id raw_method raw_path body reason
    invoke_prepared agent reason ready.0 ready.1 ready.2 ready.3 ready.4
