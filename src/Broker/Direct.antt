-- ===== src/Broker/Direct.antt =====
-- The use of a secret by its reference: `reveal_secret` and `broker_http` of passd/service.py.
use passd.Errors
use passd.Errors.{validation_error, raise_if, Result, ok}
use passd.Exec.{pure, gets, lift, Exec, ◌>>=◌, ◌>>◌}
use passd.Payload.{about_request, brokered, on_use, secret_use, secret_reveal, ItemPayload, Secret}
use passd.Base.{true, ◌++◌, any, none, some, is_empty, ◌||◌, if◌then◌else◌, Option, Bool, List}
use passd.Platform.{Platform}
use passd.Text.{upper, ◌==◌, lower, mem, has_char, Text, strip}
use passd.Http.{HttpRequest}
use passd.Capabilities.{routing_headers, set_header}
use passd.Broker.{validate_target, execute_http, HttpResult, secret_text, verify_admin_password}
use passd.Agents.{authenticate_agent}
use passd.Db.{ItemRow, AgentRow}
use passd.Access.Claim.{consume_exact_grant}
use passd.Vaults.{truthy}
use passd.Url.{hostname, SplitResult}
use passd.Items.{resolve_item_ref, extract_field}
use passd.Sealing.{item_payload}
use passd.Audit.{audit}
use passd.Numbers.{Float}

-- `item_row`, and what the item holds, of a reference that no lease is needed for
module _ ⦃p : Platform⦄ where
  unfoldable pub read_item : Text → Exec (ItemRow × ItemPayload × Option Text)
  read_item uri = do
    found ← resolve_item_ref uri
    content ← item_payload found.0
    pure (found.0, content, found.1)

  unfoldable pub reveal_for_agent : Text → Option Text → Option Text → Exec Secret
  reveal_for_agent uri agent_token reason = do
    agent ← authenticate_agent agent_token
    used ← consume_exact_grant agent secret_reveal uri none reason
    found ← lift (extract_field used.0.content (some used.1))
    audit (some agent.id) (on_use secret_reveal) (some used.0.item) none reason true
        (about_request used.0.lease.id)
    pure found

  unfoldable pub reveal_for_admin : Text → Option Text → Exec Secret
  unfolding read_item verify_admin_password
  reveal_for_admin uri admin_password = do
    verify_admin_password admin_password
    found ← read_item uri
    lift (extract_field found.1 found.2)

  unfoldable pub reveal_secret : Text → Option Text → Option Text → Option Text → Exec Secret
  unfolding reveal_for_agent reveal_for_admin
  reveal_secret uri agent_token admin_password reason =
      if truthy agent_token
      then reveal_for_agent uri agent_token reason
      else reveal_for_admin uri admin_password

-- What a caller asks of `broker_http`, beside the reference of the secret.
pub record BrokerCall : Type 0 where
  pub uri : Text
  pub url : Text
  pub method : Text
  pub header : Text
  pub prefix : Text
  pub body : Option Text
  pub extra_headers : List (Text × Text)
  pub timeout : Float

-- `any(c in name for c in "\r\n:")`, and of "\r\n"
abbrev pub splits_line : Text → Bool
splits_line s = has_char 13 s || has_char 10 s

abbrev pub bad_name : Text → Bool
bad_name s = is_empty s || (splits_line s || has_char b':' s)

abbrev pub bad_header : Text × Text → Bool
bad_header h = bad_name h.0 || splits_line h.1

abbrev pub is_routing : Text × Text → Bool
is_routing h = mem (lower h.0) routing_headers

abbrev pub same_header : Text → Text × Text → Bool
same_header header h = lower h.0 == lower header

-- The headers of the request: the injected one may not be among the others.
unfoldable pub broker_headers : BrokerCall → Text → Result (List (Text × Text))
unfolding strip set_header lower mem has_char ◌==◌
broker_headers call secret =
    let header = strip call.header in
    Errors.◌>>◌ (raise_if (bad_name header) validation_error) (
      Errors.◌>>◌ (raise_if (any bad_header call.extra_headers) validation_error) (
        Errors.◌>>◌ (raise_if (any (same_header header) call.extra_headers) validation_error) (
          Errors.◌>>◌ (raise_if (any is_routing call.extra_headers) validation_error)
            (ok (set_header header (call.prefix ++ secret) call.extra_headers)))))

-- The request that leaves, with the secret that it carries.
unfoldable pub broker_request : BrokerCall → Result Secret → Result (HttpRequest × Text)
unfolding broker_headers
broker_request call found = Errors.◌>>=◌ found λ value. Errors.◌>>=◌ (secret_text value) λ secret.
    Errors.◌>>=◌ (broker_headers call secret) λ headers. ok (
      record {
        url = call.url;
        method = upper call.method;
        headers = headers;
        body = call.body;
        timeout = call.timeout;
      },
      secret,
    )

module _ ⦃p : Platform⦄ where
  unfoldable pub check_target : Option AgentRow → Text → Exec SplitResult
  check_target agent url = do
    allow_private ← gets (λ s. s.allow_private_broker_targets)
    lift (validate_target allow_private agent url)

  unfoldable pub exchange_now : HttpRequest → Text → Exec HttpResult
  exchange_now request secret = do n ← gets (λ s. s.drawn); lift (execute_http n request secret)

  unfoldable pub broker_for_agent : BrokerCall → Option Text → Option Text → Exec HttpResult
  unfolding check_target broker_request exchange_now
  broker_for_agent call agent_token reason = do
    agent ← authenticate_agent agent_token
    target ← check_target (some agent) call.url
    let host = lower (hostname target)
    used ← consume_exact_grant agent secret_use call.uri (some host) reason
    ready ← lift (broker_request call (extract_field used.0.content (some used.1)))
    result ← exchange_now ready.0 ready.1
    audit (some agent.id) (on_use secret_use) (some used.0.item) (some host) reason true
        (brokered used.0.lease.id (upper call.method) result.status)
    pure result

  unfoldable pub broker_for_admin : BrokerCall → Option Text → Exec HttpResult
  unfolding read_item check_target broker_request exchange_now
  broker_for_admin call admin_password = do
    verify_admin_password admin_password
    target ← check_target none call.url
    found ← read_item call.uri
    ready ← lift (broker_request call (extract_field found.1 found.2))
    exchange_now ready.0 ready.1

  unfoldable pub broker_http :
      BrokerCall → Option Text → Option Text → Option Text → Exec HttpResult
  unfolding broker_for_agent broker_for_admin
  broker_http call agent_token admin_password reason =
      if truthy agent_token
      then broker_for_agent call agent_token reason
      else broker_for_admin call admin_password
