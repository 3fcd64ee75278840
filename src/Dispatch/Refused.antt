-- ===== src/Dispatch/Refused.antt =====
-- What a request without valid credentials is told, and that it changes nothing.
use passd.Base.{
  if◌then◌else◌, eqb, Option-cases, find, leb, ℕ, inr, inl, ap, ◌⊎◌, Bool-cases, none, ◌≢◌, some,
  Option, ◌≡◌, refl,
}
use passd.Exec.{raise, Exec, case_of, ◌>>=◌}
use passd.Dispatch.{Reply, op_of, Op, Request}
use passd.Platform.{Platform}
use passd.Errors.{
  invalid_token, expired_token, revoked_token, unknown_token, AuthMessage, needs_token, ok,
  internal, err, auth_error, validation_error, Error,
}
use passd.Agents.{has_id, token_hash, check_token, parse_token, authenticate_agent}
use passd.Db.{AgentRow, Service}
use passd.Dispatch.Handle.{
  broker_for, resolve_for, invoke_for, reply, param, dispatch, as_admin, as_either, as_agent,
  handle,
}
use passd.Text.{◌==◌, codes, starts_with, Text}
use passd.Broker.{verify_admin_password, invoke_capability}
use passd.Broker.Direct.{
  BrokerCall, broker_for_admin, broker_for_agent, broker_http, reveal_for_admin, reveal_for_agent,
  reveal_secret,
}
use passd.Vaults.{truthy}
use passd.Url.{cut}

-- The error of a request that neither the master password nor a token stands behind: it is read
-- off the request, and the reasons for which the token and the password are refused.
module _ (of_token of_password : AuthMessage) where
  abbrev of_either : Request → Error
  of_either r = auth_error (if truthy r.agent_token then of_token else of_password)

  abbrev missing_key : Option Text → Error → Error
  missing_key none e = internal
  missing_key (some value) e = e

  abbrev refusal : Op → Request → Error
  refusal Op.vault_list r = of_either r
  refusal Op.item_list r = of_either r
  refusal Op.capability_list r = of_either r
  refusal Op.capability_request r = auth_error of_token
  refusal Op.access_request r = auth_error of_token
  refusal Op.access_status r = auth_error of_token
  refusal Op.secret_resolve r = missing_key r.params.uri (of_either r)
  refusal Op.capability_invoke r = missing_key r.params.capability_id (auth_error of_token)
  refusal Op.broker_http r = missing_key r.params.uri (missing_key r.params.url (of_either r))
  refusal op r = auth_error of_password

module _ ⦃p : Platform⦄ where
  -- Neither the token nor the password of the request is valid in this state, with the messages that
  -- say why.
  pub record IsUnauthenticated (of_token of_password : AuthMessage) (r : Request) (s : Service)
      : Type 0 where
    pub no_agent : authenticate_agent r.agent_token s ≡ (err (auth_error of_token), s)
    pub no_admin : verify_admin_password r.admin_password s ≡ (err (auth_error of_password), s)

  parse_token-cases :
      (token : Option Text)
      → ((parts : Text × Text) × (parse_token token ≡ ok parts))
        ⊎ (parse_token token ≡ err (auth_error needs_token))
  unfolding parse_token
  parse_token-cases none = inr refl
  parse_token-cases (some token) = elim (Bool-cases (starts_with token (codes "pda_"))) [
    | inl pre ↦ elim (Option-cases (cut (eqb b'.') token).1) [
      | inl absent ↦ inr (rw (pre, absent))
      | inr (secret, there) ↦ inl (((cut (eqb b'.') token).0, secret), rw (pre, there))
    ]
    | inr other ↦ inr (rw other)
  ]

  check_token-cases :
      (ts : ℕ) (hash : Text) (row : Option AgentRow)
      → ((found : AgentRow) × (check_token ts hash row ≡ ok found))
        ⊎ ((why : AuthMessage) × (check_token ts hash row ≡ err (auth_error why)))
  unfolding check_token
  check_token-cases ts hash none = inr (unknown_token, refl)
  check_token-cases ts hash (some row) = elim (Bool-cases row.revoked) [
    | inl revoked ↦ inr (revoked_token, rw revoked)
    | inr active ↦ elim (Bool-cases (leb row.expires_at ts)) [
      | inl late ↦ inr (expired_token, rw (active, late))
      | inr early ↦ elim (Bool-cases (row.token_hash == hash)) [
        | inl same ↦ inl (row, rw (active, early, same))
        | inr other ↦ inr (invalid_token, rw (active, early, other))
      ]
    ]
  ]

  -- A token is accepted or refused with an authentication error, and nothing is changed.
  pub authenticate-cases :
      (token : Option Text) (s : Service)
      → ((row : AgentRow) × (authenticate_agent token s ≡ (ok row, s)))
        ⊎ ((why : AuthMessage) × (authenticate_agent token s ≡ (err (auth_error why), s)))
  unfolding authenticate_agent ◌>>=◌
  authenticate-cases token s = elim (parse_token-cases token) [
    | inr fails ↦ inr (needs_token, rw fails)
    | inl (parts, parsed) ↦
        elim (check_token-cases s.clock (token_hash parts.1) (find (has_id parts.0) s.agents)) [
          | inl (row, accepted) ↦ inl (row, rw (parsed, accepted))
          | inr (why, refused) ↦ inr (why, rw (parsed, refused))
        ]
  ]

  module _ (of_token of_password : AuthMessage) (r : Request) (s : Service)
      (h : IsUnauthenticated of_token of_password r s) where
    as_admin_refused :
        (action : Exec Reply) → as_admin r action s ≡ (err (auth_error of_password), s)
    unfolding as_admin ◌>>=◌
    as_admin_refused action = rw h.no_admin

    as_agent_refused :
        (action : AgentRow → Exec Reply) → as_agent r action s ≡ (err (auth_error of_token), s)
    unfolding as_agent ◌>>=◌
    as_agent_refused action = rw h.no_agent

    as_either_refused :
        (agents : AgentRow → Exec Reply) (admin : Exec Reply)
        → as_either r agents admin s ≡ (err (of_either of_token of_password r), s)
    unfolding as_either
    as_either_refused agents admin = elim (Bool-cases (truthy r.agent_token)) [
      | inl given ↦ rw (given, as_agent_refused agents)
      | inr absent ↦ rw (absent, as_admin_refused admin)
    ]

    -- A missing key, or what comes after it.
    param_refused :
        (value : Option Text) (go_on : Text → Exec Reply) {e : Error}
        → ((x : Text) → go_on x s ≡ (err e, s))
        → (param value >>= go_on) s ≡ (err (missing_key of_token of_password value e), s)
    unfolding param ◌>>=◌
    param_refused none go_on refused = refl
    param_refused (some x) go_on refused = refused x

    reply_refused :
        {A : Type 0} (shown : A → Reply) (action : Exec A) {e : Error}
        → action s ≡ (err e, s)
        → reply shown action s ≡ (err e, s)
    unfolding reply ◌>>=◌
    reply_refused shown action refused = rw refused

    invoke_capability_refused :
        (id method path : Text) (body reason : Option Text)
        → invoke_capability id method path body r.agent_token reason s
          ≡ (err (auth_error of_token), s)
    unfolding invoke_capability ◌>>=◌
    invoke_capability_refused id method path body reason = rw h.no_agent

    reveal_secret_refused :
        (uri : Text) (reason : Option Text)
        → reveal_secret uri r.agent_token r.admin_password reason s
          ≡ (err (of_either of_token of_password r), s)
    unfolding reveal_secret reveal_for_agent reveal_for_admin ◌>>=◌
    reveal_secret_refused uri reason = elim (Bool-cases (truthy r.agent_token)) [
      | inl given ↦ rw (given, h.no_agent)
      | inr absent ↦ rw (absent, h.no_admin)
    ]

    broker_http_refused :
        (call : BrokerCall) (reason : Option Text)
        → broker_http call r.agent_token r.admin_password reason s
          ≡ (err (of_either of_token of_password r), s)
    unfolding broker_http broker_for_agent broker_for_admin ◌>>=◌
    broker_http_refused call reason = elim (Bool-cases (truthy r.agent_token)) [
      | inl given ↦ rw (given, h.no_agent)
      | inr absent ↦ rw (absent, h.no_admin)
    ]

    broker_params_refused :
        (first second : Option Text) (go_on : Text → Text → Exec Reply) {e : Error}
        → ((x y : Text) → go_on x y s ≡ (err e, s))
        → (param first >>= λ x. param second >>= go_on x) s ≡ (
          err (missing_key of_token of_password first (missing_key of_token of_password second e)),
          s,
        )
    unfolding param ◌>>=◌
    broker_params_refused none second go_on refused = refl
    broker_params_refused (some x) second go_on refused = param_refused second (go_on x) (refused x)

    dispatch_refused :
        (op : Op) → op ≢ Op.health → dispatch op r s ≡ (err (refusal of_token of_password op r), s)
    unfolding dispatch invoke_for resolve_for broker_for
    dispatch_refused Op.health other = absurd (other refl)
    dispatch_refused Op.vault_list other = as_either_refused _ _
    dispatch_refused Op.item_list other = as_either_refused _ _
    dispatch_refused Op.capability_list other = as_either_refused _ _
    dispatch_refused Op.capability_request other = as_agent_refused _
    dispatch_refused Op.access_request other = as_agent_refused _
    dispatch_refused Op.access_status other = as_agent_refused _
    dispatch_refused Op.secret_resolve other =
        param_refused r.params.uri _ λ uri. reply_refused _ _ (reveal_secret_refused uri r.reason)
    dispatch_refused Op.capability_invoke other =
        param_refused r.params.capability_id _
          λ id. reply_refused _ _ (invoke_capability_refused id _ _ _ r.reason)
    dispatch_refused Op.broker_http other =
        broker_params_refused r.params.uri r.params.url _
          λ uri url. reply_refused _ _ (broker_http_refused _ r.reason)
    dispatch_refused Op.vault_create other = as_admin_refused _
    dispatch_refused Op.item_put other = as_admin_refused _
    dispatch_refused Op.capability_put other = as_admin_refused _
    dispatch_refused Op.capability_get other = as_admin_refused _
    dispatch_refused Op.agent_create other = as_admin_refused _
    dispatch_refused Op.agent_list other = as_admin_refused _
    dispatch_refused Op.agent_rotate other = as_admin_refused _
    dispatch_refused Op.agent_revoke other = as_admin_refused _
    dispatch_refused Op.access_pending other = as_admin_refused _
    dispatch_refused Op.access_approve other = as_admin_refused _
    dispatch_refused Op.access_deny other = as_admin_refused _
    dispatch_refused Op.access_revoke other = as_admin_refused _
    dispatch_refused Op.audit_list other = as_admin_refused _

  refusal_of : (of_token of_password : AuthMessage) → Request → Option Op → Error
  refusal_of of_token of_password r none = validation_error
  refusal_of of_token of_password r (some op) = refusal of_token of_password op r

  handle_at :
      (of_token of_password : AuthMessage) (r : Request) (s : Service) (op : Option Op)
      → IsUnauthenticated of_token of_password r s
      → op ≢ some Op.health
      → case_of op (raise validation_error) (λ o. dispatch o r) s
        ≡ (err (refusal_of of_token of_password r op), s)
  unfolding ◌>>=◌ refusal_of
  handle_at of_token of_password r s none h other = refl
  handle_at of_token of_password r s (some op) h other =
      dispatch_refused of_token of_password r s h op λ e. other (ap some e)

  -- A request without a valid token or master password, other than "health", is refused, and
  -- nothing is changed; and in any two states in which its token and its password are refused with
  -- the same messages, its error is the same, and so is the message of an authentication error: a
  -- caller without credentials learns nothing from it of the vaults, items and requests.
  pub handle_refused :
      (of_token of_password : AuthMessage) (r : Request) (s t : Service)
      → IsUnauthenticated of_token of_password r s
      → IsUnauthenticated of_token of_password r t
      → op_of r.op ≢ some Op.health
      → (e : Error) × (handle r s ≡ (err e, s)) × (handle r t ≡ (err e, t))
  unfolding handle
  handle_refused of_token of_password r s t in_s in_t other = (
    refusal_of of_token of_password r (op_of r.op),
    handle_at of_token of_password r s (op_of r.op) in_s other,
    handle_at of_token of_password r t (op_of r.op) in_t other,
  )
