-- ===== src/Dispatch/Guarded.antt =====
-- What a request can change that has no valid master password.
use passd.Base.{inr, inl, none, Bool-cases, some, Option, ◌≡◌}
use passd.Exec.{pure, continue, raise, Exec, case_of, ◌>>=◌}
use passd.Dispatch.{op_of, Op, Request, Reply}
use passd.Platform.{Platform}
use passd.Db.{AgentRow, Service}
use passd.Broker.{verify_admin_password}
use passd.Errors.{AuthMessage, ok, validation_error, Result, auth_error, err}
use passd.Dispatch.Handle.{
  broker_for, resolve_for, invoke_for, request_catalogued, as_either, handle, items_for_agent,
  request_exact, as_admin, reply, param, dispatch, as_agent,
}
use passd.Broker.Direct.{BrokerCall, reveal_for_admin, broker_for_admin, broker_http, reveal_secret}
use passd.Text.{Text}
use passd.Exec.Moves.{Moves-pure, Moves-bind, Moves}
use passd.Vaults.{truthy}
use passd.Access.Table.{TableGrows}
use passd.Access.Table.Granting.{granting_lending, NothingGranted}
use passd.Access.Table.Operations.{
  Lending, table_lending, request_access-grows, request_capability-grows, reading,
}
use passd.Dispatch.Growth.{
  invoke_capability-grows, access_status-grows, catalog-grows, list_authorized_items-grows,
  list_authorized_vaults-grows, reply-grows, broker_for_agent-grows, reveal_for_agent-grows,
  param-grows, authenticate_agent-grows,
}

module _ ⦃p : Platform⦄ {R : Service → Service → Type 0} ⦃l : Lending R⦄ (r : Request) where
  pub items_for_agent-grows : (agent : AgentRow) → Moves R (items_for_agent r.params agent)
  unfolding items_for_agent
  items_for_agent-grows agent =
      search (reading, param-grows, reply-grows, list_authorized_items-grows) depth 30

  pub request_exact-grows : (agent : AgentRow) → Moves R (request_exact r agent)
  unfolding request_exact
  request_exact-grows agent =
      search (reading, param-grows, reply-grows, request_access-grows) depth 30

  pub request_catalogued-grows : (agent : AgentRow) → Moves R (request_catalogued r agent)
  unfolding request_catalogued
  request_catalogued-grows agent =
      search (reading, param-grows, reply-grows, request_capability-grows) depth 30

module _ ⦃p : Platform⦄ (R : Service → Service → Type 0) ⦃l : Lending R⦄ (r : Request) (s : Service)
    {why : AuthMessage}
    (no_admin : verify_admin_password r.admin_password s ≡ (err (auth_error why), s)) where
  stays : R s s
  stays = l.order.here s

  as_admin_stays : (action : Exec Reply) → R s (as_admin r action s).1
  unfolding as_admin ◌>>=◌
  as_admin_stays action = rw no_admin stays

  as_agent_grows :
      (action : AgentRow → Exec Reply)
      → ((agent : AgentRow) → Moves R (action agent))
      → R s (as_agent r action s).1
  unfolding as_agent
  as_agent_grows action grows =
      (Moves-bind l.order _ _ (authenticate_agent-grows r.agent_token) grows).at s

  as_either_grows :
      (agents : AgentRow → Exec Reply) (admin : Exec Reply)
      → ((agent : AgentRow) → Moves R (agents agent))
      → R s (as_either r agents admin s).1
  unfolding as_either
  as_either_grows agents admin grows = elim (Bool-cases (truthy r.agent_token)) [
    | inl given ↦ rw given (as_agent_grows agents grows)
    | inr absent ↦ rw absent (as_admin_stays admin)
  ]

  param_grows :
      (value : Option Text) (go_on : Text → Exec Reply)
      → ((x : Text) → R s (go_on x s).1)
      → R s ((param value >>= go_on) s).1
  unfolding param ◌>>=◌
  param_grows none go_on grows = stays
  param_grows (some x) go_on grows = grows x

  reply_grows :
      {A : Type 0} (shown : A → Reply) (action : Exec A)
      → R s (action s).1
      → R s (reply shown action s).1
  unfolding reply ◌>>=◌
  reply_grows {A = A} shown action grows = after (action s).0 (action s).1 grows
    where
      after :
          (result : Result A) (t : Service)
          → R s t
          → R s (continue result (λ a. pure (shown a)) t).1
      after (ok a) t grows = grows
      after (err e) t grows = grows

  reveal_secret_grows :
      (uri : Text) (reason : Option Text)
      → R s (reveal_secret uri r.agent_token r.admin_password reason s).1
  unfolding reveal_secret reveal_for_admin ◌>>=◌
  reveal_secret_grows uri reason = elim (Bool-cases (truthy r.agent_token)) [
    | inl given ↦ rw given ((reveal_for_agent-grows {R = R} uri r.agent_token reason).at s)
    | inr absent ↦ rw (absent, no_admin) stays
  ]

  broker_http_grows :
      (call : BrokerCall) (reason : Option Text)
      → R s (broker_http call r.agent_token r.admin_password reason s).1
  unfolding broker_http broker_for_admin ◌>>=◌
  broker_http_grows call reason = elim (Bool-cases (truthy r.agent_token)) [
    | inl given ↦ rw given ((broker_for_agent-grows {R = R} call r.agent_token reason).at s)
    | inr absent ↦ rw (absent, no_admin) stays
  ]

  dispatch_guarded : (op : Op) → R s (dispatch op r s).1
  unfolding dispatch invoke_for resolve_for broker_for
  dispatch_guarded Op.health = (Moves-pure l.order _).at s
  dispatch_guarded Op.vault_list =
      as_either_grows _ _ λ agent. reply-grows _ _ (list_authorized_vaults-grows agent)
  dispatch_guarded Op.item_list = as_either_grows _ _ (items_for_agent-grows r)
  dispatch_guarded Op.capability_list = as_either_grows _ _ catalog-grows
  dispatch_guarded Op.capability_request = as_agent_grows _ (request_catalogued-grows r)
  dispatch_guarded Op.access_request = as_agent_grows _ (request_exact-grows r)
  dispatch_guarded Op.access_status =
      as_agent_grows _ λ agent. reply-grows _ _ (access_status-grows agent r.params.request)
  dispatch_guarded Op.secret_resolve =
      param_grows r.params.uri _ λ uri. reply_grows _ _ (reveal_secret_grows uri r.reason)
  dispatch_guarded Op.capability_invoke =
      param_grows r.params.capability_id _ λ id.
        reply_grows _ _ ((invoke_capability-grows {R = R} id _ _ _ r.agent_token r.reason).at s)
  dispatch_guarded Op.broker_http =
      param_grows r.params.uri _
        λ uri. param_grows r.params.url _ λ url. reply_grows _ _ (broker_http_grows _ r.reason)
  dispatch_guarded Op.vault_create = as_admin_stays _
  dispatch_guarded Op.item_put = as_admin_stays _
  dispatch_guarded Op.capability_put = as_admin_stays _
  dispatch_guarded Op.capability_get = as_admin_stays _
  dispatch_guarded Op.agent_create = as_admin_stays _
  dispatch_guarded Op.agent_list = as_admin_stays _
  dispatch_guarded Op.agent_rotate = as_admin_stays _
  dispatch_guarded Op.agent_revoke = as_admin_stays _
  dispatch_guarded Op.access_pending = as_admin_stays _
  dispatch_guarded Op.access_approve = as_admin_stays _
  dispatch_guarded Op.access_deny = as_admin_stays _
  dispatch_guarded Op.access_revoke = as_admin_stays _
  dispatch_guarded Op.audit_list = as_admin_stays _

  handle_at : (op : Option Op) → R s (case_of op (raise validation_error) (λ o. dispatch o r) s).1
  unfolding ◌>>=◌
  handle_at none = stays
  handle_at (some op) = dispatch_guarded op

  -- A request without a valid master password moves every state by every such relation.
  handle_lends : R s (handle r s).1
  unfolding handle
  handle_lends = handle_at (op_of r.op)

module _ ⦃p : Platform⦄ (r : Request) (s : Service) {why : AuthMessage}
    (no_admin : verify_admin_password r.admin_password s ≡ (err (auth_error why), s)) where
  -- A request whose master password is not accepted, whatever its token and its operation, leaves
  -- every vault, item, capability and machine key as it was, and every access request keeps its
  -- place and moves by the legal steps only.
  pub handle_guarded : TableGrows s (handle r s).1
  handle_guarded = handle_lends TableGrows r s no_admin

  pub handle-NothingGranted : NothingGranted s (handle r s).1
  handle-NothingGranted = handle_lends NothingGranted r s no_admin
