-- ===== src/Dispatch/Sessions.antt =====
-- Any sequence of requests to `handle` of passd/service.py, each some seconds after the one before
-- it, whether that returned or raised.
use passd.Access.Table.Operations.{table_lending}
use passd.Base.{true, ◌≡◌, Among, [], ℕ, List, Option, ◌∷◌, ◌+◌}
use passd.Exec.{Exec, ◌>>=◌}
use passd.Dispatch.{op_of, Params, Op, Request, Reply}
use passd.Platform.{Platform}
use passd.Agents.{authenticate_agent}
use passd.Dispatch.Handle.{
  broker_for, resolve_for, invoke_for, as_admin, handle, as_agent, dispatch, items_for_admin,
  as_either, param, reply, administer,
}
use passd.Text.{Text}
use passd.Exec.Moves.{Moves-if, Moves-case_of, Moves-raise, Moves-pure, Moves-bind, Moves}
use passd.Dispatch.Served.{
  revoke_agent-serves, rotate_agent-serves, create_agent-serves, requests_order,
  put_capability-serves, put_item-serves, only_requests, serving, create_vault-serves, RequestsGrow,
}
use passd.Access.Table.{
  Grows-trans, Grows-refl, Grows-AllWithinBudget, AllWithinBudget, Grows, table_order, TableGrows,
}
use passd.Db.{AgentRow, AccessRow, Service}
use passd.Broker.{verify_admin_password}
use passd.Access.Table.Operations.{
  revoke_access-grows, deny_access-grows, approve_access-grows, reading,
}
use passd.Dispatch.Growth.{
  invoke_capability-grows, access_status-grows, list_capabilities-grows, catalog-grows,
  list_authorized_vaults-grows, param-grows, reply-grows, verify_admin_password-grows,
  authenticate_agent-grows,
}
use passd.Access.Lease.{Reach-closed, is_closed}
use passd.Dispatch.Guarded.{request_exact-grows, request_catalogued-grows, items_for_agent-grows}
use passd.Access.History.{Grows-Among}
use mathlib.Core.Path.{subst}
use passd.Dispatch.Reads.{
  list_vaults-grows, list_items-grows, get_capability-grows, list_agents-grows,
  pending_access-grows, list_audit-grows, reveal_secret-grows, broker_http-grows,
}

module _ ⦃p : Platform⦄ where
  authenticate_agent-serves : (token : Option Text) → Moves RequestsGrow (authenticate_agent token)
  authenticate_agent-serves token = only_requests (authenticate_agent-grows token)

  verify_admin_password-serves :
      (password : Option Text) → Moves RequestsGrow (verify_admin_password password)
  verify_admin_password-serves password = only_requests (verify_admin_password-grows password)

  param-serves : (value : Option Text) → Moves RequestsGrow (param value)
  param-serves value = only_requests (param-grows value)

  reply-serves :
      {A : Type 0} (shown : A → Reply) (action : Exec A)
      → Moves RequestsGrow action
      → Moves RequestsGrow (reply shown action)
  unfolding reply
  reply-serves shown action serves = search serving depth 30

  reply_grown :
      {A : Type 0} (shown : A → Reply) (action : Exec A)
      → Moves TableGrows action
      → Moves RequestsGrow (reply shown action)
  reply_grown shown action grows = only_requests (reply-grows shown action grows)

  with_param :
      (value : Option Text) (go_on : Text → Exec Reply)
      → ((x : Text) → Moves RequestsGrow (go_on x))
      → Moves RequestsGrow (param value >>= go_on)
  with_param value go_on serves = Moves-bind requests_order _ _ (param-serves value) serves

  administer-serves : (op : Op) (q : Params) → Moves RequestsGrow (administer op q)
  unfolding administer
  administer-serves Op.vault_create q =
      with_param q.name _ λ name. reply-serves _ _ (create_vault-serves name _ _)
  administer-serves Op.item_put q =
      with_param q.vault _
        λ vault. with_param q.title _ λ title. reply-serves _ _ (put_item-serves vault _)
  administer-serves Op.capability_put q = reply-serves _ _ (put_capability-serves q.definition)
  administer-serves Op.capability_get q =
      with_param q.id _ λ id. reply_grown _ _ (get_capability-grows id)
  administer-serves Op.agent_create q =
      with_param q.name _ λ name. reply-serves _ _ (create_agent-serves name _ _ _ _ _)
  administer-serves Op.agent_list q = reply_grown _ _ list_agents-grows
  administer-serves Op.agent_rotate q =
      with_param q.agent _ λ ref. reply-serves _ _ (rotate_agent-serves ref)
  administer-serves Op.agent_revoke q =
      with_param q.agent _ λ ref. reply-serves _ _ (revoke_agent-serves ref)
  administer-serves Op.access_pending q = reply_grown _ _ (pending_access-grows _ _)
  administer-serves Op.access_approve q =
      with_param q.request _ λ id. reply_grown _ _ (approve_access-grows id _ _ _)
  administer-serves Op.access_deny q =
      with_param q.request _ λ id. reply_grown _ _ (deny_access-grows id _)
  administer-serves Op.access_revoke q =
      with_param q.request _ λ id. reply_grown _ _ (revoke_access-grows id)
  administer-serves Op.audit_list q = reply_grown _ _ (list_audit-grows _ _)
  administer-serves Op.health q = Moves-raise requests_order _
  administer-serves Op.vault_list q = Moves-raise requests_order _
  administer-serves Op.item_list q = Moves-raise requests_order _
  administer-serves Op.secret_resolve q = Moves-raise requests_order _
  administer-serves Op.capability_list q = Moves-raise requests_order _
  administer-serves Op.capability_request q = Moves-raise requests_order _
  administer-serves Op.capability_invoke q = Moves-raise requests_order _
  administer-serves Op.access_request q = Moves-raise requests_order _
  administer-serves Op.access_status q = Moves-raise requests_order _
  administer-serves Op.broker_http q = Moves-raise requests_order _

  module _ (r : Request) where
    admin-serves : (op : Op) → Moves RequestsGrow (as_admin r (administer op r.params))
    unfolding as_admin
    admin-serves op =
        Moves-bind requests_order _ _ (verify_admin_password-serves r.admin_password)
          λ x. administer-serves op r.params

    agent-serves :
        (action : AgentRow → Exec Reply)
        → ((agent : AgentRow) → Moves TableGrows (action agent))
        → Moves RequestsGrow (as_agent r action)
    unfolding as_agent
    agent-serves action grows =
        only_requests (Moves-bind table_order _ _ (authenticate_agent-grows r.agent_token) grows)

    either-serves :
        (agents : AgentRow → Exec Reply) (admin : Exec Reply)
        → ((agent : AgentRow) → Moves TableGrows (agents agent))
        → Moves TableGrows admin
        → Moves RequestsGrow (as_either r agents admin)
    unfolding as_either as_admin
    either-serves agents admin grows reads =
        Moves-if requests_order _ _ _ (agent-serves agents grows) (
          only_requests
            (Moves-bind table_order _ _ (verify_admin_password-grows r.admin_password) λ x. reads))

    items_for_admin-grows : Moves TableGrows (items_for_admin r.params)
    unfolding items_for_admin
    items_for_admin-grows = search (reading, param-grows, reply-grows, list_items-grows) depth 30

    dispatch-serves : (op : Op) → Moves RequestsGrow (dispatch op r)
    unfolding dispatch invoke_for resolve_for broker_for
    dispatch-serves Op.health = Moves-pure requests_order _
    dispatch-serves Op.vault_list =
        either-serves _ _ (λ agent. reply-grows _ _ (list_authorized_vaults-grows agent))
          (reply-grows _ _ list_vaults-grows)
    dispatch-serves Op.item_list = either-serves _ _ (items_for_agent-grows r) items_for_admin-grows
    dispatch-serves Op.capability_list =
        either-serves _ _ catalog-grows (reply-grows _ _ list_capabilities-grows)
    dispatch-serves Op.capability_request = agent-serves _ (request_catalogued-grows r)
    dispatch-serves Op.access_request = agent-serves _ (request_exact-grows r)
    dispatch-serves Op.access_status =
        agent-serves _ λ agent. reply-grows _ _ (access_status-grows agent r.params.request)
    dispatch-serves Op.secret_resolve =
        with_param r.params.uri _
          λ uri. reply_grown _ _ (reveal_secret-grows uri r.agent_token r.admin_password r.reason)
    dispatch-serves Op.capability_invoke =
        with_param r.params.capability_id _
          λ id. reply_grown _ _ (invoke_capability-grows id _ _ _ r.agent_token r.reason)
    dispatch-serves Op.broker_http = with_param r.params.uri _ λ uri.
        with_param r.params.url _
          λ url. reply_grown _ _ (broker_http-grows _ r.agent_token r.admin_password r.reason)
    dispatch-serves Op.vault_create = admin-serves Op.vault_create
    dispatch-serves Op.item_put = admin-serves Op.item_put
    dispatch-serves Op.capability_put = admin-serves Op.capability_put
    dispatch-serves Op.capability_get = admin-serves Op.capability_get
    dispatch-serves Op.agent_create = admin-serves Op.agent_create
    dispatch-serves Op.agent_list = admin-serves Op.agent_list
    dispatch-serves Op.agent_rotate = admin-serves Op.agent_rotate
    dispatch-serves Op.agent_revoke = admin-serves Op.agent_revoke
    dispatch-serves Op.access_pending = admin-serves Op.access_pending
    dispatch-serves Op.access_approve = admin-serves Op.access_approve
    dispatch-serves Op.access_deny = admin-serves Op.access_deny
    dispatch-serves Op.access_revoke = admin-serves Op.access_revoke
    dispatch-serves Op.audit_list = admin-serves Op.audit_list

    handle-serves : Moves RequestsGrow (handle r)
    unfolding handle
    handle-serves =
        Moves-case_of requests_order (op_of r.op) _ _ (Moves-raise requests_order _) dispatch-serves

  -- The state after some requests, each with the seconds that pass before it.
  unfoldable pub session : List (ℕ × Request) → Service → Service
  unfolding handle
  session [] s = s
  session ((wait, r) ∷ rest) s = session rest (handle r (record s { clock = s.clock + wait })).1

  session-Grows :
      (requests : List (ℕ × Request)) (s : Service)
      → Grows s.access_requests (session requests s).access_requests
  unfolding session
  session-Grows [] s = Grows-refl s.access_requests
  session-Grows ((wait, r) ∷ rest) s =
      let next = (handle r (record s { clock = s.clock + wait })).1 in
      Grows-trans s.access_requests next.access_requests (session rest next).access_requests
        ((handle-serves r).at (record s { clock = s.clock + wait })).rows (session-Grows rest next)

  -- Whatever requests reach `handle`, of any operation, with any credentials and parameters, in any
  -- order and with any time between them, and whether they return or raise: if no lease has more
  -- uses than its budget, and no request without a budget has been used, then the same holds
  -- afterwards.
  pub session-AllWithinBudget :
      (requests : List (ℕ × Request)) (s : Service)
      → AllWithinBudget s.access_requests
      → AllWithinBudget (session requests s).access_requests
  session-AllWithinBudget requests s h =
      Grows-AllWithinBudget s.access_requests (session requests s).access_requests
        (session-Grows requests s) h

  -- Whatever requests reach `handle`, a request that is denied, revoked or stale is still there
  -- afterwards, and the same.
  pub session-closed :
      (requests : List (ℕ × Request)) (s : Service) (row : AccessRow)
      → Among row s.access_requests
      → is_closed row.status ≡ true
      → Among row (session requests s).access_requests
  session-closed requests s row m closed =
      let (y, n, reached) =
        Grows-Among row s.access_requests (session requests s).access_requests m
          (session-Grows requests s) in
      subst (λ z. Among z (session requests s).access_requests) (Reach-closed closed reached) n
