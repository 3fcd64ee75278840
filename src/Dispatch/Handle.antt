-- ===== src/Dispatch/Handle.antt =====
-- `handle` of passd/service.py: who may call an operation, what it reads of the parameters, and the
-- call. An operation is for the administrator, for a machine account, or for either.
use passd.Errors.{permission_denied, internal, validation_error}
use passd.Access.{access_status}
use passd.Broker.Direct.{broker_http}
use passd.Access.Request.{request_access, request_capability}
use passd.Exec.{check, raise, pure, require, case_of, Exec, ◌>>=◌, ◌>>◌}
use passd.Dispatch.{Op, Params, Reply, Request, op_of}
use passd.Base.{some, ◌&&◌, [], or_else, ◌∷◌, is_empty, none, ◌*◌, if◌then◌else◌, ℕ, List, Option}
use passd.Platform.{Platform}
use passd.Text.{codes, Text}
use passd.Payload.{Scope, ItemPayload, Source}
use passd.Db.{AgentRow}
use passd.Items.{put_item, list_items}
use passd.Broker.Direct.{BrokerCall, reveal_secret}
use passd.Vaults.{list_vaults, truthy, create_vault}
use passd.Broker.{invoke_capability, verify_admin_password}
use passd.Access.Listing.{pending_access, list_authorized_vaults, list_authorized_items}
use passd.Agents.{revoke_agent, rotate_agent, list_agents, create_agent, authenticate_agent}
use passd.Access.{scope_missing}
use passd.Capabilities.Store.{get_capability, put_capability, list_capabilities}
use passd.Access.Review.{revoke_access, deny_access, approve_access}
use passd.Audit.{list_audit}
use passd.Numbers.{whole, steps}

abbrev pub default_access_ttl : ℕ
default_access_ttl = 5 * 60

abbrev pub default_scopes : List Text
default_scopes = codes "capability.request" ∷ codes "capability.invoke" ∷ []

-- `p.get(key) or default`, of a list
abbrev pub list_or : List Text → List Text → List Text
list_or given default = if is_empty given then default else given

abbrev pub empty_source : Source
empty_source = record { kind = none; id = none }

abbrev pub item_of_params : Params → Text → ItemPayload
item_of_params p title = record {
  type = or_else p.type (codes "login");
  title = title;
  fields = p.fields;
  urls = p.urls;
  note = or_else p.note [];
  source = or_else p.source empty_source;
  proton_raw = p.proton_raw;
}

abbrev pub broker_call : Params → Text → Text → BrokerCall
broker_call p uri url = record {
  uri = uri;
  url = url;
  method = or_else p.method (codes "GET");
  header = or_else p.header (codes "Authorization");
  prefix = or_else p.prefix (codes "Bearer ");
  body = p.body;
  extra_headers = p.headers;
  timeout = or_else p.timeout (steps (whole 20));
}

-- `p[key]`: a missing key is a `KeyError`
unfoldable pub param : Option Text → Exec Text
param value = require value internal

-- A result, as a reply.
unfoldable pub reply : {A : Type 0} → (A → Reply) → Exec A → Exec Reply
reply shown action = do a ← action; pure (shown a)

module _ ⦃p : Platform⦄ where
  unfoldable pub as_admin : Request → Exec Reply → Exec Reply
  unfolding verify_admin_password
  as_admin r action = do verify_admin_password r.admin_password; action

  unfoldable pub as_agent : Request → (AgentRow → Exec Reply) → Exec Reply
  as_agent r action = do agent ← authenticate_agent r.agent_token; action agent

  -- `if token: … else …`
  unfoldable pub as_either : Request → (AgentRow → Exec Reply) → Exec Reply → Exec Reply
  unfolding as_admin as_agent
  as_either r agents admin = if truthy r.agent_token then as_agent r agents else as_admin r admin

  -- The catalog of capabilities, for an agent with one of the two scopes.
  unfoldable pub catalog : AgentRow → Exec Reply
  unfolding reply
  catalog agent = do
    check
        (scope_missing agent Scope.capability_request
          && scope_missing agent Scope.capability_invoke)
        permission_denied
    reply Reply.capabilities list_capabilities

  -- The operations that only the administrator may call.
  unfoldable pub administer : Op → Params → Exec Reply
  unfolding reply param
  administer Op.vault_create q = do
    name ← param q.name
    reply Reply.vault (create_vault name (or_else q.description []) (or_else q.source empty_source))
  administer Op.item_put q = do
    vault ← param q.vault
    title ← param q.title
    reply Reply.item (put_item vault (item_of_params q title))
  administer Op.capability_put q = reply Reply.capability (put_capability q.definition)
  administer Op.capability_get q = do id ← param q.id; reply Reply.definition (get_capability id)
  administer Op.agent_create q = do
    name ← param q.name
    reply Reply.agent (
        create_agent name (list_or q.scopes default_scopes) q.vaults q.items q.allowed_hosts
          (or_else q.ttl_seconds 3600))
  administer Op.agent_list q = reply Reply.agents list_agents
  administer Op.agent_rotate q = do ref ← param q.agent; reply Reply.agent (rotate_agent ref)
  administer Op.agent_revoke q = do
    ref ← param q.agent
    reply Reply.agent_revoked (revoke_agent ref)
  administer Op.access_pending q =
      reply Reply.pending
        (pending_access (or_else q.status (some (codes "pending"))) (or_else q.limit 100))
  administer Op.access_approve q = do
    id ← param q.request
    reply Reply.access (approve_access id q.ttl_seconds q.max_uses q.note)
  administer Op.access_deny q = do id ← param q.request; reply Reply.access (deny_access id q.note)
  administer Op.access_revoke q = do id ← param q.request; reply Reply.access (revoke_access id)
  administer Op.audit_list q = reply Reply.audits (list_audit q.agent (or_else q.limit 100))
  administer _ q = raise validation_error

  -- The operations of a machine account.
  unfoldable pub request_exact : Request → AgentRow → Exec Reply
  unfolding reply param
  request_exact r agent = do
    uri ← param r.params.uri
    reply Reply.access (
        request_access agent uri (or_else r.params.capability (codes "secret.use"))
          r.params.target_host r.reason (or_else r.params.ttl_seconds default_access_ttl)
          (or_else r.params.max_uses 1))

  unfoldable pub request_catalogued : Request → AgentRow → Exec Reply
  unfolding reply param
  request_catalogued r agent = do
    id ← param r.params.capability_id
    reply Reply.access (
        request_capability agent id (or_else r.params.method (codes "POST"))
          (or_else r.params.path (codes "/")) r.reason
          (or_else r.params.ttl_seconds default_access_ttl) (or_else r.params.max_uses 1))

  -- The parameters of these two are read before anyone is authenticated.
  unfoldable pub invoke_for : Request → Exec Reply
  unfolding reply param
  invoke_for r = do
    id ← param r.params.capability_id
    reply Reply.response (
        invoke_capability id (or_else r.params.method (codes "POST"))
          (or_else r.params.path (codes "/")) r.params.body r.agent_token r.reason)

  unfoldable pub resolve_for : Request → Exec Reply
  unfolding reply param
  resolve_for r = do
    uri ← param r.params.uri
    reply Reply.secret (reveal_secret uri r.agent_token r.admin_password r.reason)

  unfoldable pub broker_for : Request → Exec Reply
  unfolding reply param
  broker_for r = do
    uri ← param r.params.uri
    url ← param r.params.url
    reply Reply.response
        (broker_http (broker_call r.params uri url) r.agent_token r.admin_password r.reason)

  unfoldable pub items_for_agent : Params → AgentRow → Exec Reply
  unfolding reply param
  items_for_agent q agent = do
    vault ← param q.vault
    reply Reply.items (list_authorized_items agent vault)

  unfoldable pub items_for_admin : Params → Exec Reply
  unfolding reply param
  items_for_admin q = do vault ← param q.vault; reply Reply.items (list_items vault)

  unfoldable pub dispatch : Op → Request → Exec Reply
  unfolding as_either administer catalog request_exact request_catalogued invoke_for resolve_for
      broker_for items_for_agent items_for_admin
  dispatch Op.health r = pure (Reply.version 3)
  dispatch Op.vault_list r =
      as_either r (λ agent. reply Reply.authorized_vaults (list_authorized_vaults agent))
        (reply Reply.vaults list_vaults)
  dispatch Op.item_list r = as_either r (items_for_agent r.params) (items_for_admin r.params)
  dispatch Op.secret_resolve r = resolve_for r
  dispatch Op.capability_list r = as_either r catalog (reply Reply.capabilities list_capabilities)
  dispatch Op.capability_request r = as_agent r (request_catalogued r)
  dispatch Op.capability_invoke r = invoke_for r
  dispatch Op.access_request r = as_agent r (request_exact r)
  dispatch Op.access_status r =
      as_agent r λ agent. reply Reply.accesses (access_status agent r.params.request)
  dispatch Op.broker_http r = broker_for r
  dispatch op r = as_admin r (administer op r.params)

  unfoldable pub handle : Request → Exec Reply
  unfolding op_of dispatch
  handle r = case_of (op_of r.op) (raise validation_error) λ op. dispatch op r
