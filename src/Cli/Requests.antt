-- ===== src/Cli/Requests.antt =====
-- `main` of passd/cli.py: the request of each command. `none` is a `ValueError`, and nothing is sent.
use passd.Base.{[], or_else, none, some, if◌then◌else◌, ℕ, List, Option}
use passd.Cli.{
  broker_params, capability_params, reason_for, login_params, by_admin, token_for, by_either,
  by_agent, Command, Environment,
}
use passd.Text.{codes, Text}
use passd.Cli.Values.{kv_pairs, parse_ttl}
use passd.Dispatch.{Request, no_params, Params}
use passd.Proton.{set_field}
use passd.Vaults.{truthy}
use passd.Dispatch.Handle.{default_scopes, list_or}

-- The request, if its lifetime is one.
abbrev pub with_ttl : Option ℕ → (ℕ → Request) → Option Request
with_ttl none build = none
with_ttl (some seconds) build = some (build seconds)

abbrev pub with_pairs :
    Option (List (Text × Text)) → (List (Text × Text) → Request) → Option Request
with_pairs none build = none
with_pairs (some pairs) build = some (build pairs)

abbrev approve_params : Text → Option ℕ → Option ℕ → Option Text → Params
approve_params request seconds uses remark = record no_params {
  request = some request;
  ttl_seconds = seconds;
  max_uses = uses;
  note = remark;
}

abbrev create_params : Text → List Text → List Text → ℕ → Params
create_params name scopes hosts seconds = record no_params {
  name = some name;
  scopes = list_or scopes default_scopes;
  allowed_hosts = hosts;
  ttl_seconds = some seconds;
}

abbrev request_params : Text → Text → Text → ℕ → ℕ → Params
request_params id method path seconds uses = record no_params {
  capability_id = some id;
  method = some method;
  path = some path;
  ttl_seconds = some seconds;
  max_uses = some uses;
}

abbrev invoke_params : Text → Text → Text → Option Text → Params
invoke_params id method path body = record no_params {
  capability_id = some id;
  method = some method;
  path = some path;
  body = body;
}

abbrev access_params : Text → Text → Option Text → ℕ → ℕ → Params
access_params uri capability host seconds uses = record no_params {
  uri = some uri;
  capability = some capability;
  target_host = host;
  ttl_seconds = some seconds;
  max_uses = some uses;
}

-- `if args.expiration: params["ttl_seconds"] = parse_ttl(args.expiration)`
abbrev pub approval_request :
    Environment → Text → Option Text → Option ℕ → Option Text → Option Request
approval_request env request expiration uses remark =
    if truthy expiration
    then with_ttl (parse_ttl (or_else expiration [])) (λ seconds.
      by_admin env (codes "access.approve") (approve_params request (some seconds) uses remark))
    else some (by_admin env (codes "access.approve") (approve_params request none uses remark))

unfoldable pub request_of : Environment → Command → Option Request
unfolding parse_ttl kv_pairs set_field by_either
request_of env Command.doctor = some (by_agent none none (codes "health") no_params)
request_of env (Command.vault_list caller) =
    some (by_either env (token_for env caller) none (codes "vault.list") no_params)
request_of env (Command.vault_create name description) = some (
    by_admin env (codes "vault.create")
      (record no_params { name = some name; description = some description }))
request_of env (Command.item_list vault caller) = some (
    by_either env (token_for env caller) none (codes "item.list")
      (record no_params { vault = some vault }))
request_of env (Command.put_login args) =
    with_pairs (kv_pairs (some []) args.fields)
      λ pairs. by_admin env (codes "item.put") (login_params args pairs)
request_of env (Command.resolve uri caller) = some (
    by_either env (token_for env caller) (reason_for env caller) (codes "secret.resolve")
      (record no_params { uri = some uri }))
request_of env (Command.agent_create name scopes hosts expiration) =
    with_ttl (parse_ttl expiration)
      λ seconds. by_admin env (codes "agent.create") (create_params name scopes hosts seconds)
request_of env Command.agent_list = some (by_admin env (codes "agent.list") no_params)
request_of env (Command.agent_rotate agent) =
    some (by_admin env (codes "agent.rotate") (record no_params { agent = some agent }))
request_of env (Command.agent_revoke agent) =
    some (by_admin env (codes "agent.revoke") (record no_params { agent = some agent }))
request_of env (Command.agent_monitor agent limit) =
    some
      (by_admin env (codes "audit.list") (record no_params { agent = agent; limit = some limit }))
request_of env (Command.capability_list caller) =
    some (by_either env (token_for env caller) none (codes "capability.list") no_params)
request_of env (Command.capability_get id) =
    some (by_admin env (codes "capability.get") (record no_params { id = some id }))
request_of env (Command.capability_put args) =
    with_pairs (kv_pairs (some []) args.static_headers)
      λ headers. by_admin env (codes "capability.put") (capability_params args headers)
request_of env (Command.capability_request id method path expiration uses caller) =
    with_ttl (parse_ttl expiration) λ seconds.
      by_agent (token_for env caller) (reason_for env caller) (codes "capability.request")
        (request_params id method path seconds uses)
request_of env (Command.capability_invoke id method path body caller) = some (
    by_agent (token_for env caller) (reason_for env caller) (codes "capability.invoke")
      (invoke_params id method path body))
request_of env (Command.access_request uri capability host expiration uses caller) =
    with_ttl (parse_ttl expiration) λ seconds.
      by_agent (token_for env caller) (reason_for env caller) (codes "access.request")
        (access_params uri capability host seconds uses)
request_of env (Command.access_status request caller) = some (
    by_agent (token_for env caller) none (codes "access.status")
      (record no_params { request = if truthy request then request else none }))
request_of env (Command.access_pending limit) =
    some (by_admin env (codes "access.pending") (record no_params { limit = some limit }))
request_of env (Command.access_approve request expiration uses remark) =
    approval_request env request expiration uses remark
request_of env (Command.access_deny request remark) =
    some (by_admin env (codes "access.deny") (approve_params request none none remark))
request_of env (Command.access_revoke request) =
    some (by_admin env (codes "access.revoke") (record no_params { request = some request }))
request_of env (Command.broker_http args caller) =
    with_pairs (kv_pairs (some []) args.header_extra) λ headers.
      by_either env (token_for env caller) (reason_for env caller) (codes "broker.http")
        (broker_params args headers)
