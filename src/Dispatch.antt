-- ===== src/Dispatch.antt =====
-- What `handle` of passd/service.py takes and gives: a request, with the parameters that its
-- operation reads, and a reply. Each key that may be missing is an `Option`.
pub mod Handle
pub mod Refused
pub mod Growth
pub mod Guarded
pub mod Served
pub mod Reads
pub mod Sessions
pub mod Strangers
use passd.Text.{Text, codes, ◌==◌}
use passd.Base.{some, [], if◌then◌else◌, none, ◌∷◌, List, ℕ, Option}
use passd.Payload.{AuditPayload, Definition, Secret, ItemPayload, Value, VaultPayload, Source}
use passd.Access.Listing.{PendingAccess, VaultName}
use passd.Items.{ItemSummary}
use passd.Capabilities.{RawDefinition}
use passd.Capabilities.Store.{PublicCapability}
use passd.Access.{PublicAccess}
use passd.Broker.{HttpResult}
use passd.Db.{AuditRow, AgentRow}
use passd.Numbers.{Float}

pub data Op : Type 0 where
  health vault_list vault_create item_list item_put secret_resolve : Op
  capability_put capability_get capability_list capability_request capability_invoke : Op
  agent_create agent_list agent_rotate agent_revoke : Op
  access_request access_status access_pending access_approve access_deny access_revoke : Op
  audit_list broker_http : Op

-- The operations, in the order of `handle`.
abbrev operations : List (Text × Op)
operations =
    (codes "health", health)
    ∷ (codes "vault.list", vault_list)
    ∷ (codes "vault.create", vault_create)
    ∷ (codes "item.list", item_list)
    ∷ (codes "item.put", item_put)
    ∷ (codes "secret.resolve", secret_resolve)
    ∷ (codes "capability.put", capability_put)
    ∷ (codes "capability.get", capability_get)
    ∷ (codes "capability.list", capability_list)
    ∷ (codes "capability.request", capability_request)
    ∷ (codes "capability.invoke", capability_invoke)
    ∷ (codes "agent.create", agent_create)
    ∷ (codes "agent.list", agent_list)
    ∷ (codes "agent.rotate", agent_rotate)
    ∷ (codes "agent.revoke", agent_revoke)
    ∷ (codes "access.request", access_request)
    ∷ (codes "access.status", access_status)
    ∷ (codes "access.pending", access_pending)
    ∷ (codes "access.approve", access_approve)
    ∷ (codes "access.deny", access_deny)
    ∷ (codes "access.revoke", access_revoke)
    ∷ (codes "audit.list", audit_list)
    ∷ (codes "broker.http", broker_http)
    ∷ []

abbrev named : Text → List (Text × Op) → Option Op
named t [] = none
named t ((name, op) ∷ ops) = if t == name then some op else named t ops

-- The chain of tests of `op`.
unfoldable pub op_of : Text → Option Op
unfolding ◌==◌
op_of t = named t operations

-- `status` may also be there and null. `definition` is the parameters of "capability.put".
pub record Params : Type 0 where
  pub name : Option Text
  pub description : Option Text
  pub source : Option Source
  pub vault : Option Text
  pub title : Option Text
  pub fields : List (Text × Value)
  pub type : Option Text
  pub urls : List Text
  pub note : Option Text
  pub proton_raw : Option Text
  pub uri : Option Text
  pub id : Option Text
  pub definition : RawDefinition
  pub capability_id : Option Text
  pub method : Option Text
  pub path : Option Text
  pub body : Option Text
  pub ttl_seconds : Option ℕ
  pub max_uses : Option ℕ
  pub scopes : List Text
  pub vaults : List Text
  pub items : List Text
  pub allowed_hosts : List Text
  pub agent : Option Text
  pub capability : Option Text
  pub target_host : Option Text
  pub request : Option Text
  pub status : Option (Option Text)
  pub limit : Option ℕ
  pub url : Option Text
  pub header : Option Text
  pub prefix : Option Text
  pub headers : List (Text × Text)
  pub timeout : Option Float

pub record Request : Type 0 where
  pub op : Text
  pub params : Params
  pub admin_password : Option Text
  pub agent_token : Option Text
  pub reason : Option Text

pub data Reply : Type 0 where
  version : ℕ → Reply
  vaults : List (Text × VaultPayload) → Reply
  authorized_vaults : List VaultName → Reply
  vault : Text × VaultPayload → Reply
  items : List ItemSummary → Reply
  item : Text × Text × ItemPayload → Reply
  secret : Secret → Reply
  capability : PublicCapability → Reply
  definition : PublicCapability × Definition → Reply
  capabilities : List PublicCapability → Reply
  access : PublicAccess → Reply
  accesses : List PublicAccess → Reply
  pending : List PendingAccess → Reply
  response : HttpResult → Reply
  agent : Text × AgentRow → Reply
  agents : List AgentRow → Reply
  agent_revoked : Text → Reply
  audits : List (AuditRow × AuditPayload) → Reply

abbrev no_definition : RawDefinition
no_definition = record {
  id = none;
  kind = none;
  description = none;
  backing_uri = none;
  scheme = none;
  host = none;
  port = none;
  methods = [];
  path_prefix = none;
  inject_header = none;
  inject_prefix = none;
  static_headers = [];
  timeout = none;
}

-- No parameter at all.
abbrev pub no_params : Params
no_params = record {
  name = none;
  description = none;
  source = none;
  vault = none;
  title = none;
  fields = [];
  type = none;
  urls = [];
  note = none;
  proton_raw = none;
  uri = none;
  id = none;
  definition = no_definition;
  capability_id = none;
  method = none;
  path = none;
  body = none;
  ttl_seconds = none;
  max_uses = none;
  scopes = [];
  vaults = [];
  items = [];
  allowed_hosts = [];
  agent = none;
  capability = none;
  target_host = none;
  request = none;
  status = none;
  limit = none;
  url = none;
  header = none;
  prefix = none;
  headers = [];
  timeout = none;
}
