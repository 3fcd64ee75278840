-- ===== src/Db.antt =====
-- passd/db.py: the tables, as lists of rows in the order of insertion, and the service that owns
-- them. A JSON column holds its value; a payload column holds an envelope.
use passd.Base.{false, true, ℕ, Bool, Option, List}
use passd.Text.{Text}
use passd.Payload.{Scope, Operation}
use passd.Crypto.{Envelope}
use passd.Config.{Config}

pub record VaultRow : Type 0 where
  pub id : Text
  pub wrapped_key : Envelope
  pub payload : Envelope
  pub source_kind : Option Text
  pub source_id : Option Text
  pub created_at : ℕ
  pub updated_at : ℕ

pub record ItemRow : Type 0 where
  pub id : Text
  pub vault_id : Text
  pub wrapped_key : Envelope
  pub payload : Envelope
  pub source_kind : Option Text
  pub source_id : Option Text
  pub created_at : ℕ
  pub updated_at : ℕ

pub record CapabilityRow : Type 0 where
  pub id : Text
  pub version : Text
  pub payload : Envelope
  pub created_at : ℕ
  pub updated_at : ℕ

pub record AgentRow : Type 0 where
  pub id : Text
  pub name : Text
  pub token_hash : Text
  pub scopes : List Scope
  pub vault_ids : List Text
  pub item_ids : List Text
  pub allowed_hosts : List Text
  pub expires_at : ℕ
  pub revoked : Bool
  pub created_at : ℕ

pub data Status : Type 0 where
  pending approved denied revoked stale : Status

pub record AccessRow : Type 0 where
  pub id : Text
  pub agent_id : Text
  pub capability : Scope
  pub target_host : Option Text
  pub payload : Envelope
  pub status : Status
  pub item_id : Option Text
  pub expires_at : Option ℕ
  pub max_uses : Option ℕ
  pub uses : ℕ
  pub created_at : ℕ
  pub reviewed_at : Option ℕ

pub record AuditRow : Type 0 where
  pub id : ℕ
  pub ts : ℕ
  pub agent_id : Option Text
  pub operation : Operation
  pub vault_id : Option Text
  pub item_id : Option Text
  pub target : Option Text
  pub allowed : Bool
  pub detail : Envelope

-- `PassdService`: its fields, the tables of its database, and what it reads from the system: the
-- clock, and random texts, which are drawn one after another.
pub record Service : Type 0 where
  pub root_key : Text
  pub config : Config
  pub allow_private_broker_targets : Bool
  pub vaults : List VaultRow
  pub items : List ItemRow
  pub capabilities : List CapabilityRow
  pub agents : List AgentRow
  pub access_requests : List AccessRow
  pub audits : List AuditRow
  pub clock : ℕ
  pub entropy : ℕ → Text
  pub drawn : ℕ

abbrev pub same_status : Status → Status → Bool
same_status pending pending = true
same_status approved approved = true
same_status denied denied = true
same_status revoked revoked = true
same_status stale stale = true
same_status _ _ = false
