-- ===== src/Payload.antt =====
-- The private records that the service seals: what `json.dumps` writes into the payload columns.
use passd.Base.{ℕ, Bool, Option, List}
use passd.Text.{Text}
use passd.Numbers.{Float}

-- A value of a JSON object; `number` is one that is no integer, and `composite` a list or an
-- object, each by its text.
pub data Value : Type 0 where
  null : Value
  boolean : Bool → Value
  integer : ℕ → Value
  number composite text : Text → Value

-- The `source` of an imported vault or item: its `kind` and `id`.
pub record Source : Type 0 where
  pub kind : Option Text
  pub id : Option Text

pub record VaultPayload : Type 0 where
  pub name : Text
  pub description : Text
  pub source : Source

pub record ItemPayload : Type 0 where
  pub type : Text
  pub title : Text
  pub fields : List (Text × Value)
  pub urls : List Text
  pub note : Text
  pub source : Source
  pub proton_raw : Option Text

-- What a field reference names: the whole payload, or one field's value.
pub data Secret : Type 0 where
  whole : ItemPayload → Secret
  value : Value → Secret

pub data Scheme : Type 0 where
  http https : Scheme

-- A normalised capability definition. Its `kind` is always "http_secret".
pub record Definition : Type 0 where
  pub id : Text
  pub description : Text
  pub backing_uri : Text
  pub scheme : Scheme
  pub host : Text
  pub port : ℕ
  pub methods : List Text
  pub path_prefix : Text
  pub inject_header : Text
  pub inject_prefix : Text
  pub static_headers : List (Text × Text)
  pub timeout : Float

-- The scopes of a machine key. The last four also name what a request asks for.
pub data Scope : Type 0 where
  access_request metadata_read secret_use secret_reveal capability_request capability_invoke : Scope

-- What a request is for: one field, by its selector, or a capability at one method and path.
pub data Target : Type 0 where
  selector : Text → Text → Text → Target
  capability : (id version method path : Text) → Target

-- The private payload of an access request. The `Option` fields are keys that may be missing.
pub record AccessPayload : Type 0 where
  pub target : Target
  pub reason : Text
  pub requested_ttl : ℕ
  pub requested_uses : ℕ
  pub authority_digest : Option Text
  pub approved_credential_version : Option Text
  pub approved_capability_version : Option Text
  pub approved_item_version : Option Text
  pub approved_item_fingerprint : Option Text
  pub decision_note : Option Text
  pub approval_digest : Option Text

-- The material of an authority digest.
pub record RequestDigest : Type 0 where
  pub request_id : Text
  pub agent_id : Text
  pub payload : AccessPayload

-- The material of an approval digest.
pub record Approval : Type 0 where
  pub request_id : Text
  pub agent_id : Text
  pub authority_digest : Option Text
  pub capability : Scope
  pub target : Target
  pub credential_version : Option Text
  pub approved_ttl : ℕ
  pub approved_uses : ℕ

pub data Operation : Type 0 where
  on_request on_capability_request on_stale on_approve on_deny on_revoke : Operation
  on_use : Scope → Operation

-- The `detail` of an audit row, one constructor for each place that writes one.
pub data Detail : Type 0 where
  requested : (request_id : Text) → Scope → Detail
  requested_capability : (request_id capability_id digest : Text) → Detail
  version_changed : (request_id : Text) → Detail
  approved : (request_id : Text) (capability : Option (Text × Option Text)) (ttl uses : ℕ) → Detail
  about_request : (request_id : Text) → Detail
  missing_reason no_active_grant : Detail
  no_active_lease : (capability_id : Text) → Detail
  invoked : (request_id capability_id version method path : Text) (status : ℕ) → Detail
  brokered : (request_id method : Text) (status : ℕ) → Detail

pub record AuditPayload : Type 0 where
  pub reason : Option Text
  pub detail : Detail

-- The object of an envelope, as `Envelope.dumps` and `Envelope.loads` of passd/crypto.py have it.
pub record EnvelopeObject : Type 0 where
  pub v : ℕ
  pub n : Text
  pub c : Text
