-- ===== src/Access.antt =====
-- Access requests and leases: the row's public form, and the reading operations of
-- passd/service.py. The children model requests, their review, and claims.
use passd.Base.{
  if◌then◌else◌, filter, leb, order_by, ◌-◌, false, [], ◌&&◌, eqb, none, ◌∷◌, ◌||◌, find, is_empty,
  true, not, ltb, or_else, some, ◌*◌, ◌++◌, List, Bool, ℕ, Option,
}
use passd.Text.{text_le, ◌==◌, strip, Text, codes}
use passd.Platform.{Platform}
pub mod Filing
pub mod Request
pub mod Review
pub mod Claim
pub mod Lease
pub mod Table
pub mod Soundness
pub mod History
pub mod Terms
pub mod Listing
pub mod Disclosure
pub mod Queue
pub mod Binding
pub mod Approval
use passd.Payload.{AccessPayload, Target, Scope}
use passd.Db.{approved, same_status, AccessRow, AgentRow}
use passd.Errors
use passd.Exec.{case_of, check, lift, require, gets, Exec, ◌>>=◌, ◌>>◌}
use passd.Url.Quote.{quote}
use passd.Errors.{not_found, ok, Result}
use passd.Agents.{has_scope}
use passd.Sealing.{access_payload}
use passd.Hosts.{host_allowed}
use passd.Vaults.{truthy}

abbrev pub max_reason_length : ℕ
max_reason_length = 300

abbrev pub max_access_ttl : ℕ
max_access_ttl = 24 * 3600

abbrev pub max_access_uses : ℕ
max_access_uses = 100

abbrev pub max_pending_per_agent : ℕ
max_pending_per_agent = 32

abbrev pub access_has_id : Text → AccessRow → Bool
access_has_id id row = row.id == id

abbrev pub of_agent : Text → AccessRow → Bool
of_agent id row = row.agent_id == id

abbrev pub option_eq : Option Text → Option Text → Bool
option_eq none none = true
option_eq (some a) (some b) = a == b
option_eq _ _ = false

-- `expires_at > ts`
abbrev pub expires_after : ℕ → AccessRow → Bool
expires_after ts row = elim row.expires_at [ none ↦ false | some t ↦ ltb ts t ]

-- `max_uses IS NOT NULL AND uses < max_uses`
abbrev pub has_budget : AccessRow → Bool
has_budget row = elim row.max_uses [ none ↦ false | some n ↦ ltb row.uses n ]

-- An approved lease that has neither expired nor been used up.
abbrev pub is_active : ℕ → AccessRow → Bool
is_active ts row = same_status row.status approved && expires_after ts row && has_budget row

abbrev expiry : AccessRow → ℕ
expiry row = or_else row.expires_at 0

-- ORDER BY expires_at, id; and ORDER BY created_at
abbrev pub expiry_le : AccessRow → AccessRow → Bool
expiry_le a b = ltb (expiry a) (expiry b) || (eqb (expiry a) (expiry b) && text_le a.id b.id)

abbrev pub created_le : AccessRow → AccessRow → Bool
created_le a b =
    ltb a.created_at b.created_at || (eqb a.created_at b.created_at && text_le a.id b.id)

-- `_require_agent_scope`, `_require_any_agent_scope`
abbrev pub scope_missing : AgentRow → Scope → Bool
scope_missing agent scope = not (has_scope scope agent.scopes)

-- `ceiling and not self._host_allowed(host, ceiling)`
unfoldable pub exceeds_ceiling : AgentRow → Text → Bool
exceeds_ceiling agent host =
    not (is_empty agent.allowed_hosts) && not (host_allowed host agent.allowed_hosts)

-- `not reason or not reason.strip()`
unfoldable pub is_blank : Option Text → Bool
unfolding strip
is_blank none = true
is_blank (some reason) = is_empty (strip reason)

-- What a client is told of the target.
pub data PublicTarget : Type 0 where
  uri : Text → PublicTarget
  capability : (id version method path : Text) → (digest : Option Text) → PublicTarget

unfoldable pub public_target : AccessPayload → PublicTarget
unfolding quote
public_target payload = elim payload.target [
  | Target.selector v i f ↦
      uri (codes "pass://" ++ (quote v ++ (codes "/" ++ (quote i ++ (codes "/" ++ quote f)))))
  | Target.capability id version method path ↦
      PublicTarget.capability id version method path payload.authority_digest
]

pub record PublicAccess : Type 0 where
  pub row : AccessRow
  pub active : Bool
  pub uses_remaining : Option ℕ
  pub requested_ttl : ℕ
  pub requested_uses : ℕ
  pub reason : Text
  pub target : PublicTarget
  pub approval_digest : Option Text
  pub decision_note : Option Text

-- `max(0, max_uses - uses)`: subtraction stops at 0 here
abbrev remaining_of : AccessRow → Option ℕ
remaining_of row = elim row.max_uses [ none ↦ none | some n ↦ some (n - row.uses) ]

module _ ⦃p : Platform⦄ where
  -- `_access_public`: the row's columns, whether it is active at this time, and the opened payload
  unfoldable pub access_public : Text → ℕ → AccessRow → Result PublicAccess
  unfolding public_target
  access_public root_key ts row = Errors.◌>>=◌ (access_payload root_key row) λ payload. ok (record {
    row = row;
    active =
        same_status row.status approved
        && expires_after ts row
        && elim (remaining_of row) [ none ↦ false | some n ↦ ltb 0 n ];
    uses_remaining = remaining_of row;
    requested_ttl = payload.requested_ttl;
    requested_uses = payload.requested_uses;
    reason = payload.reason;
    target = public_target payload;
    approval_digest = payload.approval_digest;
    decision_note = payload.decision_note;
  })

  unfoldable pub get_access_request : Text → Exec AccessRow
  get_access_request id = do
    rows ← gets (λ s. s.access_requests)
    require (find (access_has_id id) rows) not_found

  -- `self._access_public(self.get_access_request(request_id))`
  unfoldable pub show_request : Text → Exec PublicAccess
  unfolding access_public get_access_request
  show_request id = do
    row ← get_access_request id
    s ← gets (λ s. s)
    lift (access_public s.root_key s.clock row)

  unfoldable pub public_rows : Text → ℕ → List AccessRow → Result (List PublicAccess)
  unfolding access_public
  public_rows root_key ts [] = ok []
  public_rows root_key ts (row ∷ rows) =
      Errors.◌>>=◌ (access_public root_key ts row)
        λ r. Errors.◌>>=◌ (public_rows root_key ts rows) λ rest. ok (r ∷ rest)

  -- `access_status`: one request of this agent, or all of them, the newest first
  unfoldable pub access_status : AgentRow → Option Text → Exec (List PublicAccess)
  unfolding public_rows
  access_status agent request = do
    s ← gets (λ s. s)
    case_of (if truthy request then request else none)
        (lift (
          public_rows s.root_key s.clock (
            order_by (λ a b. leb b.created_at a.created_at)
              (filter (of_agent agent.id) s.access_requests))))
        λ id. do
          row ← get_access_request id
          check (not (row.agent_id == agent.id)) not_found
          lift (public_rows s.root_key s.clock (row ∷ []))
