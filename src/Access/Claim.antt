-- ===== src/Access/Claim.antt =====
-- Claiming a use of a lease: `_consume_exact_grant` and `_consume_capability_grant` of
-- passd/service.py, up to the point where the secret is used.
use passd.Errors
use passd.Base.{
  eqb, not, or_else, [], false, find, ◌&&◌, filter, ◌∷◌, order_by, some, Bool, ℕ, if◌then◌else◌,
  List, none, ◌+◌, Option,
}
use passd.Text.{◌==◌, Text}
use passd.Platform.{Platform}
use passd.Crypto.Column.{dumps}
use passd.Payload.{
  secret_use, no_active_lease, no_active_grant, missing_reason, on_use, Definition, ItemPayload,
  AccessPayload, Target, Scope, capability_invoke,
}
use passd.Db.{stale, approved, ItemRow, CapabilityRow, AccessRow, AgentRow}
use passd.Access.{
  exceeds_ceiling, option_eq, scope_missing, access_has_id, is_blank, is_active, of_agent,
  expiry_le,
}
use passd.Access.Review.{set_status, is_at, update_requests, rowcount}
use passd.Exec.{case_of, raise, require, now, check, lift, pure, gets, Exec, ◌>>=◌, ◌>>◌}
use passd.Errors.{err, ok, permission_denied, raise_if, Result}
use passd.Refs.{parse_pass_ref, PassRef}
use passd.Sealing.{capability_payload, access_payload, item_payload}
use passd.Vaults.{truthy}
use passd.Audit.{audit}
use passd.Agents.{scope_eq}
use passd.Items.{item_has_id, extract_field}
use passd.Authority.{item_version, credential_version}
use passd.Capabilities.Store.{capability_key, capability_has_id}
use passd.Hosts.{normalize_host}
use passd.Capabilities.{validate_invocation}

-- What a claim returns: the lease as it was read, and the item that backs it.
pub record Claim : Type 0 where
  pub lease : AccessRow
  pub item : ItemRow
  pub content : ItemPayload

pub record CapabilityClaim : Type 0 where
  pub claim : Claim
  pub capability : CapabilityRow
  pub definition : Definition
  pub field : Option Text

-- WHERE id=? AND status='approved' AND expires_at>? AND uses<max_uses
abbrev pub claimable : Text → ℕ → AccessRow → Bool
claimable id ts row = access_has_id id row && is_active ts row

abbrev pub spend : AccessRow → AccessRow
spend row = record row { uses = row.uses + 1 }

abbrev pub item_for : Option Text → List ItemRow → Option ItemRow
item_for none items = none
item_for (some id) items = find (item_has_id id) items

-- The candidates of an exact grant, and of a capability.
unfoldable pub exact_candidates : Text → Scope → Option Text → ℕ → List AccessRow → List AccessRow
exact_candidates agent_id scope host ts rows = order_by expiry_le (
    filter
      (λ row.
        of_agent agent_id row
        && scope_eq row.capability scope
        && is_active ts row
        && option_eq row.target_host host)
      rows)

unfoldable pub capability_candidates : Text → ℕ → List AccessRow → List AccessRow
capability_candidates agent_id ts rows = order_by expiry_le (
    filter
      (λ row.
        of_agent agent_id row && scope_eq row.capability capability_invoke && is_active ts row)
      rows)

unfoldable pub selects : AccessPayload → Text → Text → Text → Bool
selects payload vault item field = elim payload.target [
  | Target.selector v i f ↦ v == vault && i == item && f == field
  | Target.capability _ _ _ _ ↦ false
]

-- The version that the target of a payload names, if it is this capability at this method and path.
unfoldable pub invokes : AccessPayload → Text → Text → Text → Option Text
invokes payload id method path = elim payload.target [
  | Target.selector _ _ _ ↦ none
  | Target.capability c version m q ↦
      if c == id && m == method && q == path then some version else none
]

module _ ⦃p : Platform⦄ where
  -- `version_ok`, for a lease on a field: by the credential's version, or by what older releases
  -- bound a lease to. `content` is the item's payload, if the item is there.
  unfoldable pub version_ok : Text → AccessPayload → Text → ItemRow → ItemPayload → Result Bool
  version_ok root_key payload field row content =
      if truthy payload.approved_credential_version
      then (Errors.◌>>=◌ (extract_field content (some field)) λ secret. ok (
          or_else payload.approved_credential_version []
          == credential_version root_key row.id (some field) secret))
      else if truthy payload.approved_item_version
      then ok (or_else payload.approved_item_version [] == item_version root_key content)
      else ok (
          truthy payload.approved_item_fingerprint
          && or_else payload.approved_item_fingerprint [] == p.sha256 (dumps row.payload))

  -- The item behind an exact lease, if it still is what was approved.
  unfoldable pub exact_backing :
      AccessPayload → Text → Option ItemRow → Exec (Option (ItemRow × ItemPayload))
  unfolding version_ok
  exact_backing payload field none = pure none
  exact_backing payload field (some row) = do
    content ← item_payload row
    root_key ← gets (λ s. s.root_key)
    same ← lift (version_ok root_key payload field row content)
    pure (if same then some (row, content) else none)

  -- The item behind a capability lease, if its credential still is what was approved.
  unfoldable pub capability_backing :
      AccessPayload → Option Text → Option ItemRow → Exec (Option (ItemRow × ItemPayload))
  capability_backing payload field none = pure none
  capability_backing payload field (some row) = do
    content ← item_payload row
    secret ← lift (extract_field content field)
    root_key ← gets (λ s. s.root_key)
    let current = credential_version root_key row.id field secret
    pure (
        if truthy payload.approved_credential_version
          && or_else payload.approved_credential_version [] == current
        then some (row, content)
        else none)

  -- The end of a round: a lease whose backing has changed becomes stale; another is charged one
  -- use, by a conditional UPDATE. `none` goes on with the next candidate.
  unfoldable pub settle : AccessRow → Option (ItemRow × ItemPayload) → Exec (Option Claim)
  settle row none = do
    ts ← now
    update_requests (is_at row.id approved) (set_status stale ts)
    pure none
  settle row (some (item, content)) = do
    ts ← now
    count ← rowcount (claimable row.id ts)
    update_requests (claimable row.id ts) spend
    pure (
        if eqb count 1 then some (record { lease = row; item = item; content = content }) else none)

  -- One round of the loop of `_consume_exact_grant`.
  unfoldable pub try_exact : Text → Text → Text → AccessRow → Exec (Option Claim)
  unfolding exact_backing settle selects
  try_exact vault item field row = do
    s ← gets (λ s. s)
    payload ← lift (access_payload s.root_key row)
    if selects payload vault item field
        then (do
          backing ← exact_backing payload field (item_for row.item_id s.items)
          settle row backing)
        else pure none

  -- One round of the loop of `_consume_capability_grant`.
  unfoldable pub try_capability :
      CapabilityRow → Text → Text → Text → AccessRow → Exec (Option Claim)
  unfolding capability_backing settle invokes
  try_capability cap backing_uri method path row = do
    s ← gets (λ s. s)
    payload ← lift (access_payload s.root_key row)
    case_of (invokes payload cap.id method path) (pure none) λ version.
        if version == cap.version
        then (do
          ref ← lift (parse_pass_ref backing_uri)
          backing ← capability_backing payload ref.field (item_for row.item_id s.items)
          settle row backing)
        else settle row none

-- `for row in candidates`: the first round that claims ends the loop.
unfoldable pub first_claim :
    (AccessRow → Exec (Option Claim)) → List AccessRow → Exec (Option Claim)
first_claim try [] = pure none
first_claim try (row ∷ rows) = do
  claimed ← try row
  case_of claimed (first_claim try rows) (λ c. pure (some c))

module _ ⦃p : Platform⦄ where
  -- The host and the selector of `_consume_exact_grant`, checked.
  unfoldable pub check_exact :
      AgentRow → Scope → Text → Option Text → Result (PassRef × Option Text)
  check_exact agent scope uri host =
      Errors.◌>>◌ (raise_if (scope_missing agent scope) permission_denied) (
        Errors.◌>>=◌ (parse_pass_ref uri) λ ref.
          Errors.◌>>◌ (raise_if (not (truthy ref.field)) permission_denied) (
            if scope_eq scope secret_use
            then (if truthy host
                then (Errors.◌>>=◌ (normalize_host (or_else host []))
                    λ target. ok (ref, some target))
                else err permission_denied)
            else ok (ref, none)))

  unfoldable pub consume_exact_grant :
      AgentRow → Scope → Text → Option Text → Option Text → Exec (Claim × Text)
  unfolding try_exact first_claim exact_candidates check_exact
  consume_exact_grant agent scope uri host reason =
      if is_blank reason
      then (do
        audit (some agent.id) (on_use scope) none host reason false missing_reason
        raise permission_denied)
      else (do
        checked ← lift (check_exact agent scope uri host)
        let field = or_else checked.0.field []
        s ← gets (λ s. s)
        claimed ←
            first_claim (try_exact checked.0.vault checked.0.item field)
              (exact_candidates agent.id scope checked.1 s.clock s.access_requests)
        case_of claimed
            (do
              audit (some agent.id) (on_use scope) none checked.1 reason false no_active_grant
              raise permission_denied)
            (λ claim. pure (claim, field)))

  -- The capability, the definition, and the invocation that its contract allows.
  unfoldable pub check_capability_use :
      AgentRow → Text → Text → Text → Exec (CapabilityRow × Definition × Text × Text)
  check_capability_use agent capability_id method path = do
    check (scope_missing agent capability_invoke) permission_denied
    s ← gets (λ s. s)
    cap ←
        require (find (capability_has_id (capability_key capability_id)) s.capabilities)
          permission_denied
    definition ← lift (capability_payload s.root_key cap)
    invocation ← lift (validate_invocation definition method path)
    check (exceeds_ceiling agent definition.host) permission_denied
    pure (cap, definition, invocation.0, invocation.1)

  unfoldable pub consume_capability_grant :
      AgentRow → Text → Text → Text → Option Text → Exec CapabilityClaim
  unfolding try_capability first_claim capability_candidates check_capability_use
  consume_capability_grant agent capability_id method path reason =
      if is_blank reason
      then (do
        audit (some agent.id) (on_use capability_invoke) none none reason false missing_reason
        raise permission_denied)
      else (do
        allowed ← check_capability_use agent capability_id method path
        let (cap, definition, m, q) = allowed
        s ← gets (λ s. s)
        claimed ←
            first_claim (try_capability cap definition.backing_uri m q)
              (capability_candidates agent.id s.clock s.access_requests)
        case_of claimed
            (do
              audit (some agent.id) (on_use capability_invoke) none (some definition.host) reason
                  false (no_active_lease cap.id)
              raise permission_denied)
            λ claim. do
              ref ← lift (parse_pass_ref definition.backing_uri)
              pure (record {
                claim = claim;
                capability = cap;
                definition = definition;
                field = ref.field;
              }))
