-- ===== src/Access/Filing.antt =====
-- What `request_access` and `request_capability` check before they look at the table of requests.
use passd.Base.{
  length, not, some, [], ◌||◌, eqb, none, false, or_else, ◌&&◌, ltb, ℕ, if◌then◌else◌, Bool, Option,
}
use passd.Text.{strip, ◌==◌, Text, codes}
use passd.Platform.{Platform}
use passd.Payload.{
  secret_reveal, secret_use, capability_invoke, access_request, capability_request, AccessPayload,
  Target, Scope, Definition,
}
use passd.Db.{AgentRow, CapabilityRow}
use passd.Errors.{err, validation_error, ok, permission_denied, raise_if, Result, ◌>>=◌, ◌>>◌}
use passd.Access.{
  max_access_uses, max_reason_length, max_access_ttl, option_eq, exceeds_ceiling, scope_missing,
  is_blank,
}
use passd.Vaults.{truthy}
use passd.Capabilities.{validate_invocation}
use passd.Hosts.{normalize_host}
use passd.Refs.{parse_pass_ref}

abbrev same_target : Target → Target → Bool
same_target (Target.selector v i f) (Target.selector v' i' f') = v == v' && i == i' && f == f'
same_target (Target.capability c n m q) (Target.capability c' n' m' q') =
    c == c' && n == n' && m == m' && q == q'
same_target _ _ = false

-- `==` of two payloads
unfoldable pub same_payload : AccessPayload → AccessPayload → Bool
same_payload a b =
    same_target a.target b.target
    && a.reason == b.reason
    && eqb a.requested_ttl b.requested_ttl
    && eqb a.requested_uses b.requested_uses
    && option_eq a.authority_digest b.authority_digest
    && option_eq a.approved_credential_version b.approved_credential_version
    && option_eq a.approved_capability_version b.approved_capability_version
    && option_eq a.approved_item_version b.approved_item_version
    && option_eq a.approved_item_fingerprint b.approved_item_fingerprint
    && option_eq a.decision_note b.decision_note
    && option_eq a.approval_digest b.approval_digest

-- A payload that a request writes: nothing is approved yet.
abbrev pub new_payload : Target → Text → ℕ → ℕ → AccessPayload
new_payload target reason ttl uses = record {
  target = target;
  reason = strip reason;
  requested_ttl = ttl;
  requested_uses = uses;
  authority_digest = none;
  approved_credential_version = none;
  approved_capability_version = none;
  approved_item_version = none;
  approved_item_fingerprint = none;
  decision_note = none;
  approval_digest = none;
}

-- A request that has passed its checks: what it asks for, the host, and the payload without digest.
pub record Filing : Type 0 where
  pub capability : Scope
  pub target_host : Option Text
  pub payload : AccessPayload

-- The reason, and the lifetime with the budget, which both kinds of request check alike.
unfoldable pub check_reason : Option Text → Result Text
check_reason reason = do
  raise_if (is_blank reason) permission_denied
  let text = or_else reason []
  raise_if (ltb max_reason_length (length text)) validation_error
  ok text

unfoldable pub check_budget : ℕ → ℕ → Result (Unit {0})
check_budget ttl uses = do
  raise_if (ltb ttl 60 || ltb max_access_ttl ttl) validation_error
  raise_if (ltb uses 1 || ltb max_access_uses uses) validation_error
  ok tt

-- What `capability` may be in `request_access`.
unfoldable pub exact_scope : Text → Result Scope
exact_scope t =
    if t == codes "secret.use"
    then ok secret_use
    else if t == codes "secret.reveal"
    then ok secret_reveal
    else err validation_error

module _ ⦃p : Platform⦄ where
  -- The host, which only `secret.use` takes.
  unfoldable pub check_host : AgentRow → Scope → Option Text → Result (Option Text)
  check_host agent secret_use host =
      if truthy host
      then (do
        target_host ← normalize_host (or_else host [])
        raise_if (exceeds_ceiling agent target_host) permission_denied
        ok (some target_host))
      else err validation_error
  check_host agent _ host = if truthy host then err validation_error else ok host

  -- The checks of `request_access`, in its order.
  unfoldable pub validate_access :
      AgentRow → Text → Text → Option Text → Option Text → ℕ → ℕ → Result Filing
  unfolding check_host check_reason check_budget exact_scope
  validate_access agent uri capability host reason ttl uses = do
    raise_if (scope_missing agent access_request) permission_denied
    scope ← exact_scope capability
    raise_if (scope_missing agent scope) permission_denied
    text ← check_reason reason
    ref ← parse_pass_ref uri
    raise_if (not (truthy ref.field)) validation_error
    check_budget ttl uses
    target_host ← check_host agent scope host
    ok (record {
      capability = scope;
      target_host = target_host;
      payload =
          new_payload (Target.selector ref.vault ref.item (or_else ref.field [])) text ttl uses;
    })

  -- The checks of `request_capability`, up to the capability that it names; then the rest.
  unfoldable pub validate_capability_terms : AgentRow → Option Text → ℕ → ℕ → Result Text
  unfolding check_reason check_budget
  validate_capability_terms agent reason ttl uses = do
    raise_if (scope_missing agent capability_request) permission_denied
    raise_if (scope_missing agent capability_invoke) permission_denied
    text ← check_reason reason
    check_budget ttl uses
    ok text

  unfoldable pub validate_capability :
      AgentRow → CapabilityRow → Definition → Text → Text → Text → ℕ → ℕ → Result Filing
  validate_capability agent row definition raw_method raw_path reason ttl uses = do
    invocation ← validate_invocation definition raw_method raw_path
    raise_if (exceeds_ceiling agent definition.host) permission_denied
    ok (record {
      capability = capability_invoke;
      target_host = some definition.host;
      payload =
          new_payload (Target.capability row.id row.version invocation.0 invocation.1) reason ttl
            uses;
    })
