-- ===== src/Access/Soundness/Invocation.antt =====
-- The whole of `_consume_capability_grant`: what holds when it returns.
use passd.Access.Table.Operations.{table_lending}
use passd.Capabilities.{validate_invocation}
use passd.Text.{◌==◌, Text}
use passd.Platform.{Platform}
use passd.Access.Claim.{
  first_claim, try_capability, CapabilityClaim, consume_capability_grant, check_capability_use,
  capability_candidates,
}
use passd.Db.{CapabilityRow, AccessRow, Service, AgentRow}
use passd.Base.{
  ◌∙◌, some, find, arith, true, All-filter, false, Among, All-order_by, ◌≡◌, All, Option,
}
use passd.Exec.{◌>>=◌}
use passd.Access.{exceeds_ceiling, is_active, is_blank, expiry_le, of_agent, scope_missing}
use passd.Access.Soundness.{Round, first_claim_ok}
use passd.Errors.{permission_denied, ok}
use passd.Payload.{Definition, capability_invoke}
use passd.Access.Table.Claims.{try_capability-grows}
use passd.Exec.Laws.{pure_ok, lift_ok, case_ok, gets_ok, bind_ok, else_ok}
use passd.Agents.{scope_eq}
use passd.Capabilities.Store.{capability_key, capability_has_id}
use passd.Sealing.{capability_payload}
use passd.Refs.{parse_pass_ref}
use passd.Access.Soundness.Capability.{try_capability_ok, CapabilityRound}
use passd.Access.Table.{TableGrows}
use mathlib.Core.Path.{subst}

-- The conditions of the query, on a row that it returns.
abbrev CapabilityCandidate : Text → Service → AccessRow → Type 0
CapabilityCandidate agent_id s row =
    Among row s.access_requests
    × (of_agent agent_id row ≡ true)
    × (scope_eq row.capability capability_invoke ≡ true)
    × (is_active s.clock row ≡ true)

capability_candidates_ok :
    (agent_id : Text) (s : Service)
    → All
        (CapabilityCandidate agent_id s)
        (capability_candidates agent_id s.clock s.access_requests)
unfolding capability_candidates
capability_candidates_ok agent_id s =
    All-order_by _ expiry_le _
      (All-filter _ _ s.access_requests λ x m t. (m, ground arith, ground arith, ground arith))

module _ ⦃p : Platform⦄ where
  -- What `check_capability_use` has found: a registered capability, and an invocation that its
  -- contract allows, below the agent's ceiling of hosts.
  pub record IsAllowed (agent : AgentRow) (id raw_method raw_path : Text) (s : Service)
      (cap_row : CapabilityRow) (definition : Definition) (method path : Text) : Type 0 where
    pub scope_held : scope_missing agent capability_invoke ≡ false
    pub registered : find (capability_has_id (capability_key id)) s.capabilities ≡ some cap_row
    pub opened : capability_payload s.root_key cap_row ≡ ok definition
    pub invocation : validate_invocation definition raw_method raw_path ≡ ok (method, path)
    pub below_ceiling : exceeds_ceiling agent definition.host ≡ false

  -- What a successful `_consume_capability_grant` has established. `round` is the state in which
  -- the lease was charged.
  pub record CapabilityGrant (agent : AgentRow) (id raw_method raw_path : Text)
      (c : CapabilityClaim) (s s' : Service) : Type 0 where
    pub method : Text
    pub path : Text
    pub round : Service
    pub allowed : IsAllowed agent id raw_method raw_path s c.capability c.definition method path
    pub lease : Among c.claim.lease s.access_requests
    pub own : (c.claim.lease.agent_id == agent.id) ≡ true
    pub scope_is : scope_eq c.claim.lease.capability capability_invoke ≡ true
    pub active : is_active s.clock c.claim.lease ≡ true
    pub before : TableGrows s round
    pub verified :
        CapabilityRound c.capability c.definition.backing_uri method path c.claim round s'

  check_capability_use_ok :
      (agent : AgentRow) (id raw_method raw_path : Text) (cap_row : CapabilityRow)
      (definition : Definition) (method path : Text) (s t : Service)
      → check_capability_use agent id raw_method raw_path s
        ≡ (ok (cap_row, definition, method, path), t)
      → (t ≡ s) × IsAllowed agent id raw_method raw_path s cap_row definition method path
  unfolding check_capability_use ◌>>=◌
  check_capability_use_ok agent id raw_method raw_path cap_row definition method path s t h =
      ground arith

  -- What a successful call ran: its checks, and the loop.
  abbrev RanCapability :
      AgentRow → (id raw_method raw_path : Text) → (s s' : Service) → CapabilityClaim → Type 0
  RanCapability agent id raw_method raw_path s s' c =
      (method : Text) × (path : Text) × IsAllowed agent id raw_method raw_path s c.capability
        c.definition method path
      × (first_claim (try_capability c.capability c.definition.backing_uri method path)
            (capability_candidates agent.id s.clock s.access_requests) s
          ≡ (ok (some c.claim), s'))

  ran_capability :
      (agent : AgentRow) (id raw_method raw_path : Text) (reason : Option Text)
      (c : CapabilityClaim) (s s' : Service)
      → consume_capability_grant agent id raw_method raw_path reason s ≡ (ok c, s')
      → RanCapability agent id raw_method raw_path s s' c
  unfolding consume_capability_grant
  ran_capability agent id raw_method raw_path reason c s s' h =
      let started = (else_ok (is_blank reason) _ permission_denied _ s h).1 in
      let (allowed, t, h1, h2) =
        bind_ok (check_capability_use agent id raw_method raw_path) _ s started in
      let (same, facts) =
        check_capability_use_ok agent id raw_method raw_path allowed.0 allowed.1 allowed.2 allowed.3
          s t h1 in
      let (claimed, u, h3, h4) = bind_ok _ _ t (gets_ok _ _ t h2) in
      let (claim, e_claimed, h5) = case_ok claimed _ permission_denied _ u h4 in
      let (ref, e_ref, h6) = lift_ok (parse_pass_ref allowed.1.backing_uri) _ u h5 in
      let (e_result, e_state) = pure_ok _ u h6 in
      subst (RanCapability agent id raw_method raw_path s s') e_result (
        allowed.2,
        allowed.3,
        facts,
        subst
            (λ x.
              first_claim (try_capability allowed.0 allowed.1.backing_uri allowed.2 allowed.3)
                (capability_candidates agent.id x.clock x.access_requests) x
              ≡ (ok (some claim), s'))
            same (h3 ∙ cc (e_claimed, e_state)),
      )

  module _ (agent : AgentRow) (id raw_method raw_path : Text) (c : CapabilityClaim)
      (s s' : Service) where
    CapabilityGrant-settled :
        (method path : Text)
        → IsAllowed agent id raw_method raw_path s c.capability c.definition method path
        → Round
            (try_capability c.capability c.definition.backing_uri method path)
            (CapabilityCandidate agent.id s)
            c.claim
            s
            s'
        → CapabilityGrant agent id raw_method raw_path c s s'
    CapabilityGrant-settled method path allowed
          (row, round, (lease, own, scope_is, active), before, tried) =
        verified (
          try_capability_ok c.capability c.definition.backing_uri method path row c.claim round s'
            tried)
      where
        verified :
            (c.claim.lease ≡ row)
              × CapabilityRound c.capability c.definition.backing_uri method path c.claim round s'
            → CapabilityGrant agent id raw_method raw_path c s s'
        verified (same, r) = record {
          method = method;
          path = path;
          round = round;
          allowed = allowed;
          lease = rw same lease;
          own = rw same own;
          scope_is = rw same scope_is;
          active = rw same active;
          before = before;
          verified = r;
        }

    from_capability_loop :
        RanCapability agent id raw_method raw_path s s' c
        → CapabilityGrant agent id raw_method raw_path c s s'
    from_capability_loop (method, path, facts, looped) = CapabilityGrant-settled method path facts (
        first_claim_ok (try_capability c.capability c.definition.backing_uri method path)
          (CapabilityCandidate agent.id s) c.claim s'
          (try_capability-grows c.capability c.definition.backing_uri method path)
          (capability_candidates agent.id s.clock s.access_requests) s
          (capability_candidates_ok agent.id s) looped)

  -- A capability claim that returns has charged one use of one lease: the agent's own, approved,
  -- unexpired and with budget left at the clock's time, for this capability at its present version,
  -- and for the method and path that the capability's own contract allows; the credential that the
  -- contract names still has the version that was approved.
  pub consume_capability_sound :
      (agent : AgentRow) (id raw_method raw_path : Text) (reason : Option Text)
      (c : CapabilityClaim) (s s' : Service)
      → consume_capability_grant agent id raw_method raw_path reason s ≡ (ok c, s')
      → CapabilityGrant agent id raw_method raw_path c s s'
  consume_capability_sound agent id raw_method raw_path reason c s s' h =
      from_capability_loop agent id raw_method raw_path c s s'
        (ran_capability agent id raw_method raw_path reason c s s' h)
