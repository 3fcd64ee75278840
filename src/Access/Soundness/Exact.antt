-- ===== src/Access/Soundness/Exact.antt =====
-- The whole of `_consume_exact_grant`: what holds when it returns.
use passd.Access.Table.Operations.{table_lending}
use passd.Base.{
  some, ◌∙◌, ap, [], arith, All-filter, or_else, true, ◌≡◌, All-order_by, All, Among, Option,
}
use passd.Text.{◌==◌, Text}
use passd.Platform.{Platform}
use passd.Db.{Service, AccessRow, AgentRow}
use passd.Access.Soundness.{Round, try_exact_ok, first_claim_ok, ExactRound}
use passd.Access.Claim.{
  first_claim, try_exact, check_exact, Claim, exact_candidates, consume_exact_grant,
}
use passd.Payload.{Scope}
use passd.Refs.{PassRef}
use passd.Access.{option_eq, is_blank, is_active, expiry_le, of_agent}
use passd.Errors.{permission_denied, ok}
use passd.Agents.{scope_eq}
use passd.Exec.Laws.{pure_ok, case_ok, gets_ok, bind_ok, lift_ok, else_ok}
use passd.Access.Table.{TableGrows}
use passd.Access.Table.Claims.{try_exact-grows}
use mathlib.Core.Path.{subst}

-- What a successful `_consume_exact_grant` has established. `round` is the state in which the lease
-- was charged: other candidates may have been found stale before.
pub record ExactGrant ⦃p : Platform⦄ (agent : AgentRow) (scope : Scope) (uri : Text)
    (host : Option Text) (c : Claim) (field : Text) (s s' : Service) : Type 0 where
  pub ref : PassRef
  pub target_host : Option Text
  pub round : Service
  pub checked : check_exact agent scope uri host ≡ ok (ref, target_host)
  pub field_is : or_else ref.field [] ≡ field
  pub lease : Among c.lease s.access_requests
  pub own : (c.lease.agent_id == agent.id) ≡ true
  pub scope_is : scope_eq c.lease.capability scope ≡ true
  pub active : is_active s.clock c.lease ≡ true
  pub host_is : option_eq c.lease.target_host target_host ≡ true
  pub before : TableGrows s round
  pub verified : ExactRound ref.vault ref.item field c round s'

-- The conditions of the query, on a row that it returns.
abbrev ExactCandidate : Text → Scope → Option Text → Service → AccessRow → Type 0
ExactCandidate agent_id scope host s row =
    Among row s.access_requests
    × (of_agent agent_id row ≡ true)
    × (scope_eq row.capability scope ≡ true)
    × (is_active s.clock row ≡ true)
    × (option_eq row.target_host host ≡ true)

exact_candidates_ok :
    (agent_id : Text) (scope : Scope) (host : Option Text) (s : Service)
    → All
        (ExactCandidate agent_id scope host s)
        (exact_candidates agent_id scope host s.clock s.access_requests)
unfolding exact_candidates
exact_candidates_ok agent_id scope host s = All-order_by _ expiry_le _ (
    All-filter _ _ s.access_requests
      λ x m t. (m, ground arith, ground arith, ground arith, ground arith))

module _ ⦃p : Platform⦄ where
  -- The loop that a successful call ran, and what it returned.
  abbrev Ran : AgentRow → Scope → Text → Option Text → Claim → Text → (s s' : Service) → Type 0
  Ran agent scope uri host c field s s' =
      (checked : PassRef × Option Text) × (check_exact agent scope uri host ≡ ok checked)
      × (or_else checked.0.field [] ≡ field)
      × (first_claim (try_exact checked.0.vault checked.0.item field)
            (exact_candidates agent.id scope checked.1 s.clock s.access_requests) s
          ≡ (ok (some c), s'))

  ran :
      (agent : AgentRow) (scope : Scope) (uri : Text) (host reason : Option Text) (c : Claim)
      (field : Text) (s s' : Service)
      → consume_exact_grant agent scope uri host reason s ≡ (ok (c, field), s')
      → Ran agent scope uri host c field s s'
  unfolding consume_exact_grant
  ran agent scope uri host reason c field s s' h =
      let started = (else_ok (is_blank reason) _ permission_denied _ s h).1 in
      let (checked, ok_checked, h1) = lift_ok (check_exact agent scope uri host) _ s started in
      let (claimed, t, h2, h3) = bind_ok _ _ s (gets_ok _ _ s h1) in
      let (found, e_claimed, h4) = case_ok claimed _ permission_denied _ t h3 in
      let (e_result, e_state) = pure_ok (found, or_else checked.0.field []) t h4 in
      let e_found : found ≡ c = ap (λ r. r.0) e_result in
      let e_field : or_else checked.0.field [] ≡ field = ap (λ r. r.1) e_result in
      (
        checked,
        ok_checked,
        e_field,
        subst
            (λ f.
              first_claim (try_exact checked.0.vault checked.0.item f)
                (exact_candidates agent.id scope checked.1 s.clock s.access_requests) s
              ≡ (ok (some c), s'))
            e_field (h2 ∙ cc (e_claimed, e_found, e_state)),
      )

  module _ (agent : AgentRow) (scope : Scope) (uri : Text) (host : Option Text) (c : Claim)
      (field : Text) (s s' : Service) where
    ExactGrant-settled :
        (checked : PassRef × Option Text)
        → check_exact agent scope uri host ≡ ok checked
        → or_else checked.0.field [] ≡ field
        → Round
            (try_exact checked.0.vault checked.0.item field)
            (ExactCandidate agent.id scope checked.1 s)
            c
            s
            s'
        → ExactGrant agent scope uri host c field s s'
    ExactGrant-settled checked e1 e2
          (row, round, (lease, own, scope_is, active, host_is), before, tried) =
        verified (try_exact_ok checked.0.vault checked.0.item field row c round s' tried)
      where
        verified :
            (c.lease ≡ row) × ExactRound checked.0.vault checked.0.item field c round s'
            → ExactGrant agent scope uri host c field s s'
        verified (same, r) = record {
          ref = checked.0;
          target_host = checked.1;
          round = round;
          checked = e1;
          field_is = e2;
          lease = rw same lease;
          own = rw same own;
          scope_is = rw same scope_is;
          active = rw same active;
          host_is = rw same host_is;
          before = before;
          verified = r;
        }

    from_loop : Ran agent scope uri host c field s s' → ExactGrant agent scope uri host c field s s'
    from_loop (checked, e1, e2, e3) = ExactGrant-settled checked e1 e2 (
        first_claim_ok (try_exact checked.0.vault checked.0.item field)
          (ExactCandidate agent.id scope checked.1 s) c s'
          (try_exact-grows checked.0.vault checked.0.item field)
          (exact_candidates agent.id scope checked.1 s.clock s.access_requests) s
          (exact_candidates_ok agent.id scope checked.1 s) e3)

  pub consume_exact_sound :
      (agent : AgentRow) (scope : Scope) (uri : Text) (host reason : Option Text) (c : Claim)
      (field : Text) (s s' : Service)
      → consume_exact_grant agent scope uri host reason s ≡ (ok (c, field), s')
      → ExactGrant agent scope uri host c field s s'
  consume_exact_sound agent scope uri host reason c field s s' h =
      from_loop agent scope uri host c field s s' (ran agent scope uri host reason c field s s' h)
