-- ===== src/Access/Table/Claims.antt =====
-- The table of requests under the operations of Claim.
use passd.Base.{[], ◌∷◌, none, some, List, Option}
use passd.Text.{Text}
use passd.Platform.{Platform}
use passd.Db.{Service, CapabilityRow, ItemRow, AccessRow, AgentRow}
use passd.Exec.{Exec}
use passd.Exec.Moves.{Moves, Moves-bind, Moves-case_of, Moves-pure}
use passd.Access.Claim.{
  try_capability, check_capability_use, exact_backing, consume_capability_grant, try_exact,
  capability_backing, consume_exact_grant, Claim, settle, first_claim,
}
use passd.Access.Table.Operations.{lending_order, Lending, writes}
use passd.Payload.{AccessPayload, Scope, ItemPayload}

module _ ⦃p : Platform⦄ {R : Service → Service → Type 0} ⦃l : Lending R⦄ where
  settle-grows :
      (row : AccessRow) (backing : Option (ItemRow × ItemPayload)) → Moves R (settle row backing)
  unfolding settle
  settle-grows row none = search writes depth 40
  settle-grows row (some (item, content)) = search writes depth 40

  exact_backing-grows :
      (payload : AccessPayload) (field : Text) (item : Option ItemRow)
      → Moves R (exact_backing payload field item)
  unfolding exact_backing
  exact_backing-grows payload field none = search writes depth 40
  exact_backing-grows payload field (some row) = search writes depth 40

  capability_backing-grows :
      (payload : AccessPayload) (field : Option Text) (item : Option ItemRow)
      → Moves R (capability_backing payload field item)
  unfolding capability_backing
  capability_backing-grows payload field none = search writes depth 40
  capability_backing-grows payload field (some row) = search writes depth 40

ruleset rounds = (writes, settle-grows, exact_backing-grows, capability_backing-grows)

first_claim-grows :
    {R : Service → Service → Type 0} ⦃l : Lending R⦄ (try : AccessRow → Exec (Option Claim))
    (rows : List AccessRow)
    → ((row : AccessRow) → Moves R (try row))
    → Moves R (first_claim try rows)
unfolding first_claim
first_claim-grows try [] h = Moves-pure lending_order none
first_claim-grows try (row ∷ rows) h = Moves-bind lending_order (try row) _ (h row) λ claimed.
    Moves-case_of lending_order claimed _ _ (first_claim-grows try rows h)
      λ c. Moves-pure lending_order (some c)

module _ ⦃p : Platform⦄ {R : Service → Service → Type 0} ⦃l : Lending R⦄ where
  pub try_exact-grows :
      (vault item field : Text) (row : AccessRow) → Moves R (try_exact vault item field row)
  unfolding try_exact
  try_exact-grows vault item field row = search rounds depth 40

  pub try_capability-grows :
      (cap : CapabilityRow) (uri method path : Text) (row : AccessRow)
      → Moves R (try_capability cap uri method path row)
  unfolding try_capability
  try_capability-grows cap uri method path row = search rounds depth 40

  check_capability_use-grows :
      (agent : AgentRow) (id method path : Text)
      → Moves R (check_capability_use agent id method path)
  unfolding check_capability_use
  check_capability_use-grows agent id method path = search writes depth 40

  pub consume_exact_grant-grows :
      (agent : AgentRow) (scope : Scope) (uri : Text) (host reason : Option Text)
      → Moves R (consume_exact_grant agent scope uri host reason)
  unfolding consume_exact_grant
  consume_exact_grant-grows agent scope uri host reason =
      search (writes, first_claim-grows, try_exact-grows) depth 40

  pub consume_capability_grant-grows :
      (agent : AgentRow) (id method path : Text) (reason : Option Text)
      → Moves R (consume_capability_grant agent id method path reason)
  unfolding consume_capability_grant
  consume_capability_grant-grows agent id method path reason =
      search (writes, first_claim-grows, try_capability-grows, check_capability_use-grows) depth 40
