-- ===== src/Dispatch/Reads.antt =====
-- What the operations that only read do to the table of access requests, and the use of a secret or
-- a lease, by whoever calls.
use passd.Access.Table.Operations.{table_lending}
use passd.Base.{[], ℕ, List, Option, ◌∷◌}
use passd.Platform.{Platform}
use passd.Items.{list_items, summaries}
use passd.Agents.{list_agents}
use passd.Vaults.{list_vaults}
use passd.Audit.{list_audit}
use passd.Broker.Direct.{
  BrokerCall, reveal_for_admin, broker_for_admin, read_item, reveal_secret, broker_http,
}
use passd.Capabilities.Store.{get_capability}
use passd.Access.Listing.{pending_access}
use passd.Text.{Text}
use passd.Exec.Moves.{Moves-pure, Moves-bind, Moves}
use passd.Access.Table.{table_order, TableGrows}
use passd.Db.{ItemRow}
use passd.Access.Table.Operations.{item_payload-grows, find_vault-grows, reading, lookups}
use passd.Dispatch.Growth.{
  exchange_now-grows, check_target-grows, broker_for_agent-grows, reveal_for_agent-grows,
  verify_admin_password-grows,
}

module _ ⦃p : Platform⦄ where
  summaries-grows : (rows : List ItemRow) → Moves TableGrows (summaries rows)
  unfolding summaries
  summaries-grows [] = search reading depth 30
  summaries-grows (row ∷ rows) =
      Moves-bind table_order _ _ (item_payload-grows row) λ payload.
        Moves-bind table_order _ _ (summaries-grows rows) λ rest. Moves-pure table_order _

  pub list_vaults-grows : Moves TableGrows list_vaults
  unfolding list_vaults
  list_vaults-grows = search reading depth 30

  pub list_items-grows : (vault : Text) → Moves TableGrows (list_items vault)
  unfolding list_items
  list_items-grows vault = search (reading, find_vault-grows, summaries-grows) depth 30

  pub get_capability-grows : (id : Text) → Moves TableGrows (get_capability id)
  unfolding get_capability
  get_capability-grows id = search lookups depth 30

  pub list_agents-grows : Moves TableGrows list_agents
  unfolding list_agents
  list_agents-grows = search reading depth 30

  pub pending_access-grows :
      (status : Option Text) (limit : ℕ) → Moves TableGrows (pending_access status limit)
  unfolding pending_access
  pending_access-grows status limit = search reading depth 30

  pub list_audit-grows :
      (agent : Option Text) (limit : ℕ) → Moves TableGrows (list_audit agent limit)
  unfolding list_audit
  list_audit-grows agent limit = search reading depth 30

  read_item-grows : (uri : Text) → Moves TableGrows (read_item uri)
  unfolding read_item
  read_item-grows uri = search lookups depth 30

  pub reveal_secret-grows :
      (uri : Text) (token password reason : Option Text)
      → Moves TableGrows (reveal_secret uri token password reason)
  unfolding reveal_secret reveal_for_admin
  reveal_secret-grows uri token password reason =
      search (reading, reveal_for_agent-grows, verify_admin_password-grows, read_item-grows) depth
        40

  pub broker_http-grows :
      (call : BrokerCall) (token password reason : Option Text)
      → Moves TableGrows (broker_http call token password reason)
  unfolding broker_http broker_for_admin
  broker_http-grows call token password reason =
      search
        (
          reading, broker_for_agent-grows, verify_admin_password-grows, read_item-grows,
          check_target-grows, exchange_now-grows,
        )
        depth 40
