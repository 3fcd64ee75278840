-- ===== src/Dispatch/Growth.antt =====
-- What the operations of a machine account, and all that only read, do to the tables.
use passd.Base.{find, [], Option, List, ◌∷◌}
use passd.Access.{access_status}
use passd.Exec.{Exec}
use passd.Platform.{Platform}
use passd.Access.Listing.{
  authorized_items, authorized_item, list_authorized_vaults, list_authorized_items, vault_names,
}
use passd.Agents.{authenticate_agent}
use passd.Broker.{verify_admin_password, invoke_capability, invoke_prepared, prepare_invocation}
use passd.Broker.Direct.{BrokerCall, reveal_for_agent, broker_for_agent, exchange_now, check_target}
use passd.Dispatch.Handle.{catalog, param, reply}
use passd.Capabilities.Store.{list_capabilities}
use passd.Dispatch.{Reply}
use passd.Text.{Text}
use passd.Exec.Moves.{Moves-lift, Moves-case_of, Moves-pure, Moves-gets, Moves-bind, Moves}
use passd.Db.{Service, AgentRow}
use passd.Http.{HttpRequest}
use passd.Access.Claim.{CapabilityClaim}
use passd.Access.Table.Operations.{lending_order, Lending, reading, lookups}
use passd.Access.Table.Claims.{consume_exact_grant-grows, consume_capability_grant-grows}
use passd.Vaults.{vault_has_id}
use passd.Sealing.{vault_payload}

module _ ⦃p : Platform⦄ {R : Service → Service → Type 0} ⦃l : Lending R⦄ where
  pub authenticate_agent-grows : (token : Option Text) → Moves R (authenticate_agent token)
  unfolding authenticate_agent
  authenticate_agent-grows token = search reading depth 30

  pub verify_admin_password-grows :
      (password : Option Text) → Moves R (verify_admin_password password)
  unfolding verify_admin_password
  verify_admin_password-grows password = search reading depth 30

  vault_names-grows : (ids : List Text) → Moves R (vault_names ids)
  unfolding vault_names
  vault_names-grows [] = search reading depth 30
  vault_names-grows (id ∷ ids) = Moves-bind lending_order _ _ (Moves-gets lending_order _) λ s.
      Moves-case_of lending_order (find (vault_has_id id) s.vaults) _ _ (vault_names-grows ids)
        λ row.
          Moves-bind lending_order _ _ (Moves-lift lending_order (vault_payload s.root_key row))
            λ payload.
              Moves-bind lending_order _ _ (vault_names-grows ids)
                λ names. Moves-pure lending_order _

  pub list_authorized_vaults-grows : (agent : AgentRow) → Moves R (list_authorized_vaults agent)
  unfolding list_authorized_vaults
  list_authorized_vaults-grows agent = search (reading, vault_names-grows) depth 30

  authorized_item-grows : (vault id : Text) → Moves R (authorized_item vault id)
  unfolding authorized_item
  authorized_item-grows vault id = search reading depth 30

  authorized_items-grows : (vault : Text) (ids : List Text) → Moves R (authorized_items vault ids)
  unfolding authorized_items
  authorized_items-grows vault [] = search reading depth 30
  authorized_items-grows vault (id ∷ ids) =
      Moves-bind lending_order _ _ (authorized_item-grows vault id) λ found.
        Moves-bind lending_order _ _ (authorized_items-grows vault ids)
          λ rest. Moves-pure lending_order _

  pub list_authorized_items-grows :
      (agent : AgentRow) (vault : Text) → Moves R (list_authorized_items agent vault)
  unfolding list_authorized_items
  list_authorized_items-grows agent vault = search (reading, authorized_items-grows) depth 30

  pub list_capabilities-grows : Moves R list_capabilities
  unfolding list_capabilities
  list_capabilities-grows = search reading depth 30

  pub access_status-grows :
      (agent : AgentRow) (request : Option Text) → Moves R (access_status agent request)
  unfolding access_status
  access_status-grows agent request = search lookups depth 30

  pub reveal_for_agent-grows :
      (uri : Text) (token reason : Option Text) → Moves R (reveal_for_agent uri token reason)
  unfolding reveal_for_agent
  reveal_for_agent-grows uri token reason =
      search (lookups, authenticate_agent-grows, consume_exact_grant-grows) depth 40

  pub check_target-grows : (agent : Option AgentRow) (url : Text) → Moves R (check_target agent url)
  unfolding check_target
  check_target-grows agent url = search reading depth 30

  pub exchange_now-grows :
      (request : HttpRequest) (secret : Text) → Moves R (exchange_now request secret)
  unfolding exchange_now
  exchange_now-grows request secret = search reading depth 30

  pub broker_for_agent-grows :
      (call : BrokerCall) (token reason : Option Text)
      → Moves R (broker_for_agent call token reason)
  unfolding broker_for_agent
  broker_for_agent-grows call token reason =
      search
        (
          lookups, authenticate_agent-grows, consume_exact_grant-grows, check_target-grows,
          exchange_now-grows,
        )
        depth 40

  prepare_invocation-grows :
      (agent : AgentRow) (id method path : Text) (body reason : Option Text)
      → Moves R (prepare_invocation agent id method path body reason)
  unfolding prepare_invocation
  prepare_invocation-grows agent id method path body reason =
      search (reading, consume_capability_grant-grows) depth 40

  invoke_prepared-grows :
      (agent : AgentRow) (reason : Option Text) (c : CapabilityClaim) (request : HttpRequest)
      (secret method path : Text)
      → Moves R (invoke_prepared agent reason c request secret method path)
  unfolding invoke_prepared
  invoke_prepared-grows agent reason c request secret method path = search reading depth 40

  pub invoke_capability-grows :
      (id method path : Text) (body token reason : Option Text)
      → Moves R (invoke_capability id method path body token reason)
  unfolding invoke_capability
  invoke_capability-grows id method path body token reason =
      search (reading, authenticate_agent-grows, prepare_invocation-grows, invoke_prepared-grows)
        depth 40

  pub param-grows : (value : Option Text) → Moves R (param value)
  unfolding param
  param-grows value = search reading depth 30

  pub reply-grows :
      {A : Type 0} (shown : A → Reply) (action : Exec A)
      → Moves R action
      → Moves R (reply shown action)
  unfolding reply
  reply-grows shown action grows = search reading depth 30

  pub catalog-grows : (agent : AgentRow) → Moves R (catalog agent)
  unfolding catalog
  catalog-grows agent = search (reading, reply-grows, list_capabilities-grows) depth 30
