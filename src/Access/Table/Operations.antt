-- ===== src/Access/Table/Operations.antt =====
-- The table of requests under the operations of Request and Review.
use passd.Base.{[], ◌∷◌, ◌++◌, List, refl, ℕ, Bool, Option}
use passd.Text.{Text}
use passd.Platform.{Platform}
use passd.Db.{AuditRow, Service, AgentRow, stale, pending, approved, ItemRow, AccessRow}
use passd.Payload.{Target, AccessPayload, Detail, Operation}
use passd.Exec.{modify, ◌>>=◌}
use passd.Exec.Moves.{Order, Moves-pure, Moves-bind, Moves, moves_rules, Moves-modify}
use passd.Access.Table.{changed, IsNew, Grows-refl, TableGrows, table_order}
use passd.Access.Review.{
  Bound, grant, check_capability, bind_capability, bind_selector, deny_access, revoke_access,
  approve_access, bind_to, item_credential_version, update_requests, set_status, is_at,
}
use passd.Audit.{audit}
use passd.Sealing.{item_payload}
use passd.Crypto.{Envelope}
use passd.Access.Claim.{spend, claimable}
use passd.Access.{show_request, get_access_request}
use passd.Access.Filing.{Filing}
use passd.Capabilities.Store.{get_capability_row}
use passd.Items.{find_item, resolve_item_ref, titled_items}
use passd.Access.Request.{
  request_access, request_capability, new_request, insert_request, file_request,
}
use passd.Vaults.{find_vault}
use passd.Access.Table.Steps.{drops, expires, spends, files, revoke-grows, grant-grows, deny-grows}

-- A relation that what a machine account does can only extend: audit rows and draws, a request that
-- is filed, and a lease that is used, or found stale.
pub record Lending (R : Service → Service → Type 0) : Type 0 where
  pub order : Order R
  pub logs :
      (s : Service) (rows : List AuditRow) (n : ℕ) → R s (record s { audits = rows; drawn = n })
  pub drops :
      (id : Text) (ts : ℕ) → Moves R (update_requests (is_at id pending) (set_status stale ts))
  pub expires :
      (id : Text) (ts : ℕ) → Moves R (update_requests (is_at id approved) (set_status stale ts))
  pub spends : (id : Text) (ts : ℕ) → Moves R (update_requests (claimable id ts) spend)
  pub files :
      (row : AccessRow)
      → IsNew row
      → Moves R (modify (λ s. record s { access_requests = s.access_requests ++ row ∷ [] }))

instance pub table_lending : Lending TableGrows
table_lending = record {
  order = table_order;
  logs = λ s rows n. changed s s.access_requests rows n (Grows-refl s.access_requests);
  drops = drops;
  expires = expires;
  spends = spends;
  files = files;
}

module _ {R : Service → Service → Type 0} ⦃l : Lending R⦄ where
  pub lending_order : Order R
  lending_order = l.order

  pub drop-grows :
      (id : Text) (ts : ℕ) → Moves R (update_requests (is_at id pending) (set_status stale ts))
  drop-grows = l.drops

  pub expire-grows :
      (id : Text) (ts : ℕ) → Moves R (update_requests (is_at id approved) (set_status stale ts))
  expire-grows = l.expires

  pub spend-grows : (id : Text) (ts : ℕ) → Moves R (update_requests (claimable id ts) spend)
  spend-grows = l.spends

  insert-grows :
      (row : AccessRow)
      → IsNew row
      → Moves R (modify (λ s. record s { access_requests = s.access_requests ++ row ∷ [] }))
  insert-grows = l.files

module _ ⦃p : Platform⦄ where
  new_request-IsNew :
      (id agent_id : Text) (filing : Filing) (sealed : Envelope) (ts : ℕ)
      → IsNew (new_request id agent_id filing sealed ts)
  unfolding new_request
  new_request-IsNew id agent_id filing sealed ts = record {
    status = refl;
    uses = refl;
    max_uses = refl;
    expires_at = refl;
    item_id = refl;
  }

module _ ⦃p : Platform⦄ {R : Service → Service → Type 0} ⦃l : Lending R⦄ where
  pub audit-grows :
      (agent : Option Text) (op : Operation) (item : Option ItemRow) (target reason : Option Text)
      (allowed : Bool) (detail : Detail)
      → Moves R (audit agent op item target reason allowed detail)
  unfolding audit ◌>>=◌
  audit-grows agent op item target reason allowed detail = record { at = λ s. l.logs s _ _ }

  pub item_payload-grows : (row : ItemRow) → Moves R (item_payload row)
  unfolding item_payload
  item_payload-grows row = search (moves_rules, lending_order) depth 30

pub ruleset reading = (moves_rules, lending_order, audit-grows, item_payload-grows)

module _ ⦃p : Platform⦄ {R : Service → Service → Type 0} ⦃l : Lending R⦄ where
  pub find_vault-grows : (ref : Text) → Moves R (find_vault ref)
  unfolding find_vault
  find_vault-grows ref = search reading depth 30

  titled_items-grows : (ref : Text) (rows : List ItemRow) → Moves R (titled_items ref rows)
  unfolding titled_items
  titled_items-grows ref [] = search reading depth 30
  titled_items-grows ref (row ∷ rows) =
      Moves-bind lending_order _ _ (item_payload-grows row) λ payload.
        Moves-bind lending_order _ _ (titled_items-grows ref rows)
          λ rest. Moves-pure lending_order _

  pub find_item-grows : (vault item : Text) → Moves R (find_item vault item)
  unfolding find_item
  find_item-grows vault item = search (reading, find_vault-grows, titled_items-grows) depth 30

  pub resolve_item_ref-grows : (uri : Text) → Moves R (resolve_item_ref uri)
  unfolding resolve_item_ref
  resolve_item_ref-grows uri = search (reading, find_item-grows) depth 30

  pub item_credential_version-grows :
      (row : ItemRow) (field : Option Text) → Moves R (item_credential_version row field)
  unfolding item_credential_version
  item_credential_version-grows row field = search reading depth 30

  pub get_access_request-grows : (id : Text) → Moves R (get_access_request id)
  unfolding get_access_request
  get_access_request-grows id = search reading depth 30

  pub show_request-grows : (id : Text) → Moves R (show_request id)
  unfolding show_request
  show_request-grows id = search (reading, get_access_request-grows) depth 30

  pub get_capability_row-grows : (id : Text) → Moves R (get_capability_row id)
  unfolding get_capability_row
  get_capability_row-grows id = search reading depth 30

pub ruleset lookups = (
  reading, find_item-grows, resolve_item_ref-grows, item_credential_version-grows,
  get_access_request-grows, show_request-grows, get_capability_row-grows,
)

pub ruleset writes =
    (lookups, drop-grows, expire-grows, revoke-grows, grant-grows, deny-grows, spend-grows)

module _ ⦃p : Platform⦄ {R : Service → Service → Type 0} ⦃l : Lending R⦄ where
  new_request-grows :
      (id agent_id : Text) (filing : Filing) (sealed : Envelope) (ts : ℕ)
      → Moves R (
          modify (λ s. record s {
            access_requests = s.access_requests ++ new_request id agent_id filing sealed ts ∷ [];
          }))
  new_request-grows id agent_id filing sealed ts =
      insert-grows _ (new_request-IsNew id agent_id filing sealed ts)

  insert_request-grows :
      (agent : AgentRow) (filing : Filing) → Moves R (insert_request agent filing)
  unfolding insert_request
  insert_request-grows agent filing = search (writes, new_request-grows) depth 40

  file_request-grows : (agent : AgentRow) (filing : Filing) → Moves R (file_request agent filing)
  unfolding file_request
  file_request-grows agent filing = search (writes, insert_request-grows) depth 40

  -- A request for a credential field grows the table.
  pub request_access-grows :
      (agent : AgentRow) (uri capability : Text) (host reason : Option Text) (ttl uses : ℕ)
      → Moves R (request_access agent uri capability host reason ttl uses)
  unfolding request_access
  request_access-grows agent uri capability host reason ttl uses =
      search (writes, file_request-grows) depth 40

  -- A request for a capability grows the table.
  pub request_capability-grows :
      (agent : AgentRow) (id method path : Text) (reason : Option Text) (ttl uses : ℕ)
      → Moves R (request_capability agent id method path reason ttl uses)
  unfolding request_capability
  request_capability-grows agent id method path reason ttl uses =
      search (writes, file_request-grows) depth 40

module _ ⦃p : Platform⦄ where
  check_capability-grows :
      (row : AccessRow) (payload : AccessPayload) (id version : Text)
      → Moves TableGrows (check_capability row payload id version)
  unfolding check_capability
  check_capability-grows row payload id version = search writes depth 40

  bind_selector-grows :
      (payload : AccessPayload) (vault item field : Text)
      → Moves TableGrows (bind_selector payload vault item field)
  unfolding bind_selector
  bind_selector-grows payload vault item field = search writes depth 40

  bind_capability-grows :
      (row : AccessRow) (payload : AccessPayload) (id version method path : Text)
      → Moves TableGrows (bind_capability row payload id version method path)
  unfolding bind_capability
  bind_capability-grows row payload id version method path =
      search (writes, check_capability-grows) depth 60

  pub bind_to-grows :
      (row : AccessRow) (payload : AccessPayload) (target : Target)
      → Moves TableGrows (bind_to row payload target)
  unfolding bind_to
  bind_to-grows row payload (Target.selector v i f) = bind_selector-grows payload v i f
  bind_to-grows row payload (Target.capability id version method path) =
      bind_capability-grows row payload id version method path

  grant_lease-grows :
      (row : AccessRow) (bound : Bound) (ttl uses : Option ℕ) (note : Option Text)
      → Moves TableGrows (grant row bound ttl uses note)
  unfolding grant
  grant_lease-grows row bound ttl uses remark = search writes depth 60

  -- An approval grows the table.
  pub approve_access-grows :
      (id : Text) (ttl uses : Option ℕ) (note : Option Text)
      → Moves TableGrows (approve_access id ttl uses note)
  unfolding approve_access
  approve_access-grows id ttl uses remark =
      search (writes, bind_to-grows, grant_lease-grows) depth 60

  -- A denial grows the table.
  pub deny_access-grows : (id : Text) (note : Option Text) → Moves TableGrows (deny_access id note)
  unfolding deny_access
  deny_access-grows id remark = search writes depth 60

  -- A revocation grows the table.
  pub revoke_access-grows : (id : Text) → Moves TableGrows (revoke_access id)
  unfolding revoke_access
  revoke_access-grows id = search writes depth 60
