-- ===== src/Access/Listing.antt =====
-- What is listed of requests, vaults and items: `pending_access`, `_active_grant_rows`,
-- `list_authorized_vaults` and `list_authorized_items` of passd/service.py.
use passd.Errors
use passd.Base.{
  ◌||◌, leb, ◌&&◌, is_empty, if◌then◌else◌, [], min, filter, max, some, find, take, order_by, ◌∷◌,
  ℕ, Option, List, none,
}
use passd.Db.{stale, denied, approved, pending, AccessRow, ItemRow, AgentRow, Status}
use passd.Text.{sort_texts, codes, Text, ◌==◌}
use passd.Platform.{Platform}
use passd.Access.{is_active, of_agent, scope_missing, access_public, expiry_le, PublicAccess}
use passd.Exec.{case_of, lift, check, gets, ◌>>◌, ◌>>=◌, pure, Exec}
use passd.Items.{summary_of, item_has_id, ItemSummary}
use passd.Errors.{permission_denied, ok, Result}
use passd.Agents.{has_id}
use passd.Payload.{metadata_read}
use passd.Vaults.{truthy, vault_has_id}
use passd.Sealing.{item_payload, vault_payload}

-- The columns of a request, public, with the name of its agent.
pub record PendingAccess : Type 0 where
  pub request : PublicAccess
  pub agent_name : Text

-- What an agent is told of a vault.
pub record VaultName : Type 0 where
  pub id : Text
  pub name : Text

abbrev pub status_text : Status → Text
status_text pending = codes "pending"
status_text approved = codes "approved"
status_text denied = codes "denied"
status_text Status.revoked = codes "revoked"
status_text stale = codes "stale"

-- `JOIN agents a ON a.id=ar.agent_id`
abbrev joined : List AgentRow → List AccessRow → List (AccessRow × AgentRow)
joined agents [] = []
joined agents (row ∷ rows) = elim (find (has_id row.agent_id) agents) [
  | none ↦ joined agents rows
  | some agent ↦ (row, agent) ∷ joined agents rows
]

-- The rows of a page, the oldest first where a status is asked for, else the newest first.
unfoldable pub pending_page :
    Option Text → ℕ → List AgentRow → List AccessRow → List (AccessRow × AgentRow)
unfolding ◌==◌
pending_page status limit agents rows = take (max 1 (min limit 1000)) (
    joined agents (elim (if truthy status then status else none) [
      | none ↦ order_by (λ (a b : AccessRow). leb b.created_at a.created_at) rows
      | some t ↦
          order_by (λ (a b : AccessRow). leb a.created_at b.created_at)
            (filter (λ (row : AccessRow). status_text row.status == t) rows)
    ]))

unfoldable pub active_grant_rows : Text → ℕ → List AccessRow → List AccessRow
active_grant_rows agent_id ts rows =
    order_by expiry_le (filter (λ row. of_agent agent_id row && is_active ts row) rows)

-- The items that the grants name.
unfoldable pub granted_items : List AccessRow → List Text
granted_items [] = []
granted_items (row ∷ rows) =
    let rest = granted_items rows in
    elim row.item_id [ none ↦ rest | some id ↦ if is_empty id then rest else id ∷ rest ]

-- The vaults that hold these items.
unfoldable pub vaults_of : List ItemRow → List Text → List Text
vaults_of items [] = []
vaults_of items (id ∷ ids) =
    let rest = vaults_of items ids in
    elim (find (item_has_id id) items) [ none ↦ rest | some item ↦ item.vault_id ∷ rest ]

module _ ⦃p : Platform⦄ where
  unfoldable pub public_page : Text → ℕ → List (AccessRow × AgentRow) → Result (List PendingAccess)
  public_page root_key ts [] = ok []
  public_page root_key ts ((row, agent) ∷ rows) =
      Errors.◌>>=◌ (access_public root_key ts row) λ shown.
        Errors.◌>>=◌ (public_page root_key ts rows)
          λ rest. ok (record { request = shown; agent_name = agent.name } ∷ rest)

  unfoldable pub pending_access : Option Text → ℕ → Exec (List PendingAccess)
  unfolding pending_page public_page
  pending_access status limit = do
    s ← gets (λ s. s)
    lift (public_page s.root_key s.clock (pending_page status limit s.agents s.access_requests))

  unfoldable pub vault_names : List Text → Exec (List VaultName)
  vault_names [] = pure []
  vault_names (id ∷ ids) = do
    s ← gets (λ s. s)
    let rest = vault_names ids
    case_of (find (vault_has_id id) s.vaults) rest λ row. do
      payload ← lift (vault_payload s.root_key row)
      names ← rest
      pure (record { id = row.id; name = payload.name } ∷ names)

  unfoldable pub list_authorized_vaults : AgentRow → Exec (List VaultName)
  unfolding active_grant_rows granted_items vaults_of vault_names
  list_authorized_vaults agent = do
    check (scope_missing agent metadata_read) permission_denied
    s ← gets (λ s. s)
    let grants = active_grant_rows agent.id s.clock s.access_requests
    vault_names (sort_texts (vaults_of s.items (granted_items grants)))

  -- The round on one item: it is told of if its vault is the one referred to.
  unfoldable pub authorized_item : Text → Text → Exec (Option ItemSummary)
  authorized_item vault_ref id = do
    s ← gets (λ s. s)
    case_of (find (item_has_id id) s.items) (pure none) λ row.
        case_of (find (vault_has_id row.vault_id) s.vaults) (pure none) λ vault. do
          named ← lift (vault_payload s.root_key vault)
          if vault_ref == vault.id || vault_ref == named.name
              then (do payload ← item_payload row; pure (some (summary_of row payload)))
              else pure none

  unfoldable pub authorized_items : Text → List Text → Exec (List ItemSummary)
  unfolding authorized_item
  authorized_items vault_ref [] = pure []
  authorized_items vault_ref (id ∷ ids) = do
    found ← authorized_item vault_ref id
    rest ← authorized_items vault_ref ids
    pure (elim found [ none ↦ rest | some summary ↦ summary ∷ rest ])

  unfoldable pub list_authorized_items : AgentRow → Text → Exec (List ItemSummary)
  unfolding active_grant_rows granted_items authorized_items
  list_authorized_items agent vault_ref = do
    check (scope_missing agent metadata_read) permission_denied
    s ← gets (λ s. s)
    let grants = active_grant_rows agent.id s.clock s.access_requests
    authorized_items vault_ref (sort_texts (granted_items grants))
