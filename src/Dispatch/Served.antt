-- ===== src/Dispatch/Served.antt =====
-- Every request that `handle` of passd/service.py can serve, one after another, with time passing
-- between them: what they do to the table of access requests.
use passd.Access.Table.Operations.{table_lending}
use passd.Base.{ℕ, List, refl, ◌≡◌}
use passd.Exec.{modify, Exec}
use passd.Db.{AccessRow, ItemRow, VaultRow, Service}
use passd.Exec.Moves.{Moves-modify, Moves, moves_rules, Order}
use passd.Platform.{Platform}
use passd.Agents.{insert_agent, rotate_agent, create_agent, revoke_agent}
use passd.Vaults.{find_vault, create_vault, update_vault, insert_vault}
use passd.Items.{insert_item, put_item, update_item}
use passd.Access.Table.{Grows-refl, TableGrows, Grows-trans, Grows}
use passd.Capabilities.Store.{put_capability}
use passd.Text.{Text}
use passd.Payload.{Source, VaultPayload, ItemPayload}
use mathlib.Core.Path.{subst}
use passd.Capabilities.{RawDefinition}
use passd.Access.Table.Operations.{find_vault-grows}

pub record RequestsGrow (s t : Service) : Type 0 where
  pub rows : Grows s.access_requests t.access_requests

pub same_requests : (s t : Service) → s.access_requests ≡ t.access_requests → RequestsGrow s t
same_requests s t e = record {
  rows = subst (λ (l : List AccessRow). Grows s.access_requests l) e (Grows-refl s.access_requests);
}

pub requests_order : Order RequestsGrow
requests_order = record {
  here = λ s. same_requests s s refl;
  after = λ s t u a b. record {
    rows = Grows-trans s.access_requests t.access_requests u.access_requests a.rows b.rows;
  };
  drawing = λ s n. same_requests s _ refl;
}

-- What moves the tables of requests alone moves them here too.
pub only_requests : {A : Type 0} {m : Exec A} → Moves TableGrows m → Moves RequestsGrow m
only_requests moves = record { at = λ s. record { rows = (moves.at s).grows } }

-- An UPDATE of another table
pub elsewhere :
    (f : Service → Service)
    → ((s : Service) → s.access_requests ≡ (f s).access_requests)
    → Moves RequestsGrow (modify f)
elsewhere f same = Moves-modify requests_order f λ s. same_requests s (f s) (same s)

pub ruleset serving = (moves_rules, requests_order)

module _ ⦃p : Platform⦄ where
  insert_vault-serves : (payload : VaultPayload) → Moves RequestsGrow (insert_vault payload)
  unfolding insert_vault
  insert_vault-serves payload = search (serving, elsewhere) depth 60

  update_vault-serves :
      (row : VaultRow) (payload : VaultPayload) → Moves RequestsGrow (update_vault row payload)
  unfolding update_vault
  update_vault-serves row payload = search (serving, elsewhere) depth 60

  pub create_vault-serves :
      (name description : Text) (source : Source)
      → Moves RequestsGrow (create_vault name description source)
  unfolding create_vault
  create_vault-serves name description source =
      search (serving, insert_vault-serves, update_vault-serves) depth 60

  insert_item-serves :
      (vault : VaultRow) (key : Text) (payload : ItemPayload)
      → Moves RequestsGrow (insert_item vault key payload)
  unfolding insert_item
  insert_item-serves vault key payload = search (serving, elsewhere) depth 60

  update_item-serves :
      (vault : VaultRow) (key : Text) (row : ItemRow) (payload : ItemPayload)
      → Moves RequestsGrow (update_item vault key row payload)
  unfolding update_item
  update_item-serves vault key row payload = search (serving, elsewhere) depth 60

  find_vault-serves : (ref : Text) → Moves RequestsGrow (find_vault ref)
  find_vault-serves ref = only_requests (find_vault-grows ref)

  pub put_item-serves :
      (ref : Text) (payload : ItemPayload) → Moves RequestsGrow (put_item ref payload)
  unfolding put_item
  put_item-serves ref payload =
      search (serving, find_vault-serves, insert_item-serves, update_item-serves) depth 60

  pub put_capability-serves : (raw : RawDefinition) → Moves RequestsGrow (put_capability raw)
  unfolding put_capability
  put_capability-serves raw = search (serving, elsewhere) depth 60

  pub create_agent-serves :
      (name : Text) (scopes vaults items hosts : List Text) (ttl : ℕ)
      → Moves RequestsGrow (create_agent name scopes vaults items hosts ttl)
  unfolding create_agent insert_agent
  create_agent-serves name scopes vaults items hosts ttl = search (serving, elsewhere) depth 60

  pub rotate_agent-serves : (ref : Text) → Moves RequestsGrow (rotate_agent ref)
  unfolding rotate_agent
  rotate_agent-serves ref = search (serving, elsewhere) depth 60

  pub revoke_agent-serves : (ref : Text) → Moves RequestsGrow (revoke_agent ref)
  unfolding revoke_agent
  revoke_agent-serves ref = search (serving, elsewhere) depth 60
