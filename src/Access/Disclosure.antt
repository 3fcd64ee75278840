-- ===== src/Access/Disclosure.antt =====
-- What `list_authorized_items` discloses to an agent.
use mathlib.Core.Option.{some-injective, none, some}
use passd.Exec.Laws.{lift_ok, bind_ok, present_ok, then_ok}
use passd.Base.{
  find_sound, ◌∙◌, ap, ◌||◌, sym, find, is_empty, arith, All-filter, [], false, Option,
  if◌then◌else◌, true, Bool, some, All-order_by, ◌≡◌, ◌∷◌, Among, All, List, refl,
}
use mathlib.Core.Path.{subst}
use passd.Access.Listing.{
  authorized_items, authorized_item, granted_items, active_grant_rows, list_authorized_items,
}
use passd.Text.{◌==◌, mem, text_le, dedup, sort_texts, Text}
use passd.Db.{AccessRow, Service, AgentRow}
use passd.Platform.{Platform}
use passd.Items.{item_has_id, ItemSummary}
use passd.Access.{expiry_le, is_active, scope_missing, of_agent}
use passd.Errors.{ok}
use passd.Exec.Laws.{gets_ok, check_ok, pure_ok}
use passd.Payload.{metadata_read}
use passd.Vaults.{vault_has_id}
use passd.Sealing.{item_payload, vault_payload}
use passd.Text.Laws.{eq_iff}

-- The lease that lets an agent know of an item.
abbrev pub IsLeased : AgentRow → Service → Text → Type 0
IsLeased agent s id =
    (row : AccessRow) × Among row s.access_requests
    × (of_agent agent.id row ≡ true)
    × (is_active s.clock row ≡ true)
    × (row.item_id ≡ some id)

module _ (Q : Text → Type 0) where
  All-dedup : (ts : List Text) → All Q ts → All Q (dedup ts)
  unfolding dedup
  All-dedup [] h = tt
  All-dedup (t ∷ ts) (q, h) = choose (mem t (dedup ts)) (All-dedup ts h)
    where
      choose : (b : Bool) → All Q (dedup ts) → All Q (if b then dedup ts else t ∷ dedup ts)
      choose true rest = rest
      choose false rest = (q, rest)

  All-sort_texts : (ts : List Text) → All Q ts → All Q (sort_texts ts)
  unfolding sort_texts
  All-sort_texts ts h = All-order_by Q text_le (dedup ts) (All-dedup ts h)

  All-granted_items :
      (rows : List AccessRow)
      → All (λ row. (id : Text) → row.item_id ≡ some id → Q id) rows
      → All Q (granted_items rows)
  unfolding granted_items
  All-granted_items [] h = tt
  All-granted_items (row ∷ rows) (q, h) = choose row.item_id q (All-granted_items rows h)
    where
      keep :
          (id : Text) (b : Bool)
          → Q id
          → All Q (granted_items rows)
          → All Q (if b then granted_items rows else id ∷ granted_items rows)
      keep id true one rest = rest
      keep id false one rest = (one, rest)

      choose :
          (item : Option Text)
          → ((id : Text) → item ≡ some id → Q id)
          → All Q (granted_items rows)
          → All Q (elim item [
            | none ↦ granted_items rows
            | some id ↦ if is_empty id then granted_items rows else id ∷ granted_items rows
          ])
      choose none one rest = rest
      choose (some id) one rest = keep id (is_empty id) (one id refl) rest

  module _ ⦃p : Platform⦄ where
    authorized_item_ok :
        (ref id : Text) (summary : ItemSummary) (s s' : Service)
        → authorized_item ref id s ≡ (ok (some summary), s')
        → summary.id ≡ id
    unfolding authorized_item
    authorized_item_ok ref id summary s s' h =
        let (row, found, h1) = present_ok (find (item_has_id id) s.items) _ s (gets_ok _ _ s h) in
        let (vault, of_row, h2) = present_ok (find (vault_has_id row.vault_id) s.vaults) _ s h1 in
        let (named, opened, h3) = lift_ok (vault_payload s.root_key vault) _ s h2 in
        let (asked, h4) = then_ok (ref == vault.id || ref == named.name) _ s h3 in
        let (payload, t, read, h5) = bind_ok (item_payload row) _ s h4 in
        let same : row.id ≡ summary.id =
          ap (λ (x : ItemSummary). x.id) (some-injective _ summary (pure_ok _ t h5).0) in
        sym same ∙ (eq_iff row.id id).0 (find_sound (item_has_id id) s.items found)

    authorized_items_ok :
        (ref : Text) (ids : List Text) (out : List ItemSummary) (s s' : Service)
        → All Q ids
        → authorized_items ref ids s ≡ (ok out, s')
        → All (λ x. Q x.id) out
    unfolding authorized_items
    authorized_items_ok ref [] out s s' h e = subst (All (λ x. Q x.id)) (pure_ok _ s e).0 tt
    authorized_items_ok ref (id ∷ ids) out s s' (q, h) e =
        let (found, t, e1, h1) = bind_ok (authorized_item ref id) _ s e in
        let (rest, u, e2, h2) = bind_ok (authorized_items ref ids) _ t h1 in
        subst (All (λ x. Q x.id)) (pure_ok _ u h2).0
          (join found rest t e1 (authorized_items_ok ref ids rest t u h e2))
      where
        join :
            (found : Option ItemSummary) (rest : List ItemSummary) (t : Service)
            → authorized_item ref id s ≡ (ok found, t)
            → All (λ x. Q x.id) rest
            → All (λ x. Q x.id) (elim found [ none ↦ rest | some summary ↦ summary ∷ rest ])
        join none rest t e k = k
        join (some summary) rest t e k =
            (subst Q (sym (authorized_item_ok ref id summary s t e)) q, k)

-- Each item that `list_authorized_items` returns is named by a lease of this agent that is approved,
-- unexpired and with budget left at the clock's time; and the agent has the scope to read metadata.
pub list_authorized_items-IsLeased :
    ⦃p : Platform⦄ (agent : AgentRow) (ref : Text) (out : List ItemSummary) (s s' : Service)
    → list_authorized_items agent ref s ≡ (ok out, s')
    → (scope_missing agent metadata_read ≡ false) × All (λ x. IsLeased agent s x.id) out
unfolding list_authorized_items active_grant_rows
list_authorized_items-IsLeased agent ref out s s' h =
    let (held, h1) = check_ok (scope_missing agent metadata_read) _ _ s h in
    (
      held,
      authorized_items_ok (IsLeased agent s) ref _ out s s'
          (All-sort_texts (IsLeased agent s) _ (
            All-granted_items (IsLeased agent s) _ (
              All-order_by _ expiry_le _ (
                All-filter _ _ s.access_requests
                  λ row m t id named. (row, m, ground arith, ground arith, named)))))
          (gets_ok _ _ s h1),
    )
