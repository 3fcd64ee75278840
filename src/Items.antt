-- ===== src/Items.antt =====
-- Items: `put_item`, `list_items`, `find_item`, `resolve_item_ref` and `_extract_field` of
-- passd/service.py.
use passd.Base.{
  update_where, any, is_empty, [], eqb, ◌++◌, ◌||◌, ◌∷◌, some, filter, ◌&&◌, none, if◌then◌else◌,
  ltb, find, order_by, List, not, Bool, Option,
}
use passd.Errors.{internal, validation_error, conflict, not_found, err, ok, Result}
use passd.Text.{text_le, ◌==◌, strip, Text, codes}
use passd.Platform.{Platform}
use passd.Payload.{value, whole, ItemPayload, Source, Secret, Value}
use passd.Db.{VaultRow, ItemRow}
use passd.Sealing.{
  item_payload_aad, seal_value, item_key_aad, item_payload, seal_text, item_key, vault_key,
}
use passd.Vaults.{find_vault, truthy, option_matches}
use passd.Exec.{case_of, modify, check, random, pure, gets, lift, now, Exec, ◌>>=◌, ◌>>◌}
use passd.Refs.{parse_pass_ref}

-- What the listings tell of an item.
pub record ItemSummary : Type 0 where
  pub id : Text
  pub vault_id : Text
  pub type : Text
  pub title : Text
  pub urls : List Text

unfoldable pub lookup_field : Text → List (Text × Value) → Option Value
lookup_field name [] = none
lookup_field name ((k, v) ∷ fields) = if k == name then some v else lookup_field name fields

-- `_extract_field`
unfoldable pub extract_field : ItemPayload → Option Text → Result Secret
unfolding lookup_field
extract_field payload none = ok (whole payload)
extract_field payload (some field) = elim (lookup_field field payload.fields) [
  | none ↦ err not_found
  | some v ↦ ok (value v)
]

abbrev pub item_has_id : Text → ItemRow → Bool
item_has_id id row = row.id == id

abbrev item_has_source : Source → ItemRow → Bool
item_has_source source row =
    option_matches row.source_kind source.kind && option_matches row.source_id source.id

-- ORDER BY created_at, id
abbrev item_le : ItemRow → ItemRow → Bool
item_le a b = ltb a.created_at b.created_at || (eqb a.created_at b.created_at && text_le a.id b.id)

abbrev in_vault : VaultRow → ItemRow → Bool
in_vault vault row = row.vault_id == vault.id

abbrev pub summary_of : ItemRow → ItemPayload → ItemSummary
summary_of row payload = record {
  id = row.id;
  vault_id = row.vault_id;
  type = payload.type;
  title = payload.title;
  urls = payload.urls;
}

module _ ⦃p : Platform⦄ where
  unfoldable pub summaries : List ItemRow → Exec (List ItemSummary)
  summaries [] = pure []
  summaries (row ∷ rows) = do
    payload ← item_payload row
    rest ← summaries rows
    pure (summary_of row payload ∷ rest)

  unfoldable pub list_items : Text → Exec (List ItemSummary)
  unfolding summaries
  list_items vault_ref = do
    vault ← find_vault vault_ref
    items ← gets (λ s. s.items)
    summaries (order_by item_le (filter (in_vault vault) items))

  -- The items whose title is the reference; every payload is opened.
  unfoldable pub titled_items : Text → List ItemRow → Exec (List ItemRow)
  titled_items ref [] = pure []
  titled_items ref (row ∷ rows) = do
    payload ← item_payload row
    rest ← titled_items ref rows
    pure (if payload.title == ref then row ∷ rest else rest)

  unfoldable pub one_item : List ItemRow → Result ItemRow
  one_item [] = err not_found
  one_item (row ∷ []) = ok row
  one_item (row ∷ _ ∷ _) = err conflict

  unfoldable pub find_item : Text → Text → Exec ItemRow
  unfolding titled_items one_item
  find_item vault_ref item_ref = do
    vault ← find_vault vault_ref
    items ← gets (λ s. s.items)
    case_of (find (λ row. item_has_id item_ref row && in_vault vault row) items)
        (do
          matches ← titled_items item_ref (filter (in_vault vault) items)
          lift (one_item matches))
        pure

  unfoldable pub resolve_item_ref : Text → Exec (ItemRow × Option Text)
  resolve_item_ref uri = do
    ref ← lift (parse_pass_ref uri)
    row ← find_item ref.vault ref.item
    pure (row, ref.field)

  -- The UPDATE of `put_item`: an item that moves to another vault gets a new key.
  unfoldable pub update_item : VaultRow → Text → ItemRow → ItemPayload → Exec Text
  update_item vault vkey existing payload = do
    let moved = not (existing.vault_id == vault.id)
    fresh_key ← if moved then random else lift (item_key existing vkey)
    wrapped ←
        if moved
        then seal_text vkey fresh_key (item_key_aad existing.id)
        else pure existing.wrapped_key
    sealed ← seal_value p.item_codec fresh_key payload (item_payload_aad existing.id)
    ts ← now
    modify (λ s. record s {
      items =
          update_where (item_has_id existing.id)
            (λ row. record row {
              vault_id = vault.id;
              wrapped_key = wrapped;
              payload = sealed;
              source_kind = payload.source.kind;
              source_id = payload.source.id;
              updated_at = ts;
            })
            s.items;
    })
    pure existing.id

  -- The INSERT of `put_item`.
  unfoldable pub insert_item : VaultRow → Text → ItemPayload → Exec Text
  insert_item vault vkey payload = do
    ts ← now
    draw ← random
    let item_id = codes "itm_" ++ draw
    key ← random
    wrapped ← seal_text vkey key (item_key_aad item_id)
    sealed ← seal_value p.item_codec key payload (item_payload_aad item_id)
    items ← gets (λ s. s.items)
    check (any (item_has_id item_id) items || any (item_has_source payload.source) items) internal
    let row : ItemRow = record {
      id = item_id;
      vault_id = vault.id;
      wrapped_key = wrapped;
      payload = sealed;
      source_kind = payload.source.kind;
      source_id = payload.source.id;
      created_at = ts;
      updated_at = ts;
    }
    modify (λ s. record s { items = s.items ++ row ∷ [] })
    pure item_id

  -- `existing`, where the source is given
  abbrev pub existing_item : Source → List ItemRow → Option ItemRow
  existing_item source items =
      if truthy source.kind && truthy source.id then find (item_has_source source) items else none

  -- The payload comes with the title as it was given. The result is the item's id, the vault's id
  -- and the payload that was written.
  unfoldable pub put_item : Text → ItemPayload → Exec (Text × Text × ItemPayload)
  unfolding update_item insert_item
  put_item vault_ref given = do
    vault ← find_vault vault_ref
    root_key ← gets (λ s. s.root_key)
    vkey ← lift (vault_key root_key vault)
    let title = strip given.title
    check (is_empty title) validation_error
    let payload = record given { title = title }
    items ← gets (λ s. s.items)
    item_id ←
        case_of (existing_item payload.source items) (insert_item vault vkey payload)
          (λ existing. update_item vault vkey existing payload)
    pure (item_id, vault.id, payload)
