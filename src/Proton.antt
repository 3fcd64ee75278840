-- ===== src/Proton.antt =====
-- passd/proton_import.py: the fields of an exported item, and the import of an export by calls to
-- the service. The list under "urls" of an item's content is given apart, and the reading of the
-- export's file is not modelled.
pub mod Fields
pub mod Calls
pub mod Counts
use passd.Exec.{require, random, pure, Exec, ◌>>=◌}
use passd.Base.{
  length, ◌||◌, true, filter, is_empty, or_else, not, none, ◌++◌, [], if◌then◌else◌, eqb, false,
  some, Bool, List, Option, ℕ, ◌∷◌, ◌+◌,
}
use passd.Text.{codes, ◌==◌, Text}
use passd.Dispatch.{Request, no_params, Params, Reply}
use passd.Items.{lookup_field}
use passd.Payload.{Source, Value}
use passd.Platform.{Platform}
use passd.Dispatch.Handle.{handle}
use passd.Capabilities.{text_or}
use passd.Errors.{internal}

-- An entry of `extraFields`, with what its `data` holds.
pub record ExtraField : Type 0 where
  pub name : Option Text
  pub content : Option Value
  pub totp_uri : Option Value

-- `item["data"]`: its type, its content, and what is used of its metadata
pub record ItemData : Type 0 where
  pub type : Option Text
  pub content : List (Text × Value)
  pub urls : List Text
  pub extra_fields : List ExtraField
  pub name : Option Text
  pub note : Option Text
  pub uuid : Option Text

-- `raw` is the JSON text of the item. A `state` may be missing, or be null. `id` is the first of its ids that is there.
pub record ExportItem : Type 0 where
  pub state : Option (Option ℕ)
  pub idata : ItemData
  pub id : Option Text
  pub raw : Text

pub record ExportVault : Type 0 where
  pub name : Option Text
  pub description : Option Text
  pub items : List ExportItem

-- `v is not None`, and `v not in (None, "", [], {})`
abbrev pub is_there : Value → Bool
is_there Value.null = false
is_there _ = true

abbrev pub is_filled : Value → Bool
is_filled Value.null = false
is_filled (Value.text t) = not (is_empty t)
is_filled (Value.composite t) = not (t == codes "[]" || t == codes "{}")
is_filled _ = true

-- The mapping of one field, if the content has it.
abbrev pub mapped : List (Text × Value) → Text × Text → List (Text × Value) → List (Text × Value)
mapped content (name, key) fields = elim (lookup_field key content) [
  | none ↦ fields
  | some v ↦ if is_there v then (name, v) ∷ fields else fields
]

abbrev pub mapped_all : List (Text × Value) → List (Text × Text) → List (Text × Value)
mapped_all content [] = []
mapped_all content (entry ∷ mapping) = mapped content entry (mapped_all content mapping)

abbrev pub login_mapping : List (Text × Text)
login_mapping =
    (codes "username", codes "itemUsername")
    ∷ (codes "email", codes "itemEmail")
    ∷ (codes "password", codes "password")
    ∷ (codes "totp", codes "totpUri")
    ∷ []

abbrev pub card_mapping : List (Text × Text)
card_mapping =
    (codes "cardholder_name", codes "cardholderName")
    ∷ (codes "number", codes "number")
    ∷ (codes "expiration_date", codes "expirationDate")
    ∷ (codes "cvv", codes "verificationNumber")
    ∷ (codes "pin", codes "pin")
    ∷ []

-- `fields[name] = value`
unfoldable pub set_field : Text → Value → List (Text × Value) → List (Text × Value)
unfolding ◌==◌
set_field k v [] = (k, v) ∷ []
set_field k v ((k', v') ∷ fields) =
    let rest = set_field k v fields in if k' == k then (k', v) ∷ fields else (k', v') ∷ rest

-- `data.get("content")`, or else `data.get("totpUri")`: a null is as good as nothing
abbrev pub there : Option Value → Option Value
there none = none
there (some v) = if is_there v then some v else none

abbrev pub extra_value : ExtraField → Option Value
extra_value extra = elim (there extra.content) [ some v ↦ some v | none ↦ there extra.totp_uri ]

unfoldable pub add_extras : List ExtraField → List (Text × Value) → List (Text × Value)
unfolding set_field
add_extras [] fields = fields
add_extras (extra ∷ extras) fields = add_extras extras (elim (extra_value extra) [
  | none ↦ fields
  | some v ↦ set_field (text_or extra.name (codes "field")) v fields
])

abbrev pub is_type : Option Text → Text → Bool
is_type none name = false
is_type (some t) name = t == name

-- `map_fields`
unfoldable pub map_fields : ItemData → List (Text × Value)
unfolding add_extras lookup_field ◌==◌
map_fields idata = add_extras idata.extra_fields (
    if is_type idata.type (codes "login")
    then mapped_all idata.content login_mapping
    else if is_type idata.type (codes "creditCard")
    then mapped_all idata.content card_mapping
    else filter (λ field. is_filled field.1) idata.content)

pub record Imported : Type 0 where
  pub imported : ℕ
  pub skipped : ℕ
  pub vaults : ℕ

-- The request of `client.call(op, params, admin_password=…)`
abbrev pub admin_request : Text → Params → Text → Request
admin_request op params password = record {
  op = op;
  params = params;
  admin_password = some password;
  agent_token = none;
  reason = none;
}

-- `local_vault["id"]`
abbrev pub vault_of_reply : Reply → Option Text
vault_of_reply (Reply.vault v) = some v.0
vault_of_reply _ = none

abbrev pub proton : Text → Source
proton id = record { kind = some (codes "proton"); id = some id }

abbrev pub vault_params : Text → ExportVault → Params
vault_params vault_id vault = record no_params {
  name = some (text_or vault.name (codes "Imported"));
  description = some (text_or vault.description []);
  source = some (proton vault_id);
}

-- `f"{proton_vault_id}:{item_uuid}"`
abbrev pub item_source : Text → Text → Text
item_source vault_id uuid = vault_id ++ b':' ∷ uuid

abbrev pub item_params : Text → Text → Text → ExportItem → Params
item_params local_vault vault_id uuid item = record no_params {
  vault = some local_vault;
  title = some (text_or item.idata.name (codes "Untitled"));
  type = some (text_or item.idata.type (codes "custom"));
  fields = map_fields item.idata;
  urls = item.idata.urls;
  note = some (text_or item.idata.note []);
  source = some (proton (item_source vault_id uuid));
  proton_raw = some item.raw;
}

-- `meta.get("itemUuid") or item.get("itemUuid") or item.get("id")`
abbrev pub uuid_of : ExportItem → Text
uuid_of item = text_or item.idata.uuid (text_or item.id [])

-- `item.get("state", 1) != 1` is not the case
abbrev pub is_active_state : Option (Option ℕ) → Bool
is_active_state none = true
is_active_state (some none) = false
is_active_state (some (some n)) = eqb n 1

abbrev pub is_active_item : ExportItem → Bool
is_active_item item = is_active_state item.state

module _ ⦃p : Platform⦄ where
  unfoldable pub import_item : Text → Text → Text → ExportItem → Exec Reply
  unfolding handle map_fields
  import_item password local_vault vault_id item = do
    uuid ← if is_empty (uuid_of item) then random else pure (uuid_of item)
    handle (admin_request (codes "item.put") (item_params local_vault vault_id uuid item) password)

  -- The loop over the items of a vault: those in the trash are skipped.
  unfoldable pub import_items : Text → Text → Text → List ExportItem → Imported → Exec Imported
  unfolding import_item
  import_items password local_vault vault_id [] counts = pure counts
  import_items password local_vault vault_id (item ∷ items) counts =
      if is_active_item item
      then (do
        reply ← import_item password local_vault vault_id item
        import_items password local_vault vault_id items
            (record counts { imported = counts.imported + 1 }))
      else import_items password local_vault vault_id items
          (record counts { skipped = counts.skipped + 1 })

  unfoldable pub import_vaults : Text → List (Text × ExportVault) → Imported → Exec Imported
  unfolding import_items
  import_vaults password [] counts = pure counts
  import_vaults password ((vault_id, vault) ∷ vaults) counts = do
    made ← handle (admin_request (codes "vault.create") (vault_params vault_id vault) password)
    local_vault ← require (vault_of_reply made) internal
    later ← import_items password local_vault vault_id vault.items counts
    import_vaults password vaults later

  -- `import_export`, of the vaults of the export: how many items were put, and how many skipped
  unfoldable pub import_export : Text → List (Text × ExportVault) → Exec Imported
  unfolding import_vaults
  import_export password vaults =
      import_vaults password vaults (record { imported = 0; skipped = 0; vaults = length vaults })
