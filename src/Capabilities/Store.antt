-- ===== src/Capabilities/Store.antt =====
-- The table of capabilities: `put_capability`, `get_capability` and `list_capabilities`.
use passd.Base.{◌++◌, update_where, [], any, order_by, find, ◌∷◌, if◌then◌else◌, List, Bool}
use passd.Text.{text_le, ◌==◌, strip, lower, Text}
use passd.Platform.{Platform}
use passd.Payload.{Definition}
use passd.Db.{CapabilityRow}
use passd.Capabilities.{RawDefinition, normalize_definition}
use passd.Errors
use passd.Exec.{modify, now, pure, lift, require, gets, Exec, ◌>>=◌, ◌>>◌}
use passd.Errors.{internal, not_found, ok, Result}
use passd.Sealing.{capability_aad, seal_value, capability_payload}
use passd.Authority.{capability_version}

-- `_public_capability`
pub record PublicCapability : Type 0 where
  pub id : Text
  pub version : Text
  pub description : Text
  pub target_host : Text
  pub methods : List Text
  pub path_prefix : Text

abbrev pub capability_has_id : Text → CapabilityRow → Bool
capability_has_id id row = row.id == id

-- The key of a capability in a request.
unfoldable pub capability_key : Text → Text
capability_key id = lower (strip id)

module _ ⦃p : Platform⦄ where
  unfoldable pub public_capability : Text → CapabilityRow → Result PublicCapability
  public_capability root_key row = Errors.◌>>=◌ (capability_payload root_key row) λ definition.
      ok (record {
        id = row.id;
        version = row.version;
        description = definition.description;
        target_host = definition.host;
        methods = definition.methods;
        path_prefix = definition.path_prefix;
      })

  -- INSERT, or UPDATE of the row with this id.
  unfoldable pub store_capability : CapabilityRow → List CapabilityRow → List CapabilityRow
  store_capability new rows =
      if any (capability_has_id new.id) rows
      then update_where (capability_has_id new.id)
          (λ row. record row {
            version = new.version;
            payload = new.payload;
            updated_at = new.updated_at;
          })
          rows
      else rows ++ new ∷ []

  unfoldable pub put_capability : RawDefinition → Exec PublicCapability
  unfolding store_capability public_capability
  put_capability raw = do
    s ← gets (λ s. s)
    definition ← lift (normalize_definition s.allow_private_broker_targets raw)
    let id = definition.id
    ts ← now
    sealed ← seal_value p.definition_codec s.root_key definition (capability_aad id)
    let new : CapabilityRow = record {
      id = id;
      version = capability_version s.root_key definition;
      payload = sealed;
      created_at = ts;
      updated_at = ts;
    }
    modify (λ s. record s { capabilities = store_capability new s.capabilities })
    rows ← gets (λ s. s.capabilities)
    row ← require (find (capability_has_id id) rows) internal
    lift (public_capability s.root_key row)

  unfoldable pub get_capability_row : Text → Exec CapabilityRow
  unfolding capability_key
  get_capability_row id = do
    rows ← gets (λ s. s.capabilities)
    require (find (capability_has_id (capability_key id)) rows) not_found

  -- `get_capability(…, include_definition=True)`
  unfoldable pub get_capability : Text → Exec (PublicCapability × Definition)
  unfolding get_capability_row public_capability
  get_capability id = do
    row ← get_capability_row id
    root_key ← gets (λ s. s.root_key)
    result ← lift (public_capability root_key row)
    definition ← lift (capability_payload root_key row)
    pure (result, definition)

  unfoldable pub public_capabilities : Text → List CapabilityRow → Result (List PublicCapability)
  unfolding public_capability
  public_capabilities root_key [] = ok []
  public_capabilities root_key (row ∷ rows) =
      Errors.◌>>=◌ (public_capability root_key row)
        λ c. Errors.◌>>=◌ (public_capabilities root_key rows) λ cs. ok (c ∷ cs)

  unfoldable pub list_capabilities : Exec (List PublicCapability)
  unfolding public_capabilities
  list_capabilities = do
    s ← gets (λ s. s)
    lift (public_capabilities s.root_key (order_by (λ a b. text_le a.id b.id) s.capabilities))
