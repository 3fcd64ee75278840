-- ===== src/Vaults.antt =====
-- Vaults: `create_vault`, `list_vaults` and `find_vault` of passd/service.py.
use passd.Errors
use passd.Base.{
  any, update_where, if◌then◌else◌, [], not, eqb, is_empty, ◌∷◌, some, order_by, none, ◌||◌, ◌&&◌,
  find, false, ltb, ◌++◌, List, Bool, Option,
}
use passd.Errors.{internal, validation_error, conflict, not_found, err, ok, Result}
use passd.Text.{text_le, ◌==◌, strip, Text, codes}
use passd.Platform.{Platform}
use passd.Payload.{VaultPayload, Source}
use passd.Db.{VaultRow}
use passd.Sealing.{
  vault_key_aad, vault_payload, seal_text, vault_payload_aad, seal_value, vault_key,
}
use passd.Exec.{case_of, pure, modify, now, check, lift, gets, random, Exec, ◌>>=◌, ◌>>◌}

-- `if kind and id`
abbrev pub truthy : Option Text → Bool
truthy none = false
truthy (some t) = not (is_empty t)

-- `source_kind=? AND source_id=?`: a missing value equals nothing
abbrev pub option_matches : Option Text → Option Text → Bool
option_matches (some a) (some b) = a == b
option_matches _ _ = false

abbrev pub has_source : Source → VaultRow → Bool
has_source source row =
    option_matches row.source_kind source.kind && option_matches row.source_id source.id

abbrev pub vault_has_id : Text → VaultRow → Bool
vault_has_id id row = row.id == id

-- ORDER BY created_at, id
abbrev vault_le : VaultRow → VaultRow → Bool
vault_le a b = ltb a.created_at b.created_at || (eqb a.created_at b.created_at && text_le a.id b.id)

module _ ⦃p : Platform⦄ where
  unfoldable pub payloads_of : Text → List VaultRow → Result (List (Text × VaultPayload))
  payloads_of root_key [] = ok []
  payloads_of root_key (row ∷ rows) =
      Errors.◌>>=◌ (vault_payload root_key row)
        λ payload. Errors.◌>>=◌ (payloads_of root_key rows) λ rest. ok ((row.id, payload) ∷ rest)

  unfoldable pub list_vaults : Exec (List (Text × VaultPayload))
  unfolding payloads_of
  list_vaults = do s ← gets (λ s. s); lift (payloads_of s.root_key (order_by vault_le s.vaults))

  -- The vaults whose name is the reference; every payload is opened.
  unfoldable pub named_vaults : Text → Text → List VaultRow → Result (List VaultRow)
  named_vaults root_key ref [] = ok []
  named_vaults root_key ref (row ∷ rows) = Errors.◌>>=◌ (vault_payload root_key row) λ payload.
      Errors.◌>>=◌ (named_vaults root_key ref rows)
        λ rest. ok (if payload.name == ref then row ∷ rest else rest)

  unfoldable pub one_vault : List VaultRow → Result VaultRow
  one_vault [] = err not_found
  one_vault (row ∷ []) = ok row
  one_vault (row ∷ _ ∷ _) = err conflict

  unfoldable pub vault_by_ref : Text → Text → List VaultRow → Result VaultRow
  unfolding named_vaults one_vault
  vault_by_ref root_key ref rows = elim (find (vault_has_id ref) rows) [
    | some row ↦ ok row
    | none ↦ Errors.◌>>=◌ (named_vaults root_key ref rows) one_vault
  ]

  unfoldable pub find_vault : Text → Exec VaultRow
  unfolding vault_by_ref
  find_vault ref = do s ← gets (λ s. s); lift (vault_by_ref s.root_key ref s.vaults)

  -- The first vault with this name, which stops the search.
  unfoldable pub first_named : Text → Text → List VaultRow → Result (Option (Text × VaultPayload))
  first_named root_key name [] = ok none
  first_named root_key name (row ∷ rows) = Errors.◌>>=◌ (vault_payload root_key row) λ payload.
      let rest = first_named root_key name rows in
      if payload.name == name then ok (some (row.id, payload)) else rest

  -- The INSERT of `create_vault`.
  unfoldable pub insert_vault : VaultPayload → Exec (Text × VaultPayload)
  insert_vault payload = do
    draw ← random
    let vault_id = codes "vlt_" ++ draw
    key ← random
    ts ← now
    root_key ← gets (λ s. s.root_key)
    wrapped ← seal_text root_key key (vault_key_aad vault_id)
    sealed ← seal_value p.vault_codec key payload (vault_payload_aad vault_id)
    vaults ← gets (λ s. s.vaults)
    check (any (vault_has_id vault_id) vaults || any (has_source payload.source) vaults) internal
    let row : VaultRow = record {
      id = vault_id;
      wrapped_key = wrapped;
      payload = sealed;
      source_kind = payload.source.kind;
      source_id = payload.source.id;
      created_at = ts;
      updated_at = ts;
    }
    modify (λ s. record s { vaults = s.vaults ++ row ∷ [] })
    pure (vault_id, payload)

  -- The UPDATE of `create_vault`, for a source that was imported before.
  unfoldable pub update_vault : VaultRow → VaultPayload → Exec (Text × VaultPayload)
  update_vault existing payload = do
    root_key ← gets (λ s. s.root_key)
    key ← lift (vault_key root_key existing)
    sealed ← seal_value p.vault_codec key payload (vault_payload_aad existing.id)
    ts ← now
    modify (λ s. record s {
      vaults =
          update_where (vault_has_id existing.id)
            (λ row. record row { payload = sealed; updated_at = ts }) s.vaults;
    })
    pure (existing.id, payload)

  unfoldable pub create_vault : Text → Text → Source → Exec (Text × VaultPayload)
  unfolding insert_vault update_vault first_named
  create_vault raw_name description source = do
    let name = strip raw_name
    check (is_empty name) validation_error
    let payload : VaultPayload = record { name = name; description = description; source = source }
    s ← gets (λ s. s)
    if truthy source.kind && truthy source.id
        then case_of (find (has_source source) s.vaults) (insert_vault payload)
            (λ existing. update_vault existing payload)
        else do
          found ← lift (first_named s.root_key name s.vaults)
          case_of found (insert_vault payload) pure
