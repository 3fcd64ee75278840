-- ===== src/Sealing.antt =====
-- The key hierarchy of passd/service.py: which key and which associated text a row is sealed under.
use passd.Errors
use passd.Base.{find, ◌++◌}
use passd.Errors.{not_found, Result}
use passd.Text.{◌==◌, Text, codes}
use passd.Platform.{Platform, Codec}
use passd.Payload.{VaultPayload, ItemPayload, Definition, AccessPayload}
use passd.Crypto.{Envelope, seal, open_sealed, seal_json, open_json}
use passd.Db.{VaultRow, ItemRow, CapabilityRow, AccessRow}
use passd.Exec.{lift, require, pure, gets, random, Exec, ◌>>=◌}

-- f"passd/{table}/{id}/{column}"
unfoldable pub aad : Text → Text → Text → Text
aad table id column = codes "passd/" ++ (table ++ (codes "/" ++ (id ++ (codes "/" ++ column))))

abbrev pub vault_key_aad : Text → Text
vault_key_aad id = aad (codes "vault") id (codes "key")

abbrev pub vault_payload_aad : Text → Text
vault_payload_aad id = aad (codes "vault") id (codes "payload")

abbrev pub item_key_aad : Text → Text
item_key_aad id = aad (codes "item") id (codes "key")

abbrev pub item_payload_aad : Text → Text
item_payload_aad id = aad (codes "item") id (codes "payload")

abbrev pub capability_aad : Text → Text
capability_aad id = aad (codes "capability") id (codes "payload")

abbrev pub access_aad : Text → Text
access_aad id = aad (codes "access") id (codes "payload")

abbrev pub audit_aad : Text
audit_aad = codes "passd/audit/payload"

module _ ⦃p : Platform⦄ where
  -- `_vault_key`, `_vault_payload`, `_item_key`
  unfoldable pub vault_key : Text → VaultRow → Result Text
  vault_key root_key row = open_sealed root_key row.wrapped_key (vault_key_aad row.id)

  unfoldable pub vault_payload : Text → VaultRow → Result VaultPayload
  unfolding vault_key
  vault_payload root_key row =
      Errors.◌>>=◌ (vault_key root_key row)
        λ key. open_json p.vault_codec key row.payload (vault_payload_aad row.id)

  unfoldable pub item_key : ItemRow → Text → Result Text
  item_key row key = open_sealed key row.wrapped_key (item_key_aad row.id)

  -- `_item_payload`: through the row's vault
  unfoldable pub item_payload : ItemRow → Exec ItemPayload
  unfolding vault_key item_key
  item_payload row = do
    s ← gets (λ s. s)
    vault ← require (find (λ (v : VaultRow). v.id == row.vault_id) s.vaults) not_found
    vkey ← lift (vault_key s.root_key vault)
    ikey ← lift (item_key row vkey)
    lift (open_json p.item_codec ikey row.payload (item_payload_aad row.id))

  -- `_capability_payload`, `_access_payload`
  unfoldable pub capability_payload : Text → CapabilityRow → Result Definition
  capability_payload root_key row =
      open_json p.definition_codec root_key row.payload (capability_aad row.id)

  unfoldable pub access_payload : Text → AccessRow → Result AccessPayload
  access_payload root_key row = open_json p.access_codec root_key row.payload (access_aad row.id)

  -- `seal` and `seal_json`, with a fresh nonce
  abbrev pub seal_text : Text → Text → Text → Exec Envelope
  seal_text key text aad = do nonce ← random; pure (seal nonce key text aad)

  abbrev pub seal_value : {A : Type 0} → Codec A → Text → A → Text → Exec Envelope
  seal_value c key value aad = do nonce ← random; pure (seal_json c nonce key value aad)

  -- `_seal_access_payload`
  abbrev pub seal_access_payload : Text → AccessPayload → Exec Envelope
  seal_access_payload id payload = do
    root_key ← gets (λ s. s.root_key)
    seal_value p.access_codec root_key payload (access_aad id)
