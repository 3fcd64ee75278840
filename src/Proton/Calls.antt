-- ===== src/Proton/Calls.antt =====
-- The calls that an import makes, in the order of the export: `import_export` of
-- passd/proton_import.py.
use passd.Base.{false, ◌⊎◌, sym, is_empty, true, some, inr, inl, Bool-cases, [], ◌∷◌, List, ◌≡◌}
use passd.Platform.{Platform}
use passd.Proton.{
  uuid_of, item_params, vault_of_reply, vault_params, admin_request, import_vaults, import_item,
  is_active_item, ExportVault, import_items, ExportItem, Imported,
}
use passd.Text.{codes, Text}
use passd.Db.{Service}
use passd.Errors.{internal, ok}
use passd.Exec.Laws.{require_ok, bind_ok, pure_ok}
use passd.Dispatch.Handle.{handle}
use passd.Exec.{random}
use passd.Dispatch.{Reply}

module _ ⦃p : Platform⦄ (password : Text) where
  -- The id that an item is imported under: its own, or a random one.
  abbrev Named : ExportItem → Text → (s t : Service) → Type 0
  Named item uuid s t =
      ((is_empty (uuid_of item) ≡ false) × (uuid ≡ uuid_of item) × (t ≡ s))
      ⊎ ((is_empty (uuid_of item) ≡ true) × (random s ≡ (ok uuid, t)))

  -- One call for each item that is not in the trash, in turn, and nothing else: each has put its item
  -- into the vault, under its source.
  abbrev pub ItemsPut : Text → Text → List ExportItem → (s s' : Service) → Type 0
  ItemsPut local_vault vault_id [] s s' = s ≡ s'
  ItemsPut local_vault vault_id (item ∷ items) s s' =
      ((is_active_item item ≡ true)
        × (uuid : Text) × (named : Service) × (reply : Reply) × (t : Service) × Named item uuid s
            named
        × (handle
              (admin_request (codes "item.put") (item_params local_vault vault_id uuid item)
                password)
              named
            ≡ (ok reply, t))
        × ItemsPut local_vault vault_id items t s')
      ⊎ ((is_active_item item ≡ false) × ItemsPut local_vault vault_id items s s')

  -- For each vault one call that makes it, or finds it, and then those for its items.
  abbrev pub VaultsMade : List (Text × ExportVault) → (s s' : Service) → Type 0
  VaultsMade [] s s' = s ≡ s'
  VaultsMade ((vault_id, vault) ∷ vaults) s s' =
      (made : Reply) × (local_vault : Text) × (t : Service) × (u : Service) × (handle
          (admin_request (codes "vault.create") (vault_params vault_id vault) password) s
        ≡ (ok made, t))
      × (vault_of_reply made ≡ some local_vault)
      × ItemsPut local_vault vault_id vault.items t u
      × VaultsMade vaults u s'

  import_item_put :
      (local_vault vault_id : Text) (item : ExportItem) (reply : Reply) (s t : Service)
      → import_item password local_vault vault_id item s ≡ (ok reply, t)
      → (uuid : Text) × (named : Service) × Named item uuid s named
        × (handle
              (admin_request
                (codes "item.put")
                (item_params local_vault vault_id uuid item)
                password)
              named
            ≡ (ok reply, t))
  unfolding import_item
  import_item_put local_vault vault_id item reply s t h =
      let (uuid, named, drawn, put) = bind_ok _ _ s h in
      elim (Bool-cases (is_empty (uuid_of item))) [
        | inl missing ↦ (uuid, named, inr (missing, rw missing at drawn), put)
        | inr there ↦
            let (same, still) = pure_ok (uuid_of item) s (rw there at drawn) in
            (uuid, named, inl (there, sym same, sym still), put)
      ]

  import_items-ItemsPut :
      (local_vault vault_id : Text) (items : List ExportItem) (counts after : Imported)
      (s s' : Service)
      → import_items password local_vault vault_id items counts s ≡ (ok after, s')
      → ItemsPut local_vault vault_id items s s'
  unfolding import_items
  import_items-ItemsPut local_vault vault_id [] counts after s s' h = (pure_ok counts s h).1
  import_items-ItemsPut local_vault vault_id (item ∷ items) counts after s s' h =
      elim (Bool-cases (is_active_item item)) [
        | inl active ↦
            let (reply, t, h1, h2) =
              bind_ok (import_item password local_vault vault_id item) _ s (rw active at h) in
            let (uuid, named, name_is, put) =
              import_item_put local_vault vault_id item reply s t h1 in
            inl (
              active,
              uuid,
              named,
              reply,
              t,
              name_is,
              put,
              import_items-ItemsPut local_vault vault_id items _ after t s' h2,
            )
        | inr trashed ↦ inr (
          trashed,
          import_items-ItemsPut local_vault vault_id items _ after s s' (rw trashed at h),
        )
      ]

  pub import_vaults-VaultsMade :
      (vaults : List (Text × ExportVault)) (counts after : Imported) (s s' : Service)
      → import_vaults password vaults counts s ≡ (ok after, s')
      → VaultsMade vaults s s'
  unfolding import_vaults
  import_vaults-VaultsMade [] counts after s s' h = (pure_ok counts s h).1
  import_vaults-VaultsMade ((vault_id, vault) ∷ vaults) counts after s s' h =
      let (made, t, h1, h2) =
        bind_ok
          (handle (admin_request (codes "vault.create") (vault_params vault_id vault) password)) _ s
          h in
      let (local_vault, there, h3) = require_ok (vault_of_reply made) internal _ t h2 in
      let (later, u, h4, h5) =
        bind_ok (import_items password local_vault vault_id vault.items counts) _ t h3 in
      (
        made,
        local_vault,
        t,
        u,
        h1,
        there,
        import_items-ItemsPut local_vault vault_id vault.items counts later t u h4,
        import_vaults-VaultsMade vaults later after u s' h5,
      )
