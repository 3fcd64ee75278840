-- ===== src/Proton/Counts.antt =====
-- What an import has done: `import_export` of passd/proton_import.py.
use passd.Base.{some, [], if◌then◌else◌, ◌++◌, ◌∷◌, ℕ, List, ◌≡◌, ◌+◌}
use passd.Platform.{Platform}
use passd.Proton.{
  vault_params, admin_request, import_vaults, import_export, is_active_item, ExportVault,
  ExportItem, Imported,
}
use passd.Text.{◌==◌, codes, Text}
use passd.Db.{Service}
use passd.Errors.{AuthMessage, auth_error, err}
use passd.Dispatch.Handle.{as_admin, dispatch, handle}
use passd.Exec.{◌>>=◌}
use passd.Broker.{verify_admin_password}
use passd.Dispatch.{Params, op_of}

-- The items that are not in the trash, and those that are.
abbrev pub active_count : List ExportItem → ℕ
active_count [] = 0
active_count (item ∷ items) =
    let rest = active_count items in if is_active_item item then rest + 1 else rest

abbrev pub trashed_count : List ExportItem → ℕ
trashed_count [] = 0
trashed_count (item ∷ items) =
    let rest = trashed_count items in if is_active_item item then rest else rest + 1

abbrev pub all_items : List (Text × ExportVault) → List ExportItem
all_items [] = []
all_items ((vault_id, vault) ∷ vaults) = vault.items ++ all_items vaults

-- The counts after some more items.
record IsCounted (before after : Imported) (items : List ExportItem) : Type 0 where
  pub imported : after.imported ≡ before.imported + active_count items
  pub skipped : after.skipped ≡ before.skipped + trashed_count items

module _ ⦃p : Platform⦄ (password : Text) where
  vault_create_refused :
      {why : AuthMessage} (params : Params) (s : Service)
      → verify_admin_password (some password) s ≡ (err (auth_error why), s)
      → handle (admin_request (codes "vault.create") params password) s ≡ (err (auth_error why), s)
  unfolding handle dispatch as_admin op_of ◌>>=◌ ◌==◌
  vault_create_refused params s no_admin = rw no_admin

  -- With a wrong password, an import of any export that has a vault stops at its first call, with
  -- the authentication error of the password, its message included, and changes nothing.
  pub import_export_refused :
      {why : AuthMessage} (vault_id : Text) (vault : ExportVault)
      (vaults : List (Text × ExportVault)) (s : Service)
      → verify_admin_password (some password) s ≡ (err (auth_error why), s)
      → import_export password ((vault_id, vault) ∷ vaults) s ≡ (err (auth_error why), s)
  unfolding import_export import_vaults ◌>>=◌
  import_export_refused vault_id vault vaults s no_admin =
      rw (vault_create_refused (vault_params vault_id vault) s no_admin)
