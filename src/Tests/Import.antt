-- ===== src/Tests/Import.antt =====
-- The theorems on the import, each applied to a concrete export.
use passd.Tests.World.{toy}
use passd.Payload.{Value}
use passd.Base.{[], none, some, All, List, ◌≡◌, refl, ◌∷◌}
use passd.Errors.{AuthMessage, auth_error, err, ok, Result}
use passd.Proton.{map_fields, ExportVault, Imported, ItemData, import_export, ExportItem}
use passd.Proton.Counts.{import_export_refused}
use passd.Db.{Service}
use passd.Broker.{verify_admin_password}
use passd.Text.{Text, codes}
use passd.Proton.Fields.{map_fields-AllThere, IsThere}
use passd.Tests.Story.{service_with}

abbrev login : ItemData
login = record {
  type = some (codes "login");
  content = (codes "itemEmail", Value.null) ∷ (codes "password", Value.text (codes "p")) ∷ [];
  urls = [];
  extra_fields =
      record { name = some (codes "k"); content = none; totp_uri = some (Value.integer 3) } ∷ [];
  name = some (codes "L");
  note = none;
  uuid = some (codes "u");
}

abbrev login_item : ExportItem
login_item = record { state = none; idata = login; id = none; raw = codes "{}" }

abbrev export : List (Text × ExportVault)
export =
    (
      codes "x",
      record {
        name = some (codes "N");
        description = none;
        items = login_item ∷ record login_item { state = some (some 2) } ∷ [];
      },
    )
    ∷ []

abbrev house : Service
house = service_with []

abbrev counts_of : Result Imported → Imported
counts_of (ok counts) = counts
counts_of (err e) = record { imported = 0; skipped = 0; vaults = 0 }

abbrev import : Result Imported × Service
import = import_export (codes "r") export house

wrong_password :
    verify_admin_password (some (codes "w")) house
    ≡ (err (auth_error AuthMessage.wrong_password), house)
unfolding verify_admin_password passd.Exec.◌>>=◌
wrong_password = refl

import_export_refused_example :
    import_export (codes "w") export house ≡ (err (auth_error AuthMessage.wrong_password), house)
import_export_refused_example =
    import_export_refused (codes "w") (codes "x")
      (record {
        name = some (codes "N");
        description = none;
        items = login_item ∷ record login_item { state = some (some 2) } ∷ [];
      })
      [] house wrong_password

map_fields-AllThere_example : All IsThere (map_fields login)
map_fields-AllThere_example = map_fields-AllThere login
