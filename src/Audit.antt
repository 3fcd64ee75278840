-- ===== src/Audit.antt =====
-- The audit log: `audit` and `list_audit` of passd/service.py. Rows of releases before v2.1, which
-- held their detail in plain text, are not modelled.
use passd.Base.{
  if◌then◌else◌, take, filter, ◌+◌, find, length, ◌++◌, leb, [], order_by, min, ◌∷◌, max, false,
  none, List, Bool, some, ℕ, Option,
}
use passd.Text.{◌==◌, Text}
use passd.Platform.{Platform}
use passd.Payload.{AuditPayload, Detail, Operation}
use passd.Db.{AuditRow, ItemRow}
use passd.Errors
use passd.Agents.{has_ref}
use passd.Exec.{case_of, lift, lift, require, pure, modify, now, gets, Exec, ◌>>=◌}
use passd.Errors.{not_found, ok, Result}
use passd.Sealing.{audit_aad, seal_value}
use passd.Crypto.{open_json}
use passd.Vaults.{truthy}

abbrev vault_of : Option ItemRow → Option Text
vault_of none = none
vault_of (some row) = some row.vault_id

abbrev item_of : Option ItemRow → Option Text
item_of none = none
item_of (some row) = some row.id

abbrev agent_matches : Text → AuditRow → Bool
agent_matches id row = elim row.agent_id [ none ↦ false | some a ↦ a == id ]

module _ ⦃p : Platform⦄ where
  -- The id is `AUTOINCREMENT`, and no row is ever deleted.
  unfoldable pub audit :
      Option Text
      → Operation
      → Option ItemRow
      → Option Text
      → Option Text
      → Bool
      → Detail
      → Exec (Unit {0})
  audit agent_id operation item target reason allowed detail = do
    root_key ← gets (λ s. s.root_key)
    let payload : AuditPayload = record { reason = reason; detail = detail }
    sealed ← seal_value p.audit_codec root_key payload audit_aad
    ts ← now
    modify (λ s. record s {
      audits =
          s.audits
          ++ record {
            id = length s.audits + 1;
            ts = ts;
            agent_id = agent_id;
            operation = operation;
            vault_id = vault_of item;
            item_id = item_of item;
            target = target;
            allowed = allowed;
            detail = sealed;
          }
            ∷ [];
    })

  unfoldable pub open_rows : Text → List AuditRow → Result (List (AuditRow × AuditPayload))
  open_rows root_key [] = ok []
  open_rows root_key (row ∷ rows) =
      Errors.◌>>=◌ (open_json p.audit_codec root_key row.detail audit_aad)
        λ payload. Errors.◌>>=◌ (open_rows root_key rows) λ rest. ok ((row, payload) ∷ rest)

  -- `ORDER BY id DESC LIMIT limit`; a reference that names several agents stands for the first.
  unfoldable pub list_audit : Option Text → ℕ → Exec (List (AuditRow × AuditPayload))
  unfolding open_rows
  list_audit agent_ref limit = do
    s ← gets (λ s. s)
    let most = max 1 (min limit 1000)
    let newest = order_by (λ (a b : AuditRow). leb b.id a.id)
    rows ← case_of (if truthy agent_ref then agent_ref else none) (pure (newest s.audits)) λ ref. do
      agent ← require (find (has_ref ref) s.agents) not_found
      pure (newest (filter (agent_matches agent.id) s.audits))
    lift (open_rows s.root_key (take most rows))
