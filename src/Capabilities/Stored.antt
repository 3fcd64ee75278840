-- ===== src/Capabilities/Stored.antt =====
-- What `put_capability` leaves in the table.
use mathlib.Core.Option
use mathlib.Core.Option.{some-injective}
use passd.Exec.Laws.{
  lifted, pure_ok, bind_ok, now_ok, random_ok, modify_ok, gets_ok, lift_ok, require_ok,
}
use passd.Base.{
  ap, ◌+◌, none, find-none_of_any, find-append_none, inr, ◌∙◌, find-update_where, sym, find_sound,
  inl, any, Bool-cases, [], ◌∷◌, if◌then◌else◌, true, Option, some, find, ◌≡◌, List, refl,
}
use passd.Capabilities.Store.{PublicCapability, capability_has_id, put_capability, store_capability}
use passd.Platform.{IsLawful, Platform}
use passd.Db.{Service, CapabilityRow}
use passd.Text.{Text}
use passd.Payload.{Definition}
use passd.Capabilities.{normalize_definition, RawDefinition}
use passd.Authority.{capability_version}
use passd.Sealing.{capability_aad, seal_value, capability_payload}
use passd.Errors.{ok}
use mathlib.Core.Path.{subst}
use passd.Text.Laws.{eq_refl, eq_iff}
use passd.Crypto.{open_json, seal_json, open_json-seal_json}

-- The row that holds a definition, in a table.
pub record Holds ⦃p : Platform⦄ (root_key : Text) (d : Definition) (rows : List CapabilityRow)
    : Type 0 where
  pub row : CapabilityRow
  pub found : find (capability_has_id d.id) rows ≡ some row
  pub version : row.version ≡ capability_version root_key d
  pub opens : capability_payload root_key row ≡ ok d

-- What a stored row takes from the new one.
record SameContent (new row : CapabilityRow) : Type 0 where
  id : row.id ≡ new.id
  version : row.version ≡ new.version
  payload : row.payload ≡ new.payload

store_capability_found :
    ⦃p : Platform⦄ (new : CapabilityRow) (rows : List CapabilityRow) (row : CapabilityRow)
    → find (capability_has_id new.id) (store_capability new rows) ≡ some row
    → SameContent new row
unfolding store_capability
store_capability_found new rows row h = elim (Bool-cases (any (capability_has_id new.id) rows)) [
  | inl there ↦
      updated (find (capability_has_id new.id) rows)
        (λ r e. find_sound (capability_has_id new.id) rows e)
        (sym (
            find-update_where (capability_has_id new.id) (capability_has_id new.id) renewed rows
              (λ r. refl))
          ∙ (rw there at h))
  | inr absent ↦ appended (
      sym (
        find-append_none (capability_has_id new.id) rows (new ∷ [])
          (find-none_of_any (capability_has_id new.id) rows absent))
      ∙ (rw absent at h))
]
  where
    renewed : CapabilityRow → CapabilityRow
    renewed r = record r {
      version = new.version;
      payload = new.payload;
      updated_at = new.updated_at;
    }

    updated :
        (o : Option CapabilityRow)
        → ((r : CapabilityRow) → o ≡ some r → capability_has_id new.id r ≡ true)
        → Option.map (λ r. if capability_has_id new.id r then renewed r else r) o ≡ some row
        → SameContent new row
    updated none same e = absurd (cc e)
    updated (some r) same e =
        let is_new : renewed r ≡ row = some-injective _ row (rw (same r refl) at e) in
        subst (SameContent new) is_new
          (record { id = (eq_iff r.id new.id).0 (same r refl); version = refl; payload = refl })

    appended : find (capability_has_id new.id) (new ∷ []) ≡ some row → SameContent new row
    appended e =
        let is_new : new ≡ row = some-injective new row (rw (eq_refl new.id) at e) in
        subst (SameContent new) is_new (record { id = refl; version = refl; payload = refl })

module _ ⦃p : Platform⦄ where
  opens_again :
      (row : CapabilityRow) (d : Definition) (root_key nonce : Text)
      → IsLawful p
      → row.id ≡ d.id
      → row.payload ≡ seal_json p.definition_codec nonce root_key d (capability_aad d.id)
      → capability_payload root_key row ≡ ok d
  unfolding capability_payload
  opens_again row d root_key nonce l same sealed =
      ap (λ i. open_json p.definition_codec root_key row.payload (capability_aad i)) same
      ∙ ap (λ e. open_json p.definition_codec root_key e (capability_aad d.id)) sealed
      ∙ open_json-seal_json p.definition_codec l l.definition nonce root_key d (capability_aad d.id)

  -- A capability that was put is in the table under its id, at the version of its definition, and its
  -- payload opens to that definition, which is the normal form of what was given; provided that
  -- decryption undoes encryption and the codec of definitions reads what it writes.
  pub put_capability-Holds :
      (raw : RawDefinition) (shown : PublicCapability) (s s' : Service)
      → IsLawful p
      → put_capability raw s ≡ (ok shown, s')
      → (d : Definition) × (normalize_definition s.allow_private_broker_targets raw ≡ ok d)
        × Holds s'.root_key d s'.capabilities
  unfolding put_capability
  put_capability-Holds raw shown s s' l h =
      let (d, normal, h1) =
        lift_ok (normalize_definition s.allow_private_broker_targets raw) _ s
          (gets_ok (λ (t : Service). t) _ s h) in
      let (sealed, t, e_sealed, h2) =
        bind_ok (seal_value p.definition_codec s.root_key d (capability_aad d.id)) _ s
          (now_ok _ s h1) in
      let (is_sealed, is_drawn) =
        pure_ok _ (record s { drawn = s.drawn + 1 }) (random_ok _ s e_sealed) in
      let new : CapabilityRow = record {
        id = d.id;
        version = capability_version s.root_key d;
        payload = sealed;
        created_at = s.clock;
        updated_at = s.clock;
      } in
      let t1 : Service = record t { capabilities = store_capability new t.capabilities } in
      let h3 = gets_ok _ _ t1 (modify_ok _ _ t h2) in
      let (row, found, h4) = require_ok (find (capability_has_id d.id) t1.capabilities) _ _ t1 h3 in
      let same = store_capability_found new t.capabilities row found in
      let state : t1 ≡ s' = (lifted _ t1 h4).1 in
      let key : t.root_key ≡ s.root_key = ap (λ (u : Service). u.root_key) (sym is_drawn) in
      (
        d,
        normal,
        subst (λ (u : Service). Holds u.root_key d u.capabilities) state
            (subst (λ k. Holds k d t1.capabilities) (sym key)
              (record {
                row = row;
                found = found;
                version = same.version;
                opens =
                    opens_again row d s.root_key (s.entropy s.drawn) l same.id
                      (same.payload ∙ sym is_sealed);
              })),
      )
