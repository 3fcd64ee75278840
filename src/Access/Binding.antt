-- ===== src/Access/Binding.antt =====
-- To which credential an approval has bound a lease: what was there when it was approved.
use passd.Base.{
  false, if◌then◌else◌, refl, ap, ◌∙◌, sym, some, find, none, Option, ◌≡◌, Bool-cases, inl, inr,
}
use passd.Platform.{Platform}
use passd.Payload.{
  version_changed, on_stale, Target, AccessPayload, Secret, ItemPayload, Definition,
}
use passd.Access.Review.{
  set_status, is_at, update_requests, item_credential_version, check_capability, Bound,
  bind_selector, bind_capability, bind_to,
}
use passd.Text.{Text, ◌==◌}
use passd.Text.Laws.{eq_iff}
use passd.Db.{stale, pending, Service, AccessRow, CapabilityRow, ItemRow}
use passd.Exec.{pure, raise, ◌>>◌, case_of, ◌>>=◌}
use passd.Exec.Laws.{pure_ok, gets_ok, lift_ok, bind_ok}
use passd.Errors.{conflict, ok}
use passd.Items.{resolve_item_ref, extract_field, find_item}
use passd.Sealing.{capability_payload, item_payload}
use passd.Capabilities.{validate_invocation}
use passd.Capabilities.Store.{capability_key, capability_has_id}
use passd.Authority.{credential_version}
use mathlib.Core.Path.{subst}
use passd.Access.Soundness.{item_payload_reads}
use passd.Audit.{audit}

-- What a request asks for.
pub record SameTerms (a b : AccessPayload) : Type 0 where
  pub target : b.target ≡ a.target
  pub reason : b.reason ≡ a.reason
  pub requested_ttl : b.requested_ttl ≡ a.requested_ttl
  pub requested_uses : b.requested_uses ≡ a.requested_uses
  pub authority_digest : b.authority_digest ≡ a.authority_digest

module _ ⦃p : Platform⦄ where
  -- The payload carries the version of a credential, as it is in the state `t`.
  pub record IsBoundTo (item : ItemRow) (field : Option Text) (bound : Bound) (t : Service)
      : Type 0 where
    pub content : ItemPayload
    pub secret : Secret
    pub item_is : bound.item ≡ item
    pub opened : (item_payload item t).0 ≡ ok content
    pub extracted : extract_field content field ≡ ok secret
    pub version :
        bound.payload.approved_credential_version
        ≡ some (credential_version t.root_key item.id field secret)

  -- The credential that the target of a request names: a field of an item; or what backs a capability
  -- that is registered at the requested version, whose contract allows the invocation.
  pub data IsBinding (payload : AccessPayload) (bound : Bound) (s t : Service)
      : Target → Type 0 where
    selected :
        {vault item field : Text} (row : ItemRow) (u : Service)
        → find_item vault item s ≡ (ok row, u)
        → IsBoundTo row (some field) bound t
        → IsBinding payload bound s t (Target.selector vault item field)
    backed :
        {id version method path : Text} (cap_row : CapabilityRow) (definition : Definition)
        (row : ItemRow) (field : Option Text) (u : Service)
        → find (capability_has_id (capability_key id)) s.capabilities ≡ some cap_row
        → cap_row.version ≡ version
        → capability_payload s.root_key cap_row ≡ ok definition
        → (invocation : Text × Text) × (validate_invocation definition method path ≡ ok invocation)
        → resolve_item_ref definition.backing_uri s ≡ (ok (row, field), u)
        → IsBoundTo row field bound t
        → bound.payload.approved_capability_version ≡ some version
        → IsBinding payload bound s t (Target.capability id version method path)

  -- Reading a version changes nothing.
  item_credential_version_ok :
      (row : ItemRow) (field : Option Text) (version : Text) (s t : Service)
      → item_credential_version row field s ≡ (ok version, t)
      → (s ≡ t)
        × (content : ItemPayload) × (secret : Secret) × ((item_payload row s).0 ≡ ok content)
        × (extract_field content field ≡ ok secret)
        × (version ≡ credential_version s.root_key row.id field secret)
  unfolding item_credential_version
  item_credential_version_ok row field version s t h =
      let (content, s1, opened, h1) = bind_ok (item_payload row) _ s h in
      let (secret, extracted, h2) = lift_ok (extract_field content field) _ s1 h1 in
      let (made, still) = pure_ok _ s1 (gets_ok _ _ s1 h2) in
      let same : s1 ≡ s = sym (ap (λ r. r.1) opened) ∙ item_payload_reads row s in
      (
        sym same ∙ still,
        content,
        secret,
        ap (λ r. r.0) opened,
        extracted,
        sym made ∙ ap (λ (v : Service). credential_version v.root_key row.id field secret) same,
      )

  bound_by :
      (row : ItemRow) (field : Option Text) (version : Text) (bound : Bound) (s t : Service)
      → item_credential_version row field s ≡ (ok version, t)
      → bound.item ≡ row
      → bound.payload.approved_credential_version ≡ some version
      → IsBoundTo row field bound t
  bound_by row field version bound s t h item_is carried =
      let (same, content, secret, opened, extracted, made) =
        item_credential_version_ok row field version s t h in
      subst (IsBoundTo row field bound) same (record {
        content = content;
        secret = secret;
        item_is = item_is;
        opened = opened;
        extracted = extracted;
        version = carried ∙ ap some made;
      })

  -- What a binding that returned has done.
  pub record IsBoundFor (payload : AccessPayload) (target : Target) (s : Service) (bound : Bound)
      (t : Service) : Type 0 where
    pub terms : SameTerms payload bound.payload
    pub binding : IsBinding payload bound s t target

  bind_selector_ok :
      (payload : AccessPayload) (vault item field : Text) (bound : Bound) (s t : Service)
      → bind_selector payload vault item field s ≡ (ok bound, t)
      → IsBoundFor payload (Target.selector vault item field) s bound t
  unfolding bind_selector
  bind_selector_ok payload vault item field bound s t h =
      let (row, s1, g1, h1) = bind_ok (find_item vault item) _ s h in
      let (content, s2, g2, h2) = bind_ok (item_payload row) _ s1 h1 in
      let (secret, g3, h3) = lift_ok (extract_field content (some field)) _ s2 h2 in
      let (version, s4, g4, h4) = bind_ok (item_credential_version row (some field)) _ s2 h3 in
      let (made, still) = pure_ok _ s4 h4 in
      subst (IsBoundFor payload (Target.selector vault item field) s bound) still (
        subst (λ (b : Bound). IsBoundFor payload (Target.selector vault item field) s b s4) made
          (record {
            terms = record {
              target = refl;
              reason = refl;
              requested_ttl = refl;
              requested_uses = refl;
              authority_digest = refl;
            };
            binding = selected row s1 g1 (bound_by row (some field) version _ s2 s4 g4 refl refl);
          }))

  check_capability_ok :
      (row : AccessRow) (payload : AccessPayload) (id version : Text) (cap_row : CapabilityRow)
      (s t : Service)
      → check_capability row payload id version s ≡ (ok cap_row, t)
      → (s ≡ t)
        × (find (capability_has_id (capability_key id)) s.capabilities ≡ some cap_row)
        × (version ≡ cap_row.version)
  unfolding check_capability audit ◌>>=◌
  check_capability_ok row payload id version cap_row s t h =
      go (find (capability_has_id (capability_key id)) s.capabilities) refl h
    where
      go :
          (found : Option CapabilityRow)
          → found ≡ find (capability_has_id (capability_key id)) s.capabilities
          → case_of found
              (do update_requests (is_at row.id pending) (set_status stale s.clock); raise conflict)
              (λ cap. if version == cap.version then pure cap else (do
                update_requests (is_at row.id pending) (set_status stale s.clock)
                audit
                    (some row.agent_id)
                    on_stale
                    none
                    row.target_host
                    (some payload.reason)
                    false
                    (version_changed row.id)
                raise conflict))
              s
            ≡ (ok cap_row, t)
          → (s ≡ t)
            × (find (capability_has_id (capability_key id)) s.capabilities ≡ some cap_row)
            × (version ≡ cap_row.version)
      go none e k = absurd (cc k)
      go (some cap) e k = elim (Bool-cases (version == cap.version)) [
        | inl present ↦
            let (same_row, still) = pure_ok cap s (rw present at k) in
            (
              still,
              sym e ∙ ap some same_row,
              (eq_iff version cap.version).0 present
                  ∙ ap (λ (c : CapabilityRow). c.version) same_row,
            )
        | inr changed ↦ absurd (cc (rw changed at k))
      ]

  bind_capability_ok :
      (row : AccessRow) (payload : AccessPayload) (id version method path : Text) (bound : Bound)
      (s t : Service)
      → bind_capability row payload id version method path s ≡ (ok bound, t)
      → IsBoundFor payload (Target.capability id version method path) s bound t
  unfolding bind_capability
  bind_capability_ok row payload id version method path bound s t h =
      let (found, s1, g1, h1) = bind_ok (check_capability row payload id version) _ s h in
      let (same, registered, present) = check_capability_ok row payload id version found s s1 g1 in
      let (definition, g2, h2) =
        lift_ok (capability_payload s1.root_key found) _ s1 (gets_ok _ _ s1 h1) in
      let (invocation, g3, h3) = lift_ok (validate_invocation definition method path) _ s1 h2 in
      let (resolved, s4, g4, h4) = bind_ok (resolve_item_ref definition.backing_uri) _ s1 h3 in
      let (content, s5, g5, h5) = bind_ok (item_payload resolved.0) _ s4 h4 in
      let (secret, g6, h6) = lift_ok (extract_field content resolved.1) _ s5 h5 in
      let (current, s7, g7, h7) = bind_ok (item_credential_version resolved.0 resolved.1) _ s5 h6 in
      let (made, still) = pure_ok _ s7 h7 in
      let target = Target.capability id version method path in
      subst (IsBoundFor payload target s bound) still (
        subst (λ (b : Bound). IsBoundFor payload target s b s7) made
          (record {
            terms = record {
              target = refl;
              reason = refl;
              requested_ttl = refl;
              requested_uses = refl;
              authority_digest = refl;
            };
            binding =
                backed found definition resolved.0 resolved.1 s4 registered (sym present)
                  (subst (λ (v : Service). capability_payload v.root_key found ≡ ok definition)
                    (sym same) g2)
                  (invocation, g3)
                  (subst (λ v. resolve_item_ref definition.backing_uri v ≡ (ok resolved, s4))
                    (sym same) g4)
                  (bound_by resolved.0 resolved.1 current _ s5 s7 g7 refl refl)
                  (ap some (sym present));
          }))

  pub bind_to_ok :
      (row : AccessRow) (payload : AccessPayload) (target : Target) (bound : Bound) (s t : Service)
      → bind_to row payload target s ≡ (ok bound, t)
      → IsBoundFor payload target s bound t
  unfolding bind_to
  bind_to_ok row payload (Target.selector v i f) bound s t h =
      bind_selector_ok payload v i f bound s t h
  bind_to_ok row payload (Target.capability id version method path) bound s t h =
      bind_capability_ok row payload id version method path bound s t h
