-- ===== src/Access/Soundness/Capability.antt =====
-- One round of `_consume_capability_grant`: what holds when it claims.
use passd.Base.{
  Option, inr, sym, ap, ◌∙◌, arith, ◌&&◌, inl, Bool-cases, if◌then◌else◌, none, some, ◌≡◌,
}
use passd.Text.{◌==◌, Text}
use passd.Text.Laws.{eq_iff}
use passd.Platform.{Platform}
use passd.Db.{ItemRow, CapabilityRow, Service, AccessRow}
use passd.Access.Soundness.{some_ok, Charged, settle_ok, capability_backing_ok}
use passd.Access.Claim.{settle, capability_backing, item_for, Claim, invokes, try_capability}
use passd.Payload.{ItemPayload, Secret, Target, AccessPayload}
use passd.Sealing.{item_payload, access_payload}
use passd.Errors.{ok}
use passd.Exec.Laws.{bind_ok, gets_ok, lift_ok}
use passd.Refs.{parse_pass_ref, PassRef}
use passd.Items.{extract_field}
use passd.Authority.{credential_version}
use mathlib.Core.Path.{subst}

-- What a round on a lease of a capability has checked when it claims.
pub record CapabilityRound ⦃p : Platform⦄ (cap_row : CapabilityRow) (uri method path : Text)
    (c : Claim) (s s' : Service) : Type 0 where
  pub payload : AccessPayload
  pub opened : access_payload s.root_key c.lease ≡ ok payload
  pub target : payload.target ≡ Target.capability cap_row.id cap_row.version method path
  pub ref : PassRef
  pub parsed : parse_pass_ref uri ≡ ok ref
  pub backed : item_for c.lease.item_id s.items ≡ some c.item
  pub content : (item_payload c.item s).0 ≡ ok c.content
  pub secret : Secret
  pub extracted : extract_field c.content ref.field ≡ ok secret
  pub unchanged :
      payload.approved_credential_version
      ≡ some (credential_version s.root_key c.item.id ref.field secret)
  pub charged : Charged c.lease s s'

invokes_ok :
    (payload : AccessPayload) (id version method path : Text)
    → invokes payload id method path ≡ some version
    → payload.target ≡ Target.capability id version method path
unfolding invokes
invokes_ok payload id version method path h = go payload.target h
  where
    go :
        (target : Target)
        → elim target [
          | Target.selector _ _ _ ↦ none
          | Target.capability c v m q ↦ if c == id && m == method && q == path then some v else none
        ]
          ≡ some version
        → target ≡ Target.capability id version method path
    go (Target.selector v i f) e = absurd (cc e)
    go (Target.capability c v m q) e = ground (arith, eq_iff c id, eq_iff m method, eq_iff q path)

module _ ⦃p : Platform⦄ where
  module _ (cap_row : CapabilityRow) (uri method path : Text) (row : AccessRow) (c : Claim)
      (s s' : Service) where
    -- The part of a round behind the version check.
    from_settled :
        (payload : AccessPayload) (ref : PassRef) (backing : Option (ItemRow × ItemPayload))
        (t : Service)
        → access_payload s.root_key row ≡ ok payload
        → payload.target ≡ Target.capability cap_row.id cap_row.version method path
        → parse_pass_ref uri ≡ ok ref
        → capability_backing payload ref.field (item_for row.item_id s.items) s ≡ (ok backing, t)
        → (c.lease ≡ row) × (backing ≡ some (c.item, c.content)) × Charged row t s'
        → (c.lease ≡ row) × CapabilityRound cap_row uri method path c s s'
    from_settled payload ref backing t opened target parsed h (lease, backed, charged) = finish (
        capability_backing_ok payload ref.field (item_for row.item_id s.items) c.item c.content s t
          (rw backed at h))
      where
        finish :
            (t ≡ s)
              × (item_for row.item_id s.items ≡ some c.item)
              × ((item_payload c.item s).0 ≡ ok c.content)
              × ((secret : Secret) × (extract_field c.content ref.field ≡ ok secret)
                  × (payload.approved_credential_version
                      ≡ some (credential_version s.root_key c.item.id ref.field secret)))
            → (c.lease ≡ row) × CapabilityRound cap_row uri method path c s s'
        finish (same, found, content, (secret, extracted, version_same)) = (
          lease,
          record {
            payload = payload;
            opened = rw lease opened;
            target = target;
            ref = ref;
            parsed = parsed;
            backed = rw lease found;
            content = content;
            secret = secret;
            extracted = extracted;
            unchanged = version_same;
            charged =
                subst (λ l. Charged l s s') (sym lease)
                  (subst (λ u. Charged row u s') same charged);
          },
        )

    pub try_capability_ok :
        try_capability cap_row uri method path row s ≡ (ok (some c), s')
        → (c.lease ≡ row) × CapabilityRound cap_row uri method path c s s'
    unfolding try_capability
    try_capability_ok h =
        let (payload, opened, h1) = lift_ok (access_payload s.root_key row) _ s (gets_ok _ _ s h) in
        let (version, named, h2) = some_ok (invokes payload cap_row.id method path) _ s h1 in
        elim (Bool-cases (version == cap_row.version)) [
          | inl same_version ↦
              let (ref, parsed, h3) = lift_ok (parse_pass_ref uri) _ s (rw same_version at h2) in
              let (backing, t, h4, h5) =
                bind_ok (capability_backing payload ref.field (item_for row.item_id s.items))
                  (settle row) s h3 in
              from_settled payload ref backing t opened
                (invokes_ok payload cap_row.id version method path named
                  ∙ ap (λ v. Target.capability cap_row.id v method path)
                      ((eq_iff version cap_row.version).0 same_version))
                parsed h4 (settle_ok row backing c t s' h5)
          | inr other ↦ absurd (cc (settle_ok row none c s s' (rw other at h2)).1)
        ]
