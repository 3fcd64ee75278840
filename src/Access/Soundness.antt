-- ===== src/Access/Soundness.antt =====
-- What a claim that returned has checked: the lease it charged, and the credential behind it.
pub mod Exact
pub mod Capability
pub mod Invocation
use passd.Base.{
  &&-split, false, refl, All-filter, All-order_by, Among, ap, ◌∙◌, Bool-cases, ◌∷◌, All, List, [],
  or_else, inr, ◌&&◌, inl, if◌then◌else◌, true, none, some, update_where, arith, filter, ◌≡◌,
  length, Option,
}
use passd.Text.{◌==◌, Text}
use passd.Platform.{Platform}
use passd.Db.{AgentRow, ItemRow, Service, AccessRow}
use passd.Exec.{case_of, pure, Exec, ◌>>=◌}
use passd.Access.Claim.{
  check_exact, exact_candidates, consume_exact_grant, item_for, selects, first_claim, try_exact,
  capability_backing, version_ok, Claim, exact_backing, settle, claimable, spend,
}
use passd.Sealing.{access_payload, item_payload}
use passd.Payload.{Target, Scope, Secret, AccessPayload, ItemPayload}
use passd.Errors.{sequence_ok, ok_injective, permission_denied, Result-cases, ok}
use passd.Items.{extract_field}
use passd.Authority.{credential_version, item_version}
use passd.Crypto.Column.{dumps}
use passd.Vaults.{truthy}
use passd.Text.Laws.{eq_iff}
use passd.Exec.Moves.{Moves}
use passd.Access.Table.{table_order, TableGrows}
use passd.Exec.Laws.{pure_ok, case_ok, else_ok, bind_ok, gets_ok, lift_ok}
use mathlib.Core.Path.{subst}
use passd.Agents.{scope_eq}
use passd.Access.{is_blank, option_eq, expiry_le, of_agent, is_active}
use passd.Refs.{PassRef}
use passd.Access.Table.Claims.{try_exact-grows}

-- The state after one use of a lease was charged, at the one row that it stands in.
pub record Charged (row : AccessRow) (s s' : Service) : Type 0 where
  pub once : length (filter (claimable row.id s.clock) s.access_requests) ≡ 1
  pub result : s' ≡ record s {
    access_requests = update_where (claimable row.id s.clock) spend s.access_requests;
  }

-- A text that is there and equals the current version.
matched :
    {A : Type 0} (approved : Option Text) (current : Text) (a b : A)
    → (if truthy approved && or_else approved [] == current then some a else none) ≡ some b
    → (a ≡ b) × (approved ≡ some current)
matched none current a b h = ground arith
matched (some v) current a b h = ground (arith, eq_iff v current)

same_text :
    (approved : Option Text) (current : Text)
    → truthy approved ≡ true
    → (or_else approved [] == current) ≡ true
    → approved ≡ some current
same_text none current h e = absurd (cc h)
same_text (some v) current h e = ap some ((eq_iff v current).0 e)

selects_ok :
    (payload : AccessPayload) (vault item field : Text)
    → selects payload vault item field ≡ true
    → payload.target ≡ Target.selector vault item field
unfolding selects
selects_ok payload vault item field h = go payload.target h
  where
    go :
        (target : Target)
        → elim target [
          | Target.selector v i f ↦ v == vault && i == item && f == field
          | Target.capability _ _ _ _ ↦ false
        ]
          ≡ true
        → target ≡ Target.selector vault item field
    go (Target.selector v i f) e = ground (arith, eq_iff v vault, eq_iff i item, eq_iff f field)
    go (Target.capability c v m q) e = absurd (cc e)

pub no_claim : (c : Claim) (s s' : Service) → ¬ (pure none s ≡ (ok (some c), s'))
unfolding ◌>>=◌
no_claim c s s' h = cc h

-- A round that goes on with the next candidate where there is no value.
pub some_ok :
    {A : Type 0} (o : Option A) (f : A → Exec (Option Claim)) (s : Service) {c : Claim}
    {s' : Service}
    → case_of o (pure none) f s ≡ (ok (some c), s')
    → (a : A) × (o ≡ some a) × (f a s ≡ (ok (some c), s'))
unfolding ◌>>=◌
some_ok none f s {c} {s'} h = absurd (no_claim c s s' h)
some_ok (some a) f s h = (a, refl, h)

module _ ⦃p : Platform⦄ where
  pub settle_ok :
      (row : AccessRow) (backing : Option (ItemRow × ItemPayload)) (c : Claim) (s s' : Service)
      → settle row backing s ≡ (ok (some c), s')
      → (c.lease ≡ row) × (backing ≡ some (c.item, c.content)) × Charged row s s'
  unfolding settle ◌>>=◌
  settle_ok row none c s s' h = ground arith
  settle_ok row (some (item, content)) c s s' h = ground arith

  -- Reading an item changes nothing.
  pub item_payload_reads : (row : ItemRow) (s : Service) → (item_payload row s).1 ≡ s
  unfolding item_payload ◌>>=◌
  item_payload_reads row s = ground arith

  pub exact_backing_ok :
      (payload : AccessPayload) (field : Text) (found : Option ItemRow) (item : ItemRow)
      (content : ItemPayload) (s s' : Service)
      → exact_backing payload field found s ≡ (ok (some (item, content)), s')
      → (s' ≡ s)
        × (found ≡ some item)
        × ((item_payload item s).0 ≡ ok content)
        × (version_ok s.root_key payload field item content ≡ ok true)
  unfolding exact_backing ◌>>=◌
  exact_backing_ok payload field none item content s s' h = ground arith
  exact_backing_ok payload field (some row) item content s s' h =
      ground (arith, item_payload_reads row s)

  pub capability_backing_ok :
      (payload : AccessPayload) (field : Option Text) (found : Option ItemRow) (item : ItemRow)
      (content : ItemPayload) (s s' : Service)
      → capability_backing payload field found s ≡ (ok (some (item, content)), s')
      → (s' ≡ s)
        × (found ≡ some item)
        × ((item_payload item s).0 ≡ ok content)
        × ((secret : Secret) × (extract_field content field ≡ ok secret)
            × (payload.approved_credential_version
                ≡ some (credential_version s.root_key item.id field secret)))
  unfolding capability_backing ◌>>=◌
  capability_backing_ok payload field none item content s s' h = ground arith
  capability_backing_ok payload field (some row) item content s s' h =
      elim (Result-cases (item_payload row s).0) [
        | inl (cont, e) ↦ elim (Result-cases (extract_field cont field)) [
          | inl (secret, e') ↦
              let current = credential_version s.root_key row.id field secret in
              let (same, approved) =
                matched {A = ItemRow × ItemPayload} payload.approved_credential_version current
                  (row, cont) (item, content) (ground (arith, item_payload_reads row s)) in
              (
                ground (arith, item_payload_reads row s),
                ground arith,
                ground arith,
                (secret, ground arith, ground arith),
              )
          | inr (e', fails) ↦ ground (arith, item_payload_reads row s)
        ]
        | inr (e, fails) ↦ ground (arith, item_payload_reads row s)
      ]

  -- The credential behind a lease is what was approved: it has the version that the lease is bound
  -- to; or the lease, of an older release, is bound to the version of the whole item, or to the text
  -- of its row.
  pub data IsUnchanged (root_key : Text) (payload : AccessPayload) (field : Text) (row : ItemRow)
      (content : ItemPayload) : Type 0 where
    by_credential :
        (secret : Secret)
        → extract_field content (some field) ≡ ok secret
        → payload.approved_credential_version
          ≡ some (credential_version root_key row.id (some field) secret)
        → IsUnchanged root_key payload field row content
    by_item :
        truthy payload.approved_credential_version ≡ false
        → payload.approved_item_version ≡ some (item_version root_key content)
        → IsUnchanged root_key payload field row content
    by_row :
        truthy payload.approved_credential_version ≡ false
        → truthy payload.approved_item_version ≡ false
        → payload.approved_item_fingerprint ≡ some (p.sha256 (dumps row.payload))
        → IsUnchanged root_key payload field row content

  version_ok_sound :
      (root_key : Text) (payload : AccessPayload) (field : Text) (row : ItemRow)
      (content : ItemPayload)
      → version_ok root_key payload field row content ≡ ok true
      → IsUnchanged root_key payload field row content
  unfolding version_ok
  version_ok_sound root_key payload field row content h =
      elim (Bool-cases (truthy payload.approved_credential_version)) [
        | inl bound ↦
            let (secret, extracted, k) =
              sequence_ok (extract_field content (some field)) _ (rw bound at h) in
            by_credential secret extracted (same_text _ _ bound (ok_injective k))
        | inr unbound ↦ elim (Bool-cases (truthy payload.approved_item_version)) [
          | inl older ↦
              by_item unbound (same_text _ _ older (ok_injective (rw (unbound, older) at h)))
          | inr oldest ↦
              let both =
                &&-split (truthy payload.approved_item_fingerprint) _
                  (ok_injective (rw (unbound, oldest) at h)) in
              by_row unbound oldest (same_text _ _ both.0 both.1)
        ]
      ]

  -- What a round on a lease of a field has checked when it claims. `s` is the state of the round.
  pub record ExactRound (vault item field : Text) (c : Claim) (s s' : Service) : Type 0 where
    pub payload : AccessPayload
    pub opened : access_payload s.root_key c.lease ≡ ok payload
    pub target : payload.target ≡ Target.selector vault item field
    pub backed : item_for c.lease.item_id s.items ≡ some c.item
    pub content : (item_payload c.item s).0 ≡ ok c.content
    pub unchanged : IsUnchanged s.root_key payload field c.item c.content
    pub charged : Charged c.lease s s'

  pub try_exact_ok :
      (vault item field : Text) (row : AccessRow) (c : Claim) (s s' : Service)
      → try_exact vault item field row s ≡ (ok (some c), s')
      → (c.lease ≡ row) × ExactRound vault item field c s s'
  unfolding try_exact
  try_exact_ok vault item field row c s s' h =
      let (payload, opened, h1) = lift_ok (access_payload s.root_key row) _ s (gets_ok _ _ s h) in
      elim (Bool-cases (selects payload vault item field)) [
        | inl sel ↦
            let (backing, t, h2, h3) =
              bind_ok (exact_backing payload field (item_for row.item_id s.items)) (settle row) s
                (rw sel at h1) in
            let (lease, backed, charged) = settle_ok row backing c t s' h3 in
            let (same, found, content, version) =
              exact_backing_ok payload field (item_for row.item_id s.items) c.item c.content s t
                (rw backed at h2) in
            (
              lease,
              record {
                payload = payload;
                opened = rw lease opened;
                target = selects_ok payload vault item field sel;
                backed = rw lease found;
                content = content;
                unchanged = version_ok_sound s.root_key payload field c.item c.content version;
                charged = rw lease (subst (λ u. Charged row u s') same charged);
              },
            )
        | inr other ↦ absurd (no_claim c s s' (rw other at h1))
      ]

  -- The round that ends the loop: it began in a state that differs from the first one by legal
  -- steps on requests only.
  abbrev pub Round :
      (AccessRow → Exec (Option Claim)) → (AccessRow → Type 0) → Claim → (s s' : Service) → Type 0
  Round try P c s s' =
      (row : AccessRow) × (t : Service) × P row × TableGrows s t × (try row t ≡ (ok (some c), s'))

  module _ (try : AccessRow → Exec (Option Claim)) (P : AccessRow → Type 0) (c : Claim)
      (s' : Service) (moves : (row : AccessRow) → Moves TableGrows (try row)) where
    pub first_claim_ok :
        (rows : List AccessRow) (s : Service)
        → All P rows
        → first_claim try rows s ≡ (ok (some c), s')
        → Round try P c s s'
    unfolding first_claim ◌>>=◌
    first_claim_ok [] s h e = absurd (no_claim c s s' e)
    first_claim_ok (row ∷ rows) s (px, h) e =
        let (claimed, t, e1, e2) = bind_ok (try row) _ s e in
        let step : TableGrows s t =
          subst (λ r. TableGrows s r) (ap (λ r. r.1) e1) ((moves row).at s) in
        next claimed t e1 e2 step (first_claim_ok rows t h)
      where
        next :
            (claimed : Option Claim) (t : Service)
            → try row s ≡ (ok claimed, t)
            → case_of claimed (first_claim try rows) (λ d. pure (some d)) t ≡ (ok (some c), s')
            → TableGrows s t
            → (first_claim try rows t ≡ (ok (some c), s') → Round try P c t s')
            → Round try P c s s'
        next none t e1 e2 step later =
            let (r, u, pr, g, er) = later e2 in (r, u, pr, table_order.after s t u step g, er)
        next (some d) t e1 e2 step later = (row, s, px, table_order.here s, e1 ∙ e2)
