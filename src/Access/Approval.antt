-- ===== src/Access/Approval.antt =====
-- The whole of `approve_access`: what holds when it returns.
use passd.Exec.Laws.{check_ok, required, gets_ok, lift_ok, bind_ok}
use passd.Base.{
  update_where, filter, ◌+◌, length, max, ◌≤◌, ap, sym, not, refl, true, some, find, ℕ, Option, ◌≡◌,
  arith,
}
use passd.Platform.{Platform}
use passd.Payload.{AccessPayload}
use passd.Access.Review.{
  is_at, note_of, granted, approved_payload, grant, narrowed, Bound, approve_access, bind_to,
}
use passd.Access.{access_has_id, PublicAccess, get_access_request, show_request}
use passd.Text.{Text}
use passd.Db.{approved, pending, same_status, Service, AccessRow}
use passd.Exec.{Exec, ◌>>=◌}
use passd.Errors.{not_found, ok}
use passd.Sealing.{access_aad, access_payload}
use mathlib.Core.Path.{subst}
use passd.Access.Table.{SameRest, TableGrows}
use passd.Access.Terms.{narrowed_given, narrowed_most, grant_ok, IsGranted}
use passd.Access.Table.Operations.{bind_to-grows}
use passd.Crypto.{seal_json, Envelope}
use passd.Access.Binding.{IsBoundFor, bind_to_ok}
use passd.Access.Lease.{SameRequest}

module _ ⦃p : Platform⦄ where
  -- The lease that an approval writes on the row of the request: nothing else of the row changes.
  pub record IsLease (row : AccessRow) (bound : Bound) (ttl uses now : ℕ) (after : AccessRow)
      : Type 0 where
    pub same : SameRequest row after
    pub status : after.status ≡ approved
    pub item_id : after.item_id ≡ some bound.item.id
    pub expires_at : after.expires_at ≡ some (now + ttl)
    pub max_uses : after.max_uses ≡ some uses
    pub unused : after.uses ≡ 0
    pub reviewed_at : after.reviewed_at ≡ some now

  -- What the lease is sealed with opens to: the payload of the binding, with the decision.
  pub record IsSealed (row : AccessRow) (bound : Bound) (ttl uses : ℕ) (remark : Option Text)
      (s : Service) (envelope : Envelope) : Type 0 where
    pub payload : AccessPayload
    pub sealed :
        envelope
        ≡ seal_json p.access_codec (s.entropy s.drawn) s.root_key payload (access_aad row.id)
    pub target : payload.target ≡ bound.payload.target
    pub version : payload.approved_credential_version ≡ bound.payload.approved_credential_version
    pub capability_version :
        payload.approved_capability_version ≡ bound.payload.approved_capability_version
    pub note : payload.decision_note ≡ note_of remark

  -- What an approval that returned has done. `bound` is the credential as it was found, and
  -- `found_in` the state then, which differs from the first one by legal steps on requests only.
  pub record IsApproval (id : Text) (ttl uses : Option ℕ) (remark : Option Text) (s s' : Service)
      : Type 0 where
    pub row : AccessRow
    pub payload : AccessPayload
    pub bound : Bound
    pub found_in : Service
    pub found : find (access_has_id id) s.access_requests ≡ some row
    pub was_pending : same_status row.status pending ≡ true
    pub opened : access_payload s.root_key row ≡ ok payload
    pub bound_to : IsBoundFor payload payload.target s bound found_in
    pub before : TableGrows s found_in
    pub granted_ttl : ℕ
    pub granted_uses : ℕ
    pub ttl_most : granted_ttl ≤ payload.requested_ttl
    pub uses_most : granted_uses ≤ payload.requested_uses
    pub ttl_given : (given : ℕ) → ttl ≡ some given → granted_ttl ≤ max 60 given
    pub uses_given : (given : ℕ) → uses ≡ some given → granted_uses ≤ max 1 given
    pub once : length (filter (is_at row.id pending) found_in.access_requests) ≡ 1
    pub write : AccessRow → AccessRow
    pub written :
        s'.access_requests ≡ update_where (is_at row.id pending) write found_in.access_requests
    pub lease :
        (before : AccessRow)
        → IsLease before bound granted_ttl granted_uses s.clock (write before)
          × IsSealed row bound granted_ttl granted_uses remark found_in (write before).payload
    pub rest : SameRest found_in s'

  is_lease :
      (row : AccessRow) (bound : Bound) (ttl uses : ℕ) (sealed : Envelope) (later now : ℕ)
      → later ≡ now
      → IsLease row bound ttl uses now (granted sealed bound.item.id later ttl uses row)
  is_lease row bound ttl uses sealed later now same = record {
    same = record {
      id = refl;
      agent_id = refl;
      capability = refl;
      target_host = refl;
      created_at = refl;
    };
    status = refl;
    item_id = refl;
    expires_at = ap (λ (ts : ℕ). some (ts + ttl)) same;
    max_uses = refl;
    unused = refl;
    reviewed_at = ap some same;
  }

  is_sealed :
      (row : AccessRow) (bound : Bound) (ttl uses : ℕ) (remark : Option Text) (s : Service)
      (sealed : Envelope)
      → sealed
        ≡ seal_json p.access_codec
            (s.entropy s.drawn)
            s.root_key
            (approved_payload row bound.payload remark ttl uses)
            (access_aad row.id)
      → IsSealed row bound ttl uses remark s sealed
  unfolding approved_payload
  is_sealed row bound ttl uses remark s sealed e = record {
    payload = approved_payload row bound.payload remark ttl uses;
    sealed = e;
    target = refl;
    version = refl;
    capability_version = refl;
    note = refl;
  }

  get_access_request_ok :
      {B : Type 0} (id : Text) (f : AccessRow → Exec B) (s : Service) {b : B} {s' : Service}
      → (get_access_request id >>= f) s ≡ (ok b, s')
      → (row : AccessRow) × (find (access_has_id id) s.access_requests ≡ some row)
        × (f row s ≡ (ok b, s'))
  unfolding get_access_request
  get_access_request_ok id f s {b} {s'} h =
      let (row, t, read, rest) = bind_ok (get_access_request id) f s h in
      let (found, same) =
        required (find (access_has_id id) s.access_requests) not_found s (gets_ok _ _ s read) in
      (row, found, subst (λ u. f row u ≡ (ok b, s')) (sym same) rest)

  show_request_same :
      (id : Text) (s t : Service) (shown : PublicAccess) → show_request id s ≡ (ok shown, t) → s ≡ t
  unfolding show_request get_access_request ◌>>=◌
  show_request_same id s t shown h = ground arith

  -- An approval that returns found a pending request and has written one lease for it, by one UPDATE
  -- of its row: of the item that the request names, sealed with the target and with the version of
  -- its credential as it is, expiring at the clock's time plus a lifetime, with a budget of uses and
  -- none used. The lifetime and the budget are at most what was asked for, and at most what the
  -- human gave, above the least ones. A capability is registered at the version that was requested,
  -- and its contract allows the invocation.
  pub approve_access-IsApproval :
      (id : Text) (ttl uses : Option ℕ) (remark : Option Text) (shown : PublicAccess)
      (s s' : Service)
      → approve_access id ttl uses remark s ≡ (ok shown, s')
      → IsApproval id ttl uses remark s s'
  unfolding approve_access
  approve_access-IsApproval id ttl uses remark shown s s' h =
      let (row, found, h0) = get_access_request_ok id _ s h in
      let (is_pending, h1) = check_ok (not (same_status row.status pending)) _ _ s h0 in
      let (payload, opened, h2) = lift_ok (access_payload s.root_key row) _ s (gets_ok _ _ s h1) in
      let (bound, t, bound_to, h3) = bind_ok (bind_to row payload payload.target) _ s h2 in
      let (done, u, ran, h4) = bind_ok (grant row bound ttl uses remark) _ t h3 in
      let bound_for = bind_to_ok row payload payload.target bound s t bound_to in
      let terms = bound_for.terms in
      let before =
        subst (λ v. TableGrows s v) (ap (λ r. r.1) bound_to)
          ((bind_to-grows row payload payload.target).at s) in
      let terms_granted : IsGranted row bound (narrowed 60 bound.payload.requested_ttl ttl)
          (narrowed 1 bound.payload.requested_uses uses) remark t s' =
        subst
          (λ v.
            IsGranted row bound (narrowed 60 bound.payload.requested_ttl ttl)
              (narrowed 1 bound.payload.requested_uses uses) remark t v)
          (show_request_same id u s' shown h4) (grant_ok row bound ttl uses remark t u ran) in
      let whole : IsGranted row bound (narrowed 60 payload.requested_ttl ttl)
          (narrowed 1 payload.requested_uses uses) remark t s' =
        subst
          (λ m.
            IsGranted row bound (narrowed 60 payload.requested_ttl ttl) (narrowed 1 m uses) remark t
              s')
          terms.requested_uses
          (subst
            (λ m.
              IsGranted row bound (narrowed 60 m ttl) (narrowed 1 bound.payload.requested_uses uses)
                remark t s')
            terms.requested_ttl terms_granted) in
      record {
        row = row;
        payload = payload;
        bound = bound;
        found_in = t;
        found = found;
        was_pending = ground arith;
        opened = opened;
        bound_to = bound_for;
        before = before;
        granted_ttl = narrowed 60 payload.requested_ttl ttl;
        granted_uses = narrowed 1 payload.requested_uses uses;
        ttl_most = narrowed_most 60 payload.requested_ttl ttl;
        uses_most = narrowed_most 1 payload.requested_uses uses;
        ttl_given = λ given e. narrowed_given 60 payload.requested_ttl given ttl e;
        uses_given = λ given e. narrowed_given 1 payload.requested_uses given uses e;
        once = whole.once;
        write =
            granted whole.sealed bound.item.id t.clock (narrowed 60 payload.requested_ttl ttl)
              (narrowed 1 payload.requested_uses uses);
        written = whole.requests;
        lease = λ before_row. (
          is_lease before_row bound _ _ whole.sealed t.clock s.clock before.rest.clock,
          is_sealed row bound _ _ remark t whole.sealed whole.payload,
        );
        rest = whole.rest;
      }
