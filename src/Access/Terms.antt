-- ===== src/Access/Terms.antt =====
-- The terms of a lease: what a request may ask for, and what an approval grants of it.
use mathlib.Core.Option.{some-injective}
use passd.Base.{
  max, refl, inr, sym, ap, inl, eqb, Bool-cases, update_where, filter, length, false, some, none,
  ◌≡◌, Option, ◌≤◌, ℕ, arith,
}
use passd.Access.Review.{approved_payload, granted, is_at, Bound, grant, narrowed}
use passd.Access.Filing.{validate_access, Filing, check_budget}
use passd.Platform.{Platform}
use passd.Db.{pending, Service, AccessRow, AgentRow}
use passd.Errors.{ok}
use passd.Text.{Text}
use passd.Access.{is_blank, scope_missing}
use passd.Payload.{access_request}
use passd.Crypto.{seal_json, Envelope}
use passd.Sealing.{access_aad}
use passd.Access.Table.{SameRest}
use passd.Audit.{audit}
use passd.Exec.{◌>>=◌}

-- What is granted is never more than was asked for, nor more than was given, above the least.
pub narrowed_most :
    (least requested : ℕ) (given : Option ℕ) → narrowed least requested given ≤ requested
unfolding narrowed
narrowed_most least requested none = omega arith
narrowed_most least requested (some given) = omega arith

pub narrowed_given :
    (least requested chosen : ℕ) (given : Option ℕ)
    → given ≡ some chosen
    → narrowed least requested given ≤ max least chosen
unfolding narrowed
narrowed_given least requested chosen none e = absurd (cc e)
narrowed_given least requested chosen (some given) e =
    let same : given ≡ chosen = some-injective given chosen e in omega (arith, same)

-- What bounds every request that passes its checks.
pub record IsModest (filing : Filing) : Type 0 where
  pub ttl_least : 60 ≤ filing.payload.requested_ttl
  pub ttl_most : filing.payload.requested_ttl ≤ 86400
  pub uses_least : 1 ≤ filing.payload.requested_uses
  pub uses_most : filing.payload.requested_uses ≤ 100
  pub unapproved : filing.payload.approved_credential_version ≡ none

check_budget_ok :
    (ttl uses : ℕ)
    → check_budget ttl uses ≡ ok tt
    → (60 ≤ ttl) × (ttl ≤ 86400) × (1 ≤ uses) × (uses ≤ 100)
unfolding check_budget
check_budget_ok ttl uses h = ground arith

module _ ⦃p : Platform⦄ where
  -- A request for a field passes its checks only with a reason, with the scopes to ask and to do what
  -- it asks for, and with a lifetime of a minute up to a day and a budget of one up to 100 uses; its
  -- payload carries no approval.
  pub validate_access_ok :
      (agent : AgentRow) (uri capability : Text) (host reason : Option Text) (ttl uses : ℕ)
      (filing : Filing)
      → validate_access agent uri capability host reason ttl uses ≡ ok filing
      → IsModest filing
        × (scope_missing agent access_request ≡ false)
        × (scope_missing agent filing.capability ≡ false)
        × (is_blank reason ≡ false)
  unfolding validate_access
  validate_access_ok agent uri capability host reason ttl uses filing h =
      ground (arith, check_budget_ok ttl uses)

-- A grant that returned: the row was pending, and one UPDATE has written the lease.
pub record IsGranted ⦃p : Platform⦄ (row : AccessRow) (bound : Bound) (ttl uses : ℕ)
    (remark : Option Text) (s s' : Service) : Type 0 where
  pub sealed : Envelope
  pub once : length (filter (is_at row.id pending) s.access_requests) ≡ 1
  pub requests :
      s'.access_requests
      ≡ update_where
          (is_at row.id pending)
          (granted sealed bound.item.id s.clock ttl uses)
          s.access_requests
  pub payload :
      sealed
      ≡ seal_json p.access_codec
          (s.entropy s.drawn)
          s.root_key
          (approved_payload row bound.payload remark ttl uses)
          (access_aad row.id)
  pub rest : SameRest s s'

module _ ⦃p : Platform⦄ where
  pub grant_ok :
      (row : AccessRow) (bound : Bound) (ttl uses : Option ℕ) (remark : Option Text)
      (s s' : Service)
      → grant row bound ttl uses remark s ≡ (ok tt, s')
      → IsGranted row bound
          (narrowed 60 bound.payload.requested_ttl ttl)
          (narrowed 1 bound.payload.requested_uses uses)
          remark
          s
          s'
  unfolding grant audit ◌>>=◌
  grant_ok row bound ttl uses remark s s' h =
      elim (Bool-cases (eqb (length (filter (is_at row.id pending) s.access_requests)) 1)) [
        | inl one ↦
            let t = narrowed 60 bound.payload.requested_ttl ttl in
            let u = narrowed 1 bound.payload.requested_uses uses in
            let state = ap (λ r. r.1) (rw one at h) in
            record {
              sealed =
                  seal_json p.access_codec (s.entropy s.drawn) s.root_key
                    (approved_payload row bound.payload remark t u) (access_aad row.id);
              once = ground arith;
              requests = ap (λ (v : Service). v.access_requests) (sym state);
              payload = refl;
              rest = record {
                root_key = ap (λ (v : Service). v.root_key) (sym state);
                clock = ap (λ (v : Service). v.clock) (sym state);
                vaults = ap (λ (v : Service). v.vaults) (sym state);
                items = ap (λ (v : Service). v.items) (sym state);
                capabilities = ap (λ (v : Service). v.capabilities) (sym state);
                agents = ap (λ (v : Service). v.agents) (sym state);
                config = ap (λ (v : Service). v.config) (sym state);
                allow_private_broker_targets =
                    ap (λ (v : Service). v.allow_private_broker_targets) (sym state);
                entropy = ap (λ (v : Service). v.entropy) (sym state);
              };
            }
        | inr other ↦ absurd (cc (rw other at h))
      ]
