-- ===== src/Access/Lease.antt =====
-- The life of one access request, as a step relation on its row: what a review, a revocation, a
-- version check and a claim of passd/service.py may do to it.
use passd.Base.{
  ◌+◌, ltb, none, refl, ap, ◌≤◌, &&-split, true, some, false, ◌⊎◌, ◌≡◌, ℕ, arith, Bool, Option,
}
use passd.Text.{Text}
use passd.Db.{AccessRow, Status, pending, approved, denied, stale}
use passd.Access.{has_budget, expires_after, is_active}
use passd.Access.Review.{granted, set_status}
use passd.Access.Claim.{spend}
use passd.Crypto.{Envelope}

pub data Step (a : AccessRow) : AccessRow → Type 0 where
  approve :
      (sealed : Envelope) (item_id : Text) (reviewed ttl uses : ℕ)
      → a.status ≡ pending
      → Step a (granted sealed item_id reviewed ttl uses a)
  deny :
      (sealed : Envelope) (ts : ℕ)
      → a.status ≡ pending
      → Step a (record a { payload = sealed; status = denied; reviewed_at = some ts })
  drop : (ts : ℕ) → a.status ≡ pending → Step a (set_status stale ts a)
  expire : (ts : ℕ) → a.status ≡ approved → Step a (set_status stale ts a)
  revoke : (ts : ℕ) → a.status ≡ approved → Step a (set_status Status.revoked ts a)
  use_once : (ts : ℕ) → is_active ts a ≡ true → Step a (spend a)

pub data Reach (a : AccessRow) : AccessRow → Type 0 where
  here : Reach a a
  next : {b c : AccessRow} → Reach a b → Step b c → Reach a c

pub Reach-trans : {a b c : AccessRow} → Reach a b → Reach b c → Reach a c
Reach-trans r here = r
Reach-trans r (next q s) = next (Reach-trans r q) s

-- What a row is for never changes.
pub record SameRequest (a b : AccessRow) : Type 0 where
  pub id : b.id ≡ a.id
  pub agent_id : b.agent_id ≡ a.agent_id
  pub capability : b.capability ≡ a.capability
  pub target_host : b.target_host ≡ a.target_host
  pub created_at : b.created_at ≡ a.created_at

Step-SameRequest : {a b c : AccessRow} → SameRequest a b → Step b c → SameRequest a c
Step-SameRequest h (approve sealed item_id reviewed ttl uses _) = ground arith
Step-SameRequest h (deny sealed ts _) = ground arith
Step-SameRequest h (drop ts _) = ground arith
Step-SameRequest h (expire ts _) = ground arith
Step-SameRequest h (revoke ts _) = ground arith
Step-SameRequest h (use_once ts _) = ground arith

pub Reach-SameRequest : {a b : AccessRow} → Reach a b → SameRequest a b
Reach-SameRequest here = record {
  id = refl;
  agent_id = refl;
  capability = refl;
  target_host = refl;
  created_at = refl;
}
Reach-SameRequest (next r s) = Step-SameRequest (Reach-SameRequest r) s

-- A request is closed once it is denied, revoked or stale.
abbrev pub is_closed : Status → Bool
is_closed pending = false
is_closed approved = false
is_closed _ = true

Step-open : {a b : AccessRow} → Step a b → is_closed a.status ≡ false
Step-open (approve sealed item_id reviewed ttl uses e) = rw e
Step-open (deny sealed ts e) = rw e
Step-open (drop ts e) = rw e
Step-open (expire ts e) = rw e
Step-open (revoke ts e) = rw e
Step-open {a} (use_once ts e) = ground arith

-- A closed request stays as it is: no step leads out of it.
pub Reach-closed : {a b : AccessRow} → is_closed a.status ≡ true → Reach a b → b ≡ a
Reach-closed c here = refl
Reach-closed {a} c (next {b} {c = d} r s) =
    let same : b ≡ a = Reach-closed c r in
    absurd (cc (Step-open s, c, ap (λ (x : AccessRow). is_closed x.status) same))

-- What an approval fixes: the sealed payload, the item, the expiry and the budget. Uses only grow.
pub record SameLease (a b : AccessRow) : Type 0 where
  pub not_pending : (b.status ≡ approved) ⊎ (is_closed b.status ≡ true)
  pub payload : b.payload ≡ a.payload
  pub item_id : b.item_id ≡ a.item_id
  pub expires_at : b.expires_at ≡ a.expires_at
  pub max_uses : b.max_uses ≡ a.max_uses
  pub spent : a.uses ≤ b.uses

Step-SameLease : {a b c : AccessRow} → SameLease a b → Step b c → SameLease a c
Step-SameLease {b = b} h (approve sealed item_id reviewed ttl uses e) = ground arith
Step-SameLease h (deny sealed ts e) = ground arith
Step-SameLease h (drop ts e) = ground arith
Step-SameLease h (expire ts e) = ground arith
Step-SameLease h (revoke ts e) = ground arith
Step-SameLease h (use_once ts e) = ground arith

pub Reach-SameLease : {a b : AccessRow} → a.status ≡ approved → Reach a b → SameLease a b
Reach-SameLease e here = ground arith
Reach-SameLease e (next r s) = Step-SameLease (Reach-SameLease e r) s

-- No more uses than the budget; none at all before an approval.
abbrev Within : Option ℕ → ℕ → Type 0
Within none uses = uses ≡ 0
Within (some n) uses = uses ≤ n

abbrev pub IsWithinBudget : AccessRow → Type 0
IsWithinBudget row = Within row.max_uses row.uses

budget_left :
    (limit : Option ℕ) (uses : ℕ)
    → elim limit [ none ↦ false | some n ↦ ltb uses n ] ≡ true
    → Within limit (uses + 1)
budget_left none uses h = cc
budget_left (some n) uses h = ground arith

spend_within : (row : AccessRow) (ts : ℕ) → is_active ts row ≡ true → IsWithinBudget (spend row)
spend_within row ts h =
    budget_left row.max_uses row.uses
      (&&-split (expires_after ts row) (has_budget row) (ground arith)).1

Step-IsWithinBudget : {a b : AccessRow} → Step a b → IsWithinBudget a → IsWithinBudget b
Step-IsWithinBudget (approve sealed item_id reviewed ttl uses e) h = omega arith
Step-IsWithinBudget (deny sealed ts e) h = h
Step-IsWithinBudget (drop ts e) h = h
Step-IsWithinBudget (expire ts e) h = h
Step-IsWithinBudget (revoke ts e) h = h
Step-IsWithinBudget {a} (use_once ts e) h = spend_within a ts e

pub Reach-IsWithinBudget : {a b : AccessRow} → Reach a b → IsWithinBudget a → IsWithinBudget b
Reach-IsWithinBudget here h = h
Reach-IsWithinBudget (next r s) h = Step-IsWithinBudget s (Reach-IsWithinBudget r h)
