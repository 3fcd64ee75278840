-- ===== src/Access/Table/Steps.antt =====
-- The rows of the table of requests under each UPDATE and INSERT of Request, Review and Claim.
use passd.Base.{[], ◌∷◌, ◌++◌, refl, &&-split, some, true, ◌≡◌, ℕ, Bool}
use passd.Text.{Text}
use passd.Db.{denied, stale, pending, approved, same_status, Status, AccessRow}
use passd.Exec.{modify}
use passd.Exec.Moves.{Moves, Moves-modify}
use passd.Access.Table.{changed, IsNew, Grows-append, TableGrows, table_order, Grows-update_where}
use passd.Access.Lease.{Step}
use passd.Access.Review.{granted, update_requests, set_status, is_at}
use passd.Crypto.{Envelope}
use passd.Access.Claim.{spend, claimable}
use passd.Access.{is_active, access_has_id}

update_requests-grows :
    (p : AccessRow → Bool) (f : AccessRow → AccessRow)
    → ((x : AccessRow) → p x ≡ true → Step x (f x))
    → Moves TableGrows (update_requests p f)
update_requests-grows p f step =
    Moves-modify table_order _
      λ s. changed s _ s.audits s.drawn (Grows-update_where p f s.access_requests step)

same_status_iff : (a b : Status) → same_status a b ≡ true → a ≡ b
same_status_iff pending pending h = refl
same_status_iff approved approved h = refl
same_status_iff denied denied h = refl
same_status_iff Status.revoked Status.revoked h = refl
same_status_iff stale stale h = refl
same_status_iff _ _ h = cc

is_at-status :
    (id : Text) (status : Status) (x : AccessRow) → is_at id status x ≡ true → x.status ≡ status
is_at-status id status x h =
    same_status_iff x.status status
      (&&-split (access_has_id id x) (same_status x.status status) h).1

pub drops :
    (id : Text) (ts : ℕ)
    → Moves TableGrows (update_requests (is_at id pending) (set_status stale ts))
drops id ts = update_requests-grows _ _ λ x h. Step.drop ts (is_at-status id pending x h)

pub expires :
    (id : Text) (ts : ℕ)
    → Moves TableGrows (update_requests (is_at id approved) (set_status stale ts))
expires id ts = update_requests-grows _ _ λ x h. Step.expire ts (is_at-status id approved x h)

pub revoke-grows :
    (id : Text) (ts : ℕ)
    → Moves TableGrows (update_requests (is_at id approved) (set_status Status.revoked ts))
revoke-grows id ts = update_requests-grows _ _ λ x h. Step.revoke ts (is_at-status id approved x h)

pub grant-grows :
    (id : Text) (sealed : Envelope) (item_id : Text) (reviewed ttl uses : ℕ)
    → Moves TableGrows
        (update_requests (is_at id pending) (granted sealed item_id reviewed ttl uses))
grant-grows id sealed item_id reviewed ttl uses =
    update_requests-grows _ _
      λ x h. Step.approve sealed item_id reviewed ttl uses (is_at-status id pending x h)

pub deny-grows :
    (id : Text) (sealed : Envelope) (ts : ℕ)
    → Moves TableGrows (
        update_requests
          (is_at id pending)
          (λ r. record r { payload = sealed; status = denied; reviewed_at = some ts }))
deny-grows id sealed ts =
    update_requests-grows _ _ λ x h. Step.deny sealed ts (is_at-status id pending x h)

pub spends : (id : Text) (ts : ℕ) → Moves TableGrows (update_requests (claimable id ts) spend)
spends id ts =
    update_requests-grows _ _
      λ x h. Step.use_once ts (&&-split (access_has_id id x) (is_active ts x) h).1

pub files :
    (row : AccessRow)
    → IsNew row
    → Moves TableGrows (modify (λ s. record s { access_requests = s.access_requests ++ row ∷ [] }))
files row new =
    Moves-modify table_order _
      λ s. changed s _ s.audits s.drawn (Grows-append s.access_requests row new)
