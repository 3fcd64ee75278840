-- ===== src/Access/History.antt =====
-- Histories: any sequence of the operations on requests and leases, with time passing between them,
-- each from the state that the one before has left, whether that returned or raised.
use mathlib.Core.Path.{subst}
use passd.Access.Table.Operations.{table_lending}
use passd.Base.{refl, inr, sym, inl, ◌≡◌, Among, [], ◌∷◌, List, ℕ, Option, ◌+◌}
use passd.Access.Request
use passd.Access.Table.{Grows, TableGrows, Grows-refl, Grows-trans}
use passd.Db.{approved, AccessRow, Service, AgentRow}
use passd.Platform.{Platform}
use passd.Exec.{Exec}
use passd.Text.{Text}
use passd.Exec.Moves.{Moves}
use passd.Access.Table.Operations.{
  revoke_access-grows, deny_access-grows, approve_access-grows, request_capability-grows,
  request_access-grows,
}
use passd.Payload.{Scope}
use passd.Access.Review.{revoke_access, deny_access, approve_access}
use passd.Access.Claim.{consume_capability_grant, consume_exact_grant}
use passd.Access.Table.Claims.{consume_capability_grant-grows, consume_exact_grant-grows}
use passd.Access.Lease.{Reach-SameLease, Reach-SameRequest, SameLease, SameRequest, Reach}

-- A call, with its arguments, or the passing of some seconds.
pub data Call : Type 0 where
  tick : ℕ → Call
  request_access :
      (agent : AgentRow) (uri capability : Text) (host reason : Option Text) (ttl uses : ℕ) → Call
  request_capability :
      (agent : AgentRow) (id method path : Text) (reason : Option Text) (ttl uses : ℕ) → Call
  approve : (id : Text) (ttl uses : Option ℕ) (remark : Option Text) → Call
  deny : (id : Text) (remark : Option Text) → Call
  revoke : (id : Text) → Call
  claim_exact : (agent : AgentRow) (scope : Scope) (uri : Text) (host reason : Option Text) → Call
  claim_capability : (agent : AgentRow) (id method path : Text) (reason : Option Text) → Call

module _ ⦃p : Platform⦄ where
  unfoldable pub perform : Call → Service → Service
  perform (tick n) s = record s { clock = s.clock + n }
  perform (request_access agent uri capability host reason ttl uses) s =
      (Request.request_access agent uri capability host reason ttl uses s).1
  perform (request_capability agent id method path reason ttl uses) s =
      (Request.request_capability agent id method path reason ttl uses s).1
  perform (approve id ttl uses remark) s = (approve_access id ttl uses remark s).1
  perform (deny id remark) s = (deny_access id remark s).1
  perform (revoke id) s = (revoke_access id s).1
  perform (claim_exact agent scope uri host reason) s =
      (consume_exact_grant agent scope uri host reason s).1
  perform (claim_capability agent id method path reason) s =
      (consume_capability_grant agent id method path reason s).1

  unfoldable pub run : List Call → Service → Service
  unfolding perform
  run [] s = s
  run (call ∷ calls) s = run calls (perform call s)

  table_of :
      {A : Type 0} (m : Exec A)
      → Moves TableGrows m
      → (s : Service) → Grows s.access_requests (m s).1.access_requests
  table_of m k s = (k.at s).grows

  perform-Grows :
      (call : Call) (s : Service) → Grows s.access_requests (perform call s).access_requests
  unfolding perform
  perform-Grows (tick n) s = Grows-refl s.access_requests
  perform-Grows (request_access agent uri capability host reason ttl uses) s =
      table_of _ (request_access-grows agent uri capability host reason ttl uses) s
  perform-Grows (request_capability agent id method path reason ttl uses) s =
      table_of _ (request_capability-grows agent id method path reason ttl uses) s
  perform-Grows (approve id ttl uses remark) s =
      table_of _ (approve_access-grows id ttl uses remark) s
  perform-Grows (deny id remark) s = table_of _ (deny_access-grows id remark) s
  perform-Grows (revoke id) s = table_of _ (revoke_access-grows id) s
  perform-Grows (claim_exact agent scope uri host reason) s =
      table_of _ (consume_exact_grant-grows agent scope uri host reason) s
  perform-Grows (claim_capability agent id method path reason) s =
      table_of _ (consume_capability_grant-grows agent id method path reason) s

  -- In every history, each request that was there moves by legal steps only and keeps its place,
  -- and each further row was new once and has moved by legal steps only.
  pub run-Grows :
      (calls : List Call) (s : Service) → Grows s.access_requests (run calls s).access_requests
  unfolding run
  run-Grows [] s = Grows-refl s.access_requests
  run-Grows (call ∷ calls) s =
      Grows-trans s.access_requests (perform call s).access_requests
        (run calls (perform call s)).access_requests (perform-Grows call s)
        (run-Grows calls (perform call s))

-- A row of a table that grows: where it stands afterwards.
pub Grows-Among :
    (x : AccessRow) (xs ys : List AccessRow)
    → Among x xs
    → Grows xs ys
    → (y : AccessRow) × Among y ys × Reach x y
Grows-Among x [] ys m g = absurd m
Grows-Among x (z ∷ zs) [] m g = absurd g
Grows-Among x (z ∷ zs) (y ∷ ys) (inl e) (r, g) = (y, inl refl, subst (λ w. Reach w y) (sym e) r)
Grows-Among x (z ∷ zs) (y ∷ ys) (inr m) (r, g) =
    let (w, n, q) = Grows-Among x zs ys m g in (w, inr n, q)

module _ ⦃p : Platform⦄ where
  -- An approved lease is still there after every history, for the same agent, operation and host,
  -- with the same sealed payload, item, expiry and budget: it is approved or closed, never pending,
  -- and its uses have only grown.
  pub run-SameLease :
      (calls : List Call) (s : Service) (row : AccessRow)
      → Among row s.access_requests
      → row.status ≡ approved
      → (after : AccessRow) × Among after (run calls s).access_requests
        × SameRequest row after
        × SameLease row after
  run-SameLease calls s row m e =
      let (y, n, r) =
        Grows-Among row s.access_requests (run calls s).access_requests m (run-Grows calls s) in
      (y, n, Reach-SameRequest r, Reach-SameLease e r)
