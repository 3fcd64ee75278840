-- ===== src/Access/Request.antt =====
-- `request_access` and `request_capability` of passd/service.py.
use passd.Errors
use passd.Base.{
  true, length, or_else, [], leb, any, false, if◌then◌else◌, ◌&&◌, ◌∷◌, filter, none, some, ◌++◌,
  order_by, ℕ, Bool, List, Option,
}
use passd.Text.{Text, codes}
use passd.Platform.{Platform}
use passd.Payload.{
  on_request, on_capability_request, Scope, Operation, capability_invoke, requested_capability,
  requested, Detail, AccessPayload,
}
use passd.Db.{pending, same_status, AccessRow, AgentRow}
use passd.Access.{
  max_pending_per_agent, access_has_id, show_request, PublicAccess, option_eq, of_agent, created_le,
}
use passd.Access.Filing.{
  validate_capability, validate_access, validate_capability_terms, Filing, same_payload,
}
use passd.Exec.{now, case_of, modify, check, pure, lift, gets, random, Exec, ◌>>=◌, ◌>>◌}
use passd.Crypto.{Envelope}
use passd.Errors.{conflict, internal, ok, Result}
use passd.Agents.{scope_eq, without_dashes}
use passd.Sealing.{access_payload, capability_payload, seal_access_payload}
use passd.Capabilities.Store.{get_capability_row}
use passd.Audit.{audit}
use passd.Authority.{request_digest}

abbrev pub is_pending : AccessRow → Bool
is_pending row = same_status row.status pending

-- `WHERE agent_id=? AND status='pending' ORDER BY created_at,id`
unfoldable pub pending_of : Text → List AccessRow → List AccessRow
pending_of agent_id rows =
    order_by created_le (filter (λ row. of_agent agent_id row && is_pending row) rows)

-- Which pending rows a retry is compared with, and how their payloads are read.
abbrev is_candidate : Filing → AccessRow → Bool
is_candidate filing row = elim filing.capability [
  | capability_invoke ↦ scope_eq row.capability capability_invoke
  | _ ↦ scope_eq row.capability filing.capability && option_eq row.target_host filing.target_host
]

-- `compare.pop("authority_digest", None)`, in `request_capability`
abbrev compared : Filing → AccessPayload → AccessPayload
compared filing payload = elim filing.capability [
  | capability_invoke ↦ record payload { authority_digest = none }
  | _ ↦ payload
]

abbrev request_operation : Scope → Operation
request_operation capability_invoke = on_capability_request
request_operation _ = on_request

module _ ⦃p : Platform⦄ where
  -- The first pending row that is an exact retry.
  unfoldable pub find_duplicate : Text → Filing → List AccessRow → Result (Option AccessRow)
  find_duplicate root_key filing [] = ok none
  find_duplicate root_key filing (row ∷ rows) =
      let rest = find_duplicate root_key filing rows in
      let opened : Result (Option AccessRow) = Errors.◌>>=◌ (access_payload root_key row) λ payload.
        if same_payload (compared filing payload) filing.payload then ok (some row) else rest in
      if is_candidate filing row then opened else rest

  -- The payload as it is stored: that of a capability carries its digest.
  unfoldable pub digested : Text → Text → Filing → AccessPayload
  digested request_id agent_id filing = elim filing.capability [
    | capability_invoke ↦ record filing.payload {
      authority_digest = some (
          request_digest
            (record { request_id = request_id; agent_id = agent_id; payload = filing.payload }));
    }
    | _ ↦ filing.payload
  ]

  -- The row of a new request.
  unfoldable pub new_request : Text → Text → Filing → Envelope → ℕ → AccessRow
  new_request request_id agent_id filing sealed ts = record {
    id = request_id;
    agent_id = agent_id;
    capability = filing.capability;
    target_host = filing.target_host;
    payload = sealed;
    status = pending;
    item_id = none;
    expires_at = none;
    max_uses = none;
    uses = 0;
    created_at = ts;
    reviewed_at = none;
  }

  -- The INSERT, for an agent whose queue is not full.
  unfoldable pub insert_request : AgentRow → Filing → Exec Text
  unfolding digested
  insert_request agent filing = do
    draw ← random
    let request_id = codes "req_" ++ without_dashes draw
    sealed ← seal_access_payload request_id (digested request_id agent.id filing)
    ts ← now
    rows ← gets (λ s. s.access_requests)
    check (any (access_has_id request_id) rows) internal
    modify (λ s. record s {
      access_requests = s.access_requests ++ new_request request_id agent.id filing sealed ts ∷ [];
    })
    pure request_id

  -- What both kinds of request do under the lock: an exact retry is answered by the row that is
  -- there; otherwise the queue must have room. The result tells whether a row was written.
  unfoldable pub file_request : AgentRow → Filing → Exec (Text × Bool)
  unfolding pending_of find_duplicate insert_request
  file_request agent filing = do
    s ← gets (λ s. s)
    let waiting = pending_of agent.id s.access_requests
    duplicate ← lift (find_duplicate s.root_key filing waiting)
    case_of duplicate
        (do
          check (leb max_pending_per_agent (length waiting)) conflict
          id ← insert_request agent filing
          pure (id, true))
        (λ row. pure (row.id, false))

  -- The audit row of a request that was written.
  abbrev audit_request : AgentRow → Filing → Option Text → Detail → Exec (Unit {0})
  audit_request agent filing reason detail =
      audit (some agent.id) (request_operation filing.capability) none filing.target_host reason
        true detail

  unfoldable pub request_access :
      AgentRow → Text → Text → Option Text → Option Text → ℕ → ℕ → Exec PublicAccess
  request_access agent uri capability host reason ttl uses = do
    filing ← lift (validate_access agent uri capability host reason ttl uses)
    filed ← file_request agent filing
    result ← show_request filed.0
    if filed.1
        then (do
          audit_request agent filing reason (requested filed.0 filing.capability)
          pure result)
        else pure result

  unfoldable pub request_capability :
      AgentRow → Text → Text → Text → Option Text → ℕ → ℕ → Exec PublicAccess
  request_capability agent capability_id method path reason ttl uses = do
    text ← lift (validate_capability_terms agent reason ttl uses)
    row ← get_capability_row capability_id
    root_key ← gets (λ s. s.root_key)
    definition ← lift (capability_payload root_key row)
    filing ← lift (validate_capability agent row definition method path text ttl uses)
    filed ← file_request agent filing
    result ← show_request filed.0
    if filed.1
        then (do
          audit_request agent filing reason (
              requested_capability filed.0 row.id
                (or_else (digested filed.0 agent.id filing).authority_digest []))
          pure result)
        else pure result
