-- ===== src/Access/Review.antt =====
-- The human's decisions: `approve_access`, `deny_access` and `revoke_access` of passd/service.py.
use passd.Base.{
  true, false, eqb, is_empty, none, if◌then◌else◌, max, update_where, ◌&&◌, filter, [], min, ◌+◌,
  length, find, some, not, or_else, Bool, ℕ, Option,
}
use passd.Text.{◌==◌, strip, Text}
use passd.Platform.{Platform}
use passd.Payload.{
  on_revoke, on_approve, on_stale, on_deny, about_request, Detail, version_changed, AccessPayload,
  Target,
}
use passd.Db.{
  denied, stale, pending, same_status, approved, ItemRow, CapabilityRow, AccessRow, Status,
}
use passd.Access.{access_has_id, PublicAccess, get_access_request, show_request}
use passd.Exec.{case_of, raise, pure, now, lift, modify, gets, check, Exec, ◌>>=◌, ◌>>◌}
use passd.Crypto.{Envelope}
use passd.Items.{item_has_id, resolve_item_ref, extract_field, find_item}
use passd.Sealing.{access_payload, seal_access_payload, capability_payload, item_payload}
use passd.Authority.{credential_version, approval_digest}
use passd.Capabilities.Store.{capability_key, capability_has_id}
use passd.Capabilities.{validate_invocation}
use passd.Errors.{conflict}
use passd.Audit.{audit}

-- WHERE id=? AND status=?
abbrev pub is_at : Text → Status → AccessRow → Bool
is_at id status row = access_has_id id row && same_status row.status status

-- An UPDATE of the requests, and how many rows it touches.
abbrev pub update_requests : (AccessRow → Bool) → (AccessRow → AccessRow) → Exec (Unit {0})
update_requests p f =
    modify (λ s. record s { access_requests = update_where p f s.access_requests })

abbrev pub rowcount : (AccessRow → Bool) → Exec ℕ
rowcount p = gets (λ s. length (filter p s.access_requests))

-- `SET status=?, reviewed_at=?`
abbrev pub set_status : Status → ℕ → AccessRow → AccessRow
set_status status ts row = record row { status = status; reviewed_at = some ts }

-- `requested if given is None else min(requested, max(least, given))`
unfoldable pub narrowed : ℕ → ℕ → Option ℕ → ℕ
narrowed least requested none = requested
narrowed least requested (some given) = min requested (max least given)

-- `(note or "").strip() or None`
unfoldable pub note_of : Option Text → Option Text
unfolding strip
note_of note = let t = strip (or_else note []) in if is_empty t then none else some t

-- What an approval has found: the item, and the payload with the version of its credential.
pub record Bound : Type 0 where
  pub item : ItemRow
  pub payload : AccessPayload
  pub detail : Option (Text × Option Text)

-- The columns that an approval writes.
abbrev pub granted : Envelope → Text → ℕ → ℕ → ℕ → AccessRow → AccessRow
granted sealed item_id reviewed ttl uses row = record row {
  payload = sealed;
  status = approved;
  item_id = some item_id;
  expires_at = some (reviewed + ttl);
  max_uses = some uses;
  uses = 0;
  reviewed_at = some reviewed;
}

module _ ⦃p : Platform⦄ where
  -- `_credential_version`
  unfoldable pub item_credential_version : ItemRow → Option Text → Exec Text
  item_credential_version row field = do
    content ← item_payload row
    secret ← lift (extract_field content field)
    root_key ← gets (λ s. s.root_key)
    pure (credential_version root_key row.id field secret)

  -- The credential behind a field of an item, as it is now.
  unfoldable pub bind_selector : AccessPayload → Text → Text → Text → Exec Bound
  unfolding item_credential_version
  bind_selector payload vault item field = do
    row ← find_item vault item
    content ← item_payload row
    secret ← lift (extract_field content (some field))
    version ← item_credential_version row (some field)
    pure (record {
      item = row;
      payload = record payload {
        approved_credential_version = some version;
        approved_item_fingerprint = none;
        approved_item_version = none;
      };
      detail = none;
    })

  -- A request for a capability that is gone, or has changed, becomes stale.
  unfoldable pub check_capability : AccessRow → AccessPayload → Text → Text → Exec CapabilityRow
  check_capability row payload id version = do
    s ← gets (λ s. s)
    case_of (find (capability_has_id (capability_key id)) s.capabilities)
        (do update_requests (is_at row.id pending) (set_status stale s.clock); raise conflict)
        λ cap. if version == cap.version then pure cap else (do
          update_requests (is_at row.id pending) (set_status stale s.clock)
          audit (some row.agent_id) on_stale none row.target_host (some payload.reason) false
              (version_changed row.id)
          raise conflict)

  unfoldable pub bind_capability :
      AccessRow → AccessPayload → (id version method path : Text) → Exec Bound
  unfolding check_capability item_credential_version
  bind_capability row payload id version method path = do
    cap ← check_capability row payload id version
    root_key ← gets (λ s. s.root_key)
    definition ← lift (capability_payload root_key cap)
    invocation ← lift (validate_invocation definition method path)
    resolved ← resolve_item_ref definition.backing_uri
    content ← item_payload resolved.0
    secret ← lift (extract_field content resolved.1)
    current ← item_credential_version resolved.0 resolved.1
    pure (record {
      item = resolved.0;
      payload = record payload {
        approved_credential_version = some current;
        approved_capability_version = some cap.version;
      };
      detail = some (cap.id, payload.authority_digest);
    })

  unfoldable pub bind_to : AccessRow → AccessPayload → Target → Exec Bound
  unfolding bind_selector bind_capability
  bind_to row payload (Target.selector v i f) = bind_selector payload v i f
  bind_to row payload (Target.capability id version method path) =
      bind_capability row payload id version method path

  -- The payload of an approved lease: the note, and the digest of what was approved.
  unfoldable pub approved_payload : AccessRow → AccessPayload → Option Text → ℕ → ℕ → AccessPayload
  unfolding note_of
  approved_payload row payload note ttl uses = record payload {
    decision_note = note_of note;
    approval_digest = some (
        approval_digest (record {
          request_id = row.id;
          agent_id = row.agent_id;
          authority_digest = payload.authority_digest;
          capability = row.capability;
          target = payload.target;
          credential_version = payload.approved_credential_version;
          approved_ttl = ttl;
          approved_uses = uses;
        }));
  }

  -- The UPDATE of `approve_access`, and its audit row.
  unfoldable pub grant : AccessRow → Bound → Option ℕ → Option ℕ → Option Text → Exec (Unit {0})
  unfolding narrowed approved_payload
  grant row bound ttl_seconds max_uses note = do
    let ttl = narrowed 60 bound.payload.requested_ttl ttl_seconds
    let uses = narrowed 1 bound.payload.requested_uses max_uses
    let payload = approved_payload row bound.payload note ttl uses
    reviewed ← now
    sealed ← seal_access_payload row.id payload
    count ← rowcount (is_at row.id pending)
    check (not (eqb count 1)) conflict
    update_requests (is_at row.id pending) (granted sealed bound.item.id reviewed ttl uses)
    audit (some row.agent_id) on_approve (some bound.item) row.target_host (some payload.reason)
        true (Detail.approved row.id bound.detail ttl uses)

  unfoldable pub approve_access : Text → Option ℕ → Option ℕ → Option Text → Exec PublicAccess
  unfolding bind_to grant
  approve_access request_id ttl_seconds max_uses note = do
    row ← get_access_request request_id
    check (not (same_status row.status pending)) conflict
    root_key ← gets (λ s. s.root_key)
    payload ← lift (access_payload root_key row)
    bound ← bind_to row payload payload.target
    grant row bound ttl_seconds max_uses note
    show_request request_id

  unfoldable pub deny_access : Text → Option Text → Exec PublicAccess
  unfolding note_of
  deny_access request_id note = do
    row ← get_access_request request_id
    check (not (same_status row.status pending)) conflict
    root_key ← gets (λ s. s.root_key)
    payload ← lift (access_payload root_key row)
    sealed ← seal_access_payload request_id (record payload { decision_note = note_of note })
    ts ← now
    count ← rowcount (is_at request_id pending)
    check (not (eqb count 1)) conflict
    update_requests (is_at request_id pending)
        (λ r. record r { payload = sealed; status = denied; reviewed_at = some ts })
    audit (some row.agent_id) on_deny none row.target_host (some payload.reason) false
        (about_request request_id)
    show_request request_id

  unfoldable pub revoke_access : Text → Exec PublicAccess
  revoke_access request_id = do
    row ← get_access_request request_id
    check (not (same_status row.status approved)) conflict
    ts ← now
    count ← rowcount (is_at request_id approved)
    check (not (eqb count 1)) conflict
    update_requests (is_at request_id approved) (set_status Status.revoked ts)
    items ← gets (λ s. s.items)
    let item : Option ItemRow = elim row.item_id [
      | none ↦ none
      | some id ↦ find (item_has_id id) items
    ]
    audit (some row.agent_id) on_revoke item row.target_host none false (about_request request_id)
    show_request request_id
