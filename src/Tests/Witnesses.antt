-- ===== src/Tests/Witnesses.antt =====
-- The theorems on requests and leases, each applied to a concrete run.
use passd.Tests.World.{toy}
use passd.Base.{All, inl, Among, [], some, ◌∷◌, none, ◌≡◌, false, List, refl}
use passd.Tests.Story.{
  item_content, item_row, token_version, lease_row, bot, service_with, pending_row,
}
use passd.Errors.{err, ok, Result}
use passd.Access.{scope_missing, PublicTarget, PublicAccess, is_active}
use passd.Access.Table.{Grows}
use passd.Access.Claim.{spend, Claim}
use passd.Access.Lease.{SameRequest, SameLease}
use passd.Db.{AgentRow, AccessRow, Service}
use passd.Access.Review.{approve_access}
use passd.Access.Approval.{approve_access-IsApproval, IsApproval}
use passd.Text.{codes}
use passd.Access.History.{run-SameLease, run-Grows, Call, run}
use passd.Exec.{◌>>=◌}
use passd.Payload.{metadata_read, secret_use}
use passd.Items.{summary_of, ItemSummary}
use passd.Access.Listing.{list_authorized_items}
use passd.Access.Disclosure.{list_authorized_items-IsLeased, IsLeased}

abbrev leased : Service
leased = service_with (lease_row token_version ∷ [])

abbrev the_claim : Claim
the_claim = record { lease = lease_row token_version; item = item_row; content = item_content }

-- An approval, a claim, some time, and a revocation.
abbrev some_calls : List Call
some_calls =
    Call.approve (codes "q") (some 300) none none
    ∷ Call.claim_exact bot secret_use (codes "pass://v/i/t") (some (codes "h")) (some (codes "d"))
    ∷ Call.tick 60
    ∷ Call.revoke (codes "q")
    ∷ []

abbrev asking : Service
asking = service_with (pending_row ∷ [])

run-Grows_example : Grows asking.access_requests (run some_calls asking).access_requests
run-Grows_example = run-Grows some_calls asking

abbrev approval : Result PublicAccess × Service
approval = approve_access (codes "q") (some 300) none none asking

abbrev no_access : PublicAccess
no_access = record {
  row = pending_row;
  active = false;
  uses_remaining = none;
  requested_ttl = 0;
  requested_uses = 0;
  reason = [];
  target = PublicTarget.uri [];
  approval_digest = none;
  decision_note = none;
}

abbrev shown_by : Result PublicAccess → PublicAccess
shown_by (ok a) = a
shown_by (err e) = no_access

approval_runs : approval ≡ (ok (shown_by approval.0), approval.1)
unfolding approve_access ◌>>=◌ passd.Access.get_access_request passd.Text.◌==◌
    passd.Sealing.access_payload passd.Crypto.open_json passd.Sealing.aad passd.Items.find_item
    passd.Vaults.find_vault passd.Sealing.item_payload passd.Items.extract_field passd.Audit.audit
    passd.Access.show_request passd.Crypto.seal_json passd.Authority.credential_version
    passd.Authority.approval_digest
approval_runs = refl

approve_access-IsApproval_example : IsApproval (codes "q") (some 300) none none asking approval.1
approve_access-IsApproval_example =
    approve_access-IsApproval (codes "q") (some 300) none none (shown_by approval.0) asking
      approval.1 approval_runs

run-SameLease_example :
    (after : AccessRow) × Among after (run some_calls leased).access_requests
    × SameRequest (lease_row token_version) after
    × SameLease (lease_row token_version) after
run-SameLease_example = run-SameLease some_calls leased (lease_row token_version) (inl refl) refl

abbrev reader : AgentRow
reader = record bot { scopes = metadata_read ∷ [] }

abbrev listing : Result (List ItemSummary) × Service
listing = list_authorized_items reader (codes "W") leased

abbrev told : List ItemSummary
told = summary_of item_row item_content ∷ []

listing_runs : listing ≡ (ok told, listing.1)
unfolding list_authorized_items ◌>>=◌ passd.Agents.has_scope passd.Text.sort_texts
    passd.Sealing.vault_payload passd.Crypto.open_sealed passd.Sealing.aad passd.Crypto.open_json
    passd.Sealing.item_payload
listing_runs = refl

list_authorized_items-IsLeased_example :
    (scope_missing reader metadata_read ≡ false) × All (λ x. IsLeased reader leased x.id) told
list_authorized_items-IsLeased_example =
    list_authorized_items-IsLeased reader (codes "W") told leased listing.1 listing_runs
