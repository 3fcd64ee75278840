-- ===== src/Tests/Contracts.antt =====
-- The theorems on capabilities, hosts, filings and envelopes, each applied at a concrete input.
use passd.Tests.World.{toy-IsLawful, definition_format, access_format, toy}
use passd.Base.{none, arith, true, false, ◌≡◌, [], some, ◌∷◌, ◌≤◌, Among, List, refl}
use passd.Access.Soundness.Invocation.{consume_capability_sound, CapabilityGrant}
use passd.Access.Terms.{validate_access_ok, IsModest}
use passd.Capabilities.Path.{validate_invocation_sound, IsContained}
use passd.Payload.{Target, https, capability_invoke, access_request, secret_use, Definition}
use passd.Db.{approved, Service, AccessRow, CapabilityRow}
use passd.Access.Request.{file_request, pending_of}
use passd.Access.Queue.{file_request-bounded, waiting_count}
use passd.Access.Filing.{Filing, validate_access}
use passd.Capabilities.{normalize_definition, RawDefinition, validate_invocation}
use passd.Errors.{err, ok, Result}
use passd.Access.Claim.{consume_capability_grant, CapabilityClaim}
use passd.Hosts.{rstrip_dots, host_allowed}
use passd.Text.{lower, codes, Text}
use passd.Crypto.{open_json-seal_json, seal_json, open_json}
use passd.Tests.Story.{
  token_version, asked, pending_row, under, item_content, item_row, service_with, bot,
}
use passd.Exec.{◌>>=◌}
use passd.Access.{is_blank, scope_missing}
use passd.Hosts.Patterns.{host_allowed-Covers, Covers}
use passd.Capabilities.Normal.{normalize_definition-IsNormal, IsNormal}
use passd.Capabilities.Stored.{put_capability-Holds, Holds}
use passd.Capabilities.Store.{PublicCapability, put_capability}
use passd.Numbers.{whole, steps}

abbrev contract : Definition
contract = record {
  id = codes "deploy";
  description = [];
  backing_uri = codes "pass://v/i/t";
  scheme = https;
  host = codes "h";
  port = 443;
  methods = codes "GET" ∷ [];
  path_prefix = codes "/a";
  inject_header = codes "X";
  inject_prefix = [];
  static_headers = [];
  timeout = steps (whole 20);
}

let_through :
    validate_invocation contract (codes "get") (codes "/a/b") ≡ ok (codes "GET", codes "/a/b")
unfolding validate_invocation passd.Text.mem passd.Text.upper passd.Text.strip passd.Url.urlsplit
    passd.Url.Quote.unquote
let_through = refl

validate_invocation_sound_example : IsContained contract (codes "GET") (codes "/a/b")
validate_invocation_sound_example =
    validate_invocation_sound contract (codes "get") (codes "/a/b") (codes "GET") (codes "/a/b")
      let_through

abbrev patterns : List Text
patterns = codes "x.org" ∷ codes "*.h.io" ∷ []

covered : host_allowed (codes "A.h.io.") patterns ≡ true
unfolding host_allowed passd.Text.starts_with passd.Text.◌==◌ passd.Text.ends_with
covered = refl

host_allowed-Covers_example :
    (pattern : Text) × Among pattern patterns
    × Covers (rstrip_dots (lower pattern)) (rstrip_dots (lower (codes "A.h.io.")))
host_allowed-Covers_example = host_allowed-Covers (codes "A.h.io.") patterns covered

abbrev filing : Filing
filing = record {
  capability = secret_use;
  target_host = some (codes "h");
  payload = asked (Target.selector (codes "v") (codes "i") (codes "t"));
}

abbrev house : Service
house = service_with (pending_row ∷ [])

one_waits : waiting_count (codes "pda_b") house ≤ 32
unfolding pending_of passd.Text.◌==◌
one_waits = omega arith

file_request-bounded_example : waiting_count (codes "pda_b") (file_request bot filing house).1 ≤ 32
file_request-bounded_example = file_request-bounded bot filing house (codes "pda_b") one_waits

passes :
    validate_access bot
      (codes "pass://v/i/t")
      (codes "secret.use")
      (some (codes "h"))
      (some (codes "d"))
      600
      2
    ≡ ok filing
unfolding validate_access passd.Agents.has_scope passd.Text.◌==◌ is_blank passd.Refs.parse_pass_ref
    passd.Text.starts_with passd.Url.urlsplit passd.Text.split_on passd.Url.Quote.unquote
    passd.Text.join_on passd.Hosts.normalize_host passd.Url.hostname passd.Url.has_userinfo
    passd.Url.port passd.Access.exceeds_ceiling
passes = refl

validate_access_ok_example :
    IsModest filing
    × (scope_missing bot access_request ≡ false)
    × (scope_missing bot filing.capability ≡ false)
    × (is_blank (some (codes "d")) ≡ false)
validate_access_ok_example =
    validate_access_ok bot (codes "pass://v/i/t") (codes "secret.use") (some (codes "h"))
      (some (codes "d")) 600 2 filing passes

abbrev contract_row : CapabilityRow
contract_row = record {
  id = codes "deploy";
  version = codes "1";
  payload =
      under (codes "r") (codes "passd/capability/deploy/payload")
        (definition_format.write contract);
  created_at = 1;
  updated_at = 1;
}

abbrev contract_lease : AccessRow
contract_lease = record {
  id = codes "q";
  agent_id = codes "pda_b";
  capability = capability_invoke;
  target_host = some (codes "h");
  payload = under (codes "r") (codes "passd/access/q/payload") (
      access_format.write
        (record (asked
          (Target.capability (codes "deploy") (codes "1") (codes "GET") (codes "/a/b"))) {
            approved_credential_version = some token_version;
          }));
  status = approved;
  item_id = some (codes "i");
  expires_at = some 2000;
  max_uses = some 2;
  uses = 0;
  created_at = 1;
  reviewed_at = some 1;
}

abbrev pub with_contract : Service
with_contract = record (service_with (contract_lease ∷ [])) { capabilities = contract_row ∷ [] }

abbrev invoked_claim : CapabilityClaim
invoked_claim = record {
  claim = record { lease = contract_lease; item = item_row; content = item_content };
  capability = contract_row;
  definition = contract;
  field = some (codes "t");
}

abbrev invocation : Result CapabilityClaim × Service
invocation =
    consume_capability_grant bot (codes "deploy") (codes "get") (codes "/a/b") (some (codes "d"))
      with_contract

invocation_runs : invocation ≡ (ok invoked_claim, invocation.1)
unfolding consume_capability_grant ◌>>=◌ is_blank passd.Agents.has_scope passd.Text.◌==◌
    passd.Capabilities.Store.capability_key lower passd.Sealing.capability_payload open_json
    passd.Sealing.aad validate_invocation passd.Text.mem passd.Text.upper passd.Url.urlsplit
    passd.Url.Quote.unquote passd.Access.exceeds_ceiling passd.Sealing.access_payload
    passd.Authority.credential_version passd.Refs.parse_pass_ref
    passd.Access.Claim.capability_backing passd.Access.Claim.capability_candidates
    passd.Access.Claim.check_capability_use passd.Access.Claim.first_claim
    passd.Access.Claim.invokes passd.Access.Claim.settle passd.Access.Claim.try_capability
    passd.Audit.audit passd.Authority.keyed_version passd.Capabilities.has_traversal
    passd.Capabilities.is_absolute passd.Capabilities.path_in_capability
    passd.Capabilities.rstrip_slashes passd.Crypto.open_sealed passd.Crypto.seal seal_json
    host_allowed passd.Hosts.host_matches passd.Hosts.matches rstrip_dots passd.Items.extract_field
    passd.Items.lookup_field passd.Refs.build_ref passd.Refs.path_parts passd.Sealing.item_key
    passd.Sealing.item_payload passd.Sealing.vault_key passd.Text.add_char passd.Text.ends_with
    passd.Text.has_char passd.Text.is_space passd.Text.join_on passd.Text.lower_char
    passd.Text.lstrip passd.Text.rstrip passd.Text.split_on passd.Text.starts_with passd.Text.strip
    passd.Text.upper_char passd.Url.Quote.add_run passd.Url.Quote.ascii_runs
    passd.Url.Quote.decode_runs passd.Url.Quote.percent_decode passd.Url.check_brackets
    passd.Url.cut passd.Url.pick_scheme passd.Url.span passd.Url.split_netloc passd.Url.split_scheme
invocation_runs = refl

consume_capability_sound_example :
    CapabilityGrant bot
      (codes "deploy")
      (codes "get")
      (codes "/a/b")
      invoked_claim
      with_contract
      invocation.1
consume_capability_sound_example =
    consume_capability_sound bot (codes "deploy") (codes "get") (codes "/a/b") (some (codes "d"))
      invoked_claim with_contract invocation.1 invocation_runs

abbrev pub raw_contract : RawDefinition
raw_contract = record {
  id = some (codes " Deploy");
  kind = none;
  description = none;
  backing_uri = some (codes "pass://v/i/t");
  scheme = none;
  host = some (codes "H");
  port = none;
  methods = codes "get" ∷ [];
  path_prefix = some (codes "/a");
  inject_header = none;
  inject_prefix = none;
  static_headers = (codes "A", codes "b") ∷ [];
  timeout = none;
}

abbrev definition_or : Result Definition → Definition
definition_or (ok d) = d
definition_or (err e) = contract

abbrev normalized : Result Definition
normalized = normalize_definition false raw_contract

normalizes : normalized ≡ ok (definition_or normalized)
unfolding normalize_definition passd.Authority.is_capability_id lower passd.Text.strip
    passd.Refs.parse_pass_ref passd.Text.starts_with passd.Url.urlsplit passd.Url.Quote.unquote
    passd.Text.join_on passd.Hosts.normalize_host passd.Url.hostname passd.Url.has_userinfo
    passd.Url.port passd.Capabilities.port_or passd.Text.sort_texts passd.Text.upper
normalizes = refl

normalize_definition-IsNormal_example : IsNormal false (definition_or normalized)
normalize_definition-IsNormal_example =
    normalize_definition-IsNormal false raw_contract (definition_or normalized) normalizes

abbrev put_into : Result PublicCapability × Service
put_into = put_capability raw_contract with_contract

abbrev shown_or : Result PublicCapability → PublicCapability
shown_or (ok shown) = shown
shown_or (err e) = record {
  id = [];
  version = [];
  description = [];
  target_host = [];
  methods = [];
  path_prefix = [];
}

put_runs : put_into ≡ (ok (shown_or put_into.0), put_into.1)
unfolding put_capability ◌>>=◌ normalize_definition passd.Authority.is_capability_id lower
    passd.Text.strip passd.Refs.parse_pass_ref passd.Text.starts_with passd.Url.urlsplit
    passd.Url.Quote.unquote passd.Text.join_on passd.Hosts.normalize_host passd.Url.hostname
    passd.Url.has_userinfo passd.Url.port passd.Capabilities.port_or passd.Text.sort_texts
    passd.Text.upper passd.Sealing.capability_payload passd.Authority.capability_version
    passd.Authority.keyed_version passd.Capabilities.Store.public_capability
    passd.Capabilities.Store.store_capability passd.Capabilities.check_backing_uri
    passd.Capabilities.check_headers passd.Capabilities.check_methods
    passd.Capabilities.check_prefix passd.Capabilities.check_scheme passd.Capabilities.has_traversal
    passd.Capabilities.is_absolute passd.Capabilities.normalize_request
    passd.Capabilities.normalize_target passd.Capabilities.scheme_of passd.Capabilities.set_header
    passd.Capabilities.validate_header_name passd.Capabilities.validate_header_value
    passd.Capabilities.validate_headers open_json passd.Crypto.open_sealed passd.Crypto.seal
    seal_json rstrip_dots passd.Refs.build_ref passd.Refs.path_parts passd.Sealing.aad
    passd.Text.add_char passd.Text.dedup passd.Text.has_char passd.Text.is_space
    passd.Text.lower_char passd.Text.lstrip passd.Text.mem passd.Text.rstrip passd.Text.split_on
    passd.Text.upper_char passd.Text.◌==◌ passd.Url.Quote.add_run passd.Url.Quote.ascii_runs
    passd.Url.Quote.decode_runs passd.Url.Quote.percent_decode passd.Url.after_at
    passd.Url.before_at passd.Url.check_brackets passd.Url.cut passd.Url.hostinfo
    passd.Url.pick_scheme passd.Url.read_port passd.Url.span passd.Url.split_netloc
    passd.Url.split_scheme
put_runs = refl

put_capability-Holds_example :
    (d : Definition) × (normalize_definition with_contract.allow_private_broker_targets raw_contract
      ≡ ok d)
    × Holds put_into.1.root_key d put_into.1.capabilities
put_capability-Holds_example =
    put_capability-Holds raw_contract (shown_or put_into.0) with_contract put_into.1 toy-IsLawful
      put_runs
