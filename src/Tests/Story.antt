-- ===== src/Tests/Story.antt =====
-- Concrete rows: a vault, an item, a machine key, and a request, waiting and approved.
use passd.Tests.World.{vault_format, access_format, item_format, toy}
use passd.Base.{◌+◌, false, ◌++◌, [], some, ◌∷◌, none, List}
use passd.Payload.{
  capability_invoke, AccessPayload, Secret, capability_request, access_request, Target, secret_use,
  Value, Source, ItemPayload,
}
use passd.Text.{codes, Text}
use passd.Db.{approved, pending, AccessRow, ItemRow, VaultRow, Service, AgentRow}
use passd.Access.Claim.{consume_exact_grant, Claim}
use passd.Authority.{credential_version}
use passd.Crypto.{Envelope}
use passd.Exec.{Exec}

abbrev pub no_source : Source
no_source = record { kind = none; id = none }

-- A text under a key, as the concrete cipher seals it with an empty nonce.
abbrev pub under : (key aad text : Text) → Envelope
under key aad text = record { nonce = []; ciphertext = (key ++ [] ++ aad) ++ text }

abbrev pub vault_row : VaultRow
vault_row = record {
  id = codes "v";
  wrapped_key = under (codes "r") (codes "passd/vault/v/key") (codes "w");
  payload =
      under (codes "w") (codes "passd/vault/v/payload")
        (vault_format.write (record { name = codes "W"; description = []; source = no_source }));
  source_kind = none;
  source_id = none;
  created_at = 1;
  updated_at = 1;
}

abbrev pub item_content : ItemPayload
item_content = record {
  type = codes "login";
  title = codes "G";
  fields = (codes "t", Value.text (codes "s3cret")) ∷ [];
  urls = [];
  note = [];
  source = no_source;
  proton_raw = none;
}

abbrev pub item_row : ItemRow
item_row = record {
  id = codes "i";
  vault_id = codes "v";
  wrapped_key = under (codes "w") (codes "passd/item/i/key") (codes "x");
  payload = under (codes "x") (codes "passd/item/i/payload") (item_format.write item_content);
  source_kind = none;
  source_id = none;
  created_at = 1;
  updated_at = 1;
}

abbrev pub bot : AgentRow
bot = record {
  id = codes "pda_b";
  name = codes "bot";
  token_hash = codes "k";
  scopes = access_request ∷ secret_use ∷ capability_request ∷ capability_invoke ∷ [];
  vault_ids = [];
  item_ids = [];
  allowed_hosts = [];
  expires_at = 5000;
  revoked = false;
  created_at = 1;
}

abbrev pub asked : Target → AccessPayload
asked target = record {
  target = target;
  reason = codes "d";
  requested_ttl = 600;
  requested_uses = 2;
  authority_digest = none;
  approved_credential_version = none;
  approved_capability_version = none;
  approved_item_version = none;
  approved_item_fingerprint = none;
  decision_note = none;
  approval_digest = none;
}

-- A request for the token of the item, in the state of an approved lease.
abbrev pub lease_row : (version : Text) → AccessRow
lease_row version = record {
  id = codes "q";
  agent_id = codes "pda_b";
  capability = secret_use;
  target_host = some (codes "h");
  payload = under (codes "r") (codes "passd/access/q/payload") (
      access_format.write (record (asked (Target.selector (codes "v") (codes "i") (codes "t"))) {
        approved_credential_version = some version;
      }));
  status = approved;
  item_id = some (codes "i");
  expires_at = some 2000;
  max_uses = some 2;
  uses = 0;
  created_at = 1;
  reviewed_at = some 1;
}

abbrev pub pending_row : AccessRow
pending_row = record {
  id = codes "q";
  agent_id = codes "pda_b";
  capability = secret_use;
  target_host = some (codes "h");
  payload =
      under (codes "r") (codes "passd/access/q/payload")
        (access_format.write (asked (Target.selector (codes "v") (codes "i") (codes "t"))));
  status = pending;
  item_id = none;
  expires_at = none;
  max_uses = none;
  uses = 0;
  created_at = 1;
  reviewed_at = none;
}

-- The service with one vault, one item and one agent, and these requests.
abbrev pub service_with : List AccessRow → Service
service_with rows = record {
  root_key = codes "r";
  config = record {
    salt = codes "z";
    root_check =
        under (codes "r") (codes "passd/config/root-check/v1") (codes "passd-root-check-v1");
  };
  allow_private_broker_targets = false;
  vaults = vault_row ∷ [];
  items = item_row ∷ [];
  capabilities = [];
  agents = bot ∷ [];
  access_requests = rows;
  audits = [];
  clock = 1000;
  entropy = λ n. (b'a' + n) ∷ [];
  drawn = 0;
}

abbrev pub token_version : Text
token_version =
    credential_version (codes "r") (codes "i") (some (codes "t"))
      (Secret.value (Value.text (codes "s3cret")))

abbrev pub claim_token : Exec (Claim × Text)
claim_token =
    consume_exact_grant bot secret_use (codes "pass://v/i/t") (some (codes "h")) (some (codes "d"))
