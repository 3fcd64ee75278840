-- ===== src/Tests/Broker.antt =====
-- The theorems on the use of secrets, and on the master password, each applied at a concrete input.
use passd.Tests.World.{toy, toy-IsLawful}
use passd.Base.{false, ◌⊎◌, ◌∷◌, none, [], some, List, ◌≡◌, refl}
use passd.Errors.{err, ok, Result}
use passd.Broker.Hidden.{redact_hides, IsConcealable}
use passd.Broker.Headers.{broker_headers-IsHeaders, IsHeaders}
use passd.Broker.Direct.{broker_http, reveal_secret, BrokerCall, broker_headers}
use passd.Config.{
  root_check_aad, root_check_text, derive_and_verify-initialize, derive_and_verify, initialize,
  Config,
}
use passd.Db.{Service}
use passd.Broker.{execute_http, invoke_capability, HttpResult, verify_admin_password}
use passd.Broker.Lent.{reveal_secret-IsLent, IsLent}
use passd.Broker.Admin.{verify_admin_password-IsAdmin, IsAdmin}
use passd.Http.{HttpRequest}
use passd.Payload.{secret_reveal, Value, Secret}
use passd.Broker.Response.{execute_http-IsShown, IsShown}
use passd.Broker.Sent.{invoke_capability-IsInvoked, IsInvoked}
use passd.Broker.Redact.{redact, contains}
use passd.Text.{Text, codes}
use passd.Tests.Story.{token_version, lease_row, service_with}
use passd.Tests.Contracts.{with_contract}
use passd.Crypto.{seal}
use passd.Vaults.{truthy}
use passd.Numbers.{whole, steps}

abbrev no_result : HttpResult
no_result = record { status = 0; headers = []; body = [] }

abbrev result_of : Result HttpResult → HttpResult
result_of (ok result) = result
result_of (err e) = no_result

abbrev invoked_by : Result HttpResult × Service
invoked_by =
    invoke_capability (codes "deploy") (codes "get") (codes "/a/b") none (some (codes "pda_b.k"))
      (some (codes "d")) with_contract

invoked_runs : invoked_by ≡ (ok (result_of invoked_by.0), invoked_by.1)
unfolding invoke_capability passd.Exec.◌>>=◌ passd.Agents.authenticate_agent
    passd.Agents.parse_token passd.Access.Claim.consume_capability_grant passd.Access.is_blank
    passd.Agents.has_scope passd.Capabilities.Store.capability_key passd.Sealing.capability_payload
    passd.Crypto.open_json passd.Sealing.aad passd.Capabilities.validate_invocation passd.Text.upper
    passd.Url.urlsplit passd.Url.Quote.unquote passd.Access.exceeds_ceiling
    passd.Sealing.access_payload passd.Authority.credential_version passd.Refs.parse_pass_ref
    passd.Sealing.item_payload passd.Items.extract_field passd.Text.join_on
    passd.Broker.validate_target passd.Url.hostname passd.Url.has_userinfo passd.Url.port
    passd.Audit.audit
invoked_runs = refl

invoke_capability-IsInvoked_example :
    IsInvoked
      (codes "deploy")
      (codes "get")
      (codes "/a/b")
      none
      (some (codes "pda_b.k"))
      (result_of invoked_by.0)
      with_contract
invoke_capability-IsInvoked_example =
    invoke_capability-IsInvoked (codes "deploy") (codes "get") (codes "/a/b") none
      (some (codes "pda_b.k")) (some (codes "d")) (result_of invoked_by.0) with_contract
      invoked_by.1 invoked_runs

abbrev call : BrokerCall
call = record {
  uri = codes "pass://v/i/t";
  url = codes "https://H/x";
  method = codes "get";
  header = codes " X";
  prefix = [];
  body = none;
  extra_headers = (codes "A", codes "b") ∷ [];
  timeout = steps (whole 20);
}

abbrev leased : Service
leased = service_with (lease_row token_version ∷ [])

abbrev brokered_by : Result HttpResult × Service
brokered_by = broker_http call (some (codes "pda_b.k")) none (some (codes "d")) leased

abbrev the_secret : Secret
the_secret = Secret.value (Value.text (codes "s3cret"))

-- The administrator reads the field.
abbrev revealed : Result Secret × Service
revealed = reveal_secret (codes "pass://v/i/t") none (some (codes "r")) none leased

revealed_runs : revealed ≡ (ok the_secret, revealed.1)
unfolding reveal_secret passd.Exec.◌>>=◌ passd.Items.resolve_item_ref passd.Refs.parse_pass_ref
    passd.Text.starts_with passd.Url.urlsplit passd.Text.split_on passd.Url.Quote.unquote
    passd.Items.find_item passd.Vaults.find_vault passd.Sealing.item_payload passd.Sealing.aad
    passd.Crypto.open_json passd.Items.extract_field passd.Text.join_on
revealed_runs = refl

reveal_secret-IsLent_example :
    ((charged : Service) × IsLent secret_reveal
        (codes "pass://v/i/t")
        none
        none
        the_secret
        leased
        charged)
    ⊎ ((truthy none ≡ false) × IsAdmin (some (codes "r")) leased)
reveal_secret-IsLent_example =
    reveal_secret-IsLent (codes "pass://v/i/t") none (some (codes "r")) none the_secret leased
      revealed.1 revealed_runs

password_right : verify_admin_password (some (codes "r")) leased ≡ (ok tt, leased)
unfolding verify_admin_password passd.Exec.◌>>=◌
password_right = refl

verify_admin_password-IsAdmin_example : (leased ≡ leased) × IsAdmin (some (codes "r")) leased
verify_admin_password-IsAdmin_example =
    verify_admin_password-IsAdmin (some (codes "r")) leased leased password_right

s3cret-IsConcealable : IsConcealable (codes "s3cret")
unfolding passd.Text.has_char passd.Text.starts_with
s3cret-IsConcealable = record { some_text = refl; no_open = refl; no_close = refl; apart = refl }

redact_hides_example :
    contains (codes "s3cret") (redact (codes "a s3cret, s3cret") (codes "s3cret")) ≡ false
redact_hides_example = redact_hides (codes "a s3cret, s3cret") (codes "s3cret") s3cret-IsConcealable

abbrev the_request : HttpRequest
the_request = record {
  url = codes "https://h/s3cret";
  method = codes "GET";
  headers = [];
  body = none;
  timeout = steps (whole 20);
}

abbrev exchanged : Result HttpResult
exchanged = execute_http 0 the_request (codes "s3cret")

exchange_runs : exchanged ≡ ok (result_of exchanged)
unfolding execute_http
exchange_runs = refl

execute_http-IsShown_example : IsShown 0 the_request (codes "s3cret") (result_of exchanged)
execute_http-IsShown_example =
    execute_http-IsShown 0 the_request (codes "s3cret") (result_of exchanged) s3cret-IsConcealable
      exchange_runs

abbrev sent_headers : List (Text × Text)
sent_headers = (codes "A", codes "b") ∷ (codes "X", codes "s3cret") ∷ []

headers_pass : broker_headers call (codes "s3cret") ≡ ok sent_headers
unfolding broker_headers
headers_pass = refl

broker_headers-IsHeaders_example : IsHeaders call (codes "s3cret") sent_headers
broker_headers-IsHeaders_example =
    broker_headers-IsHeaders call (codes "s3cret") sent_headers headers_pass

abbrev made : Config
made = record {
  salt = codes "z";
  root_check = seal (codes "n") (codes "pw") root_check_text root_check_aad;
}

config_made : initialize none (codes "pw") (codes "z") (codes "n") ≡ ok made
unfolding initialize
config_made = refl

derive_and_verify-initialize_example :
    derive_and_verify made (codes "pw") ≡ ok (toy.scrypt (codes "pw") (codes "z"))
derive_and_verify-initialize_example =
    derive_and_verify-initialize (codes "pw") (codes "z") (codes "n") made toy-IsLawful config_made
