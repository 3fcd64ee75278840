-- ===== src/Cli.antt =====
-- passd/cli.py: the request that each command sends. The reading of the command line (`argparse`),
-- of the environment and of passwords is given; a token or a reason that is an empty text counts as
-- none.
pub mod Values
pub mod Requests
pub mod Credentials
use passd.Base.{none, some, [], ℕ, if◌then◌else◌, Option, List, ◌∷◌}
use passd.Text.{codes, Text}
use passd.Dispatch.{Request, no_params, Params}
use passd.Payload.{Value}
use passd.Vaults.{truthy}
use passd.Proton.{set_field}
use passd.Dispatch.Handle.{list_or}
use passd.Numbers.{ℤ, Float}

-- `PASSD_AGENT_TOKEN` and `PASSD_AGENT_REASON`, and what `password_from_env` returns
pub record Environment : Type 0 where
  pub token : Option Text
  pub reason : Option Text
  pub password : Text

-- `--agent-token` and `--reason`
pub record Caller : Type 0 where
  pub token : Option Text
  pub reason : Option Text

pub record LoginArgs : Type 0 where
  pub vault : Text
  pub title : Text
  pub username : Option Text
  pub email : Option Text
  pub password : Text
  pub urls : List Text
  pub fields : List Text
  pub note : Text

pub record CapabilityArgs : Type 0 where
  pub capability_id : Text
  pub description : Text
  pub backing_uri : Text
  pub scheme : Text
  pub host : Text
  pub port : Option ℤ
  pub methods : List Text
  pub path_prefix : Text
  pub inject_header : Text
  pub inject_prefix : Text
  pub static_headers : List Text
  pub timeout : Float

pub record BrokerArgs : Type 0 where
  pub uri : Text
  pub url : Text
  pub method : Text
  pub header : Text
  pub prefix : Text
  pub body : Option Text
  pub header_extra : List Text
  pub timeout : Float

-- The commands that send a request, with their arguments.
pub data Command : Type 0 where
  doctor agent_list : Command
  vault_list : Caller → Command
  vault_create : (name description : Text) → Command
  item_list : (vault : Text) → Caller → Command
  put_login : LoginArgs → Command
  resolve : (uri : Text) → Caller → Command
  agent_create : (name : Text) (scopes hosts : List Text) (expiration : Text) → Command
  agent_rotate agent_revoke : (agent : Text) → Command
  agent_monitor : (agent : Option Text) (limit : ℕ) → Command
  capability_list : Caller → Command
  capability_get : (id : Text) → Command
  capability_put : CapabilityArgs → Command
  capability_request : (id method path expiration : Text) (uses : ℕ) → Caller → Command
  capability_invoke : (id method path : Text) (body : Option Text) → Caller → Command
  access_request :
      (uri capability : Text) (host : Option Text) (expiration : Text) (uses : ℕ) → Caller → Command
  access_status : (request : Option Text) → Caller → Command
  access_pending : (limit : ℕ) → Command
  access_approve :
      (request : Text) (expiration : Option Text) (uses : Option ℕ) (note : Option Text) → Command
  access_deny : (request : Text) (note : Option Text) → Command
  access_revoke : (request : Text) → Command
  broker_http : BrokerArgs → Caller → Command

-- `a or b`
abbrev pub first_of : Option Text → Option Text → Option Text
first_of a b = if truthy a then a else b

-- `agent_token(args)`, `reason(args)`
abbrev pub token_for : Environment → Caller → Option Text
token_for env caller = first_of caller.token env.token

abbrev pub reason_for : Environment → Caller → Option Text
reason_for env caller = first_of caller.reason env.reason

abbrev pub by_admin : Environment → Text → Params → Request
by_admin env op params = record {
  op = op;
  params = params;
  admin_password = some env.password;
  agent_token = none;
  reason = none;
}

abbrev pub by_agent : Option Text → Option Text → Text → Params → Request
by_agent token reason op params = record {
  op = op;
  params = params;
  admin_password = none;
  agent_token = token;
  reason = reason;
}

-- With a token if there is one, else with the password. The reason goes with a token.
unfoldable pub by_either : Environment → Option Text → Option Text → Text → Params → Request
by_either env token reason op params =
    if truthy token then by_agent token reason op params else by_admin env op params

abbrev pub text_fields : List (Text × Text) → List (Text × Value)
text_fields [] = []
text_fields ((k, v) ∷ fields) = (k, Value.text v) ∷ text_fields fields

abbrev pub set_if : Text → Option Text → List (Text × Value) → List (Text × Value)
set_if k none fields = fields
set_if k (some v) fields = set_field k (Value.text v) fields

abbrev pub login_fields : LoginArgs → List (Text × Text) → List (Text × Value)
login_fields args pairs = set_field (codes "password") (Value.text args.password) (
    set_if (codes "email") args.email (set_if (codes "username") args.username (text_fields pairs)))

abbrev pub login_params : LoginArgs → List (Text × Text) → Params
login_params args pairs = record no_params {
  vault = some args.vault;
  title = some args.title;
  type = some (codes "login");
  fields = login_fields args pairs;
  urls = args.urls;
  note = some args.note;
}

abbrev pub capability_params : CapabilityArgs → List (Text × Text) → Params
capability_params args headers = record no_params {
  definition = record {
    id = some args.capability_id;
    kind = some (codes "http_secret");
    description = some args.description;
    backing_uri = some args.backing_uri;
    scheme = some args.scheme;
    host = some args.host;
    port = args.port;
    methods = list_or args.methods (codes "POST" ∷ []);
    path_prefix = some args.path_prefix;
    inject_header = some args.inject_header;
    inject_prefix = some args.inject_prefix;
    static_headers = headers;
    timeout = some args.timeout;
  };
}

abbrev pub broker_params : BrokerArgs → List (Text × Text) → Params
broker_params args headers = record no_params {
  uri = some args.uri;
  url = some args.url;
  method = some args.method;
  header = some args.header;
  prefix = some args.prefix;
  body = args.body;
  headers = headers;
  timeout = some args.timeout;
}
