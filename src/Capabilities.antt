-- ===== src/Capabilities.antt =====
-- Typed capabilities: `_normalize_capability_definition`, `put_capability`, `get_capability`,
-- `list_capabilities`, `_path_in_capability` and `_validate_capability_invocation` of
-- passd/service.py.
pub mod Store
pub mod Path
pub mod Normal
pub mod Stored
use passd.Base.{
  or_else, length, ltb, ◌++◌, all, none, false, ◌||◌, ◌&&◌, map, ◌∷◌, is_empty, not, any, [], true,
  eqb, if◌then◌else◌, List, Bool, some, ℕ, Option,
}
use passd.Errors.{validation_error, err, permission_denied, ok, raise_if, Result, ◌>>=◌, ◌>>◌}
use passd.Text.{
  mem, ◌==◌, sort_texts, lower, upper, starts_with, strip, rstrip, split_on, Text, codes,
}
use passd.Platform.{Platform}
use passd.Payload.{http, https, Definition, Scheme}
use passd.Refs.{parse_pass_ref}
use passd.Authority.{is_capability_id}
use passd.Vaults.{truthy}
use passd.Url.{urlsplit}
use passd.Url.Quote.{unquote}
use passd.Hosts.{normalize_host}
use passd.Numbers.{negsuc, is_outside, whole, pos, Float, ℤ, steps}

-- The keys of the raw definition that may be missing, each by its text. `timeout` is
-- `timeout_seconds`.
pub record RawDefinition : Type 0 where
  pub id : Option Text
  pub kind : Option Text
  pub description : Option Text
  pub backing_uri : Option Text
  pub scheme : Option Text
  pub host : Option Text
  pub port : Option ℤ
  pub methods : List Text
  pub path_prefix : Option Text
  pub inject_header : Option Text
  pub inject_prefix : Option Text
  pub static_headers : List (Text × Text)
  pub timeout : Option Float

-- `raw.get(key) or default`: an empty text is replaced too
abbrev pub text_or : Option Text → Text → Text
text_or none d = d
text_or (some t) d = if is_empty t then d else t

abbrev pub is_line_break : ℕ → Bool
is_line_break c = eqb c 13 || eqb c 10

-- `_validate_header_name`, `_validate_header_value`
unfoldable pub validate_header_name : Text → Result Text
validate_header_name name =
    let stripped = strip name in
    if is_empty stripped || any (λ c. is_line_break c || eqb c b':') stripped
    then err validation_error
    else ok stripped

unfoldable pub validate_header_value : Text → Result Text
validate_header_value v = if any is_line_break v then err validation_error else ok v

-- `d[key] = value`
unfoldable pub set_header : Text → Text → List (Text × Text) → List (Text × Text)
set_header k v [] = (k, v) ∷ []
set_header k v ((k', v') ∷ d) = if k' == k then (k', v) ∷ d else (k', v') ∷ set_header k v d

-- The loop over the static headers, with those that were taken so far.
unfoldable pub validate_headers :
    List (Text × Text) → List (Text × Text) → Result (List (Text × Text))
unfolding validate_header_name validate_header_value set_header
validate_headers taken [] = ok taken
validate_headers taken ((k, v) ∷ headers) = do
  key ← validate_header_name k
  val ← validate_header_value v
  validate_headers (set_header key val taken) headers

abbrev pub names_of : List (Text × Text) → List Text
names_of headers = map (λ h. lower h.0) headers

abbrev pub routing_headers : List Text
routing_headers = codes "host" ∷ codes ":authority" ∷ codes "proxy-authorization" ∷ []

abbrev pub allowed_methods : List Text
allowed_methods = codes "GET" ∷ codes "POST" ∷ codes "PUT" ∷ codes "PATCH" ∷ codes "DELETE" ∷ []

abbrev pub is_parent : Text → Bool
is_parent part = part == codes ".."

-- `any(part == ".." for part in decoded.split("/"))`
unfoldable pub has_traversal : Text → Bool
unfolding split_on ◌==◌
has_traversal path = any is_parent (split_on b'/' path)

-- `path.rstrip("/")`
unfoldable pub rstrip_slashes : Text → Text
unfolding rstrip
rstrip_slashes = rstrip (eqb b'/')

-- `_path_in_capability`
unfoldable pub path_in_capability : Text → Text → Bool
unfolding rstrip_slashes starts_with ◌==◌
path_in_capability path prefix =
    if prefix == codes "/"
    then true
    else (let base = rstrip_slashes prefix in path == base || starts_with path (base ++ codes "/"))

unfoldable pub scheme_of : Text → Result Scheme
scheme_of t =
    if t == codes "https"
    then ok https
    else if t == codes "http"
    then ok http
    else err validation_error

abbrev pub is_http : Scheme → Bool
is_http http = true
is_http https = false

abbrev pub default_port : Scheme → ℕ
default_port https = 443
default_port http = 80

-- A port that is there, or a default one: a zero is replaced too
unfoldable pub port_or : Option ℕ → ℕ → ℕ
port_or none d = d
port_or (some n) d = if eqb n 0 then d else n

-- `int(raw.get("port") or default_port)`, and the range that it must be in
abbrev pub raw_port : Option ℤ → ℕ → ℤ
raw_port none d = pos d
raw_port (some (pos n)) d = pos (if eqb n 0 then d else n)
raw_port (some (negsuc n)) d = negsuc n

abbrev pub check_port : ℤ → Result ℕ
check_port (pos n) = if ltb n 1 || ltb 65535 n then err validation_error else ok n
check_port (negsuc n) = err validation_error

-- What `path_prefix` may be.
unfoldable pub is_absolute : Text → Bool
is_absolute path = starts_with path (codes "/") && not (starts_with path (codes "//"))

module _ ⦃p : Platform⦄ where
  unfoldable pub check_backing_uri : Text → Result Text
  check_backing_uri uri = do
    ref ← parse_pass_ref uri
    raise_if (not (truthy ref.field)) validation_error
    ok uri

  unfoldable pub check_prefix : Text → Result Text
  unfolding is_absolute has_traversal
  check_prefix path = do
    raise_if (not (is_absolute path) || any (λ c. is_line_break c || eqb c b'?' || eqb c b'#') path)
        validation_error
    raise_if (has_traversal (unquote p.unicode path)) validation_error
    raise_if (ltb 2048 (length path)) validation_error
    ok path

  unfoldable pub check_methods : List Text → Result (List Text)
  check_methods raw = do
    let methods = sort_texts (map (λ m. upper (strip m)) raw)
    raise_if (is_empty methods || not (all (λ m. mem m allowed_methods) methods)) validation_error
    ok methods

  unfoldable pub check_headers : Text → List (Text × Text) → Result (List (Text × Text))
  unfolding validate_headers
  check_headers inject_header raw = do
    headers ← validate_headers [] raw
    let names = names_of headers
    raise_if (mem (lower inject_header) names) validation_error
    raise_if (any (λ n. mem n names) routing_headers) validation_error
    ok headers

  unfoldable pub check_scheme : Bool → Text → Result Scheme
  unfolding scheme_of
  check_scheme allow_private raw = do
    scheme ← scheme_of raw
    raise_if (is_http scheme && not allow_private) permission_denied
    ok scheme

  -- `_normalize_capability_definition`, from its end: the path and the headers,
  unfoldable pub normalize_request :
      RawDefinition
      → (id description backing_uri : Text) → Scheme
      → (host : Text) (port : ℕ) (methods : List Text) → Result Definition
  unfolding check_prefix check_headers
  normalize_request raw id description backing_uri scheme host port methods = do
    path_prefix ← check_prefix (strip (text_or raw.path_prefix (codes "/")))
    inject_header ← validate_header_name (text_or raw.inject_header (codes "Authorization"))
    inject_prefix ← validate_header_value (text_or raw.inject_prefix [])
    static_headers ← check_headers inject_header raw.static_headers
    let timeout = or_else raw.timeout (steps (whole 20))
    raise_if (is_outside 60 timeout) validation_error
    ok (record {
      id = id;
      description = description;
      backing_uri = backing_uri;
      scheme = scheme;
      host = host;
      port = port;
      methods = methods;
      path_prefix = path_prefix;
      inject_header = inject_header;
      inject_prefix = inject_prefix;
      static_headers = static_headers;
      timeout = timeout;
    })

  -- the target and the methods,
  unfoldable pub normalize_target :
      Bool → RawDefinition → (id description backing_uri : Text) → Result Definition
  unfolding check_methods check_scheme normalize_request
  normalize_target allow_private raw id description backing_uri = do
    scheme ← check_scheme allow_private (lower (strip (text_or raw.scheme (codes "https"))))
    host ← normalize_host (text_or raw.host [])
    port ← check_port (raw_port raw.port (default_port scheme))
    methods ← check_methods raw.methods
    normalize_request raw id description backing_uri scheme host port methods

  -- and the whole. The first argument is `self.allow_private_broker_targets`.
  unfoldable pub normalize_definition : Bool → RawDefinition → Result Definition
  unfolding check_backing_uri normalize_target
  normalize_definition allow_private raw = do
    let id = lower (strip (text_or raw.id []))
    raise_if (not (is_capability_id id)) validation_error
    raise_if (not (strip (text_or raw.kind (codes "http_secret")) == codes "http_secret"))
        validation_error
    let description = strip (text_or raw.description [])
    raise_if (ltb 300 (length description)) validation_error
    backing_uri ← check_backing_uri (strip (text_or raw.backing_uri []))
    normalize_target allow_private raw id description backing_uri

  -- `_validate_capability_invocation`: the method and the path, or a refusal
  unfoldable pub validate_invocation : Definition → Text → Text → Result (Text × Text)
  unfolding is_absolute has_traversal path_in_capability
  validate_invocation definition raw_method raw_path = do
    let method = upper (strip raw_method)
    raise_if (not (mem method definition.methods)) permission_denied
    let path = strip raw_path
    raise_if (not (is_absolute path) || any is_line_break path) validation_error
    parsed ← urlsplit p.unicode path
    raise_if
        (not (is_empty parsed.scheme)
          || not (is_empty parsed.netloc)
          || not (is_empty parsed.query)
          || not (is_empty parsed.fragment))
        validation_error
    let decoded = unquote p.unicode parsed.path
    raise_if (has_traversal decoded) validation_error
    raise_if (not (path_in_capability decoded (unquote p.unicode definition.path_prefix)))
        permission_denied
    ok (method, parsed.path)
