-- ===== src/Capabilities/Normal.antt =====
-- The result of `_normalize_capability_definition`.
use passd.Base.{
  ℕ, or_else, refl, ◌∙◌, ltb, eqb, map, inr, sym, inl, ◌||◌, ap, not, [], ◌&&◌, all, any, ◌≤◌,
  false, ◌⊎◌, length, is_empty, true, ◌≡◌, List, Bool, arith,
}
use passd.Errors.{ok_injective, ok, sequence_ok, guard_ok}
use passd.Platform.{Platform}
use passd.Capabilities.{
  raw_port, check_port, normalize_request, normalize_target, validate_header_value,
  validate_header_name, default_port, scheme_of, is_line_break, validate_headers, routing_headers,
  allowed_methods, text_or, is_http, has_traversal, names_of, is_absolute, RawDefinition,
  check_backing_uri, check_scheme, check_prefix, normalize_definition, check_methods, check_headers,
}
use passd.Payload.{http, https, Scheme, Definition}
use passd.Text.{upper, sort_texts, ◌==◌, codes, strip, mem, lower, Text}
use passd.Authority.{is_capability_id}
use passd.Refs.{parse_pass_ref, PassRef}
use passd.Url.Quote.{unquote}
use passd.Vaults.{truthy}
use mathlib.Core.Path.{subst}
use passd.Hosts.{normalize_host}
use passd.Numbers.{infinite, below, negsuc, whole, nan, pos, is_outside, steps, ℤ, Float}

-- A time of at most a minute, and more than none; or what is not a number, which no comparison
-- refuses.
pub data IsTimeout : Float → Type 0 where
  not_a_number : IsTimeout nan
  within : {n : ℕ} → 1 ≤ n → n ≤ whole 60 → IsTimeout (steps n)

within_range : (most n : ℕ) → (eqb n 0 || ltb most n) ≡ false → (1 ≤ n) × (n ≤ most)
within_range most n h = ground arith

outside-IsTimeout : (timeout : Float) → is_outside 60 timeout ≡ false → IsTimeout timeout
outside-IsTimeout nan h = not_a_number
outside-IsTimeout below h = absurd (cc h)
outside-IsTimeout infinite h = absurd (cc h)
outside-IsTimeout (steps n) h = let (least, most) = within_range (whole 60) n h in within least most

check_port_ok : (given : ℤ) (port : ℕ) → check_port given ≡ ok port → (1 ≤ port) × (port ≤ 65535)
check_port_ok (pos n) port h = ground arith
check_port_ok (negsuc n) port h = absurd (cc h)

pub record IsNormal ⦃p : Platform⦄ (allow_private : Bool) (d : Definition) : Type 0 where
  pub id_valid : is_capability_id d.id ≡ true
  pub description_short : length d.description ≤ 300
  pub one_field :
      (ref : PassRef) × (parse_pass_ref d.backing_uri ≡ ok ref) × (truthy ref.field ≡ true)
  pub encrypted : (d.scheme ≡ https) ⊎ (allow_private ≡ true)
  pub port_least : 1 ≤ d.port
  pub port_most : d.port ≤ 65535
  pub methods_some : is_empty d.methods ≡ false
  pub methods_allowed : all (λ m. mem m allowed_methods) d.methods ≡ true
  pub prefix_absolute : is_absolute d.path_prefix ≡ true
  pub prefix_inside : has_traversal (unquote p.unicode d.path_prefix) ≡ false
  pub inject_kept : mem (lower d.inject_header) (names_of d.static_headers) ≡ false
  pub routing_kept : any (λ n. mem n (names_of d.static_headers)) routing_headers ≡ false
  pub timeout_is : IsTimeout d.timeout

module _ ⦃p : Platform⦄ where
  check_backing_uri_ok :
      (uri given : Text)
      → check_backing_uri given ≡ ok uri
      → (ref : PassRef) × (parse_pass_ref uri ≡ ok ref) × (truthy ref.field ≡ true)
  unfolding check_backing_uri
  check_backing_uri_ok uri given h =
      let (ref, parsed, h1) = sequence_ok (parse_pass_ref given) _ h in
      let (named, h2) = guard_ok (not (truthy ref.field)) _ _ h1 in
      let same : given ≡ uri = cc h2 in (ref, ap parse_pass_ref (sym same) ∙ parsed, ground arith)

  check_scheme_ok :
      (allow_private : Bool) (raw : Text) (scheme : Scheme)
      → check_scheme allow_private raw ≡ ok scheme
      → (scheme ≡ https) ⊎ (allow_private ≡ true)
  unfolding check_scheme
  check_scheme_ok allow_private raw scheme h =
      let (found, e, h1) = sequence_ok (scheme_of raw) _ h in
      let (plain, h2) = guard_ok (is_http found && not allow_private) _ _ h1 in
      let same : found ≡ scheme = cc h2 in go found same allow_private plain
    where
      go :
          (found : Scheme)
          → found ≡ scheme
          → (b : Bool) → (is_http found && not b) ≡ false
          → (scheme ≡ https) ⊎ (b ≡ true)
      go https same b e = inl (sym same)
      go http same true e = inr refl
      go http same false e = absurd (cc e)

  check_methods_ok :
      (raw methods : List Text)
      → check_methods raw ≡ ok methods
      → (is_empty methods ≡ false) × (all (λ m. mem m allowed_methods) methods ≡ true)
  unfolding check_methods
  check_methods_ok raw methods h =
      let found = sort_texts (map (λ m. upper (strip m)) raw) in
      let (fine, h1) =
        guard_ok (is_empty found || not (all (λ m. mem m allowed_methods) found)) _ _ h in
      let same : found ≡ methods = cc h1 in
      subst (λ l. (is_empty l ≡ false) × (all (λ m. mem m allowed_methods) l ≡ true)) same
        (split (is_empty found) (all (λ m. mem m allowed_methods) found) fine)
    where
      split : (a b : Bool) → (a || not b) ≡ false → (a ≡ false) × (b ≡ true)
      split false true e = (refl, refl)
      split false false e = absurd (cc e)
      split true b e = absurd (cc e)

  check_prefix_ok :
      (given path : Text)
      → check_prefix given ≡ ok path
      → (is_absolute path ≡ true) × (has_traversal (unquote p.unicode path) ≡ false)
  unfolding check_prefix
  check_prefix_ok given path h =
      let unsafe = any (λ c. is_line_break c || eqb c b'?' || eqb c b'#') given in
      let (plain, h1) = guard_ok (not (is_absolute given) || unsafe) _ _ h in
      let (inside, h2) = guard_ok (has_traversal (unquote p.unicode given)) _ _ h1 in
      let (short, h3) = guard_ok (ltb 2048 (length given)) _ _ h2 in
      let same : given ≡ path = cc h3 in
      (
        ap is_absolute (sym same) ∙ first (is_absolute given) unsafe plain,
        ap (λ q. has_traversal (unquote p.unicode q)) (sym same) ∙ inside,
      )
    where
      first : (a b : Bool) → (not a || b) ≡ false → a ≡ true
      first true b e = refl
      first false b e = absurd (cc e)

  check_headers_ok :
      (inject : Text) (raw headers : List (Text × Text))
      → check_headers inject raw ≡ ok headers
      → (mem (lower inject) (names_of headers) ≡ false)
        × (any (λ n. mem n (names_of headers)) routing_headers ≡ false)
  unfolding check_headers
  check_headers_ok inject raw headers h =
      let (found, e, h1) = sequence_ok (validate_headers [] raw) _ h in
      let (kept, h2) = guard_ok (mem (lower inject) (names_of found)) _ _ h1 in
      let (routing, h3) = guard_ok (any (λ n. mem n (names_of found)) routing_headers) _ _ h2 in
      let same : found ≡ headers = cc h3 in
      subst
        (λ l.
          (mem (lower inject) (names_of l) ≡ false)
          × (any (λ n. mem n (names_of l)) routing_headers ≡ false))
        same (kept, routing)

  -- What the first parts have established of the values that they pass on.
  record IsNamed (id description backing_uri : Text) : Type 0 where
    id_valid : is_capability_id id ≡ true
    description_short : length description ≤ 300
    one_field : (ref : PassRef) × (parse_pass_ref backing_uri ≡ ok ref) × (truthy ref.field ≡ true)

  record IsTargeted (allow_private : Bool) (scheme : Scheme) (port : ℕ) (methods : List Text)
      : Type 0 where
    encrypted : (scheme ≡ https) ⊎ (allow_private ≡ true)
    port_least : 1 ≤ port
    port_most : port ≤ 65535
    methods_some : is_empty methods ≡ false
    methods_allowed : all (λ m. mem m allowed_methods) methods ≡ true

  normalize_request_ok :
      (allow_private : Bool) (raw : RawDefinition) (id description backing_uri : Text)
      (scheme : Scheme) (host : Text) (port : ℕ) (methods : List Text) (d : Definition)
      → IsNamed id description backing_uri
      → IsTargeted allow_private scheme port methods
      → normalize_request raw id description backing_uri scheme host port methods ≡ ok d
      → IsNormal allow_private d
  unfolding normalize_request
  normalize_request_ok allow_private raw id description backing_uri scheme host port methods d n t
        h =
      let given = strip (text_or raw.path_prefix (codes "/")) in
      let (prefix, e_prefix, h1) = sequence_ok (check_prefix given) _ h in
      let (inject, e_inject, h2) =
        sequence_ok (validate_header_name (text_or raw.inject_header (codes "Authorization"))) _
          h1 in
      let (before, e_before, h3) =
        sequence_ok (validate_header_value (text_or raw.inject_prefix [])) _ h2 in
      let (headers, e_headers, h4) = sequence_ok (check_headers inject raw.static_headers) _ h3 in
      let timeout = or_else raw.timeout (steps (whole 20)) in
      let (in_time, h5) = guard_ok (is_outside 60 timeout) _ _ h4 in
      let absolute = check_prefix_ok given prefix e_prefix in
      let kept = check_headers_ok inject raw.static_headers headers e_headers in
      subst (IsNormal allow_private) (ok_injective h5) (record {
        id_valid = n.id_valid;
        description_short = n.description_short;
        one_field = n.one_field;
        encrypted = t.encrypted;
        port_least = t.port_least;
        port_most = t.port_most;
        methods_some = t.methods_some;
        methods_allowed = t.methods_allowed;
        prefix_absolute = absolute.0;
        prefix_inside = absolute.1;
        inject_kept = kept.0;
        routing_kept = kept.1;
        timeout_is = outside-IsTimeout timeout in_time;
      })

  normalize_target_ok :
      (allow_private : Bool) (raw : RawDefinition) (id description backing_uri : Text)
      (d : Definition)
      → IsNamed id description backing_uri
      → normalize_target allow_private raw id description backing_uri ≡ ok d
      → IsNormal allow_private d
  unfolding normalize_target
  normalize_target_ok allow_private raw id description backing_uri d n h =
      let given = lower (strip (text_or raw.scheme (codes "https"))) in
      let (scheme, e_scheme, h1) = sequence_ok (check_scheme allow_private given) _ h in
      let (host, e_host, h2) = sequence_ok (normalize_host (text_or raw.host [])) _ h1 in
      let (port, e_port, h3) =
        sequence_ok (check_port (raw_port raw.port (default_port scheme))) _ h2 in
      let in_range = check_port_ok (raw_port raw.port (default_port scheme)) port e_port in
      let (methods, e_methods, h4) = sequence_ok (check_methods raw.methods) _ h3 in
      let allowed = check_methods_ok raw.methods methods e_methods in
      normalize_request_ok allow_private raw id description backing_uri scheme host port methods d n
        (record {
          encrypted = check_scheme_ok allow_private given scheme e_scheme;
          port_least = in_range.0;
          port_most = in_range.1;
          methods_some = allowed.0;
          methods_allowed = allowed.1;
        })
        h4

  -- A definition that is returned has a valid id, a short description, and a backing reference to one
  -- field; it is for https unless private targets are allowed, and for a port from 1 to 65535; it has
  -- methods, each an allowed one; its prefix is absolute and, decoded, has no parent segment; its
  -- static headers override neither the injected header nor those that route; and its timeout is
  -- positive and at most a minute, or not a number.
  pub normalize_definition-IsNormal :
      (allow_private : Bool) (raw : RawDefinition) (d : Definition)
      → normalize_definition allow_private raw ≡ ok d
      → IsNormal allow_private d
  unfolding normalize_definition
  normalize_definition-IsNormal allow_private raw d h =
      let id = lower (strip (text_or raw.id [])) in
      let description = strip (text_or raw.description []) in
      let given = strip (text_or raw.backing_uri []) in
      let (id_valid, h1) = guard_ok (not (is_capability_id id)) _ _ h in
      let (kind, h2) =
        guard_ok (not (strip (text_or raw.kind (codes "http_secret")) == codes "http_secret")) _ _
          h1 in
      let (short, h3) = guard_ok (ltb 300 (length description)) _ _ h2 in
      let (uri, e_uri, h4) = sequence_ok (check_backing_uri given) _ h3 in
      normalize_target_ok allow_private raw id description uri d
        (record {
          id_valid = ground arith;
          description_short = ground arith;
          one_field = check_backing_uri_ok uri given e_uri;
        })
        h4
