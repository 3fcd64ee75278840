-- ===== src/Broker/Headers.antt =====
-- The headers that `broker_http` of passd/service.py sends.
use passd.Base.{
  is_empty, All, ◌≢◌, ap, inl, arith, inr, ◌||◌, Bool, Bool-cases, refl, [], ◌∷◌, ◌∙◌, ◌++◌, sym,
  false, any, List, ◌≡◌,
}
use passd.Broker.Direct.{
  broker_request, splits_line, is_routing, bad_header, same_header, bad_name, broker_headers,
  BrokerCall,
}
use passd.Capabilities.{set_header}
use passd.Text.{upper, codes, mem, has_char, lower, ◌==◌, strip, Text}
use passd.Errors.{sequence_ok, ok_injective, guard_ok, ok}
use passd.Text.Laws.{eq_refl, eq_iff}
use passd.Payload.{Secret}
use passd.Http.{HttpRequest}
use passd.Broker.{secret_text}
use mathlib.Core.Path.{subst}

-- A name without a line end and without a colon, that is there; and a value without a line end.
pub record IsName (name : Text) : Type 0 where
  pub there : is_empty name ≡ false
  pub no_return : has_char 13 name ≡ false
  pub no_newline : has_char 10 name ≡ false
  pub no_colon : has_char b':' name ≡ false

pub record IsHeader (header : Text × Text) : Type 0 where
  pub name : IsName header.0
  pub no_return : has_char 13 header.1 ≡ false
  pub no_newline : has_char 10 header.1 ≡ false

-- A header of another name than the injected one, whatever the case, and one that neither routes nor
-- authenticates the request.
pub record IsExtra (injected : Text) (header : Text × Text) : Type 0 where
  pub differs : lower header.0 ≢ lower injected
  pub no_host : lower header.0 ≢ codes "host"
  pub no_authority : lower header.0 ≢ codes ":authority"
  pub no_proxy : lower header.0 ≢ codes "proxy-authorization"

-- The headers of a request: the extra ones, each in its place, and the injected one behind them.
pub record IsHeaders (call : BrokerCall) (secret : Text) (headers : List (Text × Text))
    : Type 0 where
  pub name_fits : IsName (strip call.header)
  pub all_fit : All IsHeader call.extra_headers
  pub all_extra : All (IsExtra (strip call.header)) call.extra_headers
  pub kept : headers ≡ call.extra_headers ++ (strip call.header, call.prefix ++ secret) ∷ []

neither : (a b : Bool) → (a || b) ≡ false → (a ≡ false) × (b ≡ false)
neither a b h = ground arith

set_header-new :
    (k v : Text) (headers : List (Text × Text))
    → any (same_header k) headers ≡ false
    → set_header k v headers ≡ headers ++ (k, v) ∷ []
unfolding set_header
set_header-new k v [] h = refl
set_header-new k v ((k', v') ∷ headers) h = elim (Bool-cases (k' == k)) [
  | inr other ↦ rw (other, set_header-new k v headers (neither (lower k' == lower k) _ h).1)
  | inl same ↦ absurd (
      cc (
        ap (λ x. lower x == lower k) ((eq_iff k' k).0 same),
        eq_refl (lower k),
        (neither (lower k' == lower k) _ h).0,
      ))
]

bad_name-IsName : (name : Text) → bad_name name ≡ false → IsName name
bad_name-IsName name h = ground arith

bad_header-IsHeader : (header : Text × Text) → bad_header header ≡ false → IsHeader header
bad_header-IsHeader (name, value) h =
    let (fits, whole) = neither (bad_name name) (splits_line value) h in
    let (no_return, no_newline) = neither (has_char 13 value) (has_char 10 value) whole in
    record { name = bad_name-IsName name fits; no_return = no_return; no_newline = no_newline }

-- Texts that a test tells apart are different.
unequal : (s t : Text) → (s == t) ≡ false → s ≢ t
unequal s t h same = absurd (cc (h, (eq_iff s t).1 same))

is_routing-IsExtra :
    (injected : Text) (header : Text × Text)
    → same_header injected header ≡ false
    → is_routing header ≡ false
    → IsExtra injected header
unfolding mem
is_routing-IsExtra injected (name, value) differs free =
    let (no_host, h1) = neither (lower name == codes "host") _ free in
    let (no_authority, h2) = neither (lower name == codes ":authority") _ h1 in
    let (no_proxy, h3) = neither (lower name == codes "proxy-authorization") _ h2 in
    record {
      differs = unequal (lower name) (lower injected) differs;
      no_host = unequal (lower name) (codes "host") no_host;
      no_authority = unequal (lower name) (codes ":authority") no_authority;
      no_proxy = unequal (lower name) (codes "proxy-authorization") no_proxy;
    }

All-IsHeader :
    (headers : List (Text × Text)) → any bad_header headers ≡ false → All IsHeader headers
All-IsHeader [] h = tt
All-IsHeader (header ∷ headers) h =
    let (fits, rest) = neither (bad_header header) (any bad_header headers) h in
    (bad_header-IsHeader header fits, All-IsHeader headers rest)

All-IsExtra :
    (injected : Text) (headers : List (Text × Text))
    → any (same_header injected) headers ≡ false
    → any is_routing headers ≡ false
    → All (IsExtra injected) headers
All-IsExtra injected [] h free = tt
All-IsExtra injected (header ∷ headers) h free =
    let (differs, others) = neither (same_header injected header) _ h in
    let (one_free, all_free) = neither (is_routing header) _ free in
    (
      is_routing-IsExtra injected header differs one_free,
      All-IsExtra injected headers others all_free,
    )

-- The headers that are sent are the extra ones, as they were given, and then the injected one with
-- the prefix and the secret behind it, once. No name has a line end or a colon in it, and no value
-- of an extra header a line end; no extra header has the name of the injected one, whatever the
-- case, or routes or authenticates the request. The injected value is sent as it is.
pub broker_headers-IsHeaders :
    (call : BrokerCall) (secret : Text) (headers : List (Text × Text))
    → broker_headers call secret ≡ ok headers
    → IsHeaders call secret headers
unfolding broker_headers
broker_headers-IsHeaders call secret headers h =
    let (a, h1) = guard_ok _ _ _ h in
    let (b, h2) = guard_ok _ _ _ h1 in
    let (c, h3) = guard_ok _ _ _ h2 in
    let (d, h4) = guard_ok _ _ _ h3 in
    record {
      name_fits = bad_name-IsName (strip call.header) a;
      all_fit = All-IsHeader call.extra_headers b;
      all_extra = All-IsExtra (strip call.header) call.extra_headers c d;
      kept = sym (ok_injective h4) ∙ set_header-new _ _ call.extra_headers c;
    }

-- A brokered request: to the address of the call and no other, by its method and with its body, with
-- the secret in its headers.
pub record IsRequest (call : BrokerCall) (found : Secret) (request : HttpRequest) (secret : Text)
    : Type 0 where
  pub scalar : secret_text found ≡ ok secret
  pub url : request.url ≡ call.url
  pub method : request.method ≡ upper call.method
  pub headers : IsHeaders call secret request.headers
  pub body : request.body ≡ call.body
  pub timeout : request.timeout ≡ call.timeout

pub broker_request-IsRequest :
    (call : BrokerCall) (found : Secret) (request : HttpRequest) (secret : Text)
    → broker_request call (ok found) ≡ ok (request, secret)
    → IsRequest call found request secret
unfolding broker_request
broker_request-IsRequest call found request secret h =
    let (text, scalar, h1) = sequence_ok (secret_text found) _ h in
    let (headers, made, h2) = sequence_ok (broker_headers call text) _ h1 in
    let both = ok_injective h2 in
    let same_secret : text ≡ secret = ap (λ x. x.1) both in
    let same_request = ap (λ x. x.0) both in
    record {
      scalar = scalar ∙ ap ok same_secret;
      url = ap (λ (r : HttpRequest). r.url) (sym same_request);
      method = ap (λ (r : HttpRequest). r.method) (sym same_request);
      headers =
          subst (λ (r : HttpRequest). IsHeaders call secret r.headers) same_request
            (subst (λ t. IsHeaders call t headers) same_secret
              (broker_headers-IsHeaders call text headers made));
      body = ap (λ (r : HttpRequest). r.body) (sym same_request);
      timeout = ap (λ (r : HttpRequest). r.timeout) (sym same_request);
    }
