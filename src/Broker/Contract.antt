-- ===== src/Broker/Contract.antt =====
-- The request that `invoke_capability` of passd/service.py builds, part by part.
use passd.Base.{
  eqb_iff, if◌then◌else◌, ℕ, sym, inl, inr, refl, ap, ◌∷◌, [], ◌++◌, eqb, List, ◌≡◌, Among,
  Bool-cases, Option,
}
use passd.Platform.{Platform}
use passd.Broker.{scheme_text, invocation_request, target_url}
use passd.Text.{codes, Text, upper, ◌==◌}
use passd.Text.Decimal.{decimal}
use passd.Http.{HttpRequest}
use passd.Payload.{Definition, Scheme, http, https}
use passd.Capabilities.{default_port, set_header}
use passd.Text.Laws.{eq_iff}

-- The text between the host and the path of an address: nothing for the port of the scheme.
pub data IsPortSuffix (number : ℕ) : Scheme → Text → Type 0 where
  web : number ≡ 80 → IsPortSuffix number http []
  secure : number ≡ 443 → IsPortSuffix number https []
  given : {scheme : Scheme} → IsPortSuffix number scheme (b':' ∷ decimal number)

-- `http` or `https`
pub data IsScheme : Scheme → Text → Type 0 where
  plain : IsScheme http (codes "http")
  secured : IsScheme https (codes "https")

-- Exactly what a contract says of a request, with the path, the method and the body of the call and
-- the secret behind the contract.
pub record IsContractRequest (d : Definition) (method path : Text) (body : Option Text)
    (secret : Text) (request : HttpRequest) : Type 0 where
  pub scheme : Text
  pub suffix : Text
  pub scheme_is : IsScheme d.scheme scheme
  pub suffix_is : IsPortSuffix d.port d.scheme suffix
  pub url : request.url ≡ scheme ++ (codes "://" ++ (d.host ++ (suffix ++ path)))
  pub method_is : request.method ≡ upper method
  pub injected : Among (d.inject_header, d.inject_prefix ++ secret) request.headers
  pub rest :
      request.headers ≡ set_header d.inject_header (d.inject_prefix ++ secret) d.static_headers
  pub body_is : request.body ≡ body
  pub timeout : request.timeout ≡ d.timeout

set_header-Among :
    (k v : Text) (headers : List (Text × Text)) → Among (k, v) (set_header k v headers)
unfolding set_header
set_header-Among k v [] = inl refl
set_header-Among k v ((k', v') ∷ headers) = elim (Bool-cases (k' == k)) [
  | inl same ↦ rw same (inl (ap (λ name. (name, v)) (sym ((eq_iff k' k).0 same))))
  | inr differs ↦ rw differs (inr (set_header-Among k v headers))
]

scheme_text-IsScheme : (scheme : Scheme) → IsScheme scheme (scheme_text scheme)
scheme_text-IsScheme http = plain
scheme_text-IsScheme https = secured

suffix-IsPortSuffix :
    (number : ℕ) (scheme : Scheme)
    → IsPortSuffix number scheme
        (if eqb number (default_port scheme) then [] else b':' ∷ decimal number)
suffix-IsPortSuffix number http = elim (Bool-cases (eqb number 80)) [
  | inl same ↦ rw same (web ((eqb_iff number 80).0 same))
  | inr differs ↦ rw differs given
]
suffix-IsPortSuffix number https = elim (Bool-cases (eqb number 443)) [
  | inl same ↦ rw same (secure ((eqb_iff number 443).0 same))
  | inr differs ↦ rw differs given
]

module _ ⦃p : Platform⦄ where
  pub invocation_request-IsContractRequest :
      (d : Definition) (method path : Text) (body : Option Text) (secret : Text)
      → IsContractRequest d method path body secret (invocation_request d method path body secret)
  unfolding invocation_request target_url
  invocation_request-IsContractRequest d method path body secret = record {
    scheme = scheme_text d.scheme;
    suffix = if eqb d.port (default_port d.scheme) then [] else b':' ∷ decimal d.port;
    scheme_is = scheme_text-IsScheme d.scheme;
    suffix_is = suffix-IsPortSuffix d.port d.scheme;
    url = refl;
    method_is = refl;
    injected = set_header-Among d.inject_header (d.inject_prefix ++ secret) d.static_headers;
    rest = refl;
    body_is = refl;
    timeout = refl;
  }
