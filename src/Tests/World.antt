-- ===== src/Tests/World.antt =====
-- The concrete platform: a cipher that writes key, nonce and associated text before the text and
-- checks them when it opens, and the formats of the payloads.
use passd.Tests.Formats.{
  unit_format, many, number_format, maybe, both, codec_of-IsCodec, codec_of, either, through,
  Format, text_format,
}
use passd.Base.{
  eqb, if◌then◌else◌, none, eqb_iff, [], ◌∷◌, some, inr, true, false, ◌++◌, ℕ, inl, Option, ◌≡◌,
  ◌⊎◌, Bool, refl,
}
use passd.Payload.{
  EnvelopeObject, https, http, ItemPayload, AccessPayload, Definition, VaultPayload, Source, Target,
  Secret, Value, Scheme,
}
use passd.Platform.{IsLawful, Platform}
use passd.Text.{codes, Text}
use passd.Http.{answered}
use passd.Numbers.{infinite, below, nan, steps, Float}

abbrev value_to : Value → Unit {0} ⊎ (Bool ⊎ (ℕ ⊎ (Text ⊎ (Text ⊎ Text))))
value_to Value.null = inl tt
value_to (Value.boolean b) = inr (inl b)
value_to (Value.integer n) = inr (inr (inl n))
value_to (Value.number t) = inr (inr (inr (inl t)))
value_to (Value.composite t) = inr (inr (inr (inr (inl t))))
value_to (Value.text t) = inr (inr (inr (inr (inr t))))

abbrev value_from : Unit {0} ⊎ (Bool ⊎ (ℕ ⊎ (Text ⊎ (Text ⊎ Text)))) → Value
value_from (inl x) = Value.null
value_from (inr (inl b)) = Value.boolean b
value_from (inr (inr (inl n))) = Value.integer n
value_from (inr (inr (inr (inl t)))) = Value.number t
value_from (inr (inr (inr (inr (inl t))))) = Value.composite t
value_from (inr (inr (inr (inr (inr t))))) = Value.text t

pub value_back : (v : Value) → value_from (value_to v) ≡ v
value_back Value.null = refl
value_back (Value.boolean b) = refl
value_back (Value.integer n) = refl
value_back (Value.number t) = refl
value_back (Value.composite t) = refl
value_back (Value.text t) = refl

abbrev bool_to : Bool → Unit {0} ⊎ Unit {0}
bool_to false = inl tt
bool_to true = inr tt

abbrev bool_from : Unit {0} ⊎ Unit {0} → Bool
bool_from (inl x) = false
bool_from (inr x) = true

pub bool_back : (b : Bool) → bool_from (bool_to b) ≡ b
bool_back false = refl
bool_back true = refl

abbrev bool_format : Format Bool
bool_format = through (either unit_format unit_format) bool_to bool_from bool_back

abbrev scheme_to : Scheme → Bool
scheme_to http = false
scheme_to https = true

abbrev scheme_from : Bool → Scheme
scheme_from false = http
scheme_from true = https

pub scheme_back : (s : Scheme) → scheme_from (scheme_to s) ≡ s
scheme_back http = refl
scheme_back https = refl

abbrev value_format : Format Value
value_format =
    through
      (either unit_format (
        either bool_format
          (either number_format (either text_format (either text_format text_format)))))
      value_to value_from value_back

abbrev target_to : Target → (Text × (Text × Text)) ⊎ (Text × (Text × (Text × Text)))
target_to (Target.selector v i f) = inl (v, (i, f))
target_to (Target.capability c n m q) = inr (c, (n, (m, q)))

abbrev target_from : (Text × (Text × Text)) ⊎ (Text × (Text × (Text × Text))) → Target
target_from (inl (v, (i, f))) = Target.selector v i f
target_from (inr (c, (n, (m, q)))) = Target.capability c n m q

pub target_back : (t : Target) → target_from (target_to t) ≡ t
target_back (Target.selector v i f) = refl
target_back (Target.capability c n m q) = refl

abbrev target_format : Format Target
target_format =
    through
      (either (both text_format (both text_format text_format))
        (both text_format (both text_format (both text_format text_format))))
      target_to target_from target_back

abbrev optional : Format (Option Text)
optional = maybe text_format

abbrev source_format : Format Source
source_format =
    through (both optional optional) (λ (s : Source). (s.kind, s.id))
      (λ x. record { kind = x.0; id = x.1 }) (λ s. refl)

abbrev pub vault_format : Format VaultPayload
vault_format =
    through (both text_format (both text_format source_format))
      (λ (v : VaultPayload). (v.name, (v.description, v.source)))
      (λ x. record { name = x.0; description = x.1.0; source = x.1.1 }) (λ v. refl)

abbrev pub item_format : Format ItemPayload
item_format =
    through
      (both text_format (
        both text_format (
          both (many (both text_format value_format))
            (both (many text_format) (both text_format (both source_format optional))))))
      (λ (i : ItemPayload).
        (i.type, (i.title, (i.fields, (i.urls, (i.note, (i.source, i.proton_raw)))))))
      (λ x. record {
        type = x.0;
        title = x.1.0;
        fields = x.1.1.0;
        urls = x.1.1.1.0;
        note = x.1.1.1.1.0;
        source = x.1.1.1.1.1.0;
        proton_raw = x.1.1.1.1.1.1;
      })
      (λ i. refl)

abbrev float_to : Float → Unit {0} ⊎ (Unit {0} ⊎ (Unit {0} ⊎ ℕ))
float_to nan = inl tt
float_to below = inr (inl tt)
float_to infinite = inr (inr (inl tt))
float_to (steps n) = inr (inr (inr n))

abbrev float_from : Unit {0} ⊎ (Unit {0} ⊎ (Unit {0} ⊎ ℕ)) → Float
float_from (inl x) = nan
float_from (inr (inl x)) = below
float_from (inr (inr (inl x))) = infinite
float_from (inr (inr (inr n))) = steps n

pub float_back : (x : Float) → float_from (float_to x) ≡ x
float_back nan = refl
float_back below = refl
float_back infinite = refl
float_back (steps n) = refl

abbrev float_format : Format Float
float_format =
    through (either unit_format (either unit_format (either unit_format number_format))) float_to
      float_from float_back

abbrev pub definition_format : Format Definition
definition_format =
    through
      (both text_format (
        both text_format (
          both text_format (
            both (through bool_format scheme_to scheme_from scheme_back) (
              both text_format (
                both number_format (
                  both (many text_format) (
                    both text_format (
                      both text_format (
                        both text_format
                          (both (many (both text_format text_format)) float_format)))))))))))
      (λ (d : Definition). (
        d.id,
        (
          d.description,
          (
            d.backing_uri,
            (
              d.scheme,
              (
                d.host,
                (
                  d.port,
                  (
                    d.methods,
                    (
                      d.path_prefix,
                      (d.inject_header, (d.inject_prefix, (d.static_headers, d.timeout))),
                    ),
                  ),
                ),
              ),
            ),
          ),
        ),
      ))
      (λ x. record {
        id = x.0;
        description = x.1.0;
        backing_uri = x.1.1.0;
        scheme = x.1.1.1.0;
        host = x.1.1.1.1.0;
        port = x.1.1.1.1.1.0;
        methods = x.1.1.1.1.1.1.0;
        path_prefix = x.1.1.1.1.1.1.1.0;
        inject_header = x.1.1.1.1.1.1.1.1.0;
        inject_prefix = x.1.1.1.1.1.1.1.1.1.0;
        static_headers = x.1.1.1.1.1.1.1.1.1.1.0;
        timeout = x.1.1.1.1.1.1.1.1.1.1.1;
      })
      (λ d. refl)

abbrev pub access_format : Format AccessPayload
access_format =
    through
      (both target_format (
        both text_format (
          both number_format (
            both number_format (
              both optional (
                both optional
                  (both optional (both optional (both optional (both optional optional))))))))))
      (λ (a : AccessPayload). (
        a.target,
        (
          a.reason,
          (
            a.requested_ttl,
            (
              a.requested_uses,
              (
                a.authority_digest,
                (
                  a.approved_credential_version,
                  (
                    a.approved_capability_version,
                    (
                      a.approved_item_version,
                      (a.approved_item_fingerprint, (a.decision_note, a.approval_digest)),
                    ),
                  ),
                ),
              ),
            ),
          ),
        ),
      ))
      (λ x. record {
        target = x.0;
        reason = x.1.0;
        requested_ttl = x.1.1.0;
        requested_uses = x.1.1.1.0;
        authority_digest = x.1.1.1.1.0;
        approved_credential_version = x.1.1.1.1.1.0;
        approved_capability_version = x.1.1.1.1.1.1.0;
        approved_item_version = x.1.1.1.1.1.1.1.0;
        approved_item_fingerprint = x.1.1.1.1.1.1.1.1.0;
        decision_note = x.1.1.1.1.1.1.1.1.1.0;
        approval_digest = x.1.1.1.1.1.1.1.1.1.1;
      })
      (λ a. refl)

-- The rest of `t` behind the prefix `s`.
abbrev after : Text → Text → Option Text
after [] t = some t
after (c ∷ s) [] = none
after (c ∷ s) (d ∷ t) = let rest = after s t in if eqb c d then rest else none

pub after-append : (s t : Text) → after s (s ++ t) ≡ some t
after-append [] t = refl
after-append (c ∷ s) t = rw ((eqb_iff c c).1 refl, after-append s t) refl

abbrev object_format : Format EnvelopeObject
object_format =
    through (both number_format (both text_format text_format)) (λ o. (o.v, (o.n, o.c)))
      (λ x. record { v = x.0; n = x.1.0; c = x.1.1 }) λ o. refl

abbrev secret_text : Secret → Text
secret_text (Secret.whole p) = item_format.write p
secret_text (Secret.value v) = value_format.write v

instance abbrev pub toy : Platform
toy = record {
  unicode = record { decode_utf8 = λ t. t; netloc_safe = λ t. true; bracketed_host = λ t. true };
  encrypt = λ key nonce text aad. (key ++ nonce ++ aad) ++ text;
  decrypt = λ key nonce text aad. after (key ++ nonce ++ aad) text;
  sha256 = λ t. t;
  scrypt = λ password salt. password;
  hmac_sha256 = λ key text. key ++ text;
  vault_codec = codec_of vault_format;
  item_codec = codec_of item_format;
  definition_codec = codec_of definition_format;
  access_codec = codec_of access_format;
  envelope_codec = codec_of object_format;
  audit_codec = record { dumps = λ a. []; loads = λ t. none };
  canonical_definition = definition_format.write;
  canonical_item = item_format.write;
  canonical_credential = λ id field secret. id ++ optional.write field ++ secret_text secret;
  canonical_request = λ d. d.request_id ++ d.agent_id ++ access_format.write d.payload;
  resolve = λ host port. some (codes "a" ∷ []);
  is_global = λ address. true;
  exchange =
      λ n request. answered 200 ((codes "Date", codes "x") ∷ []) (codes "hi " ++ request.url);
  canonical_approval = λ a. a.request_id ++ a.agent_id;
}

pub toy-IsLawful : IsLawful toy
toy-IsLawful = record {
  decrypt-encrypt = λ key nonce text aad. after-append (key ++ nonce ++ aad) text;
  access = codec_of-IsCodec access_format;
  item = codec_of-IsCodec item_format;
  vault = codec_of-IsCodec vault_format;
  definition = codec_of-IsCodec definition_format;
  envelope = codec_of-IsCodec object_format;
}
