-- ===== src/Authority.antt =====
-- passd/authority.py: keyed versions, digests and the shape of capability ids.
use passd.Base.{[], length, all, eqb, ◌&&◌, ◌∷◌, ◌||◌, leb, false, ℕ, ◌++◌, Bool, Option}
use passd.Text.{Text, codes}
use passd.Payload.{Definition, ItemPayload, Secret, RequestDigest, Approval}
use passd.Platform.{Platform}

abbrev is_id_start : ℕ → Bool
is_id_start c = (leb b'a' c && leb c b'z') || (leb b'0' c && leb c b'9')

abbrev is_id_char : ℕ → Bool
is_id_char c = is_id_start c || eqb c b'.' || eqb c b'_' || eqb c b'-'

-- `CAPABILITY_ID_RE.fullmatch`
unfoldable pub is_capability_id : Text → Bool
is_capability_id [] = false
is_capability_id (c ∷ s) = is_id_start c && all is_id_char s && leb (length s) 127

module _ ⦃p : Platform⦄ where
  -- `domain + b"\x00" + canonical_json(value)`, under the root key
  unfoldable pub keyed_version : Text → Text → Text → Text → Text
  keyed_version root_key domain canonical prefix =
      prefix ++ p.hmac_sha256 root_key (domain ++ 0 ∷ canonical)

  unfoldable pub capability_version : Text → Definition → Text
  unfolding keyed_version
  capability_version root_key definition =
      keyed_version root_key (codes "passd/capability/version/v1")
        (p.canonical_definition definition) (codes "cv1_")

  unfoldable pub item_version : Text → ItemPayload → Text
  unfolding keyed_version
  item_version root_key payload =
      keyed_version root_key (codes "passd/item/version/v1") (p.canonical_item payload)
        (codes "iv1_")

  unfoldable pub credential_version : Text → Text → Option Text → Secret → Text
  unfolding keyed_version
  credential_version root_key item_id field secret =
      keyed_version root_key (codes "passd/credential/version/v1")
        (p.canonical_credential item_id field secret) (codes "sv1_")

  -- `authority_digest`, of an access request and of an approval
  unfoldable pub request_digest : RequestDigest → Text
  request_digest material = codes "ad1_" ++ p.sha256 (p.canonical_request material)

  unfoldable pub approval_digest : Approval → Text
  approval_digest material = codes "ad1_" ++ p.sha256 (p.canonical_approval material)
