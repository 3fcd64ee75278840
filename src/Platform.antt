-- ===== src/Platform.antt =====
-- What the program takes from outside its sources: the primitives of `cryptography`, `hashlib`,
-- `hmac`, `json`, `socket` and `urllib.request`, and Unicode tables. A platform is an instance argument of what uses it.
use passd.Http.{HttpRequest, HttpReply}
use passd.Text.{Text}
use passd.Url.{Unicode}
use passd.Payload.{
  VaultPayload, ItemPayload, Definition, AccessPayload, AuditPayload, Secret, Approval,
  RequestDigest, EnvelopeObject,
}
use passd.Base.{Bool, List, ℕ, some, Option, ◌≡◌}

-- `json.dumps` and `json.loads` at one type of values.
pub record Codec (A : Type 0) : Type 0 where
  pub dumps : A → Text
  pub loads : Text → Option A

pub record Platform : Type 0 where
  pub unicode : Unicode
  -- AES-GCM: key, nonce, text, associated text
  pub encrypt : Text → Text → Text → Text → Text
  pub decrypt : Text → Text → Text → Text → Option Text
  pub sha256 : Text → Text
  -- scrypt, with the parameters of `derive_root_key`: password and salt
  pub scrypt : Text → Text → Text
  -- HMAC-SHA256: key and message
  pub hmac_sha256 : Text → Text → Text
  pub vault_codec : Codec VaultPayload
  pub item_codec : Codec ItemPayload
  pub definition_codec : Codec Definition
  pub access_codec : Codec AccessPayload
  pub audit_codec : Codec AuditPayload
  pub envelope_codec : Codec EnvelopeObject
  -- `canonical_json` of what is versioned or digested
  pub canonical_definition : Definition → Text
  pub canonical_item : ItemPayload → Text
  pub canonical_credential : Text → Option Text → Secret → Text
  pub canonical_request : RequestDigest → Text
  pub canonical_approval : Approval → Text
  -- `socket.getaddrinfo`: the addresses of a host at a port, or `gaierror`; and `is_global` of one
  pub resolve : Text → ℕ → Option (List Text)
  pub is_global : Text → Bool
  -- `opener.open` of a request, the n-th one of a run
  pub exchange : ℕ → HttpRequest → HttpReply

-- What is decoded is what was encoded.
pub record IsCodec {A : Type 0} (c : Codec A) : Type 0 where
  pub loads-dumps : (a : A) → c.loads (c.dumps a) ≡ some a

-- What the service relies on: decryption under the same key, nonce and associated text undoes
-- encryption, and `json` reads back what it wrote.
pub record IsLawful (p : Platform) : Type 0 where
  pub decrypt-encrypt :
      (key nonce text aad : Text)
      → p.decrypt key nonce (p.encrypt key nonce text aad) aad ≡ some text
  pub access : IsCodec p.access_codec
  pub item : IsCodec p.item_codec
  pub vault : IsCodec p.vault_codec
  pub definition : IsCodec p.definition_codec
  pub envelope : IsCodec p.envelope_codec
