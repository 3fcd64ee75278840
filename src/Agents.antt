-- ===== src/Agents.antt =====
-- Machine accounts: `authenticate_agent`, `create_agent`, `rotate_agent`, `revoke_agent` and
-- `list_agents` of passd/service.py.
pub mod Authenticate
pub mod Lifecycle
pub mod Rotation
use passd.Errors
use passd.Base.{
  ◌+◌, ◌*◌, ◌&&◌, ltb, is_empty, false, find, none, eqb, [], leb, not, order_by, some, any, ◌||◌,
  update_where, ◌∷◌, true, filter, if◌then◌else◌, ◌++◌, List, ℕ, Bool, Option,
}
use passd.Errors.{
  invalid_token, expired_token, revoked_token, needs_token, unknown_token, raise_if, internal,
  validation_error, not_found, auth_error, conflict, err, ok, Error, Result,
}
use passd.Text.{sort_texts, mem, strip, ◌==◌, starts_with, Text, codes}
use passd.Platform.{Platform}
use passd.Hosts.{normalize_host}
use passd.Db.{AgentRow, Service}
use passd.Payload.{
  secret_reveal, secret_use, capability_request, metadata_read, capability_invoke, access_request,
  Scope,
}
use passd.Exec.{require, random, pure, now, modify, check, gets, lift, Exec, ◌>>=◌, ◌>>◌}
use passd.Url.{cut}

abbrev pub has_id : Text → AgentRow → Bool
has_id id row = row.id == id

-- What `create_agent` has checked and normalised, before it looks at the table.
pub record NewAgent : Type 0 where
  pub name : Text
  pub scopes : List Scope
  pub allowed_hosts : List Text
  pub ttl_seconds : ℕ

-- `WHERE id=? OR name=?`
abbrev pub has_ref : Text → AgentRow → Bool
has_ref ref row = row.id == ref || row.name == ref

-- `WHERE name=? AND revoked=0`
abbrev pub holds_name : Text → AgentRow → Bool
holds_name name row = row.name == name && not row.revoked

-- A token is the id and the secret, joined by a dot.
abbrev pub token_of : Text → Text → Text
token_of id secret = id ++ b'.' ∷ secret

-- The row against the clock and the hash of the offered secret.
unfoldable pub check_token : ℕ → Text → Option AgentRow → Result AgentRow
check_token ts hash none = err (auth_error unknown_token)
check_token ts hash (some row) =
    if row.revoked
    then err (auth_error revoked_token)
    else if leb row.expires_at ts
    then err (auth_error expired_token)
    else if row.token_hash == hash
    then ok row
    else err (auth_error invalid_token)

abbrev scope_named : Text → Option Scope
scope_named t =
    if t == codes "access.request"
    then some access_request
    else if t == codes "metadata.read"
    then some metadata_read
    else if t == codes "secret.use"
    then some secret_use
    else if t == codes "secret.reveal"
    then some secret_reveal
    else if t == codes "capability.request"
    then some capability_request
    else if t == codes "capability.invoke"
    then some capability_invoke
    else none

unfoldable pub scope_of : Text → Option Scope
unfolding ◌==◌
scope_of = scope_named

abbrev pub scope_eq : Scope → Scope → Bool
scope_eq access_request access_request = true
scope_eq metadata_read metadata_read = true
scope_eq secret_use secret_use = true
scope_eq secret_reveal secret_reveal = true
scope_eq capability_request capability_request = true
scope_eq capability_invoke capability_invoke = true
scope_eq _ _ = false

unfoldable pub has_scope : Scope → List Scope → Bool
has_scope scope = any (scope_eq scope)

abbrev add_scope : Option Scope → Option (List Scope) → Option (List Scope)
add_scope (some s) (some l) = some (s ∷ l)
add_scope _ _ = none

-- Every text is a scope, or `none`.
unfoldable pub scopes_of : List Text → Option (List Scope)
unfolding scope_of
scopes_of [] = some []
scopes_of (t ∷ ts) = add_scope (scope_of t) (scopes_of ts)

-- `sorted(set(scopes))`: the order of the alphabet, each scope once
abbrev pub all_scopes : List Scope
all_scopes =
    access_request ∷ capability_invoke ∷ capability_request ∷ metadata_read ∷ secret_reveal
    ∷ secret_use ∷ []

unfoldable pub sort_scopes : List Scope → List Scope
unfolding has_scope
sort_scopes scopes = filter (λ s. has_scope s scopes) all_scopes

unfoldable pub valid_scopes : List Text → Result (List Scope)
unfolding scopes_of sort_scopes
valid_scopes scopes = elim (scopes_of scopes) [
  | none ↦ err validation_error
  | some l ↦ if is_empty l then err validation_error else ok (sort_scopes l)
]

-- UPDATE agents SET token_hash=? WHERE id=?
abbrev pub set_hash : Text → Text → List AgentRow → List AgentRow
set_hash id hash = update_where (has_id id) (λ row. record row { token_hash = hash })

-- UPDATE agents SET revoked=1 WHERE id=?
abbrev pub set_revoked : Text → List AgentRow → List AgentRow
set_revoked id = update_where (has_id id) (λ row. record row { revoked = true })

-- `secrets.token_urlsafe(9).replace("-", "").replace("_", "")`
abbrev pub without_dashes : Text → Text
without_dashes = filter (λ c. not (eqb c b'-' || eqb c b'_'))

-- `ORDER BY created_at DESC`
unfoldable pub list_agents : Exec (List AgentRow)
list_agents = gets (λ s. order_by (λ a b. leb b.created_at a.created_at) s.agents)

-- the one row that a reference names
unfoldable pub one_agent : List AgentRow → Result AgentRow
one_agent [] = err not_found
one_agent (row ∷ []) = ok row
one_agent (row ∷ _ ∷ _) = err conflict

unfoldable pub revoke_agent : Text → Exec Text
unfolding one_agent
revoke_agent ref = do
  rows ← gets (λ s. filter (has_ref ref) s.agents)
  row ← lift (one_agent rows)
  modify (λ s. record s { agents = set_revoked row.id s.agents })
  pure row.id

module _ ⦃p : Platform⦄ where
  unfoldable pub normalize_hosts : List Text → Result (List Text)
  normalize_hosts [] = ok []
  normalize_hosts (h ∷ hs) =
      Errors.◌>>=◌ (normalize_host h)
        λ host. Errors.◌>>=◌ (normalize_hosts hs) λ hosts. ok (host ∷ hosts)

  abbrev pub token_hash : Text → Text
  token_hash = p.sha256

  -- `if not token or not token.startswith("pda_") or "." not in token`, then `token.split(".", 1)`
  unfoldable pub parse_token : Option Text → Result (Text × Text)
  unfolding starts_with cut
  parse_token none = err (auth_error needs_token)
  parse_token (some token) =
      if starts_with token (codes "pda_")
      then (let (id, rest) = cut (eqb b'.') token in
          elim rest [ none ↦ err (auth_error needs_token) | some secret ↦ ok (id, secret) ])
      else err (auth_error needs_token)

  unfoldable pub authenticate_agent : Option Text → Exec AgentRow
  unfolding check_token
  authenticate_agent token = do
    parts ← lift (parse_token token)
    ts ← now
    row ← gets (λ s. find (has_id parts.0) s.agents)
    lift (check_token ts (token_hash parts.1) row)

  -- The checks of `create_agent` that read no table.
  unfoldable pub validate_agent :
      Text → List Text → List Text → List Text → List Text → ℕ → Result NewAgent
  unfolding valid_scopes
  validate_agent raw_name scopes vault_refs item_refs allowed_hosts ttl_seconds =
      Errors.◌>>◌ (raise_if (is_empty (strip raw_name)) validation_error) (
        Errors.◌>>=◌ (valid_scopes scopes) λ valid.
          Errors.◌>>◌ (raise_if (ltb ttl_seconds 60 || ltb 31536000 ttl_seconds) validation_error) (
            Errors.◌>>◌
              (raise_if (not (is_empty vault_refs) || not (is_empty item_refs)) validation_error)
              (Errors.◌>>=◌ (normalize_hosts allowed_hosts) λ hosts. ok (record {
                name = strip raw_name;
                scopes = valid;
                allowed_hosts = sort_texts hosts;
                ttl_seconds = ttl_seconds;
              }))))

  -- Its last part, which draws the token and writes the row.
  unfoldable pub insert_agent : NewAgent → Exec (Text × AgentRow)
  insert_agent new = do
    agents ← gets (λ s. s.agents)
    check (any (holds_name new.name) agents) conflict
    id_draw ← random
    let token_id = codes "pda_" ++ without_dashes id_draw
    secret ← random
    ts ← now
    check (any (has_id token_id) agents) internal
    let row : AgentRow = record {
      id = token_id;
      name = new.name;
      token_hash = token_hash secret;
      scopes = new.scopes;
      vault_ids = [];
      item_ids = [];
      allowed_hosts = new.allowed_hosts;
      expires_at = ts + new.ttl_seconds;
      revoked = false;
      created_at = ts;
    }
    modify (λ s. record s { agents = s.agents ++ row ∷ [] })
    pure (token_of token_id secret, row)

  unfoldable pub create_agent :
      Text → List Text → List Text → List Text → List Text → ℕ → Exec (Text × AgentRow)
  create_agent name scopes vault_refs item_refs allowed_hosts ttl_seconds = do
    new ← lift (validate_agent name scopes vault_refs item_refs allowed_hosts ttl_seconds)
    insert_agent new

  unfoldable pub rotate_agent : Text → Exec (Text × AgentRow)
  unfolding one_agent
  rotate_agent ref = do
    rows ← gets (λ s. filter (has_ref ref) s.agents)
    row ← lift (one_agent rows)
    check row.revoked conflict
    secret ← random
    modify (λ s. record s { agents = set_hash row.id (token_hash secret) s.agents })
    fresh ← gets (λ s. find (has_id row.id) s.agents)
    found ← require fresh internal
    pure (token_of row.id secret, found)
