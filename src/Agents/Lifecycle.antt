-- ===== src/Agents/Lifecycle.antt =====
-- The life of a machine key: what creation, rotation and revocation do to it.
use mathlib.Core.Option
use passd.Base.{
  ap, inr, inl, ◌∙◌, ◌||◌, eqb, find-none_of_any, find-append_none, any-filter-false, refl, none,
  find_sound, leb, if◌then◌else◌, find, find-update_where, true, ◌≤◌, not, ◌+◌, [], ◌∷◌, arith,
  false, ◌++◌, some, any, List, ℕ, ◌≡◌, Option,
}
use passd.Errors.{
  revoked_token, unknown_token, AuthMessage, expired_token, Result-cases, auth_error, err, ok,
}
use passd.Text.{has_char, Text, codes, starts_with}
use passd.Text.Laws.{starts_with-append, eq_refl}
use passd.Exec.{◌>>=◌}
use passd.Platform.{Platform}
use passd.Db.{AgentRow, Service}
use passd.Agents.{
  validate_agent, holds_name, insert_agent, NewAgent, without_dashes, set_revoked, has_id, token_of,
  check_token, token_hash, parse_token, authenticate_agent, create_agent, revoke_agent,
}
use passd.Agents.Authenticate.{authenticate-token_of}

-- A row that `insert_agent` has just written.
pub record IsNewKey (s : Service) (new : NewAgent) (row : AgentRow) : Type 0 where
  pub id_fresh : any (has_id row.id) s.agents ≡ false
  pub name_free : any (holds_name row.name) s.agents ≡ false
  pub no_vaults : row.vault_ids ≡ []
  pub no_items : row.item_ids ≡ []
  pub active : row.revoked ≡ false
  pub scopes : row.scopes ≡ new.scopes
  pub hosts : row.allowed_hosts ≡ new.allowed_hosts
  pub born : row.created_at ≡ s.clock
  pub dies : row.expires_at ≡ s.clock + new.ttl_seconds

-- What is said of a key after its revocation: that it is revoked, if there ever was such a key.
abbrev pub refused_as : Option AgentRow → AuthMessage
refused_as none = unknown_token
refused_as (some row) = revoked_token

check_revoked :
    (t : ℕ) (id hash : Text) (found : Option AgentRow)
    → ((row : AgentRow) → found ≡ some row → has_id id row ≡ true)
    → check_token t hash
        (Option.map (λ row. if has_id id row then record row { revoked = true } else row) found)
      ≡ err (auth_error (refused_as found))
unfolding check_token
check_revoked t id hash none same = refl
check_revoked t id hash (some row) same = rw (same row refl)

pub check_fresh :
    (t : ℕ) (hash : Text) (row : AgentRow)
    → row.revoked ≡ false
    → row.token_hash ≡ hash
    → check_token t hash (some row)
      ≡ (if leb row.expires_at t then err (auth_error expired_token) else ok row)
unfolding check_token
check_fresh t hash row active same = rw (active, same, eq_refl hash)

dotless :
    (draw : Text)
    → has_char b'.' draw ≡ false
    → has_char b'.' (codes "pda_" ++ without_dashes draw) ≡ false
unfolding has_char
dotless draw h = any-filter-false (eqb b'.') (λ c. not (eqb c b'-' || eqb c b'_')) draw h

module _ ⦃p : Platform⦄ where
  insert_agent_result :
      (new : NewAgent) (s s' : Service) (token : Text) (row : AgentRow)
      → insert_agent new s ≡ (ok (token, row), s')
      → (s' ≡ record s { agents = s.agents ++ row ∷ []; drawn = s.drawn + 1 + 1 })
        × (token ≡ token_of row.id (s.entropy (s.drawn + 1)))
        × (row.token_hash ≡ token_hash (s.entropy (s.drawn + 1)))
        × (row.id ≡ codes "pda_" ++ without_dashes (s.entropy s.drawn))
        × IsNewKey s new row
  unfolding insert_agent ◌>>=◌
  insert_agent_result new s s' token row h = ground arith

  revoke_agent_result :
      (ref : Text) (s s' : Service) (id : Text)
      → revoke_agent ref s ≡ (ok id, s')
      → s' ≡ record s { agents = set_revoked id s.agents }
  unfolding revoke_agent ◌>>=◌
  revoke_agent_result ref s s' id h = ground arith

  create_agent_split :
      (name : Text) (scopes vaults items hosts : List Text) (ttl : ℕ) (s : Service)
      {r : Text × AgentRow} {s' : Service}
      → create_agent name scopes vaults items hosts ttl s ≡ (ok r, s')
      → (new : NewAgent) × (validate_agent name scopes vaults items hosts ttl ≡ ok new)
        × (insert_agent new s ≡ (ok r, s'))
  unfolding create_agent ◌>>=◌
  create_agent_split name scopes vaults items hosts ttl s h =
      elim (Result-cases (validate_agent name scopes vaults items hosts ttl)) [
        | inl (new, e) ↦ (new, e, rw e at h)
        | inr (e, fails) ↦ absurd (cc (fails, h))
      ]

  -- What `create_agent` accepts: a lifetime of a minute up to a year, and no static grant.
  validate_agent_ttl :
      (name : Text) (scopes vaults items hosts : List Text) (ttl : ℕ) {new : NewAgent}
      → validate_agent name scopes vaults items hosts ttl ≡ ok new
      → (new.ttl_seconds ≡ ttl) × (60 ≤ ttl) × (ttl ≤ 31536000)
  unfolding validate_agent
  validate_agent_ttl name scopes vaults items hosts ttl h = ground arith

  -- Once a key is revoked, every token that names its id is refused, at any time.
  pub revoke_stops :
      (ref : Text) (s s' : Service) (id secret : Text) (token : Option Text) (t : ℕ)
      → revoke_agent ref s ≡ (ok id, s')
      → parse_token token ≡ ok (id, secret)
      → (authenticate_agent token (record s' { clock = t })).0
        ≡ err (auth_error (refused_as (find (has_id id) s.agents)))
  unfolding authenticate_agent ◌>>=◌
  revoke_stops ref s s' id secret token t h e =
      rw (revoke_agent_result ref s s' id h, e)
        (rw
          (find-update_where (has_id id) (has_id id) (λ row. record row { revoked = true }) s.agents
            (λ x. refl))
          (check_revoked t id (token_hash secret) (find (has_id id) s.agents)
            (λ row found. find_sound (has_id id) s.agents found)))

  -- A new key authenticates with its token until it expires, and not from then on. (The drawn id
  -- has no dot: `token_urlsafe` draws none.)
  pub create-authenticate :
      (name : Text) (scopes vaults items hosts : List Text) (ttl : ℕ) (s s' : Service)
      (token : Text) (row : AgentRow) (t : ℕ)
      → has_char b'.' (s.entropy s.drawn) ≡ false
      → create_agent name scopes vaults items hosts ttl s ≡ (ok (token, row), s')
      → (row.expires_at ≡ s.clock + ttl)
        × ((authenticate_agent (some token) (record s' { clock = t })).0
            ≡ (if leb row.expires_at t then err (auth_error expired_token) else ok row))
  create-authenticate name scopes vaults items hosts ttl s s' token row t dot h =
      let (new, valid, inserted) = create_agent_split name scopes vaults items hosts ttl s h in
      let (e, e_token, e_hash, e_id, key) = insert_agent_result new s s' token row inserted in
      let found : find (has_id row.id) (s.agents ++ row ∷ []) ≡ some row =
        find-append_none (has_id row.id) s.agents (row ∷ [])
          (find-none_of_any (has_id row.id) s.agents key.id_fresh)
        ∙ rw (eq_refl row.id) in
      let id_starts : starts_with row.id (codes "pda_") ≡ true =
        rw e_id (starts_with-append (codes "pda_") (without_dashes (s.entropy s.drawn))) in
      let id_dotless : has_char b'.' row.id ≡ false = rw e_id (dotless (s.entropy s.drawn) dot) in
      (
        key.dies
            ∙ ap (λ n. s.clock + n) (validate_agent_ttl name scopes vaults items hosts ttl valid).0,
        rw (e, e_token)
            (rw
              (authenticate-token_of row.id (s.entropy (s.drawn + 1)) _ id_starts id_dotless, found)
              (check_fresh t _ row key.active e_hash)),
      )
