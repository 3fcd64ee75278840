-- ===== src/Agents/Authenticate.antt =====
-- What a machine token proves: the exact conditions of `authenticate_agent`.
use passd.Base.{
  inr, inl, none, refl, ℕ, [], eqb, ◌<◌, arith, ◌∷◌, ◌++◌, false, true, some, find, ◌≡◌, Option,
}
use passd.Errors.{Result-cases, ok}
use passd.Text.{has_char, Text, codes, starts_with}
use passd.Text.Laws.{eq_iff}
use passd.Exec.{◌>>=◌}
use passd.Platform.{Platform}
use passd.Db.{AgentRow, Service}
use passd.Agents.{has_id, token_of, check_token, token_hash, parse_token, authenticate_agent}
use passd.Url.{cut}

-- The row is the first with its id, is not revoked, has not expired, and has this hash.
pub record IsLive (s : Service) (id hash : Text) (row : AgentRow) : Type 0 where
  pub found : find (has_id id) s.agents ≡ some row
  pub active : row.revoked ≡ false
  pub unexpired : s.clock < row.expires_at
  pub hash_matches : row.token_hash ≡ hash

-- Reading the id and the secret back from a token: the id has no dot.
cut-token_of :
    (id secret : Text)
    → has_char b'.' id ≡ false
    → cut (eqb b'.') (token_of id secret) ≡ (id, some secret)
unfolding cut has_char
cut-token_of [] secret h = refl
cut-token_of (c ∷ id) secret h = ground (arith, cut-token_of id secret)

starts_with-append_right : (s t r : Text) → starts_with s t ≡ true → starts_with (s ++ r) t ≡ true
unfolding starts_with
starts_with-append_right s [] r h = ground arith
starts_with-append_right [] (d ∷ t) r h = ground arith
starts_with-append_right (c ∷ s) (d ∷ t) r h = ground (arith, starts_with-append_right s t r)

check_token_sound :
    (ts : ℕ) (hash : Text) (found : Option AgentRow) (row : AgentRow)
    → check_token ts hash found ≡ ok row
    → (found ≡ some row) × (row.revoked ≡ false) × (ts < row.expires_at) × (row.token_hash ≡ hash)
unfolding check_token
check_token_sound ts hash none row h = cc
check_token_sound ts hash (some r) row h = ground (arith, eq_iff r.token_hash hash)

module _ ⦃p : Platform⦄ where
  pub parse_token-token_of :
      (id secret : Text)
      → starts_with id (codes "pda_") ≡ true
      → has_char b'.' id ≡ false
      → parse_token (some (token_of id secret)) ≡ ok (id, secret)
  unfolding parse_token
  parse_token-token_of id secret pre dot =
      ground
        (arith, starts_with-append_right id (codes "pda_") (b'.' ∷ secret), cut-token_of id secret)

  -- A well-formed token is decided by the row with its id, and nothing is changed.
  pub authenticate-token_of :
      (id secret : Text) (s : Service)
      → starts_with id (codes "pda_") ≡ true
      → has_char b'.' id ≡ false
      → authenticate_agent (some (token_of id secret)) s
        ≡ (check_token s.clock (token_hash secret) (find (has_id id) s.agents), s)
  unfolding authenticate_agent ◌>>=◌
  authenticate-token_of id secret s pre dot = rw (parse_token-token_of id secret pre dot)

  -- Authentication succeeds only for a live row, whatever the token's shape, and changes nothing.
  pub authenticate_sound :
      (token : Option Text) (s s' : Service) (row : AgentRow)
      → authenticate_agent token s ≡ (ok row, s')
      → (s' ≡ s)
        × ((id : Text) × (secret : Text) × (parse_token token ≡ ok (id, secret))
            × IsLive s id (token_hash secret) row)
  unfolding authenticate_agent ◌>>=◌
  authenticate_sound token s s' row h = elim (Result-cases (parse_token token)) [
    | inl ((id, secret), e) ↦
        let checked : check_token s.clock (token_hash secret) (find (has_id id) s.agents) ≡ ok row =
          ground arith in
        let facts =
          check_token_sound s.clock (token_hash secret) (find (has_id id) s.agents) row checked in
        (
          ground arith,
          (
            id,
            secret,
            e,
            record {
              found = facts.0;
              active = facts.1;
              unexpired = facts.2;
              hash_matches = facts.3;
            },
          ),
        )
    | inr (e, fails) ↦ ground arith
  ]
