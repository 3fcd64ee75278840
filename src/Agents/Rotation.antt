-- ===== src/Agents/Rotation.antt =====
-- What rotation does to a machine key and to the leases of its agent.
use passd.Agents.Authenticate.{authenticate-token_of}
use mathlib.Core.Option
use mathlib.Core.Option.{some-injective}
use passd.Exec.Laws.{pure_ok, random_ok, modify_ok, check_ok, gets_ok, lift_ok, require_ok}
use passd.Base.{
  inr, inl, Bool-cases, refl, none, find-update_where, ◌∙◌, ap, sym, find_sound, leb, true, ◌≢◌,
  Option, if◌then◌else◌, List, ℕ, some, find, ◌+◌, false, filter, ◌≡◌, arith,
}
use passd.Platform.{Platform}
use passd.Text.{◌==◌, has_char, codes, starts_with, Text}
use passd.Agents.{
  authenticate_agent, check_token, token_of, has_id, token_hash, set_hash, has_ref, one_agent,
  rotate_agent,
}
use passd.Db.{AgentRow, Service}
use passd.Errors.{
  invalid_token, expired_token, revoked_token, AuthMessage, Result, auth_error, err, ok,
}
use passd.Text.Laws.{eq_iff}

module _ ⦃p : Platform⦄ where
  -- What a rotation that returned has done: it drew a secret, and replaced the hash of one row.
  pub record IsRotation (ref : Text) (s s' : Service) (token : Text) (row : AgentRow) : Type 0 where
    pub old : AgentRow
    pub one : one_agent (filter (has_ref ref) s.agents) ≡ ok old
    pub active : old.revoked ≡ false
    pub result : s' ≡ record s {
      agents = set_hash old.id (token_hash (s.entropy s.drawn)) s.agents;
      drawn = s.drawn + 1;
    }
    pub found :
        find (has_id old.id) (set_hash old.id (token_hash (s.entropy s.drawn)) s.agents) ≡ some row
    pub token_is : token ≡ token_of old.id (s.entropy s.drawn)

  rotate_agent_result :
      (ref : Text) (s s' : Service) (token : Text) (row : AgentRow)
      → rotate_agent ref s ≡ (ok (token, row), s')
      → IsRotation ref s s' token row
  unfolding rotate_agent
  rotate_agent_result ref s s' token row h =
      let (old, one, h1) =
        lift_ok (one_agent (filter (has_ref ref) s.agents)) _ s (gets_ok _ _ s h) in
      let (active, h2) = check_ok old.revoked _ _ s h1 in
      let hash = token_hash (s.entropy s.drawn) in
      let s1 : Service = record s { agents = set_hash old.id hash s.agents; drawn = s.drawn + 1 } in
      let h3 =
        gets_ok _ _ s1 (modify_ok _ _ (record s { drawn = s.drawn + 1 }) (random_ok _ s h2)) in
      let (fresh, found, h4) =
        require_ok (find (has_id old.id) (set_hash old.id hash s.agents)) _ _ s1 h3 in
      let (e, state) = pure_ok (token_of old.id (s.entropy s.drawn), fresh) s1 h4 in
      record {
        old = old;
        one = one;
        active = active;
        result = sym state;
        found = found ∙ ap (λ r. some r.1) e;
        token_is = sym (ap (λ r. r.0) e);
      }

  -- A key lives until it is revoked or expires.
  abbrev pub verdict_on : ℕ → AgentRow → Result AgentRow
  verdict_on t row =
      if row.revoked
      then err (auth_error revoked_token)
      else if leb row.expires_at t
      then err (auth_error expired_token)
      else ok row

  check_hash :
      (t : ℕ) (hash : Text) (row : AgentRow)
      → row.token_hash ≡ hash
      → check_token t hash (some row) ≡ verdict_on t row
  unfolding check_token
  check_hash t hash row e = ground (arith, eq_iff row.token_hash hash)

  check_other :
      (t : ℕ) (hash : Text) (row : AgentRow)
      → row.token_hash ≢ hash
      → (why : AuthMessage) × (check_token t hash (some row) ≡ err (auth_error why))
  unfolding check_token
  check_other t hash row e = elim (Bool-cases row.revoked) [
    | inl revoked ↦ (revoked_token, rw revoked refl)
    | inr active ↦ elim (Bool-cases (leb row.expires_at t)) [
      | inl late ↦ (expired_token, rw (active, late) refl)
      | inr early ↦ elim (Bool-cases (row.token_hash == hash)) [
        | inl same ↦ absurd (e ((eq_iff row.token_hash hash).0 same))
        | inr differs ↦ (invalid_token, rw (active, early, differs) refl)
      ]
    ]
  ]

  -- The row that a rotation leaves: the row that was there, with another hash.
  rehashed :
      (id hash : Text) (agents : List AgentRow) (row : AgentRow)
      → find (has_id id) (set_hash id hash agents) ≡ some row
      → (before : AgentRow) × (find (has_id id) agents ≡ some before)
        × (row ≡ record before { token_hash = hash })
  rehashed id hash agents row h =
      go (find (has_id id) agents) (λ r e. find_sound (has_id id) agents e)
        (sym (
            find-update_where (has_id id) (has_id id) (λ r. record r { token_hash = hash }) agents
              (λ r. refl))
          ∙ h)
    where
      go :
          (found : Option AgentRow)
          → ((r : AgentRow) → found ≡ some r → has_id id r ≡ true)
          → Option.map (λ r. if has_id id r then record r { token_hash = hash } else r) found
            ≡ some row
          → (before : AgentRow) × (found ≡ some before)
            × (row ≡ record before { token_hash = hash })
      go none same e = absurd (cc e)
      go (some r) same e = (r, refl, sym (some-injective _ row (rw (same r refl) at e)))

  -- What holds of a key after its rotation, at any time: the new token is accepted as long as the
  -- key lives, and a token with a secret of another hash is refused. The row differs from the one
  -- before by its hash only, and no request or lease has changed.
  pub record IsRotated (s s' : Service) (token : Text) (row : AgentRow) : Type 0 where
    pub before : AgentRow
    pub was : find (has_id row.id) s.agents ≡ some before
    pub differs : row ≡ record before { token_hash = row.token_hash }
    pub accepted :
        (t : ℕ) → (authenticate_agent (some token) (record s' { clock = t })).0 ≡ verdict_on t row
    pub refused :
        (t : ℕ) (secret : Text)
        → token_hash secret ≢ row.token_hash
        → (why : AuthMessage) × ((authenticate_agent
              (some (token_of row.id secret))
              (record s' { clock = t })).0
            ≡ err (auth_error why))
    pub leases : s'.access_requests ≡ s.access_requests

  -- A rotation of a key whose id has the form that `create_agent` gives it replaces its token, and
  -- nothing else.
  pub rotate_agent-IsRotated :
      (ref : Text) (s s' : Service) (token : Text) (row : AgentRow)
      → rotate_agent ref s ≡ (ok (token, row), s')
      → starts_with row.id (codes "pda_") ≡ true
      → has_char b'.' row.id ≡ false
      → IsRotated s s' token row
  rotate_agent-IsRotated ref s s' token row h pre dot =
      let r = rotate_agent_result ref s s' token row h in
      let hash = token_hash (s.entropy s.drawn) in
      let (before, was, differs) = rehashed r.old.id hash s.agents row r.found in
      let same : row.id ≡ r.old.id =
        (eq_iff row.id r.old.id).0
          (find_sound (has_id r.old.id) (set_hash r.old.id hash s.agents) r.found) in
      let e_hash : row.token_hash ≡ hash = ap (λ x. x.token_hash) differs in
      let at_id : find (has_id row.id) s'.agents ≡ some row =
        ap (λ (u : Service). find (has_id row.id) u.agents) r.result
        ∙ ap (λ i. find (has_id i) (set_hash r.old.id hash s.agents)) same
        ∙ r.found in
      record {
        before = before;
        was = ap (λ i. find (has_id i) s.agents) same ∙ was;
        differs = differs ∙ ap (λ h. record before { token_hash = h }) (sym e_hash);
        accepted = λ t.
            ap (λ k. (authenticate_agent (some k) (record s' { clock = t })).0)
              (r.token_is ∙ ap (λ i. token_of i (s.entropy s.drawn)) (sym same))
            ∙ ap (λ z. z.0)
                (authenticate-token_of row.id (s.entropy s.drawn) (record s' { clock = t }) pre dot)
            ∙ ap (check_token t hash) at_id
            ∙ check_hash t hash row e_hash;
        refused = λ t secret other.
            let (why, told) = check_other t (token_hash secret) row (λ e. other (sym e)) in
            (
              why,
              ap (λ z. z.0) (authenticate-token_of row.id secret (record s' { clock = t }) pre dot)
                  ∙ ap (check_token t (token_hash secret)) at_id
                  ∙ told,
            );
        leases = ap (λ (u : Service). u.access_requests) r.result;
      }
