-- ===== src/Broker/Lent.antt =====
-- What stands behind a secret that was revealed, or sent by its reference: `reveal_secret` and
-- `broker_http` of passd/service.py.
use passd.Base.{
  refl, true, inr, inl, ap, ◌∙◌, if◌then◌else◌, sym, Bool, false, ◌⊎◌, none, some, Option, ◌≡◌,
}
use passd.Exec.{Exec}
use passd.Platform.{Platform}
use passd.Broker.Direct.{read_item, reveal_for_admin, reveal_secret, BrokerCall, reveal_for_agent}
use passd.Payload.{ItemPayload, secret_use, secret_reveal, Secret, Scope}
use passd.Text.{lower, Text}
use passd.Db.{ItemRow, Service, AgentRow}
use passd.Broker.{verify_admin_password, execute_http, HttpResult}
use passd.Url.{hostname, SplitResult}
use passd.Http.{HttpRequest}
use passd.Errors.{ok}
use passd.Access.Claim.{consume_exact_grant, Claim}
use passd.Broker.Target.{IsTarget}
use passd.Agents.{authenticate_agent}
use passd.Exec.Laws.{pure_ok, lift_ok, bind_ok}
use passd.Access.Soundness.Exact.{consume_exact_sound, ExactGrant}
use passd.Broker.Sent.{authenticated}
use passd.Items.{extract_field}
use passd.Vaults.{truthy}
use mathlib.Core.Path.{subst}
use passd.Broker.Admin.{verify_admin_password-IsAdmin, IsAdmin}
use passd.Broker.Headers.{IsRequest}

module _ ⦃p : Platform⦄ where
  -- A field that a machine account was lent: an authentic token, and one use of a lease on the
  -- field, after which it was read. `charged` is the state after the claim.
  pub record IsLent (scope : Scope) (uri : Text) (host agent_token : Option Text) (found : Secret)
      (s charged : Service) : Type 0 where
    pub agent : AgentRow
    pub claim : Claim
    pub field : Text
    pub authentic : authenticate_agent agent_token s ≡ (ok agent, s)
    pub grant : ExactGrant agent scope uri host claim field s charged
    pub held : extract_field claim.content (some field) ≡ ok found

  reveal_for_agent-IsLent :
      (uri : Text) (agent_token reason : Option Text) (found : Secret) (s s' : Service)
      → reveal_for_agent uri agent_token reason s ≡ (ok found, s')
      → (charged : Service) × IsLent secret_reveal uri none agent_token found s charged
  unfolding reveal_for_agent
  reveal_for_agent-IsLent uri agent_token reason found s s' h =
      let (agent, s1, h1, k1) = bind_ok (authenticate_agent agent_token) _ s h in
      let (same, authentic) = authenticated agent_token s s1 agent h1 in
      let (used, s2, h2, k2) =
        bind_ok (consume_exact_grant agent secret_reveal uri none reason) _ s1 k1 in
      let (value, held, k3) = lift_ok (extract_field used.0.content (some used.1)) _ s2 k2 in
      let (u, s3, h4, k4) = bind_ok _ _ s2 k3 in
      (
        s2,
        record {
          agent = agent;
          claim = used.0;
          field = used.1;
          authentic = authentic;
          grant =
              subst (λ t. ExactGrant agent secret_reveal uri none used.0 used.1 t s2) same
                (consume_exact_sound agent secret_reveal uri none reason used.0 used.1 s1 s2 h2);
          held = held ∙ ap ok (pure_ok value s3 k4).0;
        },
      )

  -- A secret is revealed only to a machine account that was lent it, by one use of a lease to reveal
  -- it, or, if no token is given, to the holder of the master password.
  pub reveal_secret-IsLent :
      (uri : Text) (agent_token password reason : Option Text) (found : Secret) (s s' : Service)
      → reveal_secret uri agent_token password reason s ≡ (ok found, s')
      → ((charged : Service) × IsLent secret_reveal uri none agent_token found s charged)
        ⊎ ((truthy agent_token ≡ false) × IsAdmin password s)
  unfolding reveal_secret reveal_for_admin
  reveal_secret-IsLent uri agent_token password reason found s s' h = by (truthy agent_token) refl h
    where
      by :
          (given : Bool)
          → given ≡ truthy agent_token
          → (if given
                then reveal_for_agent uri agent_token reason
                else reveal_for_admin uri password)
              s
            ≡ (ok found, s')
          → ((charged : Service) × IsLent secret_reveal uri none agent_token found s charged)
            ⊎ ((truthy agent_token ≡ false) × IsAdmin password s)
      by true e called = inl (reveal_for_agent-IsLent uri agent_token reason found s s' called)
      by false e called =
          let (u, t, verified, k) = bind_ok (verify_admin_password password) _ s called in
          inr (sym e, (verify_admin_password-IsAdmin password s t verified).1)

  -- A request that `broker_http` has sent for a machine account.
  pub record IsBrokered (call : BrokerCall) (agent_token : Option Text) (result : HttpResult)
      (s : Service) : Type 0 where
    pub found : Secret
    pub target : SplitResult
    pub charged : Service
    pub request : HttpRequest
    pub secret : Text
    pub lent :
        IsLent secret_use call.uri (some (lower (hostname target))) agent_token found s charged
    pub aimed : IsTarget s.allow_private_broker_targets (some lent.agent) call.url target
    pub built : IsRequest call found request secret
    pub sent : execute_http charged.drawn request secret ≡ ok result

  -- A request that `broker_http` has sent for the holder of the master password: it carries the
  -- secret that the reference names. `read` is the state in which the request left.
  pub record IsSentByAdmin (call : BrokerCall) (agent_token password : Option Text)
      (result : HttpResult) (s : Service) : Type 0 where
    pub no_token : truthy agent_token ≡ false
    pub proven : IsAdmin password s
    pub target : SplitResult
    pub aimed : IsTarget s.allow_private_broker_targets none call.url target
    pub item : ItemRow × ItemPayload × Option Text
    pub read : Service
    pub there : read_item call.uri s ≡ (ok item, read)
    pub found : Secret
    pub held : extract_field item.1 item.2 ≡ ok found
    pub request : HttpRequest
    pub secret : Text
    pub built : IsRequest call found request secret
    pub sent : execute_http read.drawn request secret ≡ ok result
