-- ===== src/Broker/Sent.antt =====
-- What stands behind a request that the broker has sent: `invoke_capability`, `broker_http` and
-- `reveal_secret` of passd/service.py, for a machine account.
use passd.Base.{ap, ◌∙◌, some, Option, ◌≡◌}
use passd.Platform.{Platform}
use passd.Broker.{
  target_url, invocation_request, execute_http, secret_text, invoke_prepared, HttpResult,
  prepare_invocation, invoke_capability,
}
use passd.Text.{Text}
use passd.Db.{AgentRow, Service}
use passd.Errors.{ok}
use passd.Agents.{authenticate_agent}
use passd.Access.Claim.{consume_capability_grant, CapabilityClaim}
use passd.Exec.Laws.{pure_ok, gets_ok, lift_ok, bind_ok}
use passd.Agents.Authenticate.{authenticate_sound}
use passd.Payload.{Secret}
use mathlib.Core.Path.{subst}
use passd.Url.{SplitResult}
use passd.Access.Soundness.Invocation.{consume_capability_sound, CapabilityGrant}
use passd.Items.{extract_field}
use passd.Capabilities.{validate_invocation}
use passd.Broker.Target.{validate_target-IsTarget, IsTarget}
use passd.Http.{HttpRequest}
use passd.Broker.Contract.{IsContractRequest, invocation_request-IsContractRequest}

module _ ⦃p : Platform⦄ where
  pub authenticated :
      (token : Option Text) (s s' : Service) (agent : AgentRow)
      → authenticate_agent token s ≡ (ok agent, s')
      → (s' ≡ s) × (authenticate_agent token s ≡ (ok agent, s))
  authenticated token s s' agent h =
      let same = (authenticate_sound token s s' agent h).0 in
      (same, subst (λ t. authenticate_agent token s ≡ (ok agent, t)) same h)

  -- What is ready to be sent: the claim, the request, the secret, the method and the path.
  abbrev pub Ready : Type 0
  Ready = CapabilityClaim × HttpRequest × Text × Text × Text

  -- A request that is ready to be sent, in the state after the claim.
  pub record IsPrepared (agent : AgentRow) (capability_id raw_method raw_path : Text)
      (body : Option Text) (s : Service) (ready : Ready) (charged : Service) : Type 0 where
    pub found : Secret
    pub target : SplitResult
    pub grant : CapabilityGrant agent capability_id raw_method raw_path ready.0 s charged
    pub held : extract_field ready.0.claim.content ready.0.field ≡ ok found
    pub scalar : secret_text found ≡ ok ready.2
    pub allowed : validate_invocation ready.0.definition raw_method raw_path ≡ ok (ready.3, ready.4)
    pub built : IsContractRequest ready.0.definition ready.3 ready.4 body ready.2 ready.1
    pub aimed : IsTarget s.allow_private_broker_targets (some agent) ready.1.url target

  -- No claim changes which targets are allowed.
  same_rule :
      {agent : AgentRow} {id raw_method raw_path : Text} {c : CapabilityClaim} {s t : Service}
      → CapabilityGrant agent id raw_method raw_path c s t
      → t.allow_private_broker_targets ≡ s.allow_private_broker_targets
  same_rule grant =
      ap (λ (v : Service). v.allow_private_broker_targets) grant.verified.charged.result
      ∙ grant.before.rest.allow_private_broker_targets

  prepare_invocation-IsPrepared :
      (agent : AgentRow) (id raw_method raw_path : Text) (body reason : Option Text) (ready : Ready)
      (s s' : Service)
      → prepare_invocation agent id raw_method raw_path body reason s ≡ (ok ready, s')
      → IsPrepared agent id raw_method raw_path body s ready s'
  unfolding prepare_invocation invocation_request
  prepare_invocation-IsPrepared agent id raw_method raw_path body reason ready s s' h =
      let (c, t, claimed, k) =
        bind_ok (consume_capability_grant agent id raw_method raw_path reason) _ s h in
      let grant = consume_capability_sound agent id raw_method raw_path reason c s t claimed in
      let (found, held, k1) = lift_ok (extract_field c.claim.content c.field) _ t k in
      let (secret, scalar, k2) = lift_ok (secret_text found) _ t k1 in
      let (at, allowed, k3) =
        lift_ok (validate_invocation c.definition raw_method raw_path) _ t k2 in
      let (target, aimed, k4) = lift_ok _ _ t (gets_ok _ _ t k3) in
      let (made, still) = pure_ok _ t k4 in
      subst (IsPrepared agent id raw_method raw_path body s ready) still (
        subst (λ (r : Ready). IsPrepared agent id raw_method raw_path body s r t) made
          (record {
            found = found;
            target = target;
            grant = grant;
            held = held;
            scalar = scalar;
            allowed = allowed;
            built = invocation_request-IsContractRequest c.definition at.0 at.1 body secret;
            aimed =
                subst
                  (λ private. IsTarget private (some agent) (target_url c.definition at.1) target)
                  (same_rule grant) (validate_target-IsTarget _ _ _ target aimed);
          }))

  -- A request that was sent for a capability.
  pub record IsInvoked (capability_id raw_method raw_path : Text) (body agent_token : Option Text)
      (result : HttpResult) (s : Service) : Type 0 where
    pub agent : AgentRow
    pub ready : Ready
    pub charged : Service
    pub authentic : authenticate_agent agent_token s ≡ (ok agent, s)
    pub prepared : IsPrepared agent capability_id raw_method raw_path body s ready charged
    pub sent : execute_http charged.drawn ready.1 ready.2 ≡ ok result

  invoke_prepared_ok :
      (agent : AgentRow) (reason : Option Text) (ready : Ready) (result : HttpResult)
      (s s' : Service)
      → invoke_prepared agent reason ready.0 ready.1 ready.2 ready.3 ready.4 s ≡ (ok result, s')
      → execute_http s.drawn ready.1 ready.2 ≡ ok result
  unfolding invoke_prepared
  invoke_prepared_ok agent reason ready result s s' h =
      let (came, sent, k) =
        lift_ok (execute_http s.drawn ready.1 ready.2) _ s (gets_ok (λ s. s.drawn) _ s h) in
      let (u, t, audited, k1) = bind_ok _ _ s k in sent ∙ ap ok (pure_ok came t k1).0

  -- An invocation that returns came from an authentic token and has charged one use of a lease for
  -- the capability; the request that was sent is the contract's, with the secret that backs it in
  -- the contract's header, at a method and a path that the contract allows, to a target that is
  -- within the agent's ceiling of hosts and, unless private targets are allowed, at public addresses
  -- over https; and the result is what came of that one request.
  pub invoke_capability-IsInvoked :
      (capability_id raw_method raw_path : Text) (body agent_token reason : Option Text)
      (result : HttpResult) (s s' : Service)
      → invoke_capability capability_id raw_method raw_path body agent_token reason s
        ≡ (ok result, s')
      → IsInvoked capability_id raw_method raw_path body agent_token result s
  unfolding invoke_capability
  invoke_capability-IsInvoked capability_id raw_method raw_path body agent_token reason result s s'
        h =
      let (agent, s1, h1, k1) = bind_ok (authenticate_agent agent_token) _ s h in
      let (same, authentic) = authenticated agent_token s s1 agent h1 in
      let (ready, s2, h2, k2) =
        bind_ok (prepare_invocation agent capability_id raw_method raw_path body reason) _ s1 k1 in
      record {
        agent = agent;
        ready = ready;
        charged = s2;
        authentic = authentic;
        prepared =
            subst (λ t. IsPrepared agent capability_id raw_method raw_path body t ready s2) same
              (prepare_invocation-IsPrepared agent capability_id raw_method raw_path body reason
                ready s1 s2 h2);
        sent = invoke_prepared_ok agent reason ready result s2 s' k2;
      }
