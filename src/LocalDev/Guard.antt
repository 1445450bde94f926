-- ===== src/LocalDev/Guard.antt =====
-- Who gets through the protected proxy (internal/localdev/server.go).
use anyauth.Base.{
  ℕ, String, ◌≡◌, refl, ◌⊎◌, ◌≢◌, sym, ap, ◌∙◌, inl, inr, true, false, Option, none, some, List, ok,
  arith, err, diverged, Result, Result-cases, Bool-cases,
}
use anyauth.Registry.Store.{Error, Disk}
use anyauth.Delegation.Records.{Delegation, revoke}
use anyauth.Delegation.Revoked.{revoke-validate_token}
use anyauth.Policy.Rules.{Rule, Invalid}
use anyauth.Policy.Store as PolicyStore
use anyauth.Policy.Evaluate.{Decision, evaluate}
use anyauth.Delegation.Tokens.{Context, TokenError}
use anyauth.LocalDev.State.{ProtectSession, Store, App}
use anyauth.LocalDev.Protect.{ProtectedApp, current_session}
use anyauth.LocalDev.Proxy.{
  Identity, ProxyLibrary, ProxyRequest, Files, forward, Bearer, absent, malformed, bearer,
  bearer_token, identity_from_session, identity_of, Verdict, refused, policy_error, decided,
}
use anyauth.LocalDev.Proxying.{
  audience_of, validate, policy_decision, judge_identity, conclude, forward_session, proxy_bearer,
  proxy,
}

module _ (lib : ProxyLibrary) (a : App) (p : ProtectedApp) where
  -- The identity of a delegation whose token ValidateToken accepts, and that the rules allow the request.
  pub record IsDelegated (now : ℕ) (r : ProxyRequest) (f : Files) (id : Identity) : Type 0 where
    pub token : String
    pub sent : bearer_token lib.equal_fold r.authorization ≡ bearer token
    pub context : Context
    pub valid : validate lib a p now token f ≡ ok context
    pub identity : id ≡ identity_of context
    pub rules : List Rule
    pub loaded : PolicyStore.load lib.to_upper lib.to_lower f.rules ≡ ok rules
    pub allowed :
        (evaluate lib.to_upper lib.to_lower rules (record {
          method = r.method;
          path = r.path;
          agent_id = id.agent_id;
          scopes = id.scopes;
        })).allowed
        ≡ true

  -- The identity of a session at the proxy, where delegations are not required and none is sent.
  pub record HasSession (r : ProxyRequest) (s : Store) (id : Identity) : Type 0 where
    pub sent : bearer_token lib.equal_fold r.authorization ≡ absent
    pub optional : a.cfg.require_delegation ≡ false
    pub session : ProtectSession
    pub held : current_session r.cookie s ≡ some session
    pub identity : id ≡ identity_from_session session

  conclude-forward :
      (clock : ℕ) (random : Option String) (r : ProxyRequest) (v : Option Verdict) (audit : _)
      {id : Identity}
      → (conclude lib a p clock random r v audit).0 ≡ some (forward id)
      → (d : Decision) × (v ≡ some (decided id d)) × (d.allowed ≡ true)
  conclude-forward clock random r none audit h = cc
  conclude-forward clock random r (some (refused e)) audit h = cc
  conclude-forward clock random r (some (policy_error e)) audit h = cc
  conclude-forward clock random r (some (decided id d)) audit h = (d, ground arith, ground arith)

  judge_identity-decided :
      (r : ProxyRequest) (f : Files) (c : Result TokenError Context) {id : Identity} {d : Decision}
      → judge_identity lib a p r f c ≡ some (decided id d)
      → (context : Context) × (c ≡ ok context)
        × (id ≡ identity_of context)
        × (policy_decision lib a p r
              (identity_of context)
              (PolicyStore.load lib.to_upper lib.to_lower f.rules)
            ≡ ok d)
  judge_identity-decided r f (ok c) h =
      elim (Result-cases (
        policy_decision lib a p r (identity_of c)
          (PolicyStore.load lib.to_upper lib.to_lower f.rules))) [
            | inl (d', done) ↦ (c, refl, ground arith, ground arith)
            | inr other ↦ absurd (ground arith)
          ]
  judge_identity-decided r f (err e) h = cc
  judge_identity-decided r f diverged h = cc

  policy_decision-allowed :
      (r : ProxyRequest) (id : Identity) (rules : Result (Error Invalid) (List Rule)) {d : Decision}
      → policy_decision lib a p r id rules ≡ ok d
      → d.allowed ≡ true
      → (rs : List Rule) × (rules ≡ ok rs)
        × ((evaluate lib.to_upper lib.to_lower rs (record {
          method = r.method;
          path = r.path;
          agent_id = id.agent_id;
          scopes = id.scopes;
        })).allowed
            ≡ true)
  policy_decision-allowed r id (ok rs) h allowed = (rs, refl, ground arith)
  policy_decision-allowed r id (err e) h allowed = cc
  policy_decision-allowed r id diverged h allowed = cc

  forward_session-forward :
      (r : ProxyRequest) (o : Option ProtectSession) (audit : _) {id : Identity}
      → (forward_session lib a p r o audit).0 ≡ some (forward id)
      → (session : ProtectSession) × (o ≡ some session) × (id ≡ identity_from_session session)
  forward_session-forward r none audit h = cc
  forward_session-forward r (some session) audit h = (session, refl, ground arith)

  proxy_bearer-IsAuthorized :
      (now clock : ℕ) (random : Option String) (r : ProxyRequest) (f : Files) (s : Store)
      (id : Identity) (b : Bearer)
      → bearer_token lib.equal_fold r.authorization ≡ b
      → (proxy_bearer lib a p now clock random r b f s).0 ≡ some (forward id)
      → IsDelegated now r f id ⊎ HasSession r s id
  proxy_bearer-IsAuthorized now clock random r f s id malformed sent h = cc
  proxy_bearer-IsAuthorized now clock random r f s id (bearer token) sent h =
      let (d, judged, allowed) = conclude-forward clock random r _ f.audit h in
      let (c, valid, same, decision) = judge_identity-decided r f _ judged in
      let (rules, loaded, allows) = policy_decision-allowed r (identity_of c) _ decision allowed in
      inl (record {
        token = token;
        sent = sent;
        context = c;
        valid = valid;
        identity = same;
        rules = rules;
        loaded = loaded;
        allowed = rw same allows;
      })
  proxy_bearer-IsAuthorized now clock random r f s id absent sent h =
      elim (Bool-cases a.cfg.require_delegation) [
        | inl required ↦ absurd (ground arith)
        | inr optional ↦
            let (session, held, same) = forward_session-forward r _ f.audit (ground arith) in
            inr (record {
              sent = sent;
              optional = optional;
              session = session;
              held = held;
              identity = same;
            })
      ]

  -- A request is passed to the upstream only for the identity of a delegation whose bearer token is valid
  -- and that the rules of the policy file allow this request, or, where delegations are not required
  -- and no Authorization header was sent, for the identity of the session that the cookie names.
  pub proxy-IsAuthorized :
      (now clock : ℕ) (random : Option String) (r : ProxyRequest) (f : Files) (s : Store)
      (id : Identity)
      → (proxy lib a p now clock random r f s).0 ≡ some (forward id)
      → IsDelegated now r f id ⊎ HasSession r s id
  unfolding proxy
  proxy-IsAuthorized now clock random r f s id h =
      proxy_bearer-IsAuthorized now clock random r f s id _ refl h

  -- After a successful Revoke of a delegation no request is passed to the upstream for it, whatever the
  -- agents, the rules and the store are: an identity that is passed on has another delegation's ID, or
  -- is that of a session.
  pub revoke-not-forward :
      (clock : ℕ) (revoked_id : String) (at : ℕ) (d d' : Disk Delegation) (revoked : Delegation)
      (now clock' : ℕ) (random : Option String) (r : ProxyRequest) (f : Files) (s : Store)
      (id : Identity)
      → revoke clock revoked_id at d ≡ (ok revoked, d')
      → f.delegations ≡ d'.content
      → (proxy lib a p now clock' random r f s).0 ≡ some (forward id)
      → (id.delegation_id ≢ revoked_id) ⊎ HasSession r s id
  unfolding identity_of
  revoke-not-forward clock revoked_id at d d' revoked now clock' random r f s id h disk passed =
      elim (proxy-IsAuthorized now clock' random r f s id passed) [
        | inr session ↦ inr session
        | inl delegated ↦ inl (λ same.
            revoke-validate_token lib.verify lib.digest clock now revoked_id at d d' revoked
              delegated.token
              (record {
                issuer = a.issuer;
                audience = audience_of lib a p;
                now = 0;
                has_public_key = true;
              })
              f.agents delegated.context h (rw (sym disk) delegated.valid)
              (ap (λ (i : Identity). i.delegation_id) (sym delegated.identity) ∙ same))
      ]
