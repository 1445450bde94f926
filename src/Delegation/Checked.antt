-- ===== src/Delegation/Checked.antt =====
-- What a token that ValidateToken of internal/delegation/delegation.go accepts is good for.
use anyauth.Base.{
  ℕ, ◌<◌, String, ◌≡◌, refl, ap, ◌∙◌, ◌⊎◌, inl, inr, false, none, some, List, arith, Option-cases,
  Result, ok, Result-cases, eq_iff,
}
use anyauth.Registry.Store.{Content}
use anyauth.AgentRegistry.Agents
use anyauth.AgentRegistry.Agents.{Agent, find}
use anyauth.Delegation.Records.{Delegation, load, find_delegation, or_clock}
use anyauth.Delegation.Tokens.{
  Claims, claim_text, ValidateOptions, Context, join, check_record, validate_claims, validate_token,
  token_sha256,
}

-- A delegation that stands for a token at an instant, for an audience.
pub record Stands (claims : Claims) (audience : String) (now : ℕ) (digest : String) (r : Delegation)
    : Type 0 where
  pub unrevoked : r.revoked_at ≡ none
  pub unexpired : now < r.expires_at
  pub token_id : r.token_id ≡ claim_text claims "jti"
  pub token : r.token_sha256 ≡ digest
  pub agent : r.agent_id ≡ claim_text claims "anyauth_agent_id"
  pub task : (r.task_id ≡ "") ⊎ (r.task_id ≡ claim_text claims "anyauth_task_id")
  pub for_audience : r.audience ≡ audience
  pub scopes : join r.scopes ≡ claim_text claims "scope"

check_record-Stands :
    (claims : Claims) (audience : String) (now : ℕ) (digest : String) (r : Delegation)
    → check_record claims audience now digest r ≡ none
    → Stands claims audience now digest r
unfolding check_record
check_record-Stands claims audience now digest r h = record {
  unrevoked = elim (Option-cases r.revoked_at) [
    | inl open_ ↦ open_
    | inr (at, closed) ↦ absurd (ground arith)
  ];
  unexpired = ground arith;
  token_id = ground (arith, eq_iff r.token_id (claim_text claims "jti"));
  token = ground (arith, eq_iff r.token_sha256 digest);
  agent = ground (arith, eq_iff r.agent_id (claim_text claims "anyauth_agent_id"));
  task =
      ground (arith, eq_iff r.task_id "", eq_iff r.task_id (claim_text claims "anyauth_task_id"));
  for_audience = ground (arith, eq_iff r.audience audience);
  scopes = ground (arith, eq_iff (join r.scopes) (claim_text claims "scope"));
}

module _ (verify : String → Result String Claims) (digest : String → String) (clock : ℕ)
    (token : String) (opts : ValidateOptions) (delegations : Content Delegation)
    (agents : Content Agent) where
  -- What an accepted token has: a signature that verifies, claims for this issuer and audience at
  -- this time, a stored delegation that stands, and an agent that is registered and enabled.
  pub record Honoured (ctx : Context) : Type 0 where
    pub signed : verify token ≡ ok ctx.claims
    pub claims :
        validate_claims ctx.claims opts.issuer opts.audience (or_clock clock opts.now) ≡ ok tt
    pub known :
        (ds : List Delegation) × (load delegations ≡ ok ds)
        × (find_delegation ds (claim_text ctx.claims "anyauth_delegation_id") ≡ some ctx.delegation)
    pub stands :
        Stands ctx.claims opts.audience
          (or_clock clock opts.now)
          (token_sha256 digest token)
          ctx.delegation
    pub registered :
        (xs : List Agent) × (Agents.load agents ≡ ok xs)
        × (find xs ctx.delegation.agent_id ≡ some ctx.agent)
    pub enabled : ctx.agent.disabled ≡ false
    pub scopes : ctx.scopes ≡ ctx.delegation.scopes

  -- ValidateToken accepts only a token whose signature verifies, whose claims are for the issuer and
  -- the audience and valid at the time, and whose stored delegation is neither revoked nor expired,
  -- is of this very token and has the claimed agent, task, audience and scopes, that agent being
  -- registered and not disabled; and it returns the scopes of the delegation.
  pub validate_token-Honoured :
      (ctx : Context)
      → validate_token verify digest clock token opts delegations agents ≡ ok ctx
      → Honoured ctx
  unfolding validate_token
  validate_token-Honoured ctx h =
      let now = or_clock clock opts.now in
      elim (Result-cases (verify token)) [
        | inr other ↦ absurd (ground arith)
        | inl (claims, verified) ↦
            let id = claim_text claims "anyauth_delegation_id" in
            let agent_id = claim_text claims "anyauth_agent_id" in
            elim (Result-cases (validate_claims claims opts.issuer opts.audience now)) [
              | inr other ↦ absurd (ground arith)
              | inl (u, in_time) ↦ elim (Result-cases (load delegations)) [
                | inr other ↦ absurd (ground arith)
                | inl (ds, loaded) ↦ elim (Option-cases (find_delegation ds id)) [
                  | inl missing ↦ absurd (ground arith)
                  | inr (r, present) ↦
                      elim (Option-cases
                        (check_record claims opts.audience now (token_sha256 digest token) r)) [
                          | inr bad ↦ absurd (ground arith)
                          | inl fine ↦ elim (Result-cases (Agents.load agents)) [
                            | inr other ↦ absurd (ground arith)
                            | inl (xs, registry) ↦ elim (Option-cases (find xs agent_id)) [
                              | inl missing ↦ absurd (ground arith)
                              | inr (a, listed) ↦
                                  let made : ctx ≡ (record {
                                    delegation = r;
                                    agent = a;
                                    claims = claims;
                                    scopes = r.scopes;
                                  }) =
                                    ground arith in
                                  let stands =
                                    check_record-Stands claims opts.audience now
                                      (token_sha256 digest token) r fine in
                                  rw made (record {
                                    signed = verified;
                                    claims = in_time;
                                    known = (ds, loaded, present);
                                    stands = stands;
                                    registered = (xs, registry, ap (find xs) stands.agent ∙ listed);
                                    enabled = ground arith;
                                    scopes = refl;
                                  })
                            ]
                          ]
                        ]
                ]
              ]
            ]
      ]
