-- ===== src/Delegation/Created.antt =====
-- The delegations that Create of internal/delegation/delegation.go makes stand for their tokens.
use anyauth.Base.{
  ℕ, ◌+◌, String, ◌≡◌, ◌<◌, refl, sym, ◌⊎◌, inl, inr, false, Option, none, ◌==◌, arith, eq_iff, ◌≤◌,
  is_empty, Bool-cases, Option-cases, Result, ok, err, diverged, >>=-eq-ok, check-eq-ok,
}
use anyauth.AgentRegistry.Agents
use anyauth.AgentRegistry.Agents.{valid_id}
use anyauth.Delegation.Records.{Delegation, normalize_scopes, or_clock}
use anyauth.Delegation.Tokens.{Claims, claim, claim_text, seconds, validate_claims, token_sha256}
use anyauth.Delegation.Checked.{Stands}
use anyauth.Delegation.Timely.{
  payload_of-IsTimely, normalize_scopes-not_empty, random_prefixed_id-not_empty,
}
use anyauth.Delegation.Creation.{
  CreateRequest, CreateError, validate_create_request, random_prefixed_id, task_of, record_of,
  payload_of, signed, issue,
}

payload_of-task :
    (issuer : String) (r : Delegation)
    → (r.task_id ≡ "") ⊎ (r.task_id ≡ claim_text (payload_of issuer r) "anyauth_task_id")
unfolding payload_of claim
payload_of-task issuer r = elim (Bool-cases (r.task_id == "")) [
  | inl without ↦ inl ((eq_iff r.task_id "").0 without)
  | inr with_ ↦ inr (rw with_ refl)
]

-- A delegation that is not revoked stands for the token of its payload until it expires.
payload_of-Stands :
    (issuer : String) (r : Delegation) (at : ℕ)
    → r.revoked_at ≡ none
    → at < r.expires_at
    → Stands (payload_of issuer r) r.audience at r.token_sha256 r
unfolding payload_of claim
payload_of-Stands issuer r at open_ soon = record {
  unrevoked = open_;
  unexpired = soon;
  token_id = refl;
  token = refl;
  agent = refl;
  task = payload_of-task issuer r;
  for_audience = refl;
  scopes = refl;
}

validated :
    (req : CreateRequest)
    → validate_create_request req ≡ none
    → (Agents.validate req.agent ≡ none)
      × (req.agent.disabled ≡ false)
      × (0 < req.ttl)
      × ((req.human.sub == "") ≡ false)
      × (is_empty req.scopes ≡ false)
unfolding validate_create_request
validated req h = elim (Option-cases (Agents.validate req.agent)) [
  | inl fine ↦ (fine, ground arith, ground arith, ground arith, ground arith)
  | inr (e, bad) ↦ absurd (ground arith)
]

signed-eq-ok : (m : Result String String) (token : String) → signed m ≡ ok token → m ≡ ok token
signed-eq-ok (ok t) token h = ground arith
signed-eq-ok (err e) token h = cc
signed-eq-ok diverged token h = cc

module _ (sign : Claims → Result String String) (digest : String → String) (clock : ℕ)
    (id_random token_random task_random : Option String) (req : CreateRequest) where
  -- What Create has made: a signed token whose payload validateClaims accepts in time, and a delegation
  -- of a valid and enabled agent that stands for it until it expires.
  pub record IsIssued (r : Delegation) (token : String) : Type 0 where
    pub valid : Agents.validate req.agent ≡ none
    pub enabled : req.agent.disabled ≡ false
    pub agent : r.agent_id ≡ req.agent.id
    pub scopes : r.scopes ≡ normalize_scopes req.scopes
    pub issued : r.issued_at ≡ or_clock clock req.now
    pub lives : (r.issued_at < r.expires_at) × (r.expires_at ≡ or_clock clock req.now + req.ttl)
    pub made : sign (payload_of req.issuer r) ≡ ok token
    pub stands :
        (at : ℕ)
        → at < r.expires_at
        → Stands (payload_of req.issuer r) req.audience at (token_sha256 digest token) r
    pub timely :
        (at : ℕ)
        → seconds r.issued_at ≤ seconds at
        → seconds at < seconds r.expires_at
        → validate_claims (payload_of req.issuer r) req.issuer req.audience at ≡ ok tt

  ok-IsIssued :
      (r : Delegation) (token : String) (r' : Delegation) (token' : String)
      → Path (Result CreateError (Delegation × String)) (ok (r, token)) (ok (r', token'))
      → IsIssued r token
      → IsIssued r' token'
  ok-IsIssued r token r' token' h i =
      let same : r ≡ r' = ground arith in
      let same' : token ≡ token' = ground arith in rw (sym same, sym same') i

  -- The record of the request and its token.
  record_of-IsIssued :
      (id token_id task_id token : String)
      → (let normal = record req { scopes = normalize_scopes req.scopes } in
          let r0 = record_of normal (or_clock clock req.now) id token_id task_id in
          validate_create_request normal ≡ none
          → (id == "") ≡ false
          → (token_id == "") ≡ false
          → sign (payload_of req.issuer r0) ≡ ok token
          → IsIssued (record r0 { token_sha256 = token_sha256 digest token }) token)
  unfolding payload_of
  record_of-IsIssued id token_id task_id token accepted named named' got =
      let (fine, on, positive, sub, some_) =
        validated (record req { scopes = normalize_scopes req.scopes }) accepted in
      let agent_named : (req.agent.id == "") ≡ false =
        ground (arith, valid_id req.agent fine, eq_iff req.agent.id "") in
      let r0 =
        record_of (record req { scopes = normalize_scopes req.scopes }) (or_clock clock req.now) id
          token_id task_id in
      let issued_record : Delegation = record r0 { token_sha256 = token_sha256 digest token } in
      record {
        valid = fine;
        enabled = on;
        agent = refl;
        scopes = refl;
        issued = refl;
        lives = (omega arith, refl);
        made = got;
        stands = λ at soon. payload_of-Stands req.issuer _ at refl soon;
        timely = λ at. payload_of-IsTimely req.issuer issued_record at (record {
          sub = sub;
          id = named;
          token_id = named';
          agent = agent_named;
          scopes = normalize_scopes-not_empty req.scopes some_;
        });
      }

  pub issue-IsIssued :
      (r : Delegation) (token : String)
      → issue sign digest clock id_random token_random task_random req ≡ ok (r, token)
      → IsIssued r token
  unfolding issue
  issue-IsIssued r token h =
      let normal = record req { scopes = normalize_scopes req.scopes } in
      let (u, checked, h1) = >>=-eq-ok _ _ h in
      let (id, drawn, h2) = >>=-eq-ok (random_prefixed_id "del" id_random) _ h1 in
      let (token_id, drawn', h3) = >>=-eq-ok (random_prefixed_id "jti" token_random) _ h2 in
      let (task_id, task, h4) = >>=-eq-ok (task_of normal task_random) _ h3 in
      let r0 = record_of normal (or_clock clock req.now) id token_id task_id in
      let (t, got, h5) = >>=-eq-ok (signed (sign (payload_of req.issuer r0))) _ h4 in
      ok-IsIssued _ t r token h5 (
        record_of-IsIssued id token_id task_id t (check-eq-ok _ checked)
          (random_prefixed_id-not_empty "del" id_random id refl drawn)
          (random_prefixed_id-not_empty "jti" token_random token_id refl drawn')
          (signed-eq-ok _ t got))
