-- ===== src/LocalDev/Asked.antt =====
-- Which authorization requests agents get (internal/localdev/authorization.go).
use anyauth.Base.{
  ℕ, ◌+◌, ◌≤◌, ◌/◌, String, ◌≡◌, refl, sym, ap, inl, inr, true, false, Option, some, List, [], ◌∷◌,
  arith, eq_iff, Result, ok, err, diverged, Result-cases, Option-cases, >>=-eq-ok,
}
use anyauth.AgentRegistry.Agents
use anyauth.AgentRegistry.Agents.{Agent, find}
use anyauth.Authz.Model.{identity_human, identity_agent}
use anyauth.AuthzStore.Types
use anyauth.AuthzStore.Types.{AuthorizationRequest, is_pending}
use anyauth.AuthzStore.Normalize.{normalize_request}
use anyauth.AuthzStore.Store.{plan_create, create_request}
use anyauth.AuthzStore.Saving.{commit-eq-ok}
use anyauth.LocalDev.State.{App}
use anyauth.LocalDev.Replies.{Data, Decoded, decoded, undecodable, created, random_prefixed_id}
use anyauth.LocalDev.Requests.{
  CreateInput, trim_input, second, minute, max_authorization_ttl, request_approval_window,
  is_bad_ttl, check_input, name_request, task_id_of, new_request, check_create, finish_create,
  authorization_requests,
}

-- A request for the local user, by a registered agent that is enabled, that the user can approve for a
-- quarter of an hour, of an authorization for 1 minute to 24 hours.
pub record IsBounded (a : App) (now : ℕ) (agents : List Agent) (r : AuthorizationRequest)
    : Type 0 where
  pub human : (r.subject.type ≡ identity_human) × (r.subject.id ≡ a.profile.sub)
  pub agent : Agent
  pub registered : find agents agent.id ≡ some agent
  pub enabled : agent.disabled ≡ false
  pub actor : (r.actor.type ≡ identity_agent) × (r.actor.id ≡ agent.id)
  pub pending : is_pending r.status ≡ true
  pub expires : r.expires_at ≡ now + request_approval_window
  pub ttl : (60 ≤ r.requested_ttl_seconds) × (r.requested_ttl_seconds ≤ 86400)

ttl_bounds : (ttl : ℕ) → is_bad_ttl ttl ≡ false → (60 ≤ ttl / second) × (ttl / second ≤ 86400)
unfolding is_bad_ttl
ttl_bounds ttl h =
    let low : minute ≤ ttl = ground arith in
    let high : ttl ≤ max_authorization_ttl = ground arith in (omega arith, omega arith)

find-id :
    (agents : List Agent) (id : String) (agent : Agent)
    → find agents id ≡ some agent
    → agent.id ≡ id
unfolding find
find-id [] id agent h = absurd (ground arith)
find-id (x ∷ xs) id agent h = ground (arith, eq_iff x.id id, find-id xs id agent)

check_input-active :
    (method : String) (i : CreateInput) (s : Data) (j : CreateInput) (agent : Agent) (ttl : ℕ)
    → check_input method (decoded i) s ≡ ok (j, agent, ttl)
    → (agents : List Agent) × (Agents.load s.agents ≡ ok agents)
      × (find agents j.agent_id ≡ some agent)
      × (agent.disabled ≡ false)
      × (is_bad_ttl ttl ≡ false)
unfolding check_input
check_input-active method i s j agent ttl h = elim (Result-cases (Agents.load s.agents)) [
  | inr other ↦ absurd (ground arith)
  | inl (agents, loaded) ↦ elim (Option-cases (find agents (trim_input i).agent_id)) [
    | inl missing ↦ absurd (ground arith)
    | inr (found, present) ↦
        let same : found ≡ agent = ground arith in
        let read : trim_input i ≡ j = ground arith in
        (agents, loaded, rw (sym same, sym read) present, ground arith, ground arith)
  ]
]

check_input-undecodable :
    (method e : String) (s : Data) (p : CreateInput × Agent × ℕ)
    → check_input method (undecodable e) s ≡ ok p
    → ⊥
unfolding check_input
check_input-undecodable method e s p h = ground arith

check_input-refuses :
    (method : String) (body : Decoded CreateInput) (s : Data) (r : AuthorizationRequest)
    (url : String)
    → check_input method body s ≡ err (created r url)
    → ⊥
unfolding check_input
check_input-refuses method (undecodable e) s r url h = ground arith
check_input-refuses method (decoded i) s r url h = ground arith

name_request-refuses :
    (a : App) (now : ℕ) (id_random task_random : Option String) (i : CreateInput) (agent : Agent)
    (ttl : ℕ) (r : AuthorizationRequest) (url : String)
    → name_request a now id_random task_random i agent ttl ≡ err (created r url)
    → ⊥
unfolding name_request
name_request-refuses a now id_random task_random i agent ttl r url h = ground arith

check_create-refuses :
    (a : App) (now : ℕ) (id_random task_random : Option String) (method : String)
    (body : Decoded CreateInput) (s : Data) (r : AuthorizationRequest) (url : String)
    → check_create a now id_random task_random method body s ≡ err (created r url)
    → ⊥
unfolding check_create
check_create-refuses a now id_random task_random method body s r url h =
    elim (Result-cases (check_input method body s)) [
      | inl ((i, agent, ttl), checked) ↦
          name_request-refuses a now id_random task_random i agent ttl r url (ground arith)
      | inr (inl out) ↦ ground arith
      | inr (inr (e, refused)) ↦ check_input-refuses method body s r url (ground arith)
    ]

name_request-new_request :
    (a : App) (now : ℕ) (id_random task_random : Option String) (i : CreateInput) (agent : Agent)
    (ttl : ℕ) (r : AuthorizationRequest)
    → name_request a now id_random task_random i agent ttl ≡ ok r
    → (id task_id : String) × (new_request a now id agent i task_id ttl ≡ r)
unfolding name_request
name_request-new_request a now id_random task_random i agent ttl r h =
    elim (Result-cases (task_id_of i task_random)) [
      | inr other ↦ absurd (ground arith)
      | inl (task_id, named) ↦ elim (Result-cases (random_prefixed_id "req" id_random)) [
        | inr other ↦ absurd (ground arith)
        | inl (id, drawn) ↦ (id, task_id, ground arith)
      ]
    ]

check_create-IsBounded :
    (a : App) (now : ℕ) (id_random task_random : Option String) (method : String)
    (body : Decoded CreateInput) (s : Data) (r : AuthorizationRequest)
    → check_create a now id_random task_random method body s ≡ ok r
    → (agents : List Agent) × (Agents.load s.agents ≡ ok agents) × IsBounded a now agents r
unfolding check_create
check_create-IsBounded a now id_random task_random method (undecodable e) s r h =
    let (p, checked, rest) = >>=-eq-ok (check_input method (undecodable e) s) _ h in
    absurd (check_input-undecodable method e s p checked)
check_create-IsBounded a now id_random task_random method (decoded i) s r h =
    let ((j, agent, ttl), checked, rest) = >>=-eq-ok (check_input method (decoded i) s) _ h in
    let (agents, loaded, present, enabled, good) =
      check_input-active method i s j agent ttl checked in
    let (id, task_id, made) =
      name_request-new_request a now id_random task_random j agent ttl r rest in
    (
      agents,
      loaded,
      rw (sym made) (record {
        human = (refl, refl);
        agent = agent;
        registered = rw (find-id agents j.agent_id agent present) present;
        enabled = enabled;
        actor = (refl, refl);
        pending = refl;
        expires = refl;
        ttl = ttl_bounds ttl good;
      }),
    )

plan_create-normalizes :
    (q : AuthorizationRequest) (c : Types.Content) (f : Types.File) (r : AuthorizationRequest)
    → plan_create q c ≡ ok (f, ok r)
    → r ≡ normalize_request q
unfolding plan_create
plan_create-normalizes q c f r h = ground arith

create_request-normalizes :
    (q : AuthorizationRequest) (d : Types.Disk) (r : AuthorizationRequest)
    → (create_request q d).0 ≡ ok r
    → r ≡ normalize_request q
unfolding create_request
create_request-normalizes q d r h =
    let d' = (create_request q d).1 in
    let (f, planned, saved) =
      commit-eq-ok d d' (plan_create q d.content) r
        (ap (λ (o : Result Types.Error AuthorizationRequest). (o, d')) h) in
    plan_create-normalizes q d.content f r planned

normalize_request-IsBounded :
    (a : App) (now : ℕ) (agents : List Agent) (r : AuthorizationRequest)
    → IsBounded a now agents r
    → IsBounded a now agents (normalize_request r)
unfolding normalize_request
normalize_request-IsBounded a now agents r b = record {
  human = b.human;
  agent = b.agent;
  registered = b.registered;
  enabled = b.enabled;
  actor = b.actor;
  pending = b.pending;
  expires = b.expires;
  ttl = b.ttl;
}

finish_create-created :
    (a : App) (clock : ℕ) (random : Option String) (s s' : Data)
    (out : Result Types.Error AuthorizationRequest × Types.Disk) (r : AuthorizationRequest)
    (url : String)
    → finish_create a clock random s out ≡ (some (created r url), s')
    → out.0 ≡ ok r
finish_create-created a clock random s s' (ok q, d) r url h = ground arith
finish_create-created a clock random s s' (err e, d) r url h = ground arith
finish_create-created a clock random s s' (diverged, d) r url h = ground arith

-- An agent that is answered that its request was created is registered and enabled, the request is for the
-- local user and pending, it expires a quarter of an hour after the time of the call, and it asks for 1
-- minute to 24 hours, whatever 64-bit number of seconds was sent.
pub authorization_requests-IsBounded :
    (a : App) (now clock : ℕ) (id_random task_random event_random : Option String) (method : String)
    (body : Decoded CreateInput) (s s' : Data) (r : AuthorizationRequest) (url : String)
    → authorization_requests a now clock id_random task_random event_random method body s
      ≡ (some (created r url), s')
    → (agents : List Agent) × (Agents.load s.agents ≡ ok agents) × IsBounded a now agents r
unfolding authorization_requests
authorization_requests-IsBounded a now clock id_random task_random event_random method body s s' r
      url h =
    elim (Result-cases (check_create a now id_random task_random method body s)) [
      | inr (inl out) ↦ absurd (ground arith)
      | inr (inr (e, refused)) ↦
          absurd
            (check_create-refuses a now id_random task_random method body s r url (ground arith))
      | inl (q, checked) ↦
          let answered : finish_create a clock event_random s (create_request q s.authorization)
              ≡ (some (created r url), s') =
            ground arith in
          let same = create_request-normalizes q s.authorization r (
            finish_create-created a clock event_random s s' (create_request q s.authorization) r url
              answered) in
          let (agents, loaded, bounded) =
            check_create-IsBounded a now id_random task_random method body s q checked in
          (agents, loaded, rw same (normalize_request-IsBounded a now agents q bounded))
    ]
