-- ===== src/LocalDev/Proxying.antt =====
-- internal/localdev/server.go: the handler of the protected proxy, and the headers of what it forwards.
use anyauth.Base.{
  ℕ, String, Bool, true, Option, none, some, List, [], ◌∷◌, map, ◌==◌, if◌then◌else◌, Result, ok,
  err, diverged, has_prefix,
}
use anyauth.Registry.Store.{Error}
use anyauth.Policy.Rules.{Rule, Invalid}
use anyauth.Policy.Store as PolicyStore
use anyauth.Policy.Evaluate.{Decision, evaluate}
use anyauth.Delegation.Tokens.{Context, TokenError, join, validate_token}
use anyauth.AuditLog.Log
use anyauth.LocalDev.State.{ProtectSession, Store, App}
use anyauth.LocalDev.Http.{clean_return_path, redirect}
use anyauth.LocalDev.Protect.{ProtectedApp, current_session}
use anyauth.LocalDev.Proxy.{
  Identity, ProxyLibrary, ProxyRequest, Files, Outcome, respond, forward, Bearer, absent, malformed,
  bearer, bearer_token, identity_from_session, identity_of, append_audit, audience_for_protect_port,
  malformed_authorization, delegation_required, Verdict, refused, policy_error, decided, outcome_of,
  event_of,
}

module _ (lib : ProxyLibrary) (a : App) (p : ProtectedApp) where
  abbrev pub audience_of : String
  audience_of = audience_for_protect_port lib.decimal p.port

  -- The call of ValidateToken; `now` is its reading of the clock.
  abbrev pub validate : ℕ → String → Files → Result TokenError Context
  validate now token f =
      validate_token lib.verify lib.digest now token
        (record { issuer = a.issuer; audience = audience_of; now = 0; has_public_key = true })
        f.delegations f.agents

  -- policyDecision
  abbrev pub policy_decision :
      ProxyRequest → Identity → Result (Error Invalid) (List Rule) → Result (Error Invalid) Decision
  policy_decision r id (err e) = err e
  policy_decision r id diverged = diverged
  policy_decision r id (ok rules) = ok (
      evaluate lib.to_upper lib.to_lower rules
        (record { method = r.method; path = r.path; agent_id = id.agent_id; scopes = id.scopes }))

  -- The verdict on an identity, and on a token.
  abbrev pub verdict_of : Identity → Result (Error Invalid) Decision → Option Verdict
  verdict_of id (ok d) = some (decided id d)
  verdict_of id (err e) = some (policy_error (lib.policy_message e))
  verdict_of id diverged = none

  abbrev pub judge_identity : ProxyRequest → Files → Result TokenError Context → Option Verdict
  judge_identity r f (err e) = some (refused (lib.token_message e))
  judge_identity r f diverged = none
  judge_identity r f (ok c) =
      let id = identity_of c in
      verdict_of id (policy_decision r id (PolicyStore.load lib.to_upper lib.to_lower f.rules))

  -- The end of a request with a verdict: the event is appended, and the request answered.
  abbrev pub conclude :
      ℕ → Option String → ProxyRequest → Option Verdict → Log.Disk → Option Outcome × Log.Disk
  conclude clock random r none audit = (none, audit)
  conclude clock random r (some v) audit =
      (some (outcome_of v), append_audit clock random (event_of audience_of r v) audit)

  abbrev pub forward_session :
      ProxyRequest → Option ProtectSession → Log.Disk → Option Outcome × Log.Disk
  forward_session r none audit = (
    some (respond (redirect "/__anyauth/login" (("return", clean_return_path r.uri) ∷ []) [])),
    audit,
  )
  forward_session r (some session) audit = (some (forward (identity_from_session session)), audit)

  abbrev pub proxy_bearer :
      ℕ → ℕ → Option String → ProxyRequest → Bearer → Files → Store → Option Outcome × Log.Disk
  proxy_bearer now clock random r malformed f s =
      conclude clock random r (some (refused malformed_authorization)) f.audit
  proxy_bearer now clock random r (bearer token) f s =
      conclude clock random r (judge_identity r f (validate now token f)) f.audit
  proxy_bearer now clock random r absent f s =
      if a.cfg.require_delegation
      then conclude clock random r (some (refused delegation_required)) f.audit
      else forward_session r (current_session r.cookie s) f.audit

  -- proxy; `now` is the instant at which the token is checked, `clock` and `random` go into the event.
  unfoldable pub proxy :
      ℕ → ℕ → Option String → ProxyRequest → Files → Store → Option Outcome × Log.Disk
  proxy now clock random r f s =
      proxy_bearer now clock random r (bearer_token lib.equal_fold r.authorization) f s

-- The headers of a request, by canonical names.
abbrev pub Headers : Type 0
Headers = List (String × String)

module _ (canonical to_lower : String → String) where
  -- `strings.HasPrefix(strings.ToLower(name), "x-anyauth-")`
  abbrev pub is_anyauth : String → Bool
  is_anyauth name = has_prefix (to_lower name) "x-anyauth-"

  -- `header.Del(name)`
  unfoldable pub del : String → Headers → Headers
  del name [] = []
  del name ((n, v) ∷ rest) =
      let others = del name rest in if n == canonical name then others else (n, v) ∷ others

  -- The loop over the names, which are read before any is deleted: to come upon a name that is gone
  -- deletes nothing more.
  unfoldable pub strip_names : List String → Headers → Headers
  strip_names [] h = h
  strip_names (name ∷ names) h = strip_names names (if is_anyauth name then del name h else h)

  unfoldable pub strip_anyauth_headers : Headers → Headers
  strip_anyauth_headers h = strip_names (map (λ (e : String × String). e.0) h) h

  -- `header.Set(name, value)`
  abbrev pub set : String → String → Headers → Headers
  set name value h = (canonical name, value) ∷ del name h

  unfoldable pub set_header_if_present : String → String → Headers → Headers
  set_header_if_present name value h = if value == "" then h else set name value h

  unfoldable pub set_all : Headers → Headers → Headers
  set_all [] h = h
  set_all ((name, value) ∷ rest) h = set_all rest (set_header_if_present name value h)

  -- The headers that say who sends the request.
  abbrev pub identity_headers : Identity → Headers
  identity_headers id =
      ("X-AnyAuth-Authenticated", "true")
      ∷ ("X-AnyAuth-Actor-Type", id.actor_type)
      ∷ ("X-AnyAuth-Sub", id.human_sub)
      ∷ ("X-AnyAuth-Name", id.human_name)
      ∷ ("X-AnyAuth-Email", id.human_email)
      ∷ ("X-AnyAuth-Human-Sub", id.human_sub)
      ∷ ("X-AnyAuth-Human-Name", id.human_name)
      ∷ ("X-AnyAuth-Human-Email", id.human_email)
      ∷ ("X-AnyAuth-Agent-ID", id.agent_id)
      ∷ ("X-AnyAuth-Agent-Name", id.agent_name)
      ∷ ("X-AnyAuth-Delegation-ID", id.delegation_id)
      ∷ ("X-AnyAuth-Token-ID", id.token_id)
      ∷ ("X-AnyAuth-Task-ID", id.task_id)
      ∷ ("X-AnyAuth-Task-Name", id.task_name)
      ∷ ("X-AnyAuth-Scopes", join id.scopes)
      ∷ []

  -- What the Director does to the headers, for a request with an identity.
  unfoldable pub direct : Identity → Headers → Headers
  direct id h =
      let stripped = strip_anyauth_headers h in
      let h' = if id.actor_type == "agent" then del "Authorization" stripped else stripped in
      set_all (identity_headers id) h'
