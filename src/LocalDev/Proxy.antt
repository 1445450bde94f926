-- ===== src/LocalDev/Proxy.antt =====
-- internal/localdev/server.go: the protected proxy's decision on a request, its audit events and the
-- headers of what it forwards. What it uses of the libraries of Go is the record `ProxyLibrary`.
use Prim.Native.String
use anyauth.Base.{
  ℕ, String, Bool, not, ◌&&◌, Option, List, [], ◌∷◌, ◌==◌, if◌then◌else◌, Result, trim_space,
}
use anyauth.Registry.Store.{Content, Error}
use anyauth.AgentRegistry.Agents.{Agent}
use anyauth.Policy.Rules.{Rule, Invalid}
use anyauth.Policy.Evaluate.{Decision}
use anyauth.Delegation.Records.{Delegation}
use anyauth.Delegation.Tokens.{Claims, Context, TokenError, claim}
use anyauth.AuditLog.Events.{Event, no_event}
use anyauth.AuditLog.Log
use anyauth.LocalDev.State.{ProtectSession}
use anyauth.LocalDev.Http.{as_text, fields, Response, json_error}

pub record Identity : Type 0 where
  pub actor_type : String
  pub human_sub : String
  pub human_name : String
  pub human_email : String
  pub agent_id : String
  pub agent_name : String
  pub delegation_id : String
  pub token_id : String
  pub task_id : String
  pub task_name : String
  pub scopes : List String

-- strings.EqualFold, jose.VerifyRS256JWT under the server's key, the hexadecimal SHA-256, fmt.Sprintf of a
-- number, strings.ToUpper and strings.ToLower, and the texts of two packages' errors.
pub record ProxyLibrary : Type 0 where
  pub equal_fold : String → String → Bool
  pub verify : String → Result String Claims
  pub digest : String → String
  pub decimal : ℕ → String
  pub to_upper : String → String
  pub to_lower : String → String
  pub token_message : TokenError → String
  pub policy_message : Error Invalid → String

-- What the proxy reads of a request: the method, the URI and its path, the Authorization header ("" for
-- none) and the proxy's cookie.
pub record ProxyRequest : Type 0 where
  pub method : String
  pub uri : String
  pub path : String
  pub authorization : String
  pub cookie : Option String

-- The files of the data directory that the proxy uses.
pub record Files : Type 0 where
  pub delegations : Content Delegation
  pub agents : Content Agent
  pub rules : Content Rule
  pub audit : Log.Disk

-- What comes of a request: an answer, or that it is passed to the upstream for an identity.
pub data Outcome : Type 0 where
  respond : Response → Outcome
  unauthorized : String → Outcome
  forward : Identity → Outcome

pub data Bearer : Type 0 where
  absent malformed : Bearer
  bearer : String → Bearer

abbrev pub bearer_of : (String → String → Bool) → List String → Bearer
bearer_of equal_fold (scheme ∷ token ∷ []) =
    if equal_fold scheme "Bearer" && not (token == "") then bearer token else malformed
bearer_of equal_fold _ = malformed

-- bearerToken
unfoldable pub bearer_token : (String → String → Bool) → String → Bearer
bearer_token equal_fold authorization =
    let auth = trim_space authorization in
    if auth == "" then absent else bearer_of equal_fold (fields auth)

unfoldable pub identity_from_session : ProtectSession → Identity
identity_from_session session = record {
  actor_type = "human";
  human_sub = as_text (claim session.claims "sub");
  human_name = as_text (claim session.claims "name");
  human_email = as_text (claim session.claims "email");
  agent_id = "";
  agent_name = "";
  delegation_id = "";
  token_id = "";
  task_id = "";
  task_name = "";
  scopes = [];
}

-- The identity that delegatedIdentity returns for a valid token.
unfoldable pub identity_of : Context → Identity
identity_of c = record {
  actor_type = "agent";
  human_sub = c.delegation.human_sub;
  human_name = c.delegation.human_name;
  human_email = c.delegation.human_email;
  agent_id = c.delegation.agent_id;
  agent_name = c.delegation.agent_name;
  delegation_id = c.delegation.id;
  token_id = c.delegation.token_id;
  task_id = c.delegation.task_id;
  task_name = c.delegation.task_name;
  scopes = c.scopes;
}

-- The event of auditProxyAllow and auditPolicyDeny.
abbrev pub identity_event :
    (type decision audience : String) → ProxyRequest → Identity → Decision → Event
identity_event type decision audience r id d = record no_event {
  type = type;
  decision = decision;
  actor_type = id.actor_type;
  human_sub = id.human_sub;
  agent_id = id.agent_id;
  delegation_id = id.delegation_id;
  token_id = id.token_id;
  task_id = id.task_id;
  task_name = id.task_name;
  audience = audience;
  scopes = id.scopes;
  resource = r.uri;
  reason = d.reason;
}

abbrev pub audit_proxy_allow : String → ProxyRequest → Identity → Decision → Event
audit_proxy_allow audience r id d = identity_event "proxy.allow" "allow" audience r id d

abbrev pub audit_policy_deny : String → ProxyRequest → Identity → Decision → Event
audit_policy_deny audience r id d = identity_event "proxy.deny" "deny" audience r id d

abbrev pub audit_proxy_deny : String → ProxyRequest → String → Event
audit_proxy_deny audience r cause = record no_event {
  type = "proxy.deny";
  decision = "deny";
  actor_type = "agent";
  audience = audience;
  resource = r.uri;
  reason = cause;
}

-- appendAudit: a failure is only logged.
unfoldable pub append_audit : ℕ → Option String → Event → Log.Disk → Log.Disk
append_audit clock random e d = (Log.append clock random e d).1

-- AudienceForProtectPort
abbrev pub audience_for_protect_port : (ℕ → String) → ℕ → String
audience_for_protect_port decimal port = String.◌++◌ "anyauth-protect-" (decimal port)

abbrev pub malformed_authorization : String
malformed_authorization = "Authorization header must be Bearer <token>"

abbrev pub delegation_required : String
delegation_required = "delegation bearer token is required"

-- What a proxied request was decided on, for the audit log: a refusal, or the identity and the decision
-- of the policy.
pub data Verdict : Type 0 where
  refused : String → Verdict
  policy_error : String → Verdict
  decided : Identity → Decision → Verdict

abbrev pub outcome_of : Verdict → Outcome
outcome_of (refused e) = unauthorized e
outcome_of (policy_error e) = respond (json_error 500 "policy_error" e)
outcome_of (decided id d) =
    if not d.allowed then respond (json_error 403 "access_denied" d.reason) else forward id

abbrev pub event_of : String → ProxyRequest → Verdict → Event
event_of audience r (refused e) = audit_proxy_deny audience r e
event_of audience r (policy_error e) = audit_proxy_deny audience r e
event_of audience r (decided id d) =
    if not d.allowed then audit_policy_deny audience r id d else audit_proxy_allow audience r id d
