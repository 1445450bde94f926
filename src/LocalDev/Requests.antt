-- ===== src/LocalDev/Requests.antt =====
-- internal/localdev/authorization.go: the endpoints at which agents ask for authorizations, and the page of
-- the pending ones. An int64 is its two's complement, below 2 ^ 64.
use Prim.Native.Nat.{◌%◌, ◌^◌}
use Prim.Native.String
use anyauth.Base.{
  ℕ, ◌+◌, ◌*◌, ◌/◌, String, Bool, not, ◌&&◌, ◌||◌, Option, none, some, List, [], ◌∷◌, ◌==◌, ltb,
  eqb, if◌then◌else◌, reject, Result, ok, err, diverged, ◌>>=◌, ◌>>◌, check, trim_space,
}
use anyauth.AgentRegistry.Agents
use anyauth.AgentRegistry.Agents.{Agent, find}
use anyauth.Authz.Model.{identity_human, identity_agent}
use anyauth.AuthzStore.Types
use anyauth.AuthzStore.Types.{AuthorizationRequest, RequestStatus, is_pending, status_at}
use anyauth.AuthzStore.Store.{load_unlocked, create_request}
use anyauth.AuditLog.Events.{Event, no_event}
use anyauth.AuditLog.Log
use anyauth.LocalDev.State.{App}
use anyauth.LocalDev.Replies.{
  Data, Decoded, agents_error, store_error, message, Reply, http_error, created, approvals_page,
  invalid_request, server_error, method_not_allowed, random_prefixed_id, or_reply, decoded_or,
}

pub record CreateInput : Type 0 where
  pub agent_id : String
  pub application_id : String
  pub action : String
  pub resource_type : String
  pub resource_id : String
  pub task_id : String
  pub task_name : String
  pub ttl_seconds : ℕ

unfoldable pub trim_input : CreateInput → CreateInput
trim_input i = record i {
  agent_id = trim_space i.agent_id;
  application_id = trim_space i.application_id;
  action = trim_space i.action;
  resource_type = trim_space i.resource_type;
  resource_id = trim_space i.resource_id;
  task_id = trim_space i.task_id;
  task_name = trim_space i.task_name;
}

-- time.Second, time.Minute, and the bounds, in nanoseconds.
abbrev pub second : ℕ
second = 1000000000

abbrev pub minute : ℕ
minute = 60000000000

abbrev pub default_authorization_ttl : ℕ
default_authorization_ttl = 1800000000000

abbrev pub max_authorization_ttl : ℕ
max_authorization_ttl = 86400000000000

abbrev pub request_approval_window : ℕ
request_approval_window = 900000000000

-- `time.Duration(input.TTLSeconds) * time.Second`, with its wrap-around, and the default.
unfoldable pub ttl_of : ℕ → ℕ
ttl_of ttl_seconds =
    let ttl = (ttl_seconds * second) % 2 ^ 64 in
    if eqb ttl 0 then default_authorization_ttl else ttl

-- `ttl < time.Minute || ttl > maxAuthorizationTTL`; a negative one is 2 ^ 63 or more.
unfoldable pub is_bad_ttl : ℕ → Bool
is_bad_ttl ttl = not (ltb ttl (2 ^ 63)) || ltb ttl minute || ltb max_authorization_ttl ttl

abbrev pub active_agent : Option Agent → Result Reply Agent
active_agent none = err (invalid_request (message "registered active agent is required"))
active_agent (some agent) =
    if agent.disabled
    then err (invalid_request (message "registered active agent is required"))
    else ok agent

-- The task's ID: a new one for a task that has only a name.
unfoldable pub task_id_of : CreateInput → Option String → Result String String
task_id_of i random =
    if i.task_id == "" && not (i.task_name == "")
    then random_prefixed_id "task" random
    else ok i.task_id

-- The AuthorizationRequest that is given to CreateRequest.
abbrev pub new_request : App → ℕ → String → Agent → CreateInput → String → ℕ → AuthorizationRequest
new_request a now id agent i task_id ttl = record {
  id = id;
  actor = record { type = identity_agent; id = agent.id };
  subject = record { type = identity_human; id = a.profile.sub };
  application_id = i.application_id;
  permission = record {
    action = i.action;
    resource = record { type = i.resource_type; id = i.resource_id };
  };
  task_id = task_id;
  task_name = i.task_name;
  requested_ttl_seconds = ttl / second;
  status = RequestStatus.pending;
  created_at = now;
  expires_at = now + request_approval_window;
  decided_at = none;
  grant_id = "";
}

-- authorizationRequests up to the check of the TTL: the input, trimmed, the agent and the TTL.
unfoldable pub check_input :
    String → Decoded CreateInput → Data → Result Reply (CreateInput × Agent × ℕ)
check_input method body data_ = do
  check (reject (not (method == "POST")) method_not_allowed)
  input ← decoded_or body
  let i = trim_input input
  agents ← or_reply (λ e. server_error (agents_error e)) (Agents.load data_.agents)
  agent ← active_agent (find agents i.agent_id)
  let ttl = ttl_of i.ttl_seconds
  check (
      reject (is_bad_ttl ttl)
        (invalid_request (message "ttl must be between 1 minute and 24 hours")))
  ok (i, agent, ttl)

-- From there up to the call of CreateRequest.
unfoldable pub name_request :
    App
    → ℕ
    → (id_random task_random : Option String) → CreateInput
    → Agent
    → ℕ
    → Result Reply AuthorizationRequest
name_request a now id_random task_random i agent ttl = do
  id ← or_reply (λ e. server_error (message e)) (random_prefixed_id "req" id_random)
  task_id ← or_reply (λ e. server_error (message e)) (task_id_of i task_random)
  ok (new_request a now id agent i task_id ttl)

unfoldable pub check_create :
    App
    → ℕ
    → (id_random task_random : Option String) → String
    → Decoded CreateInput
    → Data
    → Result Reply AuthorizationRequest
check_create a now id_random task_random method body data_ =
    check_input method body data_ >>= λ (p : CreateInput × Agent × ℕ).
    name_request a now id_random task_random p.0 p.1 p.2

-- The event of a request.
abbrev pub request_event : (type decision actor_type : String) → AuthorizationRequest → Event
request_event type decision actor_type r = record no_event {
  type = type;
  decision = decision;
  actor_type = actor_type;
  human_sub = r.subject.id;
  agent_id = r.actor.id;
  application_id = r.application_id;
  action = r.permission.action;
  resource_type = r.permission.resource.type;
  resource = r.permission.resource.id;
  task_id = r.task_id;
  task_name = r.task_name;
}

abbrev pub finish_create :
    App
    → ℕ
    → Option String
    → Data
    → Result Types.Error AuthorizationRequest × Types.Disk
    → Option Reply × Data
finish_create a clock random data_ (err e, d) =
    (some (invalid_request (store_error e)), record data_ { authorization = d })
finish_create a clock random data_ (diverged, d) = (none, record data_ { authorization = d })
finish_create a clock random data_ (ok r, d) = (
  some (created r (String.◌++◌ a.issuer "/approvals")),
  record data_ {
    authorization = d;
    audit =
        (Log.append clock random (request_event "authorization.request" "pending" r.actor.type r)
          data_.audit).1;
  },
)

abbrev pub continue_create :
    App → ℕ → Option String → Result Reply AuthorizationRequest → Data → Option Reply × Data
continue_create a clock random (err r) data_ = (some r, data_)
continue_create a clock random diverged data_ = (none, data_)
continue_create a clock random (ok r) data_ =
    finish_create a clock random data_ (create_request r data_.authorization)

unfoldable pub authorization_requests :
    App
    → ℕ
    → ℕ
    → (id_random task_random event_random : Option String) → String
    → Decoded CreateInput
    → Data
    → Option Reply × Data
authorization_requests a now clock id_random task_random event_random method body data_ =
    continue_create a clock event_random
      (check_create a now id_random task_random method body data_) data_

-- The requests that the page lists.
unfoldable pub pending_requests : ℕ → List AuthorizationRequest → List AuthorizationRequest
pending_requests now [] = []
pending_requests now (r ∷ rs) =
    let others = pending_requests now rs in
    if is_pending (status_at r now) then r ∷ others else others

abbrev pub approvals_of : ℕ → Result Types.Error Types.File → Option Reply
approvals_of now (ok state) = some (approvals_page (pending_requests now state.requests))
approvals_of now (err e) = some (http_error 500 (store_error e))
approvals_of now diverged = none

unfoldable pub approvals : ℕ → String → Data → Option Reply
approvals now method data_ =
    if not (method == "GET")
    then some method_not_allowed
    else approvals_of now (load_unlocked data_.authorization.content)
