-- ===== src/LocalDev/Evaluation.antt =====
-- internal/localdev/authorization.go: the evaluation endpoint. The header X-Request-ID, which is sent
-- back, is left out; the texts of errors that are passed on inside others are parameters.
use anyauth.Base.{
  ℕ, String, Bool, true, not, ◌||◌, Option, none, some, List, ◌==◌, if◌then◌else◌, reject, Result,
  ok, err, diverged, ◌>>=◌, ◌>>◌, check,
}
use anyauth.AgentRegistry.Agents
use anyauth.AgentRegistry.Agents.{Agent, find}
use anyauth.Authz.Model.{Request, equal, identity_human, identity_agent}
use anyauth.Authz.Grants.{Grant}
use anyauth.Authz.Evaluate.{Decision}
use anyauth.Authz.Service.{Authorizer, CheckError, check_request}
use anyauth.AuthzStore.Types
use anyauth.AuthzStore.Store.{list_grants, validate_evaluation}
use anyauth.AuditLog.Events.{Event, no_event}
use anyauth.AuditLog.Events
use anyauth.AuditLog.Log
use anyauth.LocalDev.State.{App}
use anyauth.LocalDev.Replies.{
  Data, Decoded, agents_error, store_error, check_error, message, Reply, evaluation,
  invalid_request, server_error, method_not_allowed, random_prefixed_id, or_reply, decoded_or,
}

-- The event of RecordDecision.
abbrev pub decision_event : Request → Decision → Event
decision_event r d = record no_event {
  type = "authorization.decision";
  decision = if d.allowed then "allow" else "deny";
  decision_id = d.decision_id;
  actor_type = r.actor.type;
  human_sub = r.subject.id;
  agent_id = r.actor.id;
  application_id = r.application_id;
  action = r.action.name;
  resource_type = r.resource.type;
  resource = r.resource.id;
  task_id = r.context.task_id;
  grant_ids = d.grant_ids;
  reason = d.reason;
}

-- `!ok || agent.Disabled`
abbrev pub is_inactive : Option Agent → Bool
is_inactive none = true
is_inactive (some agent) = agent.disabled

module _ (store_message : Types.Error → String) (audit_message : Events.Error → String) where
  abbrev pub error_text : {A : Type 0} → Result Events.Error A → Option String
  error_text (ok x) = none
  error_text (err e) = some (audit_message e)
  error_text diverged = some "diverged"

  abbrev pub with_message : Result Types.Error (List Grant) → Result String (List Grant)
  with_message (ok grants) = ok grants
  with_message (err e) = err (store_message e)
  with_message diverged = diverged

  -- RecordDecision of authzAuditRecorder
  unfoldable pub record_decision :
      ℕ → Option String → Request → Decision → Data → Option String × Data
  record_decision clock random r d data_ =
      let appended = Log.append clock random (decision_event r d) data_.audit in
      (error_text appended.0, record data_ { audit = appended.1 })

  -- The Authorizer of a request, over the data files; `clock` and `event_random` go into the event.
  unfoldable pub authorizer : ℕ → ℕ → (id_random event_random : Option String) → Authorizer Data
  authorizer now clock id_random event_random = record {
    list_grants = λ data_. with_message (list_grants data_.authorization);
    record_decision = record_decision clock event_random;
    now = λ data_. now;
    new_id = λ data_. (random_prefixed_id "dec" id_random, data_);
  }

  -- The checks before the Authorizer is asked.
  unfoldable pub check_evaluation : App → String → Decoded Request → Data → Result Reply Request
  check_evaluation a method body data_ = do
    check (reject (not (method == "POST")) method_not_allowed)
    r ← decoded_or body
    check (
        reject (not (equal r.subject (record { type = identity_human; id = a.profile.sub })))
          (invalid_request (message "subject must be the local AnyAuth user")))
    agents ← or_reply (λ e. server_error (agents_error e)) (Agents.load data_.agents)
    check (
        reject (not (r.actor.type == identity_agent) || is_inactive (find agents r.actor.id))
          (invalid_request (message "actor must be a registered active agent")))
    or_reply (λ e. invalid_request (store_error e)) (validate_evaluation r data_.authorization)
    ok r

  abbrev pub evaluated : Result CheckError Decision × Data → Option Reply × Data
  evaluated (ok d, data_) = (some (evaluation d), data_)
  evaluated (err e, data_) = (some (server_error (check_error e)), data_)
  evaluated (diverged, data_) = (none, data_)

  abbrev pub continue_evaluation :
      ℕ
      → ℕ
      → (id_random event_random : Option String) → Result Reply Request
      → Data
      → Option Reply × Data
  continue_evaluation now clock id_random event_random (err r) data_ = (some r, data_)
  continue_evaluation now clock id_random event_random diverged data_ = (none, data_)
  continue_evaluation now clock id_random event_random (ok r) data_ =
      evaluated (check_request (authorizer now clock id_random event_random) r data_)

  -- accessEvaluation; NewAuthorizer is given all its parts.
  unfoldable pub access_evaluation :
      App
      → ℕ
      → ℕ
      → (id_random event_random : Option String) → String
      → Decoded Request
      → Data
      → Option Reply × Data
  access_evaluation a now clock id_random event_random method body data_ =
      continue_evaluation now clock id_random event_random (check_evaluation a method body data_)
        data_
