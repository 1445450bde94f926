-- ===== src/LocalDev/AgentExamples.antt =====
-- A planner asks for an authorization, the user approves it, and an application has a request
-- evaluated; the theorems at these runs.
use anyauth.Base.{
  String, ◌≡◌, ◌⊎◌, ◌↔◌, refl, true, false, Bool, Option, none, some, List, [], ◌∷◌, ok, Any,
  insert, sort, text_less, trim_space, trim_left, trim_right, is_space, contains_any, collect,
  has_prefix,
}
use anyauth.Registry.Store
use anyauth.Registry.Store.{stored}
use anyauth.AgentRegistry.Agents
use anyauth.AgentRegistry.Agents.{Agent}
use anyauth.Authz.Model.{
  validate_token, validate_resource_id, Identity, equal, validate_identity, validate_action,
  validate_resource, validate_selector, contains_resource, validate_permission, permits,
  contains_selector, contains_permission, validate_context, validate_request, Request,
}
use anyauth.Authz.Grants.{
  Grant, permission_key, validate_permissions, validate_grant, is_contained, validate_contained,
  validate_derived_grant,
}
use anyauth.Authz.GrantSet.{
  find_grant, get_grant, index_grants, check_parent, ancestry, check_ancestry, validate_grant_set,
  validate_grants, inactive_code, active_grant_chain, grant_chain_ids, matching_grant,
}
use anyauth.Authz.Active.{Authorizes}
use anyauth.Authz.Evaluate.{
  Decision, matches_request, grant_allows_permission, task_allows, visit, denial, scan, id_less,
  evaluate,
}
use anyauth.Authz.Service.{check_request}
use anyauth.AuthzStore.Types
use anyauth.AuthzStore.Types.{Application, approved, pending, AuthorizationRequest, File}
use anyauth.AuthzStore.Normalize.{
  normalize_tokens, normalize_application, normalize_request, application_less, request_less,
  grant_less, normalize_file,
}
use anyauth.AuthzStore.Validate
use anyauth.AuthzStore.Validate.{
  validate_application, validate_applications, find_application,
  validate_permission_against_application, validate_requests, validate_grant_application,
  same_permission, represents, validate_approval, approved_root_grants, validate_root,
  validate_file,
}
use anyauth.AuthzStore.Store.{
  default_version, load_unlocked, write_file, save_unlocked, plan_create, create_request,
  decide_request, list_grants, validate_evaluation,
}
use anyauth.AuditLog.Events
use anyauth.AuditLog.Events.{Event}
use anyauth.AuditLog.Log
use anyauth.UserStore.Profiles.{Library, default_profile}
use anyauth.ClientRegistry.Clients.{Url}
use anyauth.LocalDev.State.{App}
use anyauth.LocalDev.Http.{form}
use anyauth.LocalDev.Replies.{Data, decoded, Reply, evaluation, created}
use anyauth.LocalDev.Evaluation.{
  decision_event, record_decision, authorizer, check_evaluation, access_evaluation,
}
use anyauth.LocalDev.Requests.{
  CreateInput, trim_input, ttl_of, is_bad_ttl, task_id_of, check_input, name_request, check_create,
  authorization_requests,
}
use anyauth.LocalDev.Deciding.{ActionRequest, approval_action}
use anyauth.LocalDev.Decided.{IsAdmitted, access_evaluation-IsDecided}
use anyauth.LocalDev.Confirmed.{IsConfirmed, approval_action-IsConfirmed}
use anyauth.LocalDev.Asked.{IsBounded, authorization_requests-IsBounded}

program : Unit {0}
unfolding trim_space trim_left trim_right is_space contains_any insert sort text_less collect
    has_prefix validate_token validate_resource_id equal validate_identity validate_action
    validate_resource validate_selector contains_resource validate_permission permits
    contains_selector contains_permission validate_context validate_request permission_key
    validate_permissions validate_grant is_contained validate_contained validate_derived_grant
    find_grant get_grant index_grants check_parent ancestry check_ancestry validate_grant_set
    validate_grants inactive_code active_grant_chain grant_chain_ids matches_request
    grant_allows_permission task_allows visit denial scan id_less evaluate check_request
    normalize_tokens normalize_application normalize_request application_less request_less
    grant_less normalize_file Validate.validate_token validate_application Validate.validate_request
    validate_applications find_application validate_permission_against_application validate_requests
    validate_grant_application same_permission represents validate_approval approved_root_grants
    validate_root validate_file default_version load_unlocked write_file save_unlocked plan_create
    create_request list_grants validate_evaluation Store.validate_all Store.load Agents.validate
    Agents.normalize Agents.agent_less Agents.load Agents.find Events.validate
    Events.normalize_scopes Events.normalize Log.identify Log.stamp Log.prepare Log.append
    record_decision authorizer check_evaluation access_evaluation trim_input ttl_of is_bad_ttl
    task_id_of check_input name_request check_create authorization_requests
program = tt

abbrev planner : Agent
planner = record { id = "planner"; name = "planner"; kind = ""; created_at = 7; disabled = false }

abbrev alice : Identity
alice = record { type = "human"; id = "local-user" }

abbrev app : App
app = record {
  cfg = record {
    provider_port = 7100;
    app_a_port = 0;
    app_b_port = 0;
    protect_port = 0;
    demo_apps = false;
    protect_upstream = "";
    require_delegation = false;
  };
  issuer = "http://127.0.0.1:7100";
  clients = [];
  user = record { sub = "local-user"; name = "Local User"; email = "" };
  profile = default_profile;
}

abbrev agent : Identity
agent = record { type = "agent"; id = "planner" }

abbrev docs : Application
docs = record {
  id = "docs";
  name = "Documents";
  actions = "read" ∷ [];
  resource_types = "doc" ∷ [];
  created_at = 5;
}

abbrev asked : AuthorizationRequest
asked = record {
  id = "r1";
  actor = agent;
  subject = alice;
  application_id = "docs";
  permission = record { action = "read"; resource = record { type = "doc"; id = "7" } };
  task_id = "";
  task_name = "";
  requested_ttl_seconds = 60;
  status = pending;
  created_at = 10;
  expires_at = 100;
  decided_at = none;
  grant_id = "";
}

abbrev decided : AuthorizationRequest
decided = record asked { status = approved; decided_at = some 20; grant_id = "g1" }

abbrev given : Grant
given = record {
  id = "g1";
  subject = alice;
  issuer = alice;
  grantee = agent;
  application_id = "docs";
  permissions = (record { action = "read"; resource = record { type = "doc"; id = "7" } }) ∷ [];
  task_id = "";
  not_before = 20;
  expires_at = 60000000020;
  revoked_at = none;
  parent_grant_id = "";
  created_at = 20;
}

abbrev before_file : File
before_file = record { version = 1; applications = docs ∷ []; requests = asked ∷ []; grants = [] }

abbrev after_file : File
after_file = record {
  version = 1;
  applications = docs ∷ [];
  requests = decided ∷ [];
  grants = given ∷ [];
}

abbrev data_with : File → Data
data_with file = record {
  agents = stored (planner ∷ []);
  authorization = record { content = Types.stored file; writable = true };
  audit = record { content = Log.absent; writable = true };
}

abbrev ask : Request
ask = record {
  actor = agent;
  subject = alice;
  application_id = "docs";
  action = record { name = "read" };
  resource = record { type = "doc"; id = "7" };
  context = record { task_id = "" };
}

abbrev decision : Decision
decision = record {
  allowed = true;
  decision_id = "dec_x";
  reason_code = matching_grant;
  reason = "matched active grant g1";
  grant_ids = "g1" ∷ [];
}

abbrev evaluated : Option Reply × Data
evaluated =
    access_evaluation (λ e. "store") (λ e. "audit") app 30 31 (some "x") (some "y") "POST"
      (decoded ask) (data_with after_file)

evaluates : evaluated ≡ (some (evaluation decision), evaluated.1)
unfolding program
evaluates = refl

access_evaluation-IsDecided_example :
    (r : Request) × (decoded ask ≡ decoded r)
    × IsAdmitted (λ e. "store") (λ e. "audit") app r (data_with after_file)
    × ((grants : List Grant) × (list_grants (data_with after_file).authorization ≡ ok grants)
        × ((decision.allowed ≡ true) ↔ Any (Authorizes grants r 30) grants))
    × ((e : Event) × (Log.append 31
            (some "y")
            (decision_event r decision)
            (data_with after_file).audit
          ≡ (ok e, evaluated.1.audit)))
access_evaluation-IsDecided_example =
    access_evaluation-IsDecided (λ e. "store") (λ e. "audit") app 30 31 (some "x") (some "y") "POST"
      (decoded ask) (data_with after_file) evaluated.1 decision evaluates

abbrev lib : Library
lib = record {
  bytes_of = λ s. [];
  encode = λ bs. "";
  decode = λ s. none;
  hmac_sha256 = λ key m. [];
}

abbrev parse : String → Option Url
parse s = none

abbrev approving : ActionRequest
approving = record {
  method = "POST";
  path = "/approvals/r1/approve";
  origin = "http://127.0.0.1:7100";
  referer = "";
  body = form [];
}

abbrev approve_r1 : Option Reply × Data
approve_r1 =
    approval_action lib parse app 20 21 (some "x") (some "y") approving (data_with before_file)

approval_action-IsConfirmed_example :
    (approve_r1.1.authorization ≡ (data_with before_file).authorization)
    ⊎ ((id : String) × (approve : Bool) × (grant_id : String) × IsConfirmed lib parse app approving
          id approve
        × (approve_r1.1.authorization
            ≡ (decide_request id approve grant_id 20 (data_with before_file).authorization).1))
approval_action-IsConfirmed_example =
    approval_action-IsConfirmed lib parse app 20 21 (some "x") (some "y") approving
      (data_with before_file)

-- The number of seconds is 2 ^ 64 / 10 ^ 9 and a little more: the product wraps around to just above a minute.
abbrev input : CreateInput
input = record {
  agent_id = "planner";
  application_id = "docs";
  action = "read";
  resource_type = "doc";
  resource_id = " 8";
  task_id = "";
  task_name = "";
  ttl_seconds = 18446744134;
}

abbrev creates : Option Reply × Data
creates =
    authorization_requests app 40 41 (some "x") none (some "y") "POST" (decoded input)
      (data_with before_file)

abbrev new_r : AuthorizationRequest
new_r = record {
  id = "req_x";
  actor = agent;
  subject = alice;
  application_id = "docs";
  permission = record { action = "read"; resource = record { type = "doc"; id = "8" } };
  task_id = "";
  task_name = "";
  requested_ttl_seconds = 60;
  status = pending;
  created_at = 40;
  expires_at = 900000000040;
  decided_at = none;
  grant_id = "";
}

creates_new : creates ≡ (some (created new_r "http://127.0.0.1:7100/approvals"), creates.1)
unfolding program
creates_new = refl

authorization_requests-IsBounded_example :
    (agents : List Agent) × (Agents.load (data_with before_file).agents ≡ ok agents)
    × IsBounded app 40 agents new_r
authorization_requests-IsBounded_example =
    authorization_requests-IsBounded app 40 41 (some "x") none (some "y") "POST" (decoded input)
      (data_with before_file) creates.1 new_r "http://127.0.0.1:7100/approvals" creates_new
