-- ===== src/AuthzStore/Examples.antt =====
-- A file with one application: a request is created, approved and its grant revoked; the theorems
-- at these runs.
use anyauth.Base.{
  ◌≡◌, refl, inl, true, none, some, [], ◌∷◌, arith, insert, sort, text_less, trim_space,
  contains_any, collect, ok, is_ok,
}
use anyauth.Authz.Model.{
  validate_token, validate_resource_id, Identity, equal, validate_identity, validate_action,
  validate_selector, validate_permission, contains_selector, contains_permission, Request,
}
use anyauth.Authz.Grants.{
  Grant, permission_key, validate_permissions, validate_grant, is_contained, validate_contained,
  validate_derived_grant,
}
use anyauth.Authz.GrantSet.{
  find_grant, get_grant, index_grants, check_parent, ancestry, check_ancestry, validate_grant_set,
  validate_grants,
}
use anyauth.Authz.Active.{Authorizes}
use anyauth.Authz.Attenuation.{itself}
use anyauth.AuthzStore.Types.{
  Application, approved, pending, AuthorizationRequest, File, stored, Disk,
}
use anyauth.AuthzStore.Normalize.{
  normalize_tokens, normalize_application, normalize_request, application_less, request_less,
  grant_less, normalize_file,
}
use anyauth.AuthzStore.Validate
use anyauth.AuthzStore.Validate.{
  validate_application, validate_request, validate_applications, find_application,
  validate_permission_against_application, validate_requests, validate_grant_application,
  same_permission, represents, validate_approval, approved_root_grants, validate_root,
  validate_file,
}
use anyauth.AuthzStore.Store.{
  default_version, load_unlocked, write_file, save_unlocked, plan_application, add_application,
  plan_create, create_request, find_request, set_request, approval_grant, plan_approval, plan_found,
  plan_decision, decide_request, set_grant, plan_revocation, plan_revoke, revoke_grant, list_grants,
}
use anyauth.AuthzStore.Saving.{load_unlocked-save_unlocked, Operation, deciding, run, run-loads}
use anyauth.AuthzStore.History.{IsListed, Keeps, run-Keeps}
use anyauth.AuthzStore.Approval.{Approves, validate_file-Approves}
use anyauth.AuthzStore.Decision.{Approvable, Fulfils, decide_request-Approves}
use anyauth.Authz.Sets.{IsIn}
use anyauth.AuthzStore.Revocation.{revoke_grant-not-Authorizes}

program : Unit {0}
unfolding trim_space contains_any insert sort text_less collect validate_token validate_resource_id
    equal validate_identity validate_action validate_selector validate_permission contains_selector
    contains_permission permission_key validate_permissions validate_grant is_contained
    validate_contained validate_derived_grant find_grant get_grant index_grants check_parent
    ancestry check_ancestry validate_grant_set validate_grants normalize_tokens
    normalize_application normalize_request application_less request_less grant_less normalize_file
    Validate.validate_token validate_application validate_request validate_applications
    find_application validate_permission_against_application validate_requests
    validate_grant_application same_permission represents validate_approval approved_root_grants
    validate_root validate_file default_version load_unlocked write_file save_unlocked
    plan_application add_application plan_create create_request find_request set_request
    approval_grant plan_approval plan_found plan_decision decide_request set_grant plan_revocation
    plan_revoke revoke_grant list_grants run
program = tt

abbrev alice : Identity
alice = record { type = "human"; id = "alice" }

abbrev agent : Identity
agent = record { type = "agent"; id = "planner" }

abbrev docs : Application
docs = record {
  id = "docs";
  name = "Documents";
  actions = "read" ∷ [];
  resource_types = "doc" ∷ [];
  created_at = 5;
}

abbrev asked : AuthorizationRequest
asked = record {
  id = "r1";
  actor = agent;
  subject = alice;
  application_id = "docs";
  permission = record { action = "read"; resource = record { type = "doc"; id = "7" } };
  task_id = "";
  task_name = "";
  requested_ttl_seconds = 60;
  status = pending;
  created_at = 10;
  expires_at = 100;
  decided_at = none;
  grant_id = "";
}

abbrev decided : AuthorizationRequest
decided = record asked { status = approved; decided_at = some 20; grant_id = "g1" }

abbrev given : Grant
given = record {
  id = "g1";
  subject = alice;
  issuer = alice;
  grantee = agent;
  application_id = "docs";
  permissions = (record { action = "read"; resource = record { type = "doc"; id = "7" } }) ∷ [];
  task_id = "";
  not_before = 20;
  expires_at = 60000000020;
  revoked_at = none;
  parent_grant_id = "";
  created_at = 20;
}

abbrev before_file : File
before_file = record { version = 1; applications = docs ∷ []; requests = asked ∷ []; grants = [] }

abbrev after_file : File
after_file = record {
  version = 1;
  applications = docs ∷ [];
  requests = decided ∷ [];
  grants = given ∷ [];
}

abbrev before_disk : Disk
before_disk = record { content = stored before_file; writable = true }

abbrev after_disk : Disk
after_disk = record { content = stored after_file; writable = true }

abbrev withdrawn : Grant
withdrawn = record given { revoked_at = some 40 }

abbrev last_disk : Disk
last_disk = record {
  content = stored (record after_file { grants = withdrawn ∷ [] });
  writable = true;
}

abbrev ask : Request
ask = record {
  actor = agent;
  subject = alice;
  application_id = "docs";
  action = record { name = "read" };
  resource = record { type = "doc"; id = "7" };
  context = record { task_id = "" };
}

decides : decide_request "r1" true "g1" 20 before_disk ≡ (ok (decided, some given), after_disk)
unfolding program
decides = refl

after_file_valid : validate_file after_file ≡ ok tt
unfolding program
after_file_valid = refl

after_file_loads : load_unlocked after_disk.content ≡ ok after_file
unfolding program
after_file_loads = refl

saves : save_unlocked after_file before_disk ≡ (ok tt, after_disk)
unfolding program
saves = refl

revokes : revoke_grant "g1" 40 after_disk ≡ (ok withdrawn, last_disk)
unfolding program
revokes = refl

lists : list_grants last_disk ≡ ok (withdrawn ∷ [])
unfolding program
lists = refl

load_unlocked-save_unlocked_example :
    load_unlocked after_disk.content ≡ ok (normalize_file (default_version after_file))
load_unlocked-save_unlocked_example =
    load_unlocked-save_unlocked after_file before_disk after_disk saves

run-loads_example :
    is_ok (load_unlocked (run (deciding "r1" true "g1" 20) before_disk).content)
    ≡ is_ok (load_unlocked before_disk.content)
run-loads_example = run-loads (deciding "r1" true "g1" 20) before_disk

run-Keeps_example :
    (f' : File) × (load_unlocked (run (Operation.revoking "g1" 40) after_disk).content ≡ ok f')
    × Keeps after_file f'
run-Keeps_example = run-Keeps (Operation.revoking "g1" 40) after_disk after_file after_file_loads

validate_file-Approves_example :
    (r : AuthorizationRequest) × IsListed r after_file.requests × Approves r given
validate_file-Approves_example =
    validate_file-Approves after_file given after_file_valid (inl refl) refl

revoke_grant-not-Authorizes_example : ¬ Authorizes (withdrawn ∷ []) ask 50 withdrawn
revoke_grant-not-Authorizes_example =
    revoke_grant-not-Authorizes "g1" 40 50 after_disk last_disk withdrawn (withdrawn ∷ []) ask
      withdrawn withdrawn revokes lists (inl refl) refl itself (omega arith)

decide_request-Approves_example :
    ((f : File) × (r : AuthorizationRequest) × (load_unlocked before_disk.content ≡ ok f)
      × Approvable "r1" "g1" 20 f r
      × Fulfils r 20 decided given
      × (given.id ≡ "g1"))
    × ((f' : File) × (load_unlocked after_disk.content ≡ ok f') × IsIn given f'.grants)
decide_request-Approves_example =
    decide_request-Approves "r1" "g1" true 20 before_disk after_disk decided given decides
