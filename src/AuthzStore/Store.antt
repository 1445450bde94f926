-- ===== src/AuthzStore/Store.antt =====
-- internal/authzstore/store.go: the operations of the Store. Each holds the mutex from its start to
-- its end, so it is a function from the disk to its result and the disk that it leaves. The file is
-- decoded as it was encoded, and a failed write leaves the old file, which os.Rename replaces.
-- DecideRequest and RevokeGrant return the element that they changed in place; saving sorts that
-- list in place too, which moves nothing, since loading has sorted it by keys that stay.
use anyauth.Base.{
  ℕ, String, Bool, not, Option, none, some, List, [], ◌∷◌, ◌++◌, ◌==◌, ltb, eqb, if◌then◌else◌, any,
  contains, reject, is_some, Result, ok, err, diverged, ◌>>=◌, ◌>>◌, check,
}
use anyauth.Authz.Model
use anyauth.Authz.Grants.{Grant, validate_grant}
use anyauth.Authz.GrantSet.{find_grant}
use anyauth.AuthzStore.Types.{
  Application, RequestStatus, approved, denied, expired, AuthorizationRequest, is_pending, File,
  Error, authz, application_exists, request_exists, grant_exists, application_not_found,
  request_not_found, grant_not_found, undeclared_action, undeclared_resource_type,
  decision_time_required, revocation_time_required, grant_id_required, not_pending, now_expired,
  already_revoked, unreadable_file, unwritable_file, Content, absent, unreadable, stored, Disk,
}
use anyauth.AuthzStore.Normalize.{normalize_file, normalize_application, normalize_request}
use anyauth.AuthzStore.Validate.{
  add_seconds, validate_application, validate_request, find_application, validate_file, from_authz,
}

unfoldable pub default_version : File → File
default_version f = if eqb f.version 0 then record f { version = 1 } else f

abbrev pub empty_file : File
empty_file = record { version = 1; applications = []; requests = []; grants = [] }

-- loadUnlocked
unfoldable pub load_unlocked : Content → Result Error File
load_unlocked absent = ok empty_file
load_unlocked unreadable = err unreadable_file
load_unlocked (stored f) =
    let state = normalize_file (default_version f) in validate_file state >>= λ u. ok state

-- The end of saveUnlocked: an invalid state is not written.
unfoldable pub write_file : Result Error (Unit {0}) → File → Disk → Result Error (Unit {0}) × Disk
write_file (err e) state d = (err e, d)
write_file diverged state d = (diverged, d)
write_file (ok u) state d =
    if d.writable then (ok tt, record d { content = stored state }) else (err unwritable_file, d)

unfoldable pub save_unlocked : File → Disk → Result Error (Unit {0}) × Disk
save_unlocked f d =
    let state = normalize_file (default_version f) in write_file (validate_file state) state d

module _ {A : Type 0} where
  abbrev pub after_save : Result Error A → Result Error (Unit {0}) × Disk → Result Error A × Disk
  after_save r (ok u, d) = (r, d)
  after_save r (err e, d) = (err e, d)
  after_save r (diverged, d) = (diverged, d)

  -- The common end of the operations: what was decided is an error, or a state to save and what to
  -- return once it is saved.
  abbrev pub commit : Disk → Result Error (File × Result Error A) → Result Error A × Disk
  commit d (ok (f, r)) = after_save r (save_unlocked f d)
  commit d (err e) = (err e, d)
  commit d diverged = (diverged, d)

abbrev stamp : ℕ → Application → Application
stamp clock a = if eqb a.created_at 0 then record a { created_at = clock } else a

-- AddApplication up to the call of saveUnlocked; `clock` is time.Now().
unfoldable pub plan_application :
    ℕ → Application → Content → Result Error (File × Result Error Application)
plan_application clock application c = do
  let a = stamp clock (normalize_application application)
  check (validate_application a)
  state ← load_unlocked c
  check (reject (any (λ old. old.id == a.id) state.applications) (application_exists a.id))
  ok (record state { applications = state.applications ++ a ∷ [] }, ok a)

unfoldable pub add_application : ℕ → Application → Disk → Result Error Application × Disk
add_application clock a d = commit d (plan_application clock a d.content)

-- The declarations that a request's action and resource type need, of the application found.
abbrev check_declared : String → String → String → Option Application → Result Error (Unit {0})
check_declared id action type none = err (application_not_found id)
check_declared id action type (some a) = do
  check (reject (not (contains a.actions action)) (undeclared_action a.id action))
  check (reject (not (contains a.resource_types type)) (undeclared_resource_type a.id type))

-- CreateRequest up to the call of saveUnlocked.
unfoldable pub plan_create :
    AuthorizationRequest → Content → Result Error (File × Result Error AuthorizationRequest)
plan_create request c = do
  let r = normalize_request request
  check (validate_request r)
  state ← load_unlocked c
  check_declared r.application_id r.permission.action r.permission.resource.type
      (find_application state.applications r.application_id)
  check (reject (any (λ old. old.id == r.id) state.requests) (request_exists r.id))
  ok (record state { requests = state.requests ++ r ∷ [] }, ok r)

unfoldable pub create_request :
    AuthorizationRequest → Disk → Result Error AuthorizationRequest × Disk
create_request r d = commit d (plan_create r d.content)

-- The first request with an ID.
unfoldable pub find_request : List AuthorizationRequest → String → Option AuthorizationRequest
find_request [] id = none
find_request (r ∷ rs) id = if r.id == id then some r else find_request rs id

-- Writes through the pointer to the first request with an ID.
unfoldable pub set_request :
    List AuthorizationRequest → String → AuthorizationRequest → List AuthorizationRequest
set_request [] id r' = []
set_request (r ∷ rs) id r' = if r.id == id then r' ∷ rs else r ∷ set_request rs id r'

-- The grant that an approval makes.
unfoldable pub approval_grant : AuthorizationRequest → String → ℕ → Grant
approval_grant r grant_id now = record {
  id = grant_id;
  subject = r.subject;
  issuer = r.subject;
  grantee = r.actor;
  application_id = r.application_id;
  permissions = r.permission ∷ [];
  task_id = r.task_id;
  not_before = now;
  expires_at = add_seconds now r.requested_ttl_seconds;
  revoked_at = none;
  parent_grant_id = "";
  created_at = now;
}

abbrev pub with_decision : AuthorizationRequest → RequestStatus → ℕ → AuthorizationRequest
with_decision r status now = record r { status = status; decided_at = some now }

module _ (id : String) (approve : Bool) (grant_id : String) (now : ℕ) where
  -- The approval of the request found.
  unfoldable pub plan_approval :
      File
      → AuthorizationRequest
      → Result Error (File × Result Error (AuthorizationRequest × Option Grant))
  plan_approval state r = do
    check (reject (grant_id == "") grant_id_required)
    let g = approval_grant r grant_id now
    check (from_authz authz (validate_grant g))
    check (reject (is_some (find_grant state.grants grant_id)) (grant_exists grant_id))
    let r' = record (with_decision r approved now) { grant_id = grant_id }
    ok (
      record state { requests = set_request state.requests id r'; grants = state.grants ++ g ∷ [] },
      ok (r', some g),
    )

  -- The body of the loop of DecideRequest, on the request found.
  unfoldable pub plan_found :
      File
      → Option AuthorizationRequest
      → Result Error (File × Result Error (AuthorizationRequest × Option Grant))
  plan_found state none = err (request_not_found id)
  plan_found state (some r) =
      let late = with_decision r expired now in
      let refused = with_decision r denied now in
      let save = λ (r' : AuthorizationRequest). record state {
        requests = set_request state.requests id r';
      } in
      if not (is_pending r.status)
      then err (not_pending id r.status)
      else if not (ltb now r.expires_at)
      then ok (save late, err (now_expired late))
      else if not approve
      then ok (save refused, ok (refused, none))
      else plan_approval state r

  -- DecideRequest up to the calls of saveUnlocked.
  unfoldable pub plan_decision :
      Content → Result Error (File × Result Error (AuthorizationRequest × Option Grant))
  plan_decision c = do
    check (reject (eqb now 0) decision_time_required)
    state ← load_unlocked c
    plan_found state (find_request state.requests id)

  unfoldable pub decide_request : Disk → Result Error (AuthorizationRequest × Option Grant) × Disk
  decide_request d = commit d (plan_decision d.content)

-- Writes to the first grant with an ID.
unfoldable pub set_grant : List Grant → String → Grant → List Grant
set_grant [] id g' = []
set_grant (g ∷ gs) id g' = if g.id == id then g' ∷ gs else g ∷ set_grant gs id g'

unfoldable pub plan_revocation :
    String → ℕ → File → Option Grant → Result Error (File × Result Error Grant)
plan_revocation id now state none = err (grant_not_found id)
plan_revocation id now state (some g) =
    let g' = record g { revoked_at = some now } in
    if is_some g.revoked_at
    then err (already_revoked id)
    else ok (record state { grants = set_grant state.grants id g' }, ok g')

-- RevokeGrant up to the call of saveUnlocked.
unfoldable pub plan_revoke : String → ℕ → Content → Result Error (File × Result Error Grant)
plan_revoke id now c = do
  check (reject (eqb now 0) revocation_time_required)
  state ← load_unlocked c
  plan_revocation id now state (find_grant state.grants id)

unfoldable pub revoke_grant : String → ℕ → Disk → Result Error Grant × Disk
revoke_grant id now d = commit d (plan_revoke id now d.content)

-- ListGrants
unfoldable pub list_grants : Disk → Result Error (List Grant)
list_grants d = load_unlocked d.content >>= λ state. ok state.grants

-- ValidateEvaluation
unfoldable pub validate_evaluation : Model.Request → Disk → Result Error (Unit {0})
validate_evaluation r d = do
  check (from_authz authz (Model.validate_request r))
  state ← load_unlocked d.content
  check_declared r.application_id r.action.name r.resource.type
      (find_application state.applications r.application_id)
