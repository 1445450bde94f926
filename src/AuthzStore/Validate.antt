-- ===== src/AuthzStore/Validate.antt =====
-- internal/authzstore/store.go: the validators of applications, requests and the whole file.
use anyauth.Base.{
  ℕ, ◌+◌, ◌*◌, String, Bool, true, false, not, ◌&&◌, ◌||◌, Option, none, some, List, [], ◌∷◌, ◌==◌,
  ltb, eqb, if◌then◌else◌, trim_space, contains_any, contains, reject, first_error, first_error_of,
  wrap, is_empty, is_some, Result, ok, err, diverged, ◌>>◌, check,
}
use anyauth.Authz.Model
use anyauth.Authz.Model.{
  Identity, equal, Permission, validate_identity, validate_permission, validate_action,
  identity_agent, identity_workload, identity_human,
}
use anyauth.Authz.Grants.{Grant}
use anyauth.Authz.GrantSet.{find_grant, validate_grants}
use anyauth.AuthzStore.Types.{
  Application, AuthorizationRequest, RequestStatus, unsupported, is_pending, is_approved, is_denied,
  is_expired, File, Error, authz, required, has_whitespace, application_name_required, no_actions,
  no_resource_types, application_created_at_required, actor_not_agent, subject_not_human,
  ttl_out_of_range, unsupported_status, invalid_window, pending_with_decision, decided_without_time,
  decided_after_expiry, expired_before_expiry, approved_without_grant, grant_without_approval,
  unsupported_version, duplicate_application, duplicate_request, missing_application, missing_grant,
  undeclared_action, undeclared_resource_type, in_request, in_grant, not_exact, lifetime_differs,
  unapproved_root,
}

-- An instant some seconds after another: `t.Add(time.Duration(n) * time.Second)`.
abbrev pub add_seconds : ℕ → ℕ → ℕ
add_seconds t n = t + n * 1000000000

unfoldable pub validate_token : String → String → Option Error
validate_token name value = first_error (
    reject (value == "") (required name)
    ∷ reject (not (trim_space value == value) || contains_any value " \t\r\n") (has_whitespace name)
    ∷ [])

-- `err` of a validator of internal/authz, as an error of this package.
abbrev pub from_authz : (Model.Error → Error) → Option Model.Error → Option Error
from_authz f none = none
from_authz f (some e) = some (f e)

unfoldable pub validate_application : Application → Option Error
validate_application a = first_error (
    validate_token "application id" a.id
    ∷ reject (a.name == "") application_name_required
    ∷ reject (is_empty a.actions) no_actions
    ∷ first_error_of (λ name. from_authz authz (validate_action (record { name = name }))) a.actions
    ∷ reject (is_empty a.resource_types) no_resource_types
    ∷ first_error_of (validate_token "resource type") a.resource_types
    ∷ reject (eqb a.created_at 0) application_created_at_required
    ∷ [])

abbrev is_unsupported : RequestStatus → Bool
is_unsupported (unsupported s) = true
is_unsupported _ = false

-- The checks of a decision time against the expiry.
abbrev validate_decided_at : RequestStatus → ℕ → Option ℕ → Option Error
validate_decided_at status expires_at none = none
validate_decided_at status expires_at (some at) = first_error (
    reject ((is_approved status || is_denied status) && not (ltb at expires_at))
      decided_after_expiry
    ∷ reject (is_expired status && ltb at expires_at) expired_before_expiry
    ∷ [])

unfoldable pub validate_request : AuthorizationRequest → Option Error
validate_request r = first_error (
    validate_token "authorization request id" r.id
    ∷ from_authz Error.actor (validate_identity r.actor)
    ∷ reject (not (r.actor.type == identity_agent) && not (r.actor.type == identity_workload))
        actor_not_agent
    ∷ from_authz Error.subject (validate_identity r.subject)
    ∷ reject (not (r.subject.type == identity_human)) subject_not_human
    ∷ validate_token "application id" r.application_id
    ∷ from_authz authz (validate_permission r.permission)
    ∷ (if r.task_id == "" then none else validate_token "task id" r.task_id)
    ∷ reject (ltb r.requested_ttl_seconds 60 || ltb 86400 r.requested_ttl_seconds) ttl_out_of_range
    ∷ reject (is_unsupported r.status) unsupported_status
    ∷ reject (eqb r.created_at 0 || eqb r.expires_at 0 || not (ltb r.created_at r.expires_at))
        invalid_window
    ∷ reject (is_pending r.status && (is_some r.decided_at || not (r.grant_id == "")))
        pending_with_decision
    ∷ reject (not (is_pending r.status) && not (is_some r.decided_at)) decided_without_time
    ∷ validate_decided_at r.status r.expires_at r.decided_at
    ∷ reject (is_approved r.status && r.grant_id == "") approved_without_grant
    ∷ reject (not (is_approved r.status) && not (r.grant_id == "")) grant_without_approval
    ∷ [])

-- The loop over the applications of validateFile.
unfoldable pub validate_applications : List String → List Application → Option Error
validate_applications seen [] = none
validate_applications seen (a ∷ apps) = first_error (
    validate_application a
    ∷ reject (contains seen a.id) (duplicate_application a.id)
    ∷ validate_applications (a.id ∷ seen) apps
    ∷ [])

unfoldable pub find_application : List Application → String → Option Application
find_application [] id = none
find_application (a ∷ apps) id = if a.id == id then some a else find_application apps id

unfoldable pub validate_permission_against_application : Permission → Application → Option Error
validate_permission_against_application p a = first_error (
    reject (not (contains a.actions p.action)) (undeclared_action a.id p.action)
    ∷ reject (not (contains a.resource_types p.resource.type))
        (undeclared_resource_type a.id p.resource.type)
    ∷ [])

abbrev against_application : AuthorizationRequest → Option Application → Option Error
against_application r none = some (missing_application r.id r.application_id)
against_application r (some a) =
    wrap (in_request r.id) (validate_permission_against_application r.permission a)

-- The first loop over the requests.
unfoldable pub validate_requests :
    List Application → List String → List AuthorizationRequest → Option Error
validate_requests apps seen [] = none
validate_requests apps seen (r ∷ rs) = first_error (
    validate_request r
    ∷ reject (contains seen r.id) (duplicate_request r.id)
    ∷ against_application r (find_application apps r.application_id)
    ∷ validate_requests apps (r.id ∷ seen) rs
    ∷ [])

abbrev grant_against_application : Grant → Option Application → Option Error
grant_against_application g none = some (missing_application g.id g.application_id)
grant_against_application g (some a) =
    first_error_of (λ p. wrap (in_grant g.id) (validate_permission_against_application p a))
      g.permissions

-- The body of the first loop over the grants.
unfoldable pub validate_grant_application : List Application → Grant → Option Error
validate_grant_application apps g =
    grant_against_application g (find_application apps g.application_id)

unfoldable pub same_permission : Permission → Permission → Bool
same_permission l r =
    l.action == r.action && l.resource.type == r.resource.type && l.resource.id == r.resource.id

abbrev pub is_only : List Permission → Permission → Bool
is_only (p ∷ []) q = same_permission p q
is_only _ q = false

-- Does the grant represent the request exactly?
unfoldable pub represents : Grant → AuthorizationRequest → Bool
unfolding same_permission
represents g r =
    is_only g.permissions r.permission
    && equal g.subject r.subject
    && equal g.grantee r.actor
    && g.application_id == r.application_id
    && g.task_id == r.task_id

abbrev pub lifetime_of : Grant → ℕ → Option ℕ → Bool
lifetime_of g ttl none = false
lifetime_of g ttl (some at) = eqb g.created_at at && eqb g.expires_at (add_seconds at ttl)

abbrev against_grant : AuthorizationRequest → Option Grant → Option Error
against_grant r none = some (missing_grant r.id r.grant_id)
against_grant r (some g) = first_error (
    reject (not (represents g r)) (not_exact g.id r.id)
    ∷ reject (not (lifetime_of g r.requested_ttl_seconds r.decided_at)) (lifetime_differs g.id r.id)
    ∷ [])

-- The body of the second loop over the requests.
unfoldable pub validate_approval : List Grant → AuthorizationRequest → Option Error
validate_approval gs r =
    if not (is_approved r.status) then none else against_grant r (find_grant gs r.grant_id)

-- The map approvedRootGrants: the grants of the approved requests.
unfoldable pub approved_root_grants : List AuthorizationRequest → List String
approved_root_grants [] = []
approved_root_grants (r ∷ rs) =
    let rest = approved_root_grants rs in if is_approved r.status then r.grant_id ∷ rest else rest

-- The body of the last loop over the grants.
unfoldable pub validate_root : List String → Grant → Option Error
validate_root approved g =
    reject (g.parent_grant_id == "" && not (contains approved g.id)) (unapproved_root g.id)

-- `if err := authz.ValidateGrants(...); err != nil { return err }`
abbrev grants_step : Result Model.Error (Unit {0}) → Result Error (Unit {0})
grants_step (ok u) = ok tt
grants_step (err e) = err (authz e)
grants_step diverged = diverged

unfoldable pub validate_file : File → Result Error (Unit {0})
validate_file f = do
  check (reject (not (eqb f.version 1)) (unsupported_version f.version))
  check (validate_applications [] f.applications)
  check (validate_requests f.applications [] f.requests)
  grants_step (validate_grants f.grants)
  check (first_error_of (validate_grant_application f.applications) f.grants)
  check (first_error_of (validate_approval f.grants) f.requests)
  check (first_error_of (validate_root (approved_root_grants f.requests)) f.grants)
