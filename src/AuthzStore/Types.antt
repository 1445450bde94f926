-- ===== src/AuthzStore/Types.antt =====
-- internal/authzstore/store.go: the types. A status is a text in the source; here it is one of the
-- four that validateRequest supports, or another. A negative version or TTL, which the validators
-- refuse, is left out.
use anyauth.Base.{ℕ, String, Bool, true, false, not, ◌&&◌, Option, List, ltb, if◌then◌else◌}
use anyauth.Authz.Model
use anyauth.Authz.Model.{Identity, Permission}
use anyauth.Authz.Grants.{Grant}

pub record Application : Type 0 where
  pub id : String
  pub name : String
  pub actions : List String
  pub resource_types : List String
  pub created_at : ℕ

pub data RequestStatus : Type 0 where
  pending approved denied expired : RequestStatus
  unsupported : String → RequestStatus

pub record AuthorizationRequest : Type 0 where
  pub id : String
  pub actor : Identity
  pub subject : Identity
  pub application_id : String
  pub permission : Permission
  pub task_id : String
  pub task_name : String
  pub requested_ttl_seconds : ℕ
  pub status : RequestStatus
  pub created_at : ℕ
  pub expires_at : ℕ
  pub decided_at : Option ℕ
  pub grant_id : String

abbrev pub is_pending : RequestStatus → Bool
is_pending pending = true
is_pending _ = false

abbrev pub is_approved : RequestStatus → Bool
is_approved approved = true
is_approved _ = false

abbrev pub is_denied : RequestStatus → Bool
is_denied denied = true
is_denied _ = false

abbrev pub is_expired : RequestStatus → Bool
is_expired expired = true
is_expired _ = false

-- AuthorizationRequest.StatusAt
unfoldable pub status_at : AuthorizationRequest → ℕ → RequestStatus
status_at r now = if is_pending r.status && not (ltb now r.expires_at) then expired else r.status

pub record File : Type 0 where
  pub version : ℕ
  pub applications : List Application
  pub requests : List AuthorizationRequest
  pub grants : List Grant

-- The errors of the package; `authz` wraps an error of internal/authz.
pub data Error : Type 0 where
  authz : Model.Error → Error
  required has_whitespace : String → Error
  application_name_required no_actions no_resource_types application_created_at_required : Error
  actor_not_agent subject_not_human ttl_out_of_range unsupported_status invalid_window : Error
  pending_with_decision decided_without_time decided_after_expiry expired_before_expiry : Error
  approved_without_grant grant_without_approval : Error
  actor subject : Model.Error → Error
  unsupported_version : ℕ → Error
  duplicate_application duplicate_request application_exists request_exists grant_exists :
      String → Error
  application_not_found request_not_found grant_not_found : String → Error
  missing_application missing_grant : String → String → Error
  undeclared_action undeclared_resource_type : String → String → Error
  in_request in_grant : String → Error → Error
  not_exact lifetime_differs : String → String → Error
  unapproved_root : String → Error
  decision_time_required revocation_time_required grant_id_required : Error
  not_pending : String → RequestStatus → Error
  now_expired : AuthorizationRequest → Error
  already_revoked : String → Error
  unreadable_file unwritable_file : Error

-- What stands at the path of the file: nothing, something that cannot be read or decoded, or a
-- file; and whether a new one can be written there.
pub data Content : Type 0 where
  absent unreadable : Content
  stored : File → Content

pub record Disk : Type 0 where
  pub content : Content
  pub writable : Bool
