-- ===== src/Authz/Model.antt =====
-- internal/authz/model.go: identities, resources, permissions and requests, with their validators.
-- `Authz.Grants` has the grants.
use anyauth.Base.{
  String, Bool, not, ◌&&◌, ◌||◌, Option, none, [], ◌∷◌, ◌==◌, if◌then◌else◌, trim_space,
  contains_any, reject, first_error, wrap,
}

-- The errors of the package; a `%w` wrapper is a constructor over an error.
pub data Error : Type 0 where
  required has_whitespace : String → Error
  unsupported_identity_type duplicate_permission exceeds_parent : String → Error
  duplicate_grant ancestry_cycle : String → Error
  missing_parent : String → String → Error
  resource_id_required resource_id_invalid resource_not_concrete : Error
  no_permissions root_issuer_not_subject : Error
  no_created_at no_not_before no_expires_at : Error
  not_before_precedes_created expires_not_after_start revoked_precedes_created : Error
  not_the_parent subject_differs issuer_not_grantee application_differs : Error
  starts_before_parent created_before_parent outlives_parent task_differs : Error
  no_evaluation_time no_decision_id : Error
  actor subject issuer grantee parent_grant child_grant request : Error → Error
  in_grant : String → Error → Error

abbrev pub identity_human : String
identity_human = "human"

abbrev pub identity_agent : String
identity_agent = "agent"

abbrev pub identity_workload : String
identity_workload = "workload"

abbrev pub all_resources : String
all_resources = "*"

unfoldable pub validate_token : String → String → Option Error
validate_token name value = first_error (
    reject (value == "") (required name)
    ∷ reject (not (trim_space value == value) || contains_any value " \t\r\n") (has_whitespace name)
    ∷ [])

unfoldable pub validate_resource_id : String → Option Error
validate_resource_id value = first_error (
    reject (value == "") resource_id_required
    ∷ reject (not (trim_space value == value) || contains_any value "\r\n\0") resource_id_invalid
    ∷ [])

pub record Identity : Type 0 where
  pub type : String
  pub id : String

-- Identity.Equal
unfoldable pub equal : Identity → Identity → Bool
equal i other = i.type == other.type && i.id == other.id

unfoldable pub validate_identity : Identity → Option Error
unfolding validate_token
validate_identity i = first_error (
    reject
      (not (i.type == identity_human || i.type == identity_agent || i.type == identity_workload))
      (unsupported_identity_type i.type)
    ∷ validate_token "identity id" i.id
    ∷ [])

pub record Action : Type 0 where
  pub name : String

unfoldable pub validate_action : Action → Option Error
validate_action a = validate_token "action name" a.name

pub record Resource : Type 0 where
  pub type : String
  pub id : String

unfoldable pub validate_resource : Resource → Option Error
validate_resource r = first_error (
    validate_token "resource type" r.type
    ∷ validate_resource_id r.id
    ∷ reject (r.id == all_resources) resource_not_concrete
    ∷ [])

pub record ResourceSelector : Type 0 where
  pub type : String
  pub id : String

unfoldable pub validate_selector : ResourceSelector → Option Error
validate_selector r =
    first_error (validate_token "resource selector type" r.type ∷ validate_resource_id r.id ∷ [])

-- ResourceSelector.Contains
unfoldable pub contains_resource : ResourceSelector → Resource → Bool
contains_resource r resource =
    r.type == resource.type && (r.id == all_resources || r.id == resource.id)

-- ResourceSelector.ContainsSelector
unfoldable pub contains_selector : ResourceSelector → ResourceSelector → Bool
contains_selector r child = r.type == child.type && (r.id == all_resources || r.id == child.id)

pub record Permission : Type 0 where
  pub action : String
  pub resource : ResourceSelector

unfoldable pub validate_permission : Permission → Option Error
validate_permission p =
    first_error (validate_token "permission action" p.action ∷ validate_selector p.resource ∷ [])

-- Permission.Contains
unfoldable pub permits : Permission → Action → Resource → Bool
unfolding contains_resource
permits p action resource = p.action == action.name && contains_resource p.resource resource

-- Permission.ContainsPermission
unfoldable pub contains_permission : Permission → Permission → Bool
unfolding contains_selector
contains_permission p child =
    p.action == child.action && contains_selector p.resource child.resource

pub record RequestContext : Type 0 where
  pub task_id : String

unfoldable pub validate_context : RequestContext → Option Error
validate_context c = if c.task_id == "" then none else validate_token "task id" c.task_id

pub record Request : Type 0 where
  pub actor : Identity
  pub subject : Identity
  pub application_id : String
  pub action : Action
  pub resource : Resource
  pub context : RequestContext

unfoldable pub validate_request : Request → Option Error
validate_request r = first_error (
    wrap Error.actor (validate_identity r.actor)
    ∷ wrap Error.subject (validate_identity r.subject)
    ∷ validate_token "application id" r.application_id
    ∷ validate_action r.action
    ∷ validate_resource r.resource
    ∷ validate_context r.context
    ∷ [])
