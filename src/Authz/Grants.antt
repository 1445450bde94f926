-- ===== src/Authz/Grants.antt =====
-- internal/authz/model.go: grants, when they are valid, and when one may be derived from another.
-- An instant is the number of nanoseconds since Go's zero time, so `IsZero` is a test for 0; the
-- location of a time.Time plays no part in the comparisons and is left out.
use Prim.Native.String
use anyauth.Base.{
  ℕ, String, Bool, false, not, ◌&&◌, Option, none, some, List, [], ◌∷◌, ◌==◌, ltb, eqb,
  if◌then◌else◌, reject, first_error, wrap, contains, any, is_empty,
}
use anyauth.Authz.Model.{
  Error, duplicate_permission, exceeds_parent, no_permissions, root_issuer_not_subject,
  no_created_at, no_not_before, no_expires_at, not_before_precedes_created, expires_not_after_start,
  revoked_precedes_created, not_the_parent, subject_differs, issuer_not_grantee,
  application_differs, starts_before_parent, created_before_parent, outlives_parent, task_differs,
  parent_grant, child_grant, validate_token, Identity, equal, validate_identity, Permission,
  validate_permission, contains_permission,
}

pub record Grant : Type 0 where
  pub id : String
  pub subject : Identity
  pub issuer : Identity
  pub grantee : Identity
  pub application_id : String
  pub permissions : List Permission
  pub task_id : String
  pub not_before : ℕ
  pub expires_at : ℕ
  pub revoked_at : Option ℕ
  pub parent_grant_id : String
  pub created_at : ℕ

-- The key of the `seen` map of Grant.Validate.
unfoldable pub permission_key : Permission → String
permission_key p =
    String.◌++◌ p.action
      (String.◌++◌ "\0" (String.◌++◌ p.resource.type (String.◌++◌ "\0" p.resource.id)))

-- The loop over the permissions of Grant.Validate.
unfoldable pub validate_permissions : List String → List Permission → Option Error
validate_permissions seen [] = none
validate_permissions seen (p ∷ ps) = first_error (
    validate_permission p
    ∷ reject (contains seen (permission_key p)) (duplicate_permission p.action)
    ∷ validate_permissions (permission_key p ∷ seen) ps
    ∷ [])

abbrev pub before_option : Option ℕ → ℕ → Bool
before_option none t = false
before_option (some r) t = ltb r t

unfoldable pub validate_grant : Grant → Option Error
validate_grant g = first_error (
    validate_token "grant id" g.id
    ∷ wrap Error.subject (validate_identity g.subject)
    ∷ wrap Error.issuer (validate_identity g.issuer)
    ∷ wrap Error.grantee (validate_identity g.grantee)
    ∷ validate_token "application id" g.application_id
    ∷ reject (is_empty g.permissions) no_permissions
    ∷ validate_permissions [] g.permissions
    ∷ (if g.task_id == "" then none else validate_token "task id" g.task_id)
    ∷ (if g.parent_grant_id == ""
        then reject (not (equal g.subject g.issuer)) root_issuer_not_subject
        else validate_token "parent grant id" g.parent_grant_id)
    ∷ reject (eqb g.created_at 0) no_created_at
    ∷ reject (eqb g.not_before 0) no_not_before
    ∷ reject (eqb g.expires_at 0) no_expires_at
    ∷ reject (ltb g.not_before g.created_at) not_before_precedes_created
    ∷ reject (not (ltb g.not_before g.expires_at)) expires_not_after_start
    ∷ reject (before_option g.revoked_at g.created_at) revoked_precedes_created
    ∷ [])

-- The inner loop of ValidateDerivedGrant: does some permission of the parent contain the child's?
unfoldable pub is_contained : List Permission → Permission → Bool
is_contained parents child = any (λ p. contains_permission p child) parents

-- The outer loop.
unfoldable pub validate_contained : List Permission → List Permission → Option Error
unfolding is_contained
validate_contained parents [] = none
validate_contained parents (child ∷ children) = first_error (
    reject (not (is_contained parents child)) (exceeds_parent child.action)
    ∷ validate_contained parents children
    ∷ [])

unfoldable pub validate_derived_grant : Grant → Grant → Option Error
validate_derived_grant child parent = first_error (
    wrap parent_grant (validate_grant parent)
    ∷ wrap child_grant (validate_grant child)
    ∷ reject (not (child.parent_grant_id == parent.id)) not_the_parent
    ∷ reject (not (equal child.subject parent.subject)) subject_differs
    ∷ reject (not (equal child.issuer parent.grantee)) issuer_not_grantee
    ∷ reject (not (child.application_id == parent.application_id)) application_differs
    ∷ reject (ltb child.not_before parent.not_before) starts_before_parent
    ∷ reject (ltb child.created_at parent.created_at) created_before_parent
    ∷ reject (ltb parent.expires_at child.expires_at) outlives_parent
    ∷ reject (not (parent.task_id == "") && not (child.task_id == parent.task_id)) task_differs
    ∷ validate_contained parent.permissions child.permissions
    ∷ [])
