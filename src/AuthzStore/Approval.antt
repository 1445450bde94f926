-- ===== src/AuthzStore/Approval.antt =====
-- Where grants come from: what validateFile of internal/authzstore/store.go says of root grants.
use anyauth.Base.{
  ℕ, String, ◌≡◌, refl, sym, ap, ◌∙◌, inl, inr, true, Option, none, some, List, [], ◌∷◌, ◌==◌,
  Bool-cases, Option-cases, arith, contains, ok, eq_iff, first_error_of, Result-cases, ◌&&◌,
}
use anyauth.Authz.Model.{Permission}
use anyauth.Authz.Grants.{Grant}
use anyauth.Authz.GrantSet.{find_grant, validate_grants, validate_grant_set}
use anyauth.Authz.Sets.{
  IsIn, IsIn-same_id, All-IsIn, validate_grant_set-IsGrantSet, first_error_of-eq-none,
}
use anyauth.Authz.Active.{equal_iff}
use anyauth.AuthzStore.Types.{RequestStatus, approved, AuthorizationRequest, is_approved, File}
use anyauth.AuthzStore.Validate.{
  add_seconds, represents, is_only, lifetime_of, same_permission, validate_approval,
  approved_root_grants, validate_root, validate_file,
}
use anyauth.AuthzStore.History.{IsListed, All-IsListed}

-- A request that was approved and whose grant this is: with exactly its permission, parties, application
-- and task, made when it was decided, for the time that it asked for.
pub record Approves (r : AuthorizationRequest) (g : Grant) : Type 0 where
  pub status : r.status ≡ approved
  pub grant_id : r.grant_id ≡ g.id
  pub permissions : g.permissions ≡ r.permission ∷ []
  pub subject : g.subject ≡ r.subject
  pub grantee : g.grantee ≡ r.actor
  pub application : g.application_id ≡ r.application_id
  pub task : g.task_id ≡ r.task_id
  pub decided : r.decided_at ≡ some g.created_at
  pub lifetime : g.expires_at ≡ add_seconds g.created_at r.requested_ttl_seconds

same_permission_lem : (p q : Permission) → same_permission p q ≡ true → p ≡ q
unfolding same_permission
same_permission_lem p q h = ground (
  arith,
  eq_iff p.action q.action,
  eq_iff p.resource.type q.resource.type,
  eq_iff p.resource.id q.resource.id,
)

pub find_grant-IsIn :
    (gs : List Grant) (id : String) (p : Grant)
    → find_grant gs id ≡ some p
    → IsIn p gs × (p.id ≡ id)
unfolding find_grant
find_grant-IsIn [] id p h = cc
find_grant-IsIn (g ∷ gs) id p h = ground (arith, find_grant-IsIn gs id p, eq_iff g.id id)

approved_request :
    (rs : List AuthorizationRequest) (id : String)
    → contains (approved_root_grants rs) id ≡ true
    → (r : AuthorizationRequest) × IsListed r rs × (is_approved r.status ≡ true) × (r.grant_id ≡ id)
unfolding approved_root_grants
approved_request [] id h = cc
approved_request (r ∷ rs) id h = elim (Bool-cases (is_approved r.status && r.grant_id == id)) [
  | inl here ↦ (r, inl refl, ground arith, ground (arith, eq_iff r.grant_id id))
  | inr later ↦
      let (q, listed, fine, named) = approved_request rs id (ground arith) in
      (q, inr listed, fine, named)
]

is_approved_lem : (s : RequestStatus) → is_approved s ≡ true → s ≡ approved
is_approved_lem approved h = refl
is_approved_lem _ h = cc

is_only_lem : (ps : List Permission) (q : Permission) → is_only ps q ≡ true → ps ≡ q ∷ []
is_only_lem [] q h = cc
is_only_lem (p ∷ []) q h = ap (λ x. x ∷ []) (same_permission_lem p q h)
is_only_lem (p ∷ p' ∷ ps) q h = cc

lifetime_of_lem :
    (g : Grant) (ttl : ℕ) (o : Option ℕ)
    → lifetime_of g ttl o ≡ true
    → (o ≡ some g.created_at) × (g.expires_at ≡ add_seconds g.created_at ttl)
lifetime_of_lem g ttl none h = cc
lifetime_of_lem g ttl (some at) h = ground arith

represents_lem :
    (g : Grant) (r : AuthorizationRequest)
    → represents g r ≡ true
    → (g.permissions ≡ r.permission ∷ [])
      × (g.subject ≡ r.subject)
      × (g.grantee ≡ r.actor)
      × (g.application_id ≡ r.application_id)
      × (g.task_id ≡ r.task_id)
unfolding represents
represents_lem g r h = ground (
  arith,
  is_only_lem g.permissions r.permission,
  equal_iff g.subject r.subject,
  equal_iff g.grantee r.actor,
  eq_iff g.application_id r.application_id,
  eq_iff g.task_id r.task_id,
)

validate_approval-Approves :
    (gs : List Grant) (r : AuthorizationRequest)
    → validate_approval gs r ≡ none
    → is_approved r.status ≡ true
    → (g : Grant) × (find_grant gs r.grant_id ≡ some g) × Approves r g
unfolding validate_approval
validate_approval-Approves gs r h a = elim (Option-cases (find_grant gs r.grant_id)) [
  | inl missing ↦ absurd (ground arith)
  | inr (g, found) ↦
      let (only, s, a', i, t) = represents_lem g r (ground arith) in
      let (at, until) = lifetime_of_lem g r.requested_ttl_seconds r.decided_at (ground arith) in
      let (there, named) = find_grant-IsIn gs r.grant_id g found in
      (
        g,
        found,
        record {
          status = is_approved_lem r.status a;
          grant_id = sym named;
          permissions = only;
          subject = s;
          grantee = a';
          application = i;
          task = t;
          decided = at;
          lifetime = until;
        },
      )
]

-- The checks of validateFile that concern the root grants.
pub validate_file_parts :
    (f : File)
    → validate_file f ≡ ok tt
    → (m : List Grant) × (validate_grant_set f.grants ≡ ok m)
      × (first_error_of (validate_approval f.grants) f.requests ≡ none)
      × (first_error_of (validate_root (approved_root_grants f.requests)) f.grants ≡ none)
unfolding validate_file validate_grants
validate_file_parts f h = elim (Result-cases (validate_grant_set f.grants)) [
  | inl (m, fine) ↦ (m, fine, ground arith, ground arith)
  | inr other ↦ absurd (ground arith)
]

validate_root-contains :
    (approved_ids : List String) (g : Grant)
    → validate_root approved_ids g ≡ none
    → g.parent_grant_id ≡ ""
    → contains approved_ids g.id ≡ true
unfolding validate_root
validate_root-contains approved_ids g h e = ground (arith, eq_iff g.parent_grant_id "")

-- No authority without approval: in a file that validateFile accepts, every root grant is the grant
-- of an approved request of the file, and has exactly what that request asked for.
pub validate_file-Approves :
    (f : File) (g : Grant)
    → validate_file f ≡ ok tt
    → IsIn g f.grants
    → g.parent_grant_id ≡ ""
    → (r : AuthorizationRequest) × IsListed r f.requests × Approves r g
validate_file-Approves f g h there top =
    let (m, set_ok, approvals, roots) = validate_file_parts f h in
    let set = validate_grant_set-IsGrantSet f.grants m set_ok in
    let rooted =
      validate_root-contains _ g
        (All-IsIn _ f.grants g (first_error_of-eq-none _ f.grants roots) there) top in
    let (r, listed, fine, named) = approved_request f.requests g.id rooted in
    let (g₁, found, approves) =
      validate_approval-Approves f.grants r
        (All-IsListed _ r f.requests (first_error_of-eq-none _ f.requests approvals) listed) fine in
    let (there₁, named₁) = find_grant-IsIn f.grants r.grant_id g₁ found in
    let same = IsIn-same_id g₁ g set there₁ there (named₁ ∙ named) in
    (r, listed, rw same at approves)
