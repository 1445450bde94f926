-- ===== src/AuthzStore/Decision.antt =====
-- What an approval by DecideRequest (internal/authzstore/store.go) does.
use anyauth.Base.{
  ℕ, ◌<◌, String, ◌≡◌, refl, inl, inr, Bool, true, none, some, List, [], ◌∷◌, ◌++◌, Option-cases,
  arith, ok, Result-cases,
}
use anyauth.Authz.Grants.{Grant}
use anyauth.Authz.GrantSet.{find_grant}
use anyauth.Authz.Sets.{IsIn}
use anyauth.AuthzStore.Types.{approved, AuthorizationRequest, is_pending, File, Disk}
use anyauth.AuthzStore.Normalize.{normalize_file}
use anyauth.AuthzStore.Store.{
  default_version, load_unlocked, find_request, approval_grant, with_decision, plan_approval,
  plan_found, plan_decision, decide_request,
}
use anyauth.AuthzStore.Validate.{add_seconds}
use anyauth.AuthzStore.Saving.{commit-eq-ok, load_unlocked-save_unlocked}
use anyauth.AuthzStore.History.{saved-Keeps}
use anyauth.AuthzStore.Approval.{Approves}

IsIn-last : (gs : List Grant) (g : Grant) → IsIn g (gs ++ g ∷ [])
IsIn-last [] g = inl refl
IsIn-last (x ∷ gs) g = inr (IsIn-last gs g)

-- What an approval needs of the file: a pending request that has not expired, and a new grant ID.
pub record Approvable (id grant_id : String) (now : ℕ) (f : File) (r : AuthorizationRequest)
    : Type 0 where
  pub stored : find_request f.requests id ≡ some r
  pub pending : is_pending r.status ≡ true
  pub in_time : now < r.expires_at
  pub fresh : find_grant f.grants grant_id ≡ none

-- A grant with exactly what a stored request asked for, made now, and that request approved with it and
-- otherwise as it was.
pub record Fulfils (r : AuthorizationRequest) (now : ℕ) (r' : AuthorizationRequest) (g : Grant)
    : Type 0 where
  pub approves : Approves r' g
  pub request : r' ≡ record r { status = approved; decided_at = some now; grant_id = g.id }
  pub subject : g.subject ≡ r.subject
  pub issuer : g.issuer ≡ r.subject
  pub grantee : g.grantee ≡ r.actor
  pub application : g.application_id ≡ r.application_id
  pub permissions : g.permissions ≡ r.permission ∷ []
  pub task : g.task_id ≡ r.task_id
  pub starts : g.not_before ≡ now
  pub ends : g.expires_at ≡ add_seconds now r.requested_ttl_seconds
  pub created : g.created_at ≡ now
  pub unrevoked : g.revoked_at ≡ none
  pub root : g.parent_grant_id ≡ ""

approval_grant-Fulfils :
    (r : AuthorizationRequest) (grant_id : String) (now : ℕ)
    → Fulfils r now
        (record (with_decision r approved now) { grant_id = grant_id })
        (approval_grant r grant_id now)
unfolding approval_grant
approval_grant-Fulfils r grant_id now = record {
  approves = record {
    status = refl;
    grant_id = refl;
    permissions = refl;
    subject = refl;
    grantee = refl;
    application = refl;
    task = refl;
    decided = refl;
    lifetime = refl;
  };
  request = refl;
  subject = refl;
  issuer = refl;
  grantee = refl;
  application = refl;
  permissions = refl;
  task = refl;
  starts = refl;
  ends = refl;
  created = refl;
  unrevoked = refl;
  root = refl;
}

plan_approval_lem :
    (id grant_id : String) (approve : Bool) (now : ℕ) (f f' : File) (r r' : AuthorizationRequest)
    (g : Grant)
    → plan_found id approve grant_id now f (some r) ≡ ok (f', ok (r', some g))
    → (is_pending r.status ≡ true)
      × (now < r.expires_at)
      × (find_grant f.grants grant_id ≡ none)
      × (g ≡ approval_grant r grant_id now)
      × (r' ≡ record (with_decision r approved now) { grant_id = grant_id })
      × (f'.grants ≡ f.grants ++ g ∷ [])
unfolding plan_found plan_approval
plan_approval_lem id grant_id approve now f f' r r' g h =
    elim (Option-cases (find_grant f.grants grant_id)) [
      | inr (old, there) ↦ absurd (ground arith)
      | inl missing ↦
          (ground arith, ground arith, missing, ground arith, ground arith, ground arith)
    ]

-- An approval that returns a grant was of a stored request that was pending, before its expiry and
-- under a new grant ID; the grant has exactly what that request asked for, made now for the time asked
-- for; the request returned is the stored one, approved with this grant; and the grant is in the file
-- that is loaded from then on.
pub decide_request-Approves :
    (id grant_id : String) (approve : Bool) (now : ℕ) (d d' : Disk) (r' : AuthorizationRequest)
    (g : Grant)
    → decide_request id approve grant_id now d ≡ (ok (r', some g), d')
    → ((f : File) × (r : AuthorizationRequest) × (load_unlocked d.content ≡ ok f)
        × Approvable id grant_id now f r
        × Fulfils r now r' g
        × (g.id ≡ grant_id))
      × ((f' : File) × (load_unlocked d'.content ≡ ok f') × IsIn g f'.grants)
unfolding decide_request plan_decision approval_grant
decide_request-Approves id grant_id approve now d d' r' g h =
    let (f', planned, saved) =
      commit-eq-ok d d' (plan_decision id approve grant_id now d.content) (r', some g) h in
    elim (Result-cases (load_unlocked d.content)) [
      | inr other ↦ absurd (ground arith)
      | inl (f, loaded) ↦ elim (Option-cases (find_request f.requests id)) [
        | inl missing ↦ absurd (unfold plan_found in (ground arith))
        | inr (r, there) ↦
            let (open_, early, fresh, made, changed, written) =
              plan_approval_lem id grant_id approve now f f' r r' g (ground arith) in
            rw (made, changed)
              (
                (
                  f,
                  r,
                  loaded,
                  record { stored = there; pending = open_; in_time = early; fresh = fresh },
                  approval_grant-Fulfils r grant_id now,
                  refl,
                ),
                (
                  normalize_file (default_version f'),
                  load_unlocked-save_unlocked f' d d' saved,
                  saved-Keeps f' _
                      (rw (written, made) (IsIn-last f.grants (approval_grant r grant_id now))),
                ),
              )
      ]
    ]
