-- ===== src/AuthzStore/Revocation.antt =====
-- What a revocation writes (RevokeGrant of
-- internal/authzstore/store.go), and what it means for the evaluations that follow.
use anyauth.Base.{
  ℕ, ◌≤◌, String, ◌≡◌, refl, sym, ap, ◌∙◌, inl, inr, some, List, [], ◌∷◌, Option-cases,
  Result-cases, arith, ok,
}
use anyauth.Authz.Model.{Request}
use anyauth.Authz.Grants.{Grant}
use anyauth.Authz.GrantSet.{
  find_grant, validate_grants, validate_grant_set, index_grants, check_ancestry,
}
use anyauth.Authz.Sets.{IsIn, IsIn-same_id, validate_grant_set-IsGrantSet}
use anyauth.Authz.Active.{Authorizes}
use anyauth.Authz.Attenuation.{IsAncestor, revoked_ancestor-not-Authorizes}
use anyauth.AuthzStore.Types.{File, Content, absent, unreadable, stored, Disk}
use anyauth.AuthzStore.Normalize.{normalize_file}
use anyauth.AuthzStore.Validate.{validate_file, validate_applications, validate_requests}
use anyauth.AuthzStore.Store.{
  default_version, empty_file, load_unlocked, set_grant, plan_revocation, plan_revoke, revoke_grant,
  list_grants,
}
use anyauth.AuthzStore.Saving.{commit-eq-ok, load_unlocked-save_unlocked}
use anyauth.AuthzStore.History.{saved-Keeps}
use anyauth.AuthzStore.Approval.{validate_file_parts, find_grant-IsIn}

IsIn-set_grant_self :
    (gs : List Grant) (id : String) (p g : Grant)
    → find_grant gs id ≡ some p
    → IsIn g (set_grant gs id g)
unfolding find_grant set_grant
IsIn-set_grant_self [] id p g h = cc
IsIn-set_grant_self (x ∷ gs) id p g h = ground (arith, IsIn-set_grant_self gs id p g)

-- What RevokeGrant decides to save and to return.
plan_revoke-writes :
    (id : String) (now : ℕ) (c : Content) (f' : File) (g : Grant)
    → plan_revoke id now c ≡ ok (f', ok g)
    → IsIn g f'.grants × (g.id ≡ id) × (g.revoked_at ≡ some now)
unfolding plan_revoke plan_revocation
plan_revoke-writes id now c f' g h = elim (Result-cases (load_unlocked c)) [
  | inr other ↦ absurd (ground arith)
  | inl (f, loaded) ↦ elim (Option-cases (find_grant f.grants id)) [
    | inl missing ↦ absurd (ground arith)
    | inr (p, found) ↦
        let made : g ≡ record p { revoked_at = some now } = ground arith in
        let written : f'.grants ≡ set_grant f.grants id g = ground arith in
        (
          rw written (IsIn-set_grant_self f.grants id p g found),
          ap (λ (x : Grant). x.id) made ∙ (find_grant-IsIn f.grants id p found).1,
          ap (λ (x : Grant). x.revoked_at) made,
        )
  ]
]

empty_file_valid : validate_file empty_file ≡ ok tt
unfolding validate_file validate_applications validate_requests validate_grants validate_grant_set
    index_grants check_ancestry
empty_file_valid = refl

-- A file that loads is valid.
pub load_unlocked-valid :
    (c : Content) (f : File) → load_unlocked c ≡ ok f → validate_file f ≡ ok tt
unfolding load_unlocked
load_unlocked-valid absent f h = elim (Result-cases (validate_file empty_file)) [
  | inl (u, fine) ↦ ground arith
  | inr other ↦ absurd (ground (arith, empty_file_valid))
]
load_unlocked-valid unreadable f h = cc
load_unlocked-valid (stored g) f h =
    elim (Result-cases (validate_file (normalize_file (default_version g)))) [
      | inl (u, fine) ↦ ground arith
      | inr other ↦ absurd (ground arith)
    ]

-- From the instant of a successful revocation on, in the grants that ListGrants returns, no grant
-- that is the revoked one, or is derived from it, authorizes any request.
pub revoke_grant-not-Authorizes :
    (id : String) (now t : ℕ) (d d' : Disk) (g : Grant) (gs : List Grant) (r : Request)
    (a x : Grant)
    → revoke_grant id now d ≡ (ok g, d')
    → list_grants d' ≡ ok gs
    → IsIn a gs
    → a.id ≡ id
    → IsAncestor gs a x
    → now ≤ t
    → ¬ Authorizes gs r t x
unfolding revoke_grant list_grants normalize_file
revoke_grant-not-Authorizes id now t d d' g gs r a x h listed there named up later =
    let (f, planned, saved) = commit-eq-ok d d' (plan_revoke id now d.content) g h in
    let (written, named₁, revoked) = plan_revoke-writes id now d.content f g planned in
    let loaded = load_unlocked-save_unlocked f d d' saved in
    let listing : gs ≡ (normalize_file (default_version f)).grants = ground arith in
    let (m, set_ok, approvals, roots) =
      validate_file_parts _ (load_unlocked-valid d'.content _ loaded) in
    let set = validate_grant_set-IsGrantSet _ m set_ok in
    let same : a ≡ g =
      IsIn-same_id a g set (rw (sym listing) there) (saved-Keeps f g written)
        (named ∙ sym named₁) in
    revoked_ancestor-not-Authorizes gs m r t now (rw listing set_ok) up
      (ap (λ (x : Grant). x.revoked_at) same ∙ revoked) later
