-- ===== src/AuthzStore/History.antt =====
-- What no later operation of the Store (internal/authzstore/store.go) changes: requests that have
-- been decided, and grants that have been revoked.
use mathlib.Core.List.{append-nil}
use anyauth.Base.{
  ltb, ℕ, String, ◌≡◌, ap, ◌∙◌, inl, inr, Bool, true, false, Option, some, List, [], ◌∷◌, ◌++◌, map,
  ◌==◌, Bool-cases, Option-cases, arith, Any, All, is_some, Result, ok, sort, sort-Any, sort-All,
}
use anyauth.Authz.Grants.{Grant}
use anyauth.Authz.GrantSet.{find_grant}
use anyauth.Authz.Sets.{IsIn}
use anyauth.AuthzStore.Types.{
  Application, approved, denied, expired, AuthorizationRequest, is_pending, File, Error, Content,
  absent, unreadable, stored, Disk,
}
use anyauth.AuthzStore.Normalize.{
  normalize_file, normalize_request, normalize_request_idem, request_less, grant_less,
}
use anyauth.AuthzStore.Store.{
  default_version, load_unlocked, commit, plan_application, add_application, plan_create,
  create_request, find_request, set_request, plan_approval, plan_found, plan_decision,
  decide_request, set_grant, with_decision, approval_grant, plan_revocation, plan_revoke,
  revoke_grant,
}
use anyauth.AuthzStore.Saving.{
  commit-cases, load_unlocked-save_unlocked, Operation, adding, creating, deciding, revoking, run,
}

-- Membership in a list of requests.
abbrev pub IsListed : AuthorizationRequest → List AuthorizationRequest → Type 0
IsListed r rs = Any (λ x. x ≡ r) rs

Any-append :
    {A : Type 0} (a : A) (xs ys : List A) → Any (λ x. x ≡ a) xs → Any (λ x. x ≡ a) (xs ++ ys)
Any-append a [] ys h = absurd h
Any-append a (x ∷ xs) ys (inl e) = inl e
Any-append a (x ∷ xs) ys (inr h) = inr (Any-append a xs ys h)

-- A request that is pending can be replaced, every other stays.
IsListed-set_request :
    (rs : List AuthorizationRequest) (id : String) (p r r' : AuthorizationRequest)
    → find_request rs id ≡ some p
    → is_pending p.status ≡ true
    → is_pending r.status ≡ false
    → IsListed r rs
    → IsListed r (set_request rs id r')
unfolding find_request set_request
IsListed-set_request [] id p r r' found open_ closed h = absurd h
IsListed-set_request (x ∷ rs) id p r r' found open_ closed (inl e) =
    elim (Bool-cases (x.id == id)) [
      | inl here ↦ absurd (ground arith)
      | inr there ↦ rw there (inl e)
    ]
IsListed-set_request (x ∷ rs) id p r r' found open_ closed (inr h) =
    elim (Bool-cases (x.id == id)) [
      | inl here ↦ rw here (inr h)
      | inr there ↦ rw there (inr (IsListed-set_request rs id p r r' (ground arith) open_ closed h))
    ]

IsIn-set_grant :
    (gs : List Grant) (id : String) (p g g' : Grant)
    → find_grant gs id ≡ some p
    → is_some p.revoked_at ≡ false
    → is_some g.revoked_at ≡ true
    → IsIn g gs
    → IsIn g (set_grant gs id g')
unfolding find_grant set_grant
IsIn-set_grant [] id p g g' found open_ closed h = absurd h
IsIn-set_grant (x ∷ gs) id p g g' found open_ closed (inl e) = elim (Bool-cases (x.id == id)) [
  | inl here ↦ absurd (ground arith)
  | inr there ↦ rw there (inl e)
]
IsIn-set_grant (x ∷ gs) id p g g' found open_ closed (inr h) = elim (Bool-cases (x.id == id)) [
  | inl here ↦ rw here (inr h)
  | inr there ↦ rw there (inr (IsIn-set_grant gs id p g g' (ground arith) open_ closed h))
]

-- The decided requests and the revoked grants of a file stand in another one unchanged.
pub record Keeps (f f' : File) : Type 0 where
  pub requests :
      (r : AuthorizationRequest)
      → is_pending r.status ≡ false
      → IsListed r f.requests
      → IsListed r f'.requests
  pub grants : (g : Grant) → is_some g.revoked_at ≡ true → IsIn g f.grants → IsIn g f'.grants

plan_application-Keeps :
    (clock : ℕ) (a : Application) (c : Content) (f f' : File) {r : Result Error Application}
    → load_unlocked c ≡ ok f
    → plan_application clock a c ≡ ok (f', r)
    → Keeps f f'
unfolding plan_application
plan_application-Keeps clock a c f f' l p =
    let same : (f'.requests ≡ f.requests) × (f'.grants ≡ f.grants) = ground arith in
    record { requests = λ r d h. rw same.0 h; grants = λ g d h. rw same.1 h }

plan_create-Keeps :
    (q : AuthorizationRequest) (c : Content) (f f' : File) {r : Result Error AuthorizationRequest}
    → load_unlocked c ≡ ok f
    → plan_create q c ≡ ok (f', r)
    → Keeps f f'
unfolding plan_create
plan_create-Keeps q c f f' l p =
    let same : (f'.requests ≡ f.requests ++ normalize_request q ∷ []) × (f'.grants ≡ f.grants) =
      ground arith in
    record {
      requests = λ r d h. rw same.0 (Any-append r f.requests _ h);
      grants = λ g d h. rw same.1 h;
    }

plan_revoke-Keeps :
    (id : String) (now : ℕ) (c : Content) (f f' : File) {r : Result Error Grant}
    → load_unlocked c ≡ ok f
    → plan_revoke id now c ≡ ok (f', r)
    → Keeps f f'
unfolding plan_revoke plan_revocation
plan_revoke-Keeps id now c f f' l p = elim (Option-cases (find_grant f.grants id)) [
  | inl missing ↦ absurd (ground arith)
  | inr (g, found) ↦
      let live : is_some g.revoked_at ≡ false = ground arith in
      let same : (f'.requests ≡ f.requests)
          × (f'.grants ≡ set_grant f.grants id (record g { revoked_at = some now })) =
        ground arith in
      record {
        requests = λ r d h. rw same.0 h;
        grants = λ x d h. rw same.1 (IsIn-set_grant f.grants id g x _ found live d h);
      }
]

-- What a decision writes: another version of the request found, and perhaps a grant.
plan_found-writes :
    (id : String) (approve : Bool) (grant_id : String) (now : ℕ) (f f' : File)
    (p : AuthorizationRequest) {r : Result Error (AuthorizationRequest × Option Grant)}
    → plan_found id approve grant_id now f (some p) ≡ ok (f', r)
    → (is_pending p.status ≡ true)
      × ((p' : AuthorizationRequest) × (f'.requests ≡ set_request f.requests id p'))
      × ((gs : List Grant) × (f'.grants ≡ f.grants ++ gs))
unfolding plan_found plan_approval
plan_found-writes id approve grant_id now f f' p h = elim (Bool-cases (ltb now p.expires_at)) [
  | inr late ↦ (
    ground arith,
    (with_decision p expired now, ground arith),
    ([], ground (arith, append-nil f.grants)),
  )
  | inl early ↦ elim (Bool-cases approve) [
    | inr refuse ↦ (
      ground arith,
      (with_decision p denied now, ground arith),
      ([], ground (arith, append-nil f.grants)),
    )
    | inl accept ↦ (
      ground arith,
      (record (with_decision p approved now) { grant_id = grant_id }, ground arith),
      (approval_grant p grant_id now ∷ [], ground arith),
    )
  ]
]

plan_decision-Keeps :
    (id : String) (approve : Bool) (grant_id : String) (now : ℕ) (c : Content) (f f' : File)
    {r : Result Error (AuthorizationRequest × Option Grant)}
    → load_unlocked c ≡ ok f
    → plan_decision id approve grant_id now c ≡ ok (f', r)
    → Keeps f f'
unfolding plan_decision
plan_decision-Keeps id approve grant_id now c f f' {r} l h =
    elim (Option-cases (find_request f.requests id)) [
      | inl missing ↦ absurd (unfold plan_found in (ground arith))
      | inr (p, found) ↦
          let (live, (p', written), (gs, given)) =
            plan_found-writes id approve grant_id now f f' p {r = r} (ground arith) in
          record {
            requests =
                λ x d k. rw written (IsListed-set_request f.requests id p x p' found live d k);
            grants = λ g d k. rw given (Any-append g f.grants gs k);
          }
    ]

-- Loading sorts and normalizes what a loaded file holds: it leaves each element there.
loaded_normal :
    (c : Content) (f : File)
    → load_unlocked c ≡ ok f
    → All (λ r. normalize_request r ≡ r) f.requests
unfolding load_unlocked normalize_file
loaded_normal absent f l = ground arith
loaded_normal unreadable f l = cc
loaded_normal (stored g) f l =
    let same : f.requests ≡ sort request_less (map normalize_request (default_version g).requests) =
      ground arith in
    rw same (
      (sort-All request_less (λ r. normalize_request r ≡ r) _).0
        (All-map_normal (default_version g).requests))
  where
    All-map_normal :
        (rs : List AuthorizationRequest)
        → All (λ r. normalize_request r ≡ r) (map normalize_request rs)
    All-map_normal [] = tt
    All-map_normal (r ∷ rs) = (normalize_request_idem r, All-map_normal rs)

IsListed-map :
    (r : AuthorizationRequest) (rs : List AuthorizationRequest)
    → normalize_request r ≡ r
    → IsListed r rs
    → IsListed r (map normalize_request rs)
IsListed-map r [] n h = absurd h
IsListed-map r (x ∷ rs) n (inl e) = inl (ap normalize_request e ∙ n)
IsListed-map r (x ∷ rs) n (inr h) = inr (IsListed-map r rs n h)

pub All-IsListed :
    (P : AuthorizationRequest → Type 0) (r : AuthorizationRequest) (rs : List AuthorizationRequest)
    → All P rs
    → IsListed r rs
    → P r
All-IsListed P r [] k h = absurd h
All-IsListed P r (x ∷ rs) (p, k) (inl e) = rw e at p
All-IsListed P r (x ∷ rs) (p, k) (inr h) = All-IsListed P r rs k h

default_version-lists :
    (f : File)
    → ((default_version f).requests ≡ f.requests) × ((default_version f).grants ≡ f.grants)
unfolding default_version
default_version-lists f = ground arith

pub saved-Keeps :
    (f : File) → (g : Grant) → IsIn g f.grants → IsIn g (normalize_file (default_version f)).grants
unfolding normalize_file
saved-Keeps f g h = (sort-Any grant_less (λ x. x ≡ g) _).0 (rw (default_version-lists f).1 h)

saved-Keeps_request :
    (f : File) (r : AuthorizationRequest)
    → normalize_request r ≡ r
    → IsListed r f.requests
    → IsListed r (normalize_file (default_version f)).requests
unfolding normalize_file
saved-Keeps_request f r n h =
    (sort-Any request_less (λ x. x ≡ r) _).0 (IsListed-map r _ n (rw (default_version-lists f).0 h))

commit-Keeps :
    {A : Type 0} (d : Disk) (p : Result Error (File × Result Error A)) (f : File)
    → ((f' : File) (x : Result Error A) → p ≡ ok (f', x) → Keeps f f')
    → load_unlocked d.content ≡ ok f
    → (f' : File) × (load_unlocked (commit d p).1.content ≡ ok f') × Keeps f f'
commit-Keeps d p f keeps loaded = elim (commit-cases d p) [
  | inl same ↦ (f, rw same loaded, record { requests = λ r e h. h; grants = λ g e h. h })
  | inr (f', planned, saved) ↦
      let k = keeps f' _ planned in
      (
        normalize_file (default_version f'),
        load_unlocked-save_unlocked f' d (commit d p).1 saved,
        record {
          requests = λ r e h.
              saved-Keeps_request f' r
                (All-IsListed _ r f.requests (loaded_normal d.content f loaded) h)
                (k.requests r e h);
          grants = λ g e h. saved-Keeps f' g (k.grants g e h);
        },
      )
]

-- No operation changes or removes a request that has been decided, or a grant that has been
-- revoked: if the file could be loaded, it can be loaded after the operation, and holds every such
-- request and grant of before unchanged.
pub run-Keeps :
    (op : Operation) (d : Disk) (f : File)
    → load_unlocked d.content ≡ ok f
    → (f' : File) × (load_unlocked (run op d).content ≡ ok f') × Keeps f f'
unfolding run add_application create_request decide_request revoke_grant
run-Keeps (adding clock a) d f l =
    commit-Keeps d (plan_application clock a d.content) f
      (λ f' x p. plan_application-Keeps clock a d.content f f' {r = x} l p) l
run-Keeps (creating q) d f l =
    commit-Keeps d (plan_create q d.content) f
      (λ f' x p. plan_create-Keeps q d.content f f' {r = x} l p) l
run-Keeps (deciding id approve grant_id now) d f l =
    commit-Keeps d (plan_decision id approve grant_id now d.content) f
      (λ f' x p. plan_decision-Keeps id approve grant_id now d.content f f' {r = x} l p) l
run-Keeps (revoking id now) d f l =
    commit-Keeps d (plan_revoke id now d.content) f
      (λ f' x p. plan_revoke-Keeps id now d.content f f' {r = x} l p) l
