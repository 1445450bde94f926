-- ===== src/Authz/Active.antt =====
-- What it means that a grant authorizes a request, independently of the evaluator, and that the
-- tests of internal/authz/evaluate.go decide it.
use anyauth.Base.{
  ℕ, zero, suc, ◌≤◌, ◌<◌, String, ◌≡◌, ◌≢◌, ◌⊎◌, inl, inr, ◌↔◌, true, Option, none, some, List, [],
  ◌∷◌, ◌==◌, Bool-cases, Option-cases, eq_iff, ne_of_eq-false, arith, Any, any_iff, length, ok,
}
use anyauth.Authz.Model.{Identity, equal, Permission, Action, Resource, permits, Request}
use anyauth.Authz.Grants.{Grant}
use anyauth.Authz.GrantSet.{get_grant, ancestry, inactive_code, active_grant_chain}
use anyauth.Authz.Evaluate.{matches_request, grant_allows_permission, task_allows}
use anyauth.Authz.Sets.{IsIn, All-IsIn, IsGrantSet, parent_lem}
use anyauth.Authz.Termination.{ancestry-up, no_fuel}

abbrev pub IsBefore : ℕ → Option ℕ → Type 0
IsBefore now none = Unit
IsBefore now (some at) = now < at

-- The grant itself is in force at an instant: from its start to before its end, and before its
-- revocation.
pub record IsActive (now : ℕ) (g : Grant) : Type 0 where
  pub unrevoked : IsBefore now g.revoked_at
  pub started : g.not_before ≤ now
  pub unexpired : now < g.expires_at

-- The grant and all that it is derived from are in force.
pub data ActiveChain (grants : List Grant) (now : ℕ) : Grant → Type 0 where
  root : {g : Grant} → g.parent_grant_id ≡ "" → IsActive now g → ActiveChain grants now g
  derived :
      {g : Grant} (p : Grant)
      → g.parent_grant_id ≢ ""
      → IsIn p grants
      → p.id ≡ g.parent_grant_id
      → IsActive now g
      → ActiveChain grants now p
      → ActiveChain grants now g

-- A permission covers an action on a resource: the same action, the same type, and the same ID
-- unless the permission is for all resources of the type.
pub record Covers (a : Action) (r : Resource) (p : Permission) : Type 0 where
  pub action : p.action ≡ a.name
  pub type : p.resource.type ≡ r.type
  pub id : (p.resource.id ≡ "*") ⊎ (p.resource.id ≡ r.id)

pub record Authorizes (grants : List Grant) (r : Request) (now : ℕ) (g : Grant) : Type 0 where
  pub subject : g.subject ≡ r.subject
  pub grantee : g.grantee ≡ r.actor
  pub application : g.application_id ≡ r.application_id
  pub permission : Any (Covers r.action r.resource) g.permissions
  pub task : (g.task_id ≡ "") ⊎ (g.task_id ≡ r.context.task_id)
  pub chain : ActiveChain grants now g

pub equal_iff : (i j : Identity) → (equal i j ≡ true) ↔ (i ≡ j)
unfolding equal
equal_iff i j = ground (arith, eq_iff i.type j.type, eq_iff i.id j.id)

permits_iff : (a : Action) (r : Resource) (p : Permission) → (permits p a r ≡ true) ↔ Covers a r p
unfolding permits
permits_iff a r p = ground (
  arith,
  eq_iff p.action a.name,
  eq_iff p.resource.type r.type,
  eq_iff p.resource.id "*",
  eq_iff p.resource.id r.id,
)

pub grant_allows_permission_iff :
    (g : Grant) (a : Action) (r : Resource)
    → (grant_allows_permission g a r ≡ true) ↔ Any (Covers a r) g.permissions
unfolding grant_allows_permission
grant_allows_permission_iff g a r =
    any_iff (Covers a r) (λ p. permits p a r) (permits_iff a r) g.permissions

pub inactive_code_iff : (now : ℕ) (g : Grant) → (inactive_code now g ≡ none) ↔ IsActive now g
unfolding inactive_code
inactive_code_iff now g = elim (Option-cases g.revoked_at) [
  | inl never ↦ ground arith
  | inr (at, revoked) ↦ ground arith
]

pub matches_request_iff :
    (r : Request) (g : Grant)
    → (matches_request r g ≡ true)
      ↔ ((g.subject ≡ r.subject) × (g.grantee ≡ r.actor) × (g.application_id ≡ r.application_id))
unfolding matches_request
matches_request_iff r g = ground (
  arith,
  equal_iff g.subject r.subject,
  equal_iff g.grantee r.actor,
  eq_iff g.application_id r.application_id,
)

pub task_allows_iff :
    (r : Request) (g : Grant)
    → (task_allows r g ≡ true) ↔ ((g.task_id ≡ "") ⊎ (g.task_id ≡ r.context.task_id))
unfolding task_allows
task_allows_iff r g = ground (arith, eq_iff g.task_id "", eq_iff g.task_id r.context.task_id)

-- An active chain's own grant is in force, and its parent's chain is active.
pub ActiveChain-own :
    {grants : List Grant} {now : ℕ} {g : Grant} → ActiveChain grants now g → IsActive now g
ActiveChain-own (root e a) = a
ActiveChain-own (derived p ne there named a c) = a

pub get_grant_found :
    (grants by_id : List Grant)
    → IsGrantSet grants by_id
    → (p : Grant) → IsIn p grants
    → get_grant by_id p.id ≡ p
unfolding get_grant
get_grant_found grants by_id set p there = rw (set.found p there)

module _ (grants by_id : List Grant) (set : IsGrantSet grants by_id) (now : ℕ) where
  chain_sound :
      (fuel : ℕ) (g : Grant)
      → IsIn g grants
      → active_grant_chain fuel by_id now g ≡ ok none
      → ActiveChain grants now g
  unfolding active_grant_chain
  chain_sound zero g there h = cc
  chain_sound (suc fuel) g there h =
      let active : inactive_code now g ≡ none = ground arith in
      let own = (inactive_code_iff now g).0 active in
      elim (Bool-cases (g.parent_grant_id == "")) [
        | inl top ↦ root ((eq_iff _ _).0 top) own
        | inr up ↦
            let ne = ne_of_eq-false _ _ up in
            let (known, named, rule) = parent_lem g set.index set.derived there ne in
            derived (get_grant by_id g.parent_grant_id) ne known named own
              (chain_sound fuel _ known (ground arith))
      ]

  chain_complete :
      (fuel : ℕ) (seen : List String) (g : Grant)
      → ancestry fuel by_id seen g ≡ ok tt
      → ActiveChain grants now g
      → active_grant_chain fuel by_id now g ≡ ok none
  unfolding active_grant_chain
  chain_complete zero seen g walked c = absurd (no_fuel by_id seen g walked)
  chain_complete (suc fuel) seen g walked (root e own) =
      ground (arith, (inactive_code_iff now g).1 own, eq_iff g.parent_grant_id "")
  chain_complete (suc fuel) seen g walked (derived p ne there named own c) =
      let parent : get_grant by_id g.parent_grant_id ≡ p =
        rw (← named) (get_grant_found grants by_id set p there) in
      elim (ancestry-up fuel by_id seen g walked) [
        | inl top ↦ absurd (ne ((eq_iff _ _).0 top))
        | inr (up, more) ↦ ground (
          arith,
          (inactive_code_iff now g).1 own,
          parent,
          chain_complete fuel (g.id ∷ seen) p (rw parent at more) c,
        )
      ]

  -- The walk up the chain of a grant of a valid set finds no obstacle exactly if the grant and
  -- all its ancestors are in force.
  pub active_grant_chain_iff :
      (g : Grant)
      → IsIn g grants
      → (active_grant_chain (suc (length grants)) by_id now g ≡ ok none) ↔ ActiveChain grants now g
  active_grant_chain_iff g there =
      (chain_sound _ g there, chain_complete _ [] g (All-IsIn _ grants g set.rooted there))
