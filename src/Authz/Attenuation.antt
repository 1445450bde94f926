-- ===== src/Authz/Attenuation.antt =====
-- ValidateDerivedGrant (internal/authz/model.go): a derived grant has no more authority than its
-- parent, and so no more than any of its ancestors.
use anyauth.Base.{
  ℕ, ◌≤◌, ◌<◌, ◌≡◌, refl, sym, ap, ok, ◌∙◌, ◌≢◌, ◌⊎◌, inr, true, none, some, List, [], ◌∷◌, eq_iff,
  arith, any,
}
use anyauth.Authz.Model.{Permission, Action, Resource, permits, contains_permission, Request}
use anyauth.Authz.Grants.{Grant, is_contained, validate_contained, validate_derived_grant}
use anyauth.Authz.GrantSet.{get_grant, inactive_code, grant_revoked, validate_grant_set}
use anyauth.Authz.Evaluate.{grant_allows_permission}
use anyauth.Authz.Sets.{IsIn, IsGrantSet, parent_lem, validate_grant_set-IsGrantSet}
use anyauth.Authz.Active.{
  equal_iff, get_grant_found, Authorizes, IsActive, ActiveChain, root, derived, inactive_code_iff,
  ActiveChain-own,
}

-- `c` has no more authority than `p`: the same subject and application, a validity within that of
-- `p`, and only what `p` allows.
pub record IsWithin (c p : Grant) : Type 0 where
  pub subject : c.subject ≡ p.subject
  pub application : c.application_id ≡ p.application_id
  pub starts : p.not_before ≤ c.not_before
  pub ends : c.expires_at ≤ p.expires_at
  pub task : (p.task_id ≡ "") ⊎ (c.task_id ≡ p.task_id)
  pub permissions :
      (a : Action) (r : Resource)
      → grant_allows_permission c a r ≡ true
      → grant_allows_permission p a r ≡ true

-- Containment of permissions carries over to what they permit.
contains_permission-permits :
    (p c : Permission) (a : Action) (r : Resource)
    → contains_permission p c ≡ true
    → permits c a r ≡ true
    → permits p a r ≡ true
unfolding contains_permission permits
contains_permission-permits p c a r h k = ground (
  arith,
  eq_iff p.action c.action,
  eq_iff c.action a.name,
  eq_iff p.action a.name,
  eq_iff p.resource.type c.resource.type,
  eq_iff c.resource.type r.type,
  eq_iff p.resource.type r.type,
  eq_iff p.resource.id c.resource.id,
  eq_iff p.resource.id "*",
  eq_iff c.resource.id "*",
  eq_iff c.resource.id r.id,
  eq_iff p.resource.id r.id,
)

is_contained-permits :
    (ps : List Permission) (c : Permission) (a : Action) (r : Resource)
    → is_contained ps c ≡ true
    → permits c a r ≡ true
    → any (λ p. permits p a r) ps ≡ true
unfolding is_contained
is_contained-permits [] c a r h k = cc
is_contained-permits (p ∷ ps) c a r h k =
    ground (arith, contains_permission-permits p c a r, is_contained-permits ps c a r)

validate_contained-permits :
    (ps cs : List Permission) (a : Action) (r : Resource)
    → validate_contained ps cs ≡ none
    → any (λ c. permits c a r) cs ≡ true
    → any (λ p. permits p a r) ps ≡ true
unfolding validate_contained
validate_contained-permits ps [] a r h k = cc
validate_contained-permits ps (c ∷ cs) a r h k =
    ground (arith, is_contained-permits ps c a r, validate_contained-permits ps cs a r)

-- A grant that ValidateDerivedGrant accepts under a parent has no more authority than the parent,
-- and was issued by the parent's grantee.
pub validate_derived_grant-IsWithin :
    (c p : Grant) → validate_derived_grant c p ≡ none → IsWithin c p × (c.issuer ≡ p.grantee)
unfolding validate_derived_grant grant_allows_permission
validate_derived_grant-IsWithin c p h =
    let contained : validate_contained p.permissions c.permissions ≡ none = ground arith in
    (
      record {
        subject = ground (arith, equal_iff c.subject p.subject);
        application = ground (arith, eq_iff c.application_id p.application_id);
        starts = ground arith;
        ends = ground arith;
        task = ground (arith, eq_iff p.task_id "", eq_iff c.task_id p.task_id);
        permissions = λ a r. validate_contained-permits p.permissions c.permissions a r contained;
      },
      ground (arith, equal_iff c.issuer p.grantee),
    )

-- `a` is the grant `g` or one that `g` is derived from, directly or through others.
pub data IsAncestor (grants : List Grant) : Grant → Grant → Type 0 where
  itself : {g : Grant} → IsAncestor grants g g
  above :
      {a g : Grant} (p : Grant)
      → g.parent_grant_id ≢ ""
      → IsIn p grants
      → p.id ≡ g.parent_grant_id
      → IsAncestor grants a p
      → IsAncestor grants a g

IsWithin-refl : (g : Grant) → IsWithin g g
IsWithin-refl g = record {
  subject = refl;
  application = refl;
  starts = omega arith;
  ends = omega arith;
  task = inr refl;
  permissions = λ a r h. h;
}

IsWithin-trans : {c p a : Grant} → IsWithin c p → IsWithin p a → IsWithin c a
IsWithin-trans u v = record {
  subject = u.subject ∙ v.subject;
  application = u.application ∙ v.application;
  starts = omega (arith, u.starts, v.starts);
  ends = omega (arith, u.ends, v.ends);
  task = ground (arith, u.task, v.task);
  permissions = λ x r h. v.permissions x r (u.permissions x r h);
}

module _ (grants by_id : List Grant) (set : IsGrantSet grants by_id) where
  parent-IsWithin :
      (g p : Grant)
      → IsIn g grants
      → g.parent_grant_id ≢ ""
      → IsIn p grants
      → p.id ≡ g.parent_grant_id
      → IsWithin g p
  parent-IsWithin g p there ne known named =
      let (member, called, rule) = parent_lem g set.index set.derived there ne in
      let same : get_grant by_id g.parent_grant_id ≡ p =
        rw (← named) (get_grant_found grants by_id set p known) in
      (validate_derived_grant-IsWithin g p (rw same at rule)).0

  ancestor-IsWithin : {a g : Grant} → IsIn g grants → IsAncestor grants a g → IsWithin g a
  ancestor-IsWithin {g} there itself = IsWithin-refl g
  ancestor-IsWithin {g} there (above p ne known named up) =
      IsWithin-trans (parent-IsWithin g p there ne known named) (ancestor-IsWithin known up)

-- In a set that validateGrantSet accepts, no grant has more authority than any of its ancestors,
-- the root that the subject issued included.
pub validate_grant_set-IsWithin :
    (grants by_id : List Grant) {a g : Grant}
    → validate_grant_set grants ≡ ok by_id
    → IsIn g grants
    → IsAncestor grants a g
    → IsWithin g a
validate_grant_set-IsWithin grants by_id h there up =
    ancestor-IsWithin grants by_id (validate_grant_set-IsGrantSet grants by_id h) there up

inactive_code-window :
    (now : ℕ) (g : Grant)
    → g.not_before ≤ now
    → now < g.expires_at
    → (inactive_code now g ≡ none) ⊎ (inactive_code now g ≡ some grant_revoked)
unfolding inactive_code
inactive_code-window now g started unexpired = ground arith

-- In such a set, while a grant is within its own validity period no ancestor of it is expired or
-- not yet valid: an ancestor can stop it only by being revoked.
pub ancestor-blocks_by_revocation :
    (grants by_id : List Grant) (now : ℕ) {a g : Grant}
    → validate_grant_set grants ≡ ok by_id
    → IsIn g grants
    → IsAncestor grants a g
    → g.not_before ≤ now
    → now < g.expires_at
    → (inactive_code now a ≡ none) ⊎ (inactive_code now a ≡ some grant_revoked)
ancestor-blocks_by_revocation grants by_id now {a} h there up started unexpired =
    let within = validate_grant_set-IsWithin grants by_id h there up in
    inactive_code-window now a (omega (arith, within.starts)) (omega (arith, within.ends))

-- What an active chain says of every ancestor.
pub ActiveChain-ancestor :
    (grants by_id : List Grant) (set : IsGrantSet grants by_id) (now : ℕ) {a g : Grant}
    → ActiveChain grants now g
    → IsAncestor grants a g
    → IsActive now a
ActiveChain-ancestor grants by_id set now c itself = ActiveChain-own c
ActiveChain-ancestor grants by_id set now (root e own) (above p ne known named up) = absurd (ne e)
ActiveChain-ancestor grants by_id set now (derived q _ there called own c)
      (above p ne known named up) =
    let same : q ≡ p =
      sym (get_grant_found grants by_id set q there)
      ∙ ap (get_grant by_id) (called ∙ sym named)
      ∙ get_grant_found grants by_id set p known in
    ActiveChain-ancestor grants by_id set now (rw same at c) up

pub inactive_code-revoked :
    (now at : ℕ) (g : Grant) → g.revoked_at ≡ some at → at ≤ now → inactive_code now g ≢ none
unfolding inactive_code
inactive_code-revoked now at g h k = ground arith

-- Revoking a grant takes effect on everything derived from it: from that instant on no grant with
-- a revoked ancestor authorizes any request.
pub revoked_ancestor-not-Authorizes :
    (grants by_id : List Grant) (r : Request) (now at : ℕ) {a g : Grant}
    → validate_grant_set grants ≡ ok by_id
    → IsAncestor grants a g
    → a.revoked_at ≡ some at
    → at ≤ now
    → ¬ Authorizes grants r now g
revoked_ancestor-not-Authorizes grants by_id r now at {a} h up revoked later k =
    let set = validate_grant_set-IsGrantSet grants by_id h in
    inactive_code-revoked now at a revoked later
      ((inactive_code_iff now a).1 (ActiveChain-ancestor grants by_id set now k.chain up))
