-- ===== src/Authz/Sets.antt =====
-- What validateGrantSet (internal/authz/evaluate.go) establishes of a set of grants.
use anyauth.Base.{
  ℕ, suc, String, ◌≡◌, ◌≢◌, ◌⊎◌, inl, inr, true, Option, none, some, List, [], ◌∷◌, ◌==◌,
  Bool-cases, Option-cases, eq_iff, arith, All, Any, length, ok, first_error_of,
}
use anyauth.Authz.Grants.{Grant, validate_grant, validate_derived_grant}
use anyauth.Authz.GrantSet.{
  find_grant, get_grant, index_grants, check_parent, ancestry, check_ancestry, validate_grant_set,
}

-- Membership in a list of grants.
abbrev pub IsIn : Grant → List Grant → Type 0
IsIn p gs = Any (λ g. g ≡ p) gs

-- `by_id` is the map from the IDs of valid grants, all different, to the grants.
pub record IsIndex (grants by_id : List Grant) : Type 0 where
  pub valid : All (λ g. validate_grant g ≡ none) grants
  pub found : (p : Grant) → IsIn p grants → find_grant by_id p.id ≡ some p
  pub known : (id : String) (p : Grant) → find_grant by_id id ≡ some p → IsIn p grants × (p.id ≡ id)

pub record IsGrantSet (grants by_id : List Grant) : Type 0 where
  pub index : IsIndex grants by_id
  pub open index use *
  pub derived : All (λ g. check_parent by_id g ≡ none) grants
  pub rooted : All (λ g. ancestry (suc (length grants)) by_id [] g ≡ ok tt) grants

pub All-IsIn : (P : Grant → Type 0) (gs : List Grant) (p : Grant) → All P gs → IsIn p gs → P p
All-IsIn P [] p h k = absurd k
All-IsIn P (g ∷ gs) p (q, h) (inl e) = rw e at q
All-IsIn P (g ∷ gs) p (q, h) (inr k) = All-IsIn P gs p h k

-- One round of the loop that fills the map.
index_grants-cons :
    (by_id : List Grant) (g : Grant) (gs : List Grant) {m : List Grant}
    → index_grants by_id (g ∷ gs) ≡ ok m
    → (validate_grant g ≡ none)
      × (find_grant by_id g.id ≡ none)
      × (index_grants (g ∷ by_id) gs ≡ ok m)
unfolding index_grants
index_grants-cons by_id g gs h = ground (arith)

index_grants-valid :
    (by_id gs : List Grant) {m : List Grant}
    → index_grants by_id gs ≡ ok m
    → All (λ g. validate_grant g ≡ none) gs
index_grants-valid by_id [] h = tt
index_grants-valid by_id (g ∷ gs) h =
    let (valid, new, rest) = index_grants-cons by_id g gs h in
    (valid, index_grants-valid (g ∷ by_id) gs rest)

find_grant-cons_ne :
    (by_id : List Grant) (g p : Grant) (id : String)
    → find_grant by_id g.id ≡ none
    → find_grant by_id id ≡ some p
    → find_grant (g ∷ by_id) id ≡ some p
unfolding find_grant
find_grant-cons_ne by_id g p id new h = elim (Bool-cases (g.id == id)) [
  | inl same ↦ cc (ap_find same)
  | inr other ↦ rw other h
]
  where
    ap_find : (g.id == id) ≡ true → find_grant by_id g.id ≡ find_grant by_id id
    ap_find e = rw ((eq_iff g.id id).0 e)

-- Entries are never replaced.
index_grants-kept :
    (by_id gs : List Grant) {m : List Grant} (p : Grant) (id : String)
    → index_grants by_id gs ≡ ok m
    → find_grant by_id id ≡ some p
    → find_grant m id ≡ some p
unfolding index_grants
index_grants-kept by_id [] p id h k = ground (arith)
index_grants-kept by_id (g ∷ gs) p id h k =
    let (valid, new, rest) = index_grants-cons by_id g gs h in
    index_grants-kept (g ∷ by_id) gs p id rest (find_grant-cons_ne by_id g p id new k)

find_grant-cons_self : (by_id : List Grant) (g : Grant) → find_grant (g ∷ by_id) g.id ≡ some g
unfolding find_grant
find_grant-cons_self by_id g = ground (arith, eq_iff g.id g.id)

index_grants-found :
    (by_id gs : List Grant) {m : List Grant} (p : Grant)
    → index_grants by_id gs ≡ ok m
    → IsIn p gs
    → find_grant m p.id ≡ some p
index_grants-found by_id [] p h k = absurd k
index_grants-found by_id (g ∷ gs) p h (inl e) =
    let (valid, new, rest) = index_grants-cons by_id g gs h in
    rw (← e) (index_grants-kept (g ∷ by_id) gs g g.id rest (find_grant-cons_self by_id g))
index_grants-found by_id (g ∷ gs) p h (inr k) =
    let (valid, new, rest) = index_grants-cons by_id g gs h in
    index_grants-found (g ∷ by_id) gs p rest k

find_grant-cons_inv :
    (by_id : List Grant) (g p : Grant) (id : String)
    → find_grant (g ∷ by_id) id ≡ some p
    → ((g ≡ p) × (p.id ≡ id)) ⊎ (find_grant by_id id ≡ some p)
unfolding find_grant
find_grant-cons_inv by_id g p id h = ground (arith, eq_iff g.id id)

index_grants-known :
    (by_id gs : List Grant) {m : List Grant} (p : Grant) (id : String)
    → index_grants by_id gs ≡ ok m
    → find_grant m id ≡ some p
    → (find_grant by_id id ≡ some p) ⊎ (IsIn p gs × (p.id ≡ id))
unfolding index_grants
index_grants-known by_id [] p id h k = ground (arith)
index_grants-known by_id (g ∷ gs) p id h k =
    let (valid, new, rest) = index_grants-cons by_id g gs h in
    elim (index_grants-known (g ∷ by_id) gs p id rest k) [
      | inl old ↦ ground (arith, find_grant-cons_inv by_id g p id)
      | inr (there, same) ↦ inr (inr there, same)
    ]

pub first_error_of-eq-none :
    {E A : Type 0} (f : A → Option E) (xs : List A)
    → first_error_of f xs ≡ none
    → All (λ x. f x ≡ none) xs
first_error_of-eq-none f [] h = tt
first_error_of-eq-none f (x ∷ xs) h = ground (arith, first_error_of-eq-none f xs)

check_ancestry-rooted :
    (fuel : ℕ) (by_id gs : List Grant) {u : Unit {0}}
    → check_ancestry fuel by_id gs ≡ ok u
    → All (λ g. ancestry fuel by_id [] g ≡ ok tt) gs
unfolding check_ancestry
check_ancestry-rooted fuel by_id [] h = tt
check_ancestry-rooted fuel by_id (g ∷ gs) h = ground (arith, check_ancestry-rooted fuel by_id gs)

no_entry : (id : String) (p : Grant) → find_grant [] id ≡ some p → ⊥
unfolding find_grant
no_entry id p h = cc

pub index_grants-IsIndex :
    (grants by_id : List Grant) → index_grants [] grants ≡ ok by_id → IsIndex grants by_id
index_grants-IsIndex grants by_id h = record {
  valid = index_grants-valid [] grants h;
  found = λ p. index_grants-found [] grants p h;
  known = λ id p k. elim (index_grants-known [] grants p id h k) [
    | inl bad ↦ absurd (no_entry id p bad)
    | inr there ↦ there
  ];
}

-- What the second loop establishes of a grant that names a parent.
pub check_parent-eq-none :
    (by_id : List Grant) (g : Grant)
    → check_parent by_id g ≡ none
    → g.parent_grant_id ≢ ""
    → (p : Grant) × (find_grant by_id g.parent_grant_id ≡ some p)
      × (get_grant by_id g.parent_grant_id ≡ p)
      × (validate_derived_grant g p ≡ none)
unfolding check_parent get_grant
check_parent-eq-none by_id g h ne = elim (Option-cases (find_grant by_id g.parent_grant_id)) [
  | inl missing ↦ absurd (ground (arith, eq_iff g.parent_grant_id ""))
  | inr (p, there) ↦ (p, there, rw there, ground (arith, eq_iff g.parent_grant_id ""))
]

-- A parent that a grant names is in the set, and the grant may be derived from it.
pub parent_lem :
    {grants by_id : List Grant} (g : Grant)
    → IsIndex grants by_id
    → All (λ g. check_parent by_id g ≡ none) grants
    → IsIn g grants
    → g.parent_grant_id ≢ ""
    → let p = get_grant by_id g.parent_grant_id in
      IsIn p grants × (p.id ≡ g.parent_grant_id) × (validate_derived_grant g p ≡ none)
parent_lem {grants} {by_id} g index ok_parents there ne =
    let (p, found, same, derived) =
      check_parent-eq-none by_id g (All-IsIn _ grants g ok_parents there) ne in
    let (known, named) = index.known _ p found in rw same (known, named, derived)

validate_grant_set_parts :
    (grants by_id : List Grant)
    → validate_grant_set grants ≡ ok by_id
    → (index_grants [] grants ≡ ok by_id)
      × (first_error_of (check_parent by_id) grants ≡ none)
      × (check_ancestry (suc (length grants)) by_id grants ≡ ok tt)
unfolding validate_grant_set
validate_grant_set_parts grants by_id h = ground arith

-- A set of grants that validateGrantSet accepts has valid grants, an index by their IDs, parents
-- that the grants may be derived from, and no endless chain.
pub validate_grant_set-IsGrantSet :
    (grants by_id : List Grant) → validate_grant_set grants ≡ ok by_id → IsGrantSet grants by_id
validate_grant_set-IsGrantSet grants by_id h =
    let (indexed, parents, walked) = validate_grant_set_parts grants by_id h in
    record {
      index = index_grants-IsIndex grants by_id indexed;
      derived = first_error_of-eq-none _ grants parents;
      rooted = check_ancestry-rooted _ by_id grants walked;
    }

-- In such a set an ID names one grant.
pub IsIn-same_id :
    {grants by_id : List Grant} (p q : Grant)
    → IsGrantSet grants by_id
    → IsIn p grants
    → IsIn q grants
    → p.id ≡ q.id
    → p ≡ q
IsIn-same_id p q set hp hq e = cc (set.found p hp, set.found q hq)
