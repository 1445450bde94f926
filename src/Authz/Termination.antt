-- ===== src/Authz/Termination.antt =====
-- Every loop of internal/authz/evaluate.go ends: the fuel of the walks is enough for every input.
use Prim.Native.Nat.{ℕ, zero, suc, ◌+◌, ◌≤◌, ◌<◌}
use anyauth.Base.{
  String, ◌≡◌, refl, ◌≢◌, ◌⊎◌, inl, inr, true, false, none, List, [], ◌∷◌, ◌==◌, if◌then◌else◌,
  Bool-cases, Option-cases, eq_iff, eq_refl, ne_of_eq-false, arith, All, length, Result, Bool,
  is_ok, is_ok_value, ok, diverged, contains, Distinct, not-contains_iff, map, All-map, sort,
  sort-All, Result-cases, first_error_of, is_empty,
}
use anyauth.Authz.Model.{Error, Request, validate_request}
use anyauth.Authz.Grants.{Grant}
use anyauth.Authz.GrantSet.{
  get_grant, index_grants, check_parent, ancestry, check_ancestry, validate_grant_set,
  active_grant_chain, grant_chain_ids,
}
use anyauth.Authz.Evaluate.{
  Decision, EvaluateOptions, Scan, visit, scan, evaluate, id_less, Visit, skip, permit, resume,
  start_scan,
}
use anyauth.Authz.Sets.{
  IsIn, parent_lem, first_error_of-eq-none, index_grants-IsIndex, validate_grant_set-IsGrantSet,
}

-- The list without the first occurrence of a text.
remove : String → List String → List String
remove x [] = []
remove x (y ∷ ys) = if y == x then ys else y ∷ remove x ys

length-remove :
    (x : String) (ys : List String) → contains ys x ≡ true → length ys ≡ suc (length (remove x ys))
unfolding remove
length-remove x [] h = cc
length-remove x (y ∷ ys) h = ground (arith, length-remove x ys)

contains-remove :
    (x z : String) (ys : List String)
    → z ≢ x
    → contains ys z ≡ true
    → contains (remove x ys) z ≡ true
unfolding remove
contains-remove x z [] ne h = cc
contains-remove x z (y ∷ ys) ne h =
    ground (arith, contains-remove x z ys ne, eq_iff y x, eq_iff y z)

All-contains-remove :
    (x : String) (ys zs : List String)
    → All (λ z. z ≢ x) zs
    → All (λ z. contains ys z ≡ true) zs
    → All (λ z. contains (remove x ys) z ≡ true) zs
All-contains-remove x ys [] h k = tt
All-contains-remove x ys (z ∷ zs) (p, h) (q, k) =
    (contains-remove x z ys p q, All-contains-remove x ys zs h k)

-- Distinct texts out of a list are no more than the list has.
length-le_of_Distinct :
    (xs ys : List String) → Distinct xs → All (λ x. contains ys x ≡ true) xs → length xs ≤ length ys
length-le_of_Distinct [] ys d h = omega arith
length-le_of_Distinct (x ∷ xs) ys (new, d) (p, h) = omega (
  arith,
  length-remove x ys p,
  length-le_of_Distinct xs (remove x ys) d (All-contains-remove x ys xs new h),
)

ids : List Grant → List String
ids grants = map (λ g. g.id) grants

length-ids : (grants : List Grant) → length (ids grants) ≡ length grants
unfolding ids
length-ids [] = refl
length-ids (g ∷ gs) = omega (arith, length-ids gs)

contains-ids : (p : Grant) (grants : List Grant) → IsIn p grants → contains (ids grants) p.id ≡ true
unfolding ids
contains-ids p [] h = absurd h
contains-ids p (g ∷ gs) (inl e) = rw (e, eq_refl p.id)
contains-ids p (g ∷ gs) (inr h) = ground (arith, contains-ids p gs h)

abbrev ParentsKnown : List Grant → List Grant → Type 0
ParentsKnown grants by_id =
    (g : Grant)
    → IsIn g grants
    → g.parent_grant_id ≢ ""
    → IsIn (get_grant by_id g.parent_grant_id) grants

-- The search for a cycle has seen each grant once at most, so it ends within the fuel.
ancestry-ne-diverged :
    (grants by_id : List Grant)
    → ParentsKnown grants by_id
    → (fuel : ℕ) (seen : List String) (g : Grant) → Distinct seen
    → All (λ x. contains (ids grants) x ≡ true) seen
    → IsIn g grants
    → length grants < length seen + fuel
    → ancestry fuel by_id seen g ≢ diverged
unfolding ancestry
ancestry-ne-diverged grants by_id known zero seen g d h k l =
    λ e. absurd (omega (arith, length-le_of_Distinct seen (ids grants) d h, length-ids grants))
ancestry-ne-diverged grants by_id known (suc fuel) seen g d h k l =
    elim (Bool-cases (g.parent_grant_id == "")) [
      | inl root ↦ rw root (λ e. cc)
      | inr up ↦ elim (Bool-cases (contains seen g.id)) [
        | inl old ↦ rw (up, old) (λ e. cc)
        | inr new ↦
            rw (up, new)
              (ancestry-ne-diverged grants by_id known fuel (g.id ∷ seen)
                (get_grant by_id g.parent_grant_id) ((not-contains_iff seen g.id).0 new, d)
                (contains-ids g grants k, h) (known g k (ne_of_eq-false _ _ up)) (omega arith))
      ]
    ]

check_ancestry-ne-diverged :
    (grants by_id : List Grant)
    → ParentsKnown grants by_id
    → (gs : List Grant) → All (λ g. IsIn g grants) gs
    → check_ancestry (suc (length grants)) by_id gs ≢ diverged
unfolding check_ancestry
check_ancestry-ne-diverged grants by_id known [] h = λ e. cc
check_ancestry-ne-diverged grants by_id known (g ∷ gs) (k, h) = ground (
  arith,
  ancestry-ne-diverged grants by_id known (suc (length grants)) [] g tt tt k (omega arith),
  check_ancestry-ne-diverged grants by_id known gs h,
)

index_grants-ne-diverged : (by_id gs : List Grant) → index_grants by_id gs ≢ diverged
unfolding index_grants
index_grants-ne-diverged by_id [] = λ e. cc
index_grants-ne-diverged by_id (g ∷ gs) = ground (arith, index_grants-ne-diverged (g ∷ by_id) gs)

pub All-IsIn_self : (grants : List Grant) → All (λ g. IsIn g grants) grants
All-IsIn_self [] = tt
All-IsIn_self (g ∷ gs) = (inl refl, All-map _ _ (λ p h. inr h) gs (All-IsIn_self gs))

-- validateGrantSet ends on every input, cyclic ones included.
pub validate_grant_set-ne-diverged : (grants : List Grant) → validate_grant_set grants ≢ diverged
unfolding validate_grant_set
validate_grant_set-ne-diverged grants = elim (Result-cases (index_grants [] grants)) [
  | inl (m, indexed) ↦ elim (Option-cases (first_error_of (check_parent m) grants)) [
    | inl parents ↦
        let index = index_grants-IsIndex grants m indexed in
        let known : ParentsKnown grants m =
          λ g there ne. (parent_lem g index (first_error_of-eq-none _ grants parents) there ne).0 in
        rw (indexed, parents)
          (ground (arith, check_ancestry-ne-diverged grants m known grants (All-IsIn_self grants)))
    | inr (e, bad) ↦ rw (indexed, bad) (λ h. cc)
  ]
  | inr other ↦ ground (arith, index_grants-ne-diverged [] grants)
]

-- A search for a cycle that succeeds is at a root, or goes on at the parent.
pub ancestry-up :
    (fuel : ℕ) (by_id : List Grant) (seen : List String) (g : Grant)
    → ancestry (suc fuel) by_id seen g ≡ ok tt
    → ((g.parent_grant_id == "") ≡ true)
      ⊎ (((g.parent_grant_id == "") ≡ false)
          × (ancestry fuel by_id (g.id ∷ seen) (get_grant by_id g.parent_grant_id) ≡ ok tt))
unfolding ancestry
ancestry-up fuel by_id seen g h = ground arith

pub no_fuel :
    (by_id : List Grant) (seen : List String) (g : Grant) → ancestry zero by_id seen g ≢ ok tt
unfolding ancestry
no_fuel by_id seen g h = cc

-- Where the search for a cycle ends, so do the walks up the chain, with the same fuel.
pub active_grant_chain_total :
    (fuel : ℕ) (by_id : List Grant) (seen : List String) (now : ℕ) (g : Grant)
    → ancestry fuel by_id seen g ≡ ok tt
    → is_ok (active_grant_chain fuel by_id now g) ≡ true
unfolding active_grant_chain
active_grant_chain_total zero by_id seen now g h = absurd (no_fuel by_id seen g h)
active_grant_chain_total (suc fuel) by_id seen now g h = ground (
  arith,
  ancestry-up fuel by_id seen g h,
  active_grant_chain_total fuel by_id (g.id ∷ seen) now (get_grant by_id g.parent_grant_id),
)

pub grant_chain_ids_total :
    (fuel : ℕ) (by_id : List Grant) (seen : List String) (g : Grant)
    → ancestry fuel by_id seen g ≡ ok tt
    → is_ok (grant_chain_ids fuel by_id g) ≡ true
unfolding grant_chain_ids
grant_chain_ids_total zero by_id seen g h = absurd (no_fuel by_id seen g h)
grant_chain_ids_total (suc fuel) by_id seen g h = ground (
  arith,
  ancestry-up fuel by_id seen g h,
  grant_chain_ids_total fuel by_id (g.id ∷ seen) (get_grant by_id g.parent_grant_id),
)

visit_total :
    (fuel : ℕ) (by_id : List Grant) (r : Request) (now : ℕ) (st : Scan) (g : Grant)
    → ancestry fuel by_id [] g ≡ ok tt
    → is_ok (visit fuel by_id r now st g) ≡ true
unfolding visit
visit_total fuel by_id r now st g h = ground (arith, active_grant_chain_total fuel by_id [] now g h)

resume_total :
    (go_on : Scan → Result Error Decision) (returned : Result Error Decision) (v : Visit)
    → ((st : Scan) → is_ok (go_on st) ≡ true)
    → is_ok returned ≡ true
    → is_ok (resume go_on returned v) ≡ true
resume_total go_on returned (skip st) h k = h st
resume_total go_on returned permit h k = k

scan_total :
    (fuel : ℕ) (by_id : List Grant) (r : Request) (opts : EvaluateOptions) (none_given : Bool)
    (st : Scan) (gs : List Grant)
    → All (λ g. ancestry fuel by_id [] g ≡ ok tt) gs
    → is_ok (scan fuel by_id r opts none_given st gs) ≡ true
unfolding scan
scan_total fuel by_id r opts none_given st [] h = refl
scan_total fuel by_id r opts none_given st (g ∷ gs) (p, h) =
    let (v, visited) = is_ok_value _ (visit_total fuel by_id r opts.now st g p) in
    rw visited (
      resume_total _ _ v (λ st'. scan_total fuel by_id r opts none_given st' gs h)
        (ground (arith, grant_chain_ids_total fuel by_id [] g p)))

-- Once the grants of a set pass validateGrantSet, Evaluate reaches a decision on every valid
-- request: the search through the grants has no error and ends.
pub evaluate_total :
    (grants by_id : List Grant) (r : Request) (opts : EvaluateOptions)
    → validate_grant_set grants ≡ ok by_id
    → validate_request r ≡ none
    → opts.now ≢ 0
    → opts.decision_id ≢ ""
    → (d : Decision) × (evaluate grants r opts ≡ ok d)
unfolding evaluate
evaluate_total grants by_id r opts set_ok request_ok timed named = is_ok_value _ (
    ground (
      arith,
      scan_total (suc (length grants)) by_id r opts (is_empty grants) start_scan
          (sort id_less grants)
          ((sort-All id_less _ grants).0
            (validate_grant_set-IsGrantSet grants by_id set_ok).rooted),
      eq_iff opts.decision_id "",
    ))

-- Evaluate ends on every input, whatever the grants refer to.
pub evaluate-ne-diverged :
    (grants : List Grant) (r : Request) (opts : EvaluateOptions) → evaluate grants r opts ≢ diverged
unfolding evaluate
evaluate-ne-diverged grants r opts = elim (Result-cases (validate_grant_set grants)) [
  | inl (by_id, set_ok) ↦ ground (
    arith,
    scan_total (suc (length grants)) by_id r opts (is_empty grants) start_scan (sort id_less grants)
        ((sort-All id_less _ grants).0 (validate_grant_set-IsGrantSet grants by_id set_ok).rooted),
  )
  | inr other ↦ ground (arith, validate_grant_set-ne-diverged grants)
]
