-- ===== src/Authz/Decisions.antt =====
-- When Evaluate (internal/authz/evaluate.go) allows a request.
use anyauth.Base.{
  ℕ, suc, String, ◌≡◌, refl, ◌⊎◌, inl, inr, ◌↔◌, Bool, true, false, none, List, [], ◌∷◌, arith, All,
  Any, length, is_empty, Result, ok, ◌>>=◌, >>=-eq-ok, sort, sort-All, sort-Any, Result-cases,
}
use anyauth.Authz.Model.{Error, Request}
use anyauth.Authz.Grants.{Grant}
use anyauth.Authz.GrantSet.{validate_grant_set, active_grant_chain, grant_chain_ids}
use anyauth.Authz.Evaluate.{
  Decision, EvaluateOptions, Scan, Visit, skip, permit, visit, scan, evaluate, id_less, resume,
  start_scan, denial, allowing_decision, matches_request, grant_allows_permission, task_allows,
}
use anyauth.Authz.Sets.{IsIn, IsGrantSet, validate_grant_set-IsGrantSet}
use anyauth.Authz.Termination.{All-IsIn_self}
use anyauth.Authz.Active.{
  Authorizes, matches_request_iff, grant_allows_permission_iff, task_allows_iff,
  active_grant_chain_iff,
}

pub visit-permit :
    (fuel : ℕ) (by_id : List Grant) (r : Request) (now : ℕ) (st : Scan) (g : Grant)
    → (visit fuel by_id r now st g ≡ ok permit) ↔ (
        (matches_request r g ≡ true)
        × (grant_allows_permission g r.action r.resource ≡ true)
        × (task_allows r g ≡ true)
        × (active_grant_chain fuel by_id now g ≡ ok none))
unfolding visit
visit-permit fuel by_id r now st g = ground arith

skip_not_permit : {m : Result Error Visit} {st : Scan} → m ≡ ok permit → m ≡ ok (skip st) → ⊥
skip_not_permit p q = cc

-- The stages of an evaluation that reaches a decision.
pub evaluate_parts :
    (grants : List Grant) (r : Request) (opts : EvaluateOptions) {d : Decision}
    → evaluate grants r opts ≡ ok d
    → (by_id : List Grant) × (validate_grant_set grants ≡ ok by_id)
      × (scan (suc (length grants)) by_id r opts (is_empty grants) start_scan (sort id_less grants)
          ≡ ok d)
unfolding evaluate
evaluate_parts grants r opts h = elim (Result-cases (validate_grant_set grants)) [
  | inl (by_id, set_ok) ↦ (by_id, set_ok, ground arith)
  | inr other ↦ absurd (ground arith)
]

denial-allowed : (e : Bool) (id : String) (st : Scan) → (denial e id st).allowed ≡ false
unfolding denial
denial-allowed e id st = ground arith

resume-eq-ok :
    (go_on : Scan → Result Error Decision) (returned : Result Error Decision) (v : Visit)
    {d : Decision}
    → resume go_on returned v ≡ ok d
    → ((st : Scan) × (v ≡ skip st) × (go_on st ≡ ok d)) ⊎ ((v ≡ permit) × (returned ≡ ok d))
resume-eq-ok go_on returned (skip st) h = inl (st, refl, h)
resume-eq-ok go_on returned permit h = inr (refl, h)

-- A round of the loop goes on with the rest, or returns an allowing decision on its grant.
pub scan-cons :
    (fuel : ℕ) (by_id : List Grant) (r : Request) (opts : EvaluateOptions) (e : Bool) (st : Scan)
    (g : Grant) (gs : List Grant) {d : Decision}
    → scan fuel by_id r opts e st (g ∷ gs) ≡ ok d
    → ((st' : Scan) × (visit fuel by_id r opts.now st g ≡ ok (skip st'))
        × (scan fuel by_id r opts e st' gs ≡ ok d))
      ⊎ ((visit fuel by_id r opts.now st g ≡ ok permit)
          × ((ids : List String) × (grant_chain_ids fuel by_id g ≡ ok ids)
              × (allowing_decision opts.decision_id g ids ≡ d)))
unfolding scan
scan-cons fuel by_id r opts e st g gs {d} h =
    let go_on = λ (st' : Scan). scan fuel by_id r opts e st' gs in
    let walk = grant_chain_ids fuel by_id g in
    let allow : List String → Result Error Decision =
      λ ids. ok (allowing_decision opts.decision_id g ids) in
    let (v, visited, resumed) =
      >>=-eq-ok (visit fuel by_id r opts.now st g) (resume go_on (walk >>= allow)) {y = d} h in
    elim (resume-eq-ok go_on (walk >>= allow) v resumed) [
      | inl (st', skipped, more) ↦ inl (st', rw skipped at visited, more)
      | inr (permitted, returned) ↦
          let (ids, walked, made) = >>=-eq-ok walk allow {y = d} returned in
          inr (rw permitted at visited, (ids, walked, ground arith))
    ]

module _ (grants by_id : List Grant) (set : IsGrantSet grants by_id) (r : Request) (now : ℕ) where
  -- A round of the loop returns exactly at a grant that authorizes the request.
  visit-Authorizes :
      (st : Scan) (g : Grant)
      → IsIn g grants
      → (visit (suc (length grants)) by_id r now st g ≡ ok permit) ↔ Authorizes grants r now g
  visit-Authorizes st g there = (
    λ h.
        let (same, allows, on, walked) = (visit-permit _ by_id r now st g).0 h in
        let (s, a, i) = (matches_request_iff r g).0 same in
        record {
          subject = s;
          grantee = a;
          application = i;
          permission = (grant_allows_permission_iff g r.action r.resource).0 allows;
          task = (task_allows_iff r g).0 on;
          chain = (active_grant_chain_iff grants by_id set now g there).0 walked;
        },
    λ k. (visit-permit _ by_id r now st g).1 (
      (matches_request_iff r g).1 (k.subject, k.grantee, k.application),
      (grant_allows_permission_iff g r.action r.resource).1 k.permission,
      (task_allows_iff r g).1 k.task,
      (active_grant_chain_iff grants by_id set now g there).1 k.chain,
    ),
  )

  -- The loop allows exactly if one of the grants that it visits authorizes the request.
  scan-allowed :
      (decision_id : String) (e : Bool) (st : Scan) (gs : List Grant) {d : Decision}
      → All (λ g. IsIn g grants) gs
      → scan (suc (length grants)) by_id r (record { now = now; decision_id = decision_id }) e st gs
        ≡ ok d
      → (d.allowed ≡ true) ↔ Any (Authorizes grants r now) gs
  unfolding scan
  scan-allowed decision_id e st [] k h = ground (arith, denial-allowed e decision_id st)
  scan-allowed decision_id e st (g ∷ gs) (there, k) h = elim (scan-cons _ by_id r _ e st g gs h) [
    | inl (st', skipped, more) ↦
        let (to, from) = scan-allowed decision_id e st' gs k more in
        (
          λ a. inr (to a),
          elim [
            | inl here ↦ absurd (skip_not_permit ((visit-Authorizes st g there).1 here) skipped)
            | inr later ↦ from later
          ],
        )
    | inr (permitted, (ids, walked, made)) ↦
        (λ a. inl ((visit-Authorizes st g there).0 permitted), λ a. ground arith)
  ]

-- Evaluate allows a request exactly if some grant of the set authorizes it: it names the request's
-- subject, actor and application, has a permission that covers the action and the resource, is for
-- no task or for the request's, and is in force with all its ancestors.
pub evaluate-allowed_iff :
    (grants : List Grant) (r : Request) (opts : EvaluateOptions) {d : Decision}
    → evaluate grants r opts ≡ ok d
    → (d.allowed ≡ true) ↔ Any (Authorizes grants r opts.now) grants
unfolding evaluate
evaluate-allowed_iff grants r opts h =
    let (by_id, set_ok, scanned) = evaluate_parts grants r opts h in
    let set = validate_grant_set-IsGrantSet grants by_id set_ok in
    let (to, from) =
      scan-allowed grants by_id set r opts.now opts.decision_id (is_empty grants) start_scan
        (sort id_less grants)
        ((sort-All id_less (λ g. IsIn g grants) grants).0 (All-IsIn_self grants)) scanned in
    let (into, back) = sort-Any id_less (Authorizes grants r opts.now) grants in
    (λ a. back (to a), λ k. from (into k))
