-- ===== src/Authz/Reasons.antt =====
-- Which reason Evaluate (internal/authz/evaluate.go) gives for a denial.
use anyauth.Base.{
  ℕ, zero, suc, String, ◌≡◌, refl, ◌⊎◌, inl, inr, ◌↔◌, Bool, true, false, ◌&&◌, ◌||◌, Option, none,
  some, List, [], ◌∷◌, ◌==◌, sym, ◌∙◌, Bool-cases, Option-cases, arith, All, any, length, is_empty,
  is_some, ok, sort, sort-All, sort-any, ne_of_eq-false,
}
use anyauth.Authz.Model.{Request}
use anyauth.Authz.Grants.{Grant}
use anyauth.Authz.GrantSet.{
  ReasonCode, no_matching_grant, permission_not_granted, task_mismatch, grant_not_yet_valid,
  grant_expired, grant_revoked, inactive_code, active_grant_chain, get_grant,
}
use anyauth.Authz.Evaluate.{
  Decision, EvaluateOptions, Scan, skip, visit, scan, evaluate, id_less, start_scan, denial,
  matches_request, grant_allows_permission, task_allows,
}
use anyauth.Authz.Sets.{IsIn, IsGrantSet, parent_lem, validate_grant_set-IsGrantSet}
use anyauth.Authz.Termination.{All-IsIn_self}
use anyauth.Authz.Decisions.{scan-cons, evaluate_parts}

-- A reason that names the grant which blocks a chain: a grant of the set that is not in force, for
-- that reason.
abbrev NamesBlocker : List Grant → ℕ → Option (ReasonCode × String) → Type 0
NamesBlocker grants now none = Unit
NamesBlocker grants now (some (code, id)) =
    (b : Grant) × IsIn b grants × (b.id ≡ id) × (inactive_code now b ≡ some code)

inactive_code_range :
    (now : ℕ) (g : Grant) {code : ReasonCode}
    → inactive_code now g ≡ some code
    → (code ≡ grant_revoked) ⊎ ((code ≡ grant_not_yet_valid) ⊎ (code ≡ grant_expired))
unfolding inactive_code
inactive_code_range now g h = ground arith

pub permitted : Request → Grant → Bool
permitted r g = matches_request r g && grant_allows_permission g r.action r.resource

pub on_task : Request → Grant → Bool
on_task r g = permitted r g && task_allows r g

module _ (grants by_id : List Grant) (set : IsGrantSet grants by_id) (now : ℕ) where
  active_grant_chain-NamesBlocker :
      (fuel : ℕ) (g : Grant) {o : Option (ReasonCode × String)}
      → IsIn g grants
      → active_grant_chain fuel by_id now g ≡ ok o
      → NamesBlocker grants now o
  unfolding active_grant_chain
  active_grant_chain-NamesBlocker zero g there h = cc
  active_grant_chain-NamesBlocker (suc fuel) g {o} there h =
      elim (Option-cases (inactive_code now g)) [
        | inr (code, blocked) ↦
            let same : some (code, g.id) ≡ o = ground arith in rw (← same) (g, there, refl, blocked)
        | inl active ↦ elim (Bool-cases (g.parent_grant_id == "")) [
          | inl top ↦ let same : none ≡ o = ground arith in rw (← same) tt
          | inr up ↦
              active_grant_chain-NamesBlocker fuel (get_grant by_id g.parent_grant_id)
                (parent_lem g set.index set.derived there (ne_of_eq-false _ _ up)).0 (ground arith)
        ]
      ]

  -- What a round of the loop that goes on adds to the variables.
  record Noted (r : Request) (g : Grant) (st st' : Scan) : Type 0 where
    candidate : is_some st'.candidate ≡ (is_some st.candidate || matches_request r g)
    permission :
        is_some st'.permission_candidate ≡ (is_some st.permission_candidate || permitted r g)
    task : is_some st'.task_candidate ≡ (is_some st.task_candidate || on_task r g)
    inactive : is_some st'.inactive ≡ (is_some st.inactive || on_task r g)

  visit-Noted :
      (fuel : ℕ) (r : Request) (g : Grant) (st : Scan) {st' : Scan}
      → visit fuel by_id r now st g ≡ ok (skip st')
      → Noted r g st st'
  unfolding visit permitted on_task
  visit-Noted fuel r g st h = ground arith

  visit-inactive :
      (fuel : ℕ) (r : Request) (g : Grant) (st : Scan) {st' : Scan}
      → visit fuel by_id r now st g ≡ ok (skip st')
      → (st'.inactive ≡ st.inactive) ⊎ (active_grant_chain fuel by_id now g ≡ ok st'.inactive)
  unfolding visit
  visit-inactive fuel r g st h = ground arith

  visit-NamesBlocker :
      (fuel : ℕ) (r : Request) (g : Grant) (st : Scan) {st' : Scan}
      → IsIn g grants
      → visit fuel by_id r now st g ≡ ok (skip st')
      → NamesBlocker grants now st.inactive
      → NamesBlocker grants now st'.inactive
  visit-NamesBlocker fuel r g st there h k = elim (visit-inactive fuel r g st h) [
    | inl same ↦ rw same k
    | inr walked ↦ active_grant_chain-NamesBlocker fuel g there walked
  ]

  -- What a loop that denies has in its variables at the end.
  record Ended (r : Request) (gs : List Grant) (st st' : Scan) : Type 0 where
    candidate : is_some st'.candidate ≡ (is_some st.candidate || any (matches_request r) gs)
    permission :
        is_some st'.permission_candidate ≡ (is_some st.permission_candidate || any (permitted r) gs)
    task : is_some st'.task_candidate ≡ (is_some st.task_candidate || any (on_task r) gs)
    inactive : is_some st'.inactive ≡ (is_some st.inactive || any (on_task r) gs)
    blocker : NamesBlocker grants now st'.inactive

  Ended-cons :
      (r : Request) (g : Grant) (gs : List Grant) (st st₁ st' : Scan)
      → Noted r g st st₁
      → Ended r gs st₁ st'
      → Ended r (g ∷ gs) st st'
  Ended-cons r g gs st st₁ st' n d = record {
    candidate = ground (arith, n.candidate, d.candidate);
    permission = ground (arith, n.permission, d.permission);
    task = ground (arith, n.task, d.task);
    inactive = ground (arith, n.inactive, d.inactive);
    blocker = d.blocker;
  }

  scan-Ended :
      (fuel : ℕ) (r : Request) (decision_id : String) (e : Bool) (st : Scan) (gs : List Grant)
      {d : Decision}
      → All (λ g. IsIn g grants) gs
      → NamesBlocker grants now st.inactive
      → scan fuel by_id r (record { now = now; decision_id = decision_id }) e st gs ≡ ok d
      → d.allowed ≡ false
      → (st' : Scan) × Ended r gs st st' × (d ≡ denial e decision_id st')
  unfolding scan
  scan-Ended fuel r decision_id e st [] k b h denied = (
    st,
    record {
      candidate = ground arith;
      permission = ground arith;
      task = ground arith;
      inactive = ground arith;
      blocker = b;
    },
    ground arith,
  )
  scan-Ended fuel r decision_id e st (g ∷ gs) (there, k) b h denied =
      elim (scan-cons fuel by_id r _ e st g gs h) [
        | inr (permits, (ids, walked, made)) ↦ absurd (ground arith)
        | inl (st₁, skipped, more) ↦
            let (st', ended, same) =
              scan-Ended fuel r decision_id e st₁ gs k
                (visit-NamesBlocker fuel r g st there skipped b) more denied in
            (st', Ended-cons r g gs st st₁ st' (visit-Noted fuel r g st skipped) ended, same)
      ]

-- Which of the conditions of a grant fail for all grants is what the reason of a denial says.
pub record Explains (grants : List Grant) (r : Request) (now : ℕ) (d : Decision) : Type 0 where
  pub no_match : (d.reason_code ≡ no_matching_grant) ↔ (any (matches_request r) grants ≡ false)
  pub no_permission :
      (d.reason_code ≡ permission_not_granted)
      ↔ ((any (matches_request r) grants ≡ true) × (any (permitted r) grants ≡ false))
  pub no_task :
      (d.reason_code ≡ task_mismatch)
      ↔ ((any (permitted r) grants ≡ true) × (any (on_task r) grants ≡ false))
  pub blocked :
      (any (on_task r) grants ≡ false)
      ⊎ ((b : Grant) × IsIn b grants
          × (d.grant_ids ≡ b.id ∷ [])
          × (inactive_code now b ≡ some d.reason_code))

-- A permitted request is a matching one, and so on, also over a list.
any-permitted :
    (r : Request) (gs : List Grant)
    → any (permitted r) gs ≡ true
    → any (matches_request r) gs ≡ true
unfolding permitted
any-permitted r [] h = cc
any-permitted r (g ∷ gs) h = ground (arith, any-permitted r gs)

any-on_task :
    (r : Request) (gs : List Grant) → any (on_task r) gs ≡ true → any (permitted r) gs ≡ true
unfolding on_task
any-on_task r [] h = cc
any-on_task r (g ∷ gs) h = ground (arith, any-on_task r gs)

-- The final `switch`, by what the variables of the loop hold.
denial-code :
    (e : Bool) (decision_id : String) (st : Scan)
    → is_some st.inactive ≡ is_some st.task_candidate
    → let d = denial e decision_id st in
      ((is_some st.task_candidate ≡ true)
        × ((b : ReasonCode × String) × (st.inactive ≡ some b)
            × (d.reason_code ≡ b.0)
            × (d.grant_ids ≡ b.1 ∷ [])))
      ⊎ ((is_some st.task_candidate ≡ false)
          × (((is_some st.permission_candidate ≡ true) × (d.reason_code ≡ task_mismatch))
              ⊎ ((is_some st.permission_candidate ≡ false)
                  × (((is_some st.candidate ≡ true) × (d.reason_code ≡ permission_not_granted))
                      ⊎ ((is_some st.candidate ≡ false) × (d.reason_code ≡ no_matching_grant))))))
unfolding denial
denial-code e decision_id st h = elim (Option-cases st.inactive) [
  | inr (b, blocked) ↦ inl (ground arith, (b, blocked, ground arith, ground arith))
  | inl never ↦ inr (ground arith, ground arith)
]

-- A denial names the first condition that fails for every grant; if none fails for every grant, it
-- names a grant of the set that is not in force, and why that grant is not.
pub evaluate-Explains :
    (grants : List Grant) (r : Request) (opts : EvaluateOptions) {d : Decision}
    → evaluate grants r opts ≡ ok d
    → d.allowed ≡ false
    → Explains grants r opts.now d
evaluate-Explains grants r opts {d} h denied =
    let (by_id, set_ok, scanned) = evaluate_parts grants r opts h in
    let set = validate_grant_set-IsGrantSet grants by_id set_ok in
    let (st, ended, same) =
      scan-Ended grants by_id set opts.now (suc (length grants)) r opts.decision_id
        (is_empty grants) start_scan (sort id_less grants)
        ((sort-All id_less (λ g. IsIn g grants) grants).0 (All-IsIn_self grants)) tt scanned
        denied in
    let found = ended.candidate ∙ sort-any id_less (matches_request r) grants in
    let allowing = ended.permission ∙ sort-any id_less (permitted r) grants in
    let tasked = ended.task ∙ sort-any id_less (on_task r) grants in
    let stopped = ended.inactive ∙ sort-any id_less (on_task r) grants in
    rw same (elim (denial-code (is_empty grants) opts.decision_id st (stopped ∙ sym tasked)) [
      | inl (some_task, (b, blocked, code, named)) ↦
          let (g, there, called, why) = rw blocked at ended.blocker in
          ground (
            arith,
            inactive_code_range opts.now g why,
            any-on_task r grants,
            any-permitted r grants,
          )
      | inr rest ↦ ground (arith, any-on_task r grants, any-permitted r grants)
    ])
