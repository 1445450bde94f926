-- ===== src/Authz/Evaluate.antt =====
-- internal/authz/evaluate.go: Evaluate, with the decisions of model.go.
use Prim.Native.String
use anyauth.Base.{
  ℕ, suc, String, Bool, true, false, not, ◌&&◌, ◌||◌, Option, none, some, List, [], ◌∷◌, ◌==◌, eqb,
  if◌then◌else◌, reject, wrap, any, is_empty, length, sort, text_less, Result, ok, ◌>>=◌, ◌>>◌,
  check,
}
use anyauth.Authz.Model.{
  Error, no_evaluation_time, no_decision_id, equal, Action, Resource, permits, Request,
  validate_request,
}
use anyauth.Authz.Grants.{Grant}
use anyauth.Authz.GrantSet.{
  ReasonCode, matching_grant, no_matching_grant, permission_not_granted, task_mismatch,
  validate_grant_set, active_grant_chain, grant_chain_ids,
}

pub record Decision : Type 0 where
  pub allowed : Bool
  pub decision_id : String
  pub reason_code : ReasonCode
  pub reason : String
  pub grant_ids : List String

pub record EvaluateOptions : Type 0 where
  pub now : ℕ
  pub decision_id : String

unfoldable pub grant_allows_permission : Grant → Action → Resource → Bool
grant_allows_permission g action resource = any (λ p. permits p action resource) g.permissions

-- The variables of the loop of Evaluate.
pub record Scan : Type 0 where
  pub candidate : Option Grant
  pub permission_candidate : Option Grant
  pub task_candidate : Option Grant
  pub inactive : Option (ReasonCode × String)

abbrev pub start_scan : Scan
start_scan = record {
  candidate = none;
  permission_candidate = none;
  task_candidate = none;
  inactive = none;
}

abbrev keep_first {ℓ} : {A : Type ℓ} → Option A → A → Option A
keep_first none a = some a
keep_first (some b) a = some b

-- How a round of the loop ends: `continue`, or the return of an allowing decision.
pub data Visit : Type 0 where
  skip : Scan → Visit
  permit : Visit

unfoldable pub matches_request : Request → Grant → Bool
matches_request r g =
    equal g.subject r.subject && equal g.grantee r.actor && g.application_id == r.application_id

unfoldable pub task_allows : Request → Grant → Bool
task_allows r g = g.task_id == "" || g.task_id == r.context.task_id

abbrev end_visit : Scan → Option (ReasonCode × String) → Visit
end_visit st none = permit
end_visit st (some blocked) = skip (record st { inactive = keep_first st.inactive blocked })

-- The body of the loop of Evaluate.
unfoldable pub visit : ℕ → List Grant → Request → ℕ → Scan → Grant → Result Error Visit
visit fuel by_id r now st g =
    let found = record st { candidate = keep_first st.candidate g } in
    let allowing = record found { permission_candidate = keep_first st.permission_candidate g } in
    let on_task = record allowing { task_candidate = keep_first st.task_candidate g } in
    if not (matches_request r g)
    then ok (skip st)
    else if not (grant_allows_permission g r.action r.resource)
    then ok (skip found)
    else if not (task_allows r g)
    then ok (skip allowing)
    else (active_grant_chain fuel by_id now g >>= λ blocked. ok (end_visit on_task blocked))

abbrev pub allowing_decision : String → Grant → List String → Decision
allowing_decision decision_id g ids = record {
  allowed = true;
  decision_id = decision_id;
  reason_code = matching_grant;
  reason = String.◌++◌ "matched active grant " g.id;
  grant_ids = ids;
}

abbrev pub denying_decision : String → ReasonCode → String → List String → Decision
denying_decision decision_id code reason ids = record {
  allowed = false;
  decision_id = decision_id;
  reason_code = code;
  reason = reason;
  grant_ids = ids;
}

-- The final `switch` of Evaluate, on taskCandidate, inactiveReason, permissionCandidate and
-- candidate.
denial_of :
    Bool
    → String
    → Option Grant
    → Option (ReasonCode × String)
    → Option Grant
    → Option Grant
    → Decision
denial_of no_grants decision_id (some t) (some (code, id)) _ _ =
    denying_decision decision_id code (String.◌++◌ "grant " (String.◌++◌ id " is not active"))
      (id ∷ [])
denial_of no_grants decision_id _ _ (some g) _ =
    denying_decision decision_id task_mismatch
      (String.◌++◌ "request task does not match grant " g.id) (g.id ∷ [])
denial_of no_grants decision_id _ _ none (some g) =
    denying_decision decision_id permission_not_granted
      "no candidate grant contains the requested action and resource" []
denial_of no_grants decision_id _ _ none none =
    denying_decision decision_id no_matching_grant
      (if no_grants
        then "no grants are configured"
        else "no grant matches the actor, subject, and application")
      []

unfoldable pub denial : Bool → String → Scan → Decision
unfolding denial_of
denial no_grants decision_id st =
    denial_of no_grants decision_id st.task_candidate st.inactive st.permission_candidate
      st.candidate

-- A `continue` runs the rest of the loop, an allowing grant returns.
abbrev pub resume :
    (Scan → Result Error Decision) → Result Error Decision → Visit → Result Error Decision
resume go_on returned (skip st) = go_on st
resume go_on returned permit = returned

-- The loop of Evaluate over the sorted grants, with what follows it.
module _ (fuel : ℕ) (by_id : List Grant) (r : Request) (opts : EvaluateOptions)
    (no_grants : Bool) where
  unfoldable pub scan : Scan → List Grant → Result Error Decision
  scan st [] = ok (denial no_grants opts.decision_id st)
  scan st (g ∷ gs) =
      visit fuel by_id r opts.now st g
      >>= resume (λ st'. scan st' gs)
          (grant_chain_ids fuel by_id g >>= λ ids. ok (allowing_decision opts.decision_id g ids))

-- The order by which Evaluate sorts its grants.
unfoldable pub id_less : Grant → Grant → Bool
id_less a b = text_less a.id b.id

unfoldable pub evaluate : List Grant → Request → EvaluateOptions → Result Error Decision
evaluate grants r opts = do
  check (wrap Error.request (validate_request r))
  check (reject (eqb opts.now 0) no_evaluation_time)
  check (reject (opts.decision_id == "") no_decision_id)
  by_id ← validate_grant_set grants
  scan (suc (length grants)) by_id r opts (is_empty grants) start_scan (sort id_less grants)
