-- ===== src/Authz/Examples.antt =====
-- A subject, an agent that it grants authority to, and a workload to which the agent derives part
-- of it: runs of the evaluator, and the theorems at them.
use anyauth.Base.{
  String, suc, length, ◌≡◌, refl, ◌⊎◌, ◌↔◌, ◌≢◌, true, false, none, some, List, [], ◌∷◌, arith, Any,
  insert, sort, text_less, trim_space, contains_any, ok, diverged, inl, inr,
}
use anyauth.Authz.Model.{
  validate_token, validate_resource_id, Identity, equal, validate_identity, validate_action,
  validate_resource, validate_selector, contains_resource, contains_selector, validate_permission,
  permits, contains_permission, Request, validate_context, validate_request,
}
use anyauth.Authz.Grants.{
  Grant, permission_key, validate_permissions, validate_grant, is_contained, validate_contained,
  validate_derived_grant,
}
use anyauth.Authz.GrantSet.{
  ReasonCode, task_mismatch, grant_revoked, find_grant, get_grant, index_grants, check_parent,
  ancestry, check_ancestry, validate_grant_set, inactive_code, active_grant_chain, grant_chain_ids,
}
use anyauth.Authz.Evaluate.{
  Decision, EvaluateOptions, matches_request, grant_allows_permission, task_allows, visit, denial,
  start_scan, permit, scan, id_less, evaluate,
}
use anyauth.Authz.Active.{Authorizes}
use anyauth.Authz.Termination.{evaluate_total, evaluate-ne-diverged}
use anyauth.Authz.Decisions.{evaluate-allowed_iff}
use anyauth.Authz.Reasons.{Explains, evaluate-Explains}
use anyauth.Authz.Attenuation.{
  IsWithin, itself, above, validate_grant_set-IsWithin, ancestor-blocks_by_revocation,
}
use anyauth.Authz.Stopped.{revoked_ancestor-blocks}
use anyauth.Authz.Service.{Authorizer, check_request, Went, check_request-Went}

program : Unit {0}
unfolding trim_space contains_any insert sort text_less validate_token validate_resource_id equal
    validate_identity validate_action validate_resource validate_selector contains_resource
    contains_selector validate_permission permits contains_permission validate_context
    validate_request permission_key validate_permissions validate_grant is_contained
    validate_contained validate_derived_grant find_grant get_grant index_grants check_parent
    ancestry check_ancestry validate_grant_set inactive_code active_grant_chain grant_chain_ids
    matches_request grant_allows_permission task_allows visit denial scan id_less evaluate
program = tt

abbrev alice : Identity
alice = record { type = "human"; id = "alice" }

abbrev agent : Identity
agent = record { type = "agent"; id = "planner" }

abbrev worker : Identity
worker = record { type = "workload"; id = "worker" }

abbrev top : Grant
top = record {
  id = "g1";
  subject = alice;
  issuer = alice;
  grantee = agent;
  application_id = "docs";
  permissions = (record { action = "read"; resource = record { type = "doc"; id = "*" } }) ∷ [];
  task_id = "";
  not_before = 10;
  expires_at = 100;
  revoked_at = none;
  parent_grant_id = "";
  created_at = 10;
}

abbrev part : Grant
part = record top {
  id = "g2";
  issuer = agent;
  grantee = worker;
  permissions = (record { action = "read"; resource = record { type = "doc"; id = "7" } }) ∷ [];
  not_before = 20;
  expires_at = 50;
  parent_grant_id = "g1";
}

abbrev grants : List Grant
grants = part ∷ top ∷ []

-- The same with the root revoked.
abbrev revoked_top : Grant
revoked_top = record top { revoked_at = some 30 }

abbrev revoked : List Grant
revoked = part ∷ revoked_top ∷ []

abbrev ask : Request
ask = record {
  actor = worker;
  subject = alice;
  application_id = "docs";
  action = record { name = "read" };
  resource = record { type = "doc"; id = "7" };
  context = record { task_id = "" };
}

abbrev at_30 : EvaluateOptions
at_30 = record { now = 30; decision_id = "dec" }

abbrev yes_decision : Decision
yes_decision = record {
  allowed = true;
  decision_id = "dec";
  reason_code = anyauth.Authz.GrantSet.ReasonCode.matching_grant;
  reason = "matched active grant g2";
  grant_ids = "g2" ∷ "g1" ∷ [];
}

abbrev no_decision : Decision
no_decision = record {
  allowed = false;
  decision_id = "dec";
  reason_code = grant_revoked;
  reason = "grant g1 is not active";
  grant_ids = "g1" ∷ [];
}

allows : evaluate grants ask at_30 ≡ ok yes_decision
unfolding program
allows = refl

denies : evaluate revoked ask at_30 ≡ ok no_decision
unfolding program
denies = refl

grants_valid : validate_grant_set grants ≡ ok (top ∷ part ∷ [])
unfolding program
grants_valid = refl

revoked_valid : validate_grant_set revoked ≡ ok (revoked_top ∷ part ∷ [])
unfolding program
revoked_valid = refl

ask_valid : validate_request ask ≡ none
unfolding program
ask_valid = refl

evaluate-allowed_iff_example : (true ≡ true) ↔ Any (Authorizes grants ask 30) grants
evaluate-allowed_iff_example = evaluate-allowed_iff grants ask at_30 {d = yes_decision} allows

evaluate-Explains_example : Explains revoked ask 30 no_decision
evaluate-Explains_example = evaluate-Explains revoked ask at_30 denies refl

evaluate_total_example : (d : Decision) × (evaluate grants ask at_30 ≡ ok d)
evaluate_total_example =
    evaluate_total grants (top ∷ part ∷ []) ask at_30 grants_valid ask_valid (omega arith) (λ e. cc)

-- Two grants that name each other as parent.
abbrev looped : List Grant
looped =
    part
    ∷ record top { parent_grant_id = "g2"; issuer = worker; not_before = 20; expires_at = 50 }
    ∷ []

evaluate-ne-diverged_example : evaluate looped ask at_30 ≢ diverged
evaluate-ne-diverged_example = evaluate-ne-diverged looped ask at_30

part_derived : validate_derived_grant part top ≡ none
unfolding program
part_derived = refl

validate_grant_set-IsWithin_example : IsWithin part top
validate_grant_set-IsWithin_example =
    validate_grant_set-IsWithin grants (top ∷ part ∷ []) grants_valid (inl refl)
      (above top (λ e. cc) (inr (inl refl)) refl itself)

ancestor-blocks_by_revocation_example :
    (inactive_code 30 revoked_top ≡ none) ⊎ (inactive_code 30 revoked_top ≡ some grant_revoked)
ancestor-blocks_by_revocation_example =
    ancestor-blocks_by_revocation revoked (revoked_top ∷ part ∷ []) 30 revoked_valid (inl refl)
      (above revoked_top (λ e. cc) (inr (inl refl)) refl itself) (omega arith) (omega arith)

revoked_ancestor-blocks_example :
    ((code : ReasonCode) × (id : String) × (active_grant_chain
          (suc (length revoked))
          (revoked_top ∷ part ∷ [])
          30
          part
        ≡ ok (some (code, id))))
    × (visit (suc (length revoked)) (revoked_top ∷ part ∷ []) ask 30 start_scan part ≢ ok permit)
revoked_ancestor-blocks_example =
    revoked_ancestor-blocks revoked (revoked_top ∷ part ∷ []) 30 30 ask start_scan revoked_valid
      (inl refl) (above revoked_top (λ e. cc) (inr (inl refl)) refl itself) refl (omega arith)

-- A service over the two grants, whose state is the list of the recorded decisions.
abbrev service : Authorizer (List Decision)
service = record {
  list_grants = λ log. ok grants;
  record_decision = λ r d log. (none, d ∷ log);
  now = λ log. 30;
  new_id = λ log. (ok "dec", log);
}

serves : check_request service ask [] ≡ (ok yes_decision, yes_decision ∷ [])
unfolding program check_request
serves = refl

check_request-Went_example : Went service ask [] (yes_decision ∷ []) yes_decision
check_request-Went_example =
    check_request-Went service ask [] (yes_decision ∷ []) yes_decision serves
