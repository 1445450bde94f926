-- ===== src/Authz/Stopped.antt =====
-- What a revocation does to the walk up the chain and to the rounds of Evaluate
-- (internal/authz/evaluate.go), for the grants derived from the one revoked.
use anyauth.Base.{
  ℕ, suc, String, ◌≤◌, ◌≡◌, ◌≢◌, inl, inr, none, some, List, [], arith, length, ok, Option-cases,
  Result-cases,
}
use anyauth.Authz.Model.{Request}
use anyauth.Authz.Grants.{Grant}
use anyauth.Authz.GrantSet.{ReasonCode, validate_grant_set, active_grant_chain}
use anyauth.Authz.Evaluate.{Scan, permit, visit}
use anyauth.Authz.Sets.{IsIn, IsGrantSet, All-IsIn, validate_grant_set-IsGrantSet}
use anyauth.Authz.Active.{active_grant_chain_iff, inactive_code_iff}
use anyauth.Authz.Termination.{active_grant_chain_total}
use anyauth.Authz.Decisions.{visit-permit}
use anyauth.Authz.Attenuation.{IsAncestor, ActiveChain-ancestor, inactive_code-revoked}

module _ (grants by_id : List Grant) (now at : ℕ) {a g : Grant} where
  revoked_chain :
      IsGrantSet grants by_id
      → IsIn g grants
      → IsAncestor grants a g
      → a.revoked_at ≡ some at
      → at ≤ now
      → active_grant_chain (suc (length grants)) by_id now g ≢ ok none
  revoked_chain set there up revoked later walked = inactive_code-revoked now at a revoked later (
      (inactive_code_iff now a).1 (
        ActiveChain-ancestor grants by_id set now
          ((active_grant_chain_iff grants by_id set now g there).0 walked) up))

  -- Revoking a grant takes effect on everything derived from it: from that instant on, the walk up the
  -- chain of a grant with a revoked ancestor ends with an obstacle, for the fuel that Evaluate gives
  -- it, and the round of Evaluate at that grant does not allow, whatever the request and whatever the
  -- rounds before.
  pub revoked_ancestor-blocks :
      (r : Request) (st : Scan)
      → validate_grant_set grants ≡ ok by_id
      → IsIn g grants
      → IsAncestor grants a g
      → a.revoked_at ≡ some at
      → at ≤ now
      → ((code : ReasonCode) × (id : String) × (active_grant_chain (suc (length grants)) by_id now g
            ≡ ok (some (code, id))))
        × (visit (suc (length grants)) by_id r now st g ≢ ok permit)
  revoked_ancestor-blocks r st h there up revoked later =
      let set = validate_grant_set-IsGrantSet grants by_id h in
      let stopped = revoked_chain set there up revoked later in
      let total =
        active_grant_chain_total (suc (length grants)) by_id [] now g
          (All-IsIn _ grants g set.rooted there) in
      (
        elim (Result-cases (active_grant_chain (suc (length grants)) by_id now g)) [
          | inr other ↦ absurd (ground arith)
          | inl (found, walked) ↦ elim (Option-cases found) [
            | inl clear ↦ absurd (stopped (rw clear at walked))
            | inr ((code, id), obstacle) ↦ (code, id, rw obstacle at walked)
          ]
        ],
        λ permitted. stopped ((visit-permit _ by_id r now st g).0 permitted).3,
      )
