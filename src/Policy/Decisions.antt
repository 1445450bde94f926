-- ===== src/Policy/Decisions.antt =====
-- What Evaluate of internal/policy/policy.go decides.
use anyauth.Base.{
  String, ◌≡◌, refl, ◌∙◌, ◌↔◌, ◌⊎◌, inl, inr, true, false, not, ◌&&◌, none, List, [], ◌∷◌, arith,
  if◌then◌else◌, Any, any, any_iff, Bool-cases, is_empty, insert, sort, sort-any, eq_iff,
}
use anyauth.Policy.Rules.{
  Rule, Request, effect_deny, normalize_all, normalize_request, rule_less, sort_rules,
}
use anyauth.Policy.Evaluate.{decide, evaluate}
use anyauth.Policy.Order.{blocks, permits, sort_rules-DenyFirst, scan-allowed}
use anyauth.Policy.Matching.{Matches, HasScopes, matches_base_iff, has_required_scopes_iff}

-- A rule that denies the request.
abbrev pub Denies : Request → Rule → Type 0
Denies q r = Matches q r × (r.effect ≡ effect_deny)

-- A rule that allows it: one that does not deny and whose scopes the request has.
abbrev pub Allows : Request → Rule → Type 0
Allows q r = Matches q r × ¬ (r.effect ≡ effect_deny) × HasScopes q.scopes r.required_scopes

blocks_iff : (q : Request) (r : Rule) → (blocks q r ≡ true) ↔ Denies q r
blocks_iff q r = ground (arith, matches_base_iff r q, eq_iff r.effect effect_deny)

permits_iff : (q : Request) (r : Rule) → (permits q r ≡ true) ↔ Allows q r
permits_iff q r = ground (
  arith,
  matches_base_iff r q,
  eq_iff r.effect effect_deny,
  has_required_scopes_iff q.scopes r.required_scopes,
)

is_empty-insert : (x : Rule) (ys : List Rule) → is_empty (insert rule_less x ys) ≡ false
unfolding insert
is_empty-insert x [] = refl
is_empty-insert x (y ∷ ys) = ground arith

is_empty-sort : (rs : List Rule) → is_empty (sort rule_less rs) ≡ is_empty rs
unfolding sort
is_empty-sort [] = refl
is_empty-sort (x ∷ xs) = is_empty-insert x (sort rule_less xs)

decide-allowed :
    (q : Request) (rs : List Rule)
    → (decide q (sort_rules rs)).allowed
      ≡ (if is_empty rs then true else not (any (blocks q) rs) && any (permits q) rs)
unfolding sort_rules
decide-allowed q rs = elim (Bool-cases (is_empty rs)) [
  | inl e ↦ rw (is_empty-sort rs, e)
  | inr e ↦
      rw (is_empty-sort rs, e)
        (scan-allowed q none (sort rule_less rs) (sort_rules-DenyFirst rs)
          ∙ rw (sort-any rule_less (blocks q) rs, sort-any rule_less (permits q) rs))
]

-- Evaluate allows a request exactly if there are no rules, or if, of the normalized rules, none
-- denies the normalized request and one allows it, in whatever order the rules are listed.
pub evaluate-Allows_iff :
    (to_upper to_lower : String → String) (rules : List Rule) (req : Request)
    → let rs = normalize_all to_upper to_lower rules in
      let q = normalize_request to_upper to_lower req in
      ((evaluate to_upper to_lower rules req).allowed ≡ true)
      ↔ ((rules ≡ []) ⊎ (¬ Any (Denies q) rs × Any (Allows q) rs))
unfolding evaluate sort_rules sort
evaluate-Allows_iff to_upper to_lower [] req = (λ h. inl refl, λ h. refl)
evaluate-Allows_iff to_upper to_lower (x ∷ xs) req =
    let rs = normalize_all to_upper to_lower (x ∷ xs) in
    let q = normalize_request to_upper to_lower req in
    ground (
      arith,
      decide-allowed q rs,
      any_iff (Denies q) (blocks q) (blocks_iff q) rs,
      any_iff (Allows q) (permits q) (permits_iff q) rs,
    )
