-- ===== src/Policy/Order.antt =====
-- The order in which Evaluate visits the rules (sortRules of internal/policy/policy.go): the deny
-- rules come first, and what the loop answers on such a list.
use anyauth.Base.{
  inl, inr, ◌≡◌, refl, Bool, true, false, not, ◌&&◌, Option, none, some, List, [], ◌∷◌, ◌==◌, arith,
  All, any, Bool-cases, insert, insert-All, sort, eq_iff,
}
use anyauth.Policy.Rules.{Rule, Request, effect_deny, rule_less, sort_rules}
use anyauth.Policy.Evaluate.{matches_base, has_required_scopes, first_missing, scan}

abbrev pub is_deny : Rule → Bool
is_deny r = r.effect == effect_deny

-- No deny rule stands behind another rule.
abbrev pub DenyFirst : List Rule → Type 0
DenyFirst [] = Unit
DenyFirst (x ∷ xs) = (is_deny x ≡ false → All (λ y. is_deny y ≡ false) xs) × DenyFirst xs

rule_less-deny : (a b : Rule) → is_deny a ≡ true → is_deny b ≡ false → rule_less a b ≡ true
unfolding rule_less
rule_less-deny a b h k = elim (Bool-cases (a.effect == b.effect)) [
  | inl same ↦ absurd (ground (arith, eq_iff a.effect b.effect))
  | inr differ ↦ ground arith
]

rule_less-allow : (a b : Rule) → is_deny a ≡ false → is_deny b ≡ true → rule_less a b ≡ false
unfolding rule_less
rule_less-allow a b h k = elim (Bool-cases (a.effect == b.effect)) [
  | inl same ↦ absurd (ground (arith, eq_iff a.effect b.effect))
  | inr differ ↦ ground arith
]

insert-DenyFirst : (x : Rule) (ys : List Rule) → DenyFirst ys → DenyFirst (insert rule_less x ys)
unfolding insert
insert-DenyFirst x [] h = (λ e. tt, tt)
insert-DenyFirst x (y ∷ ys) (h, k) = elim (Bool-cases (rule_less y x)) [
  | inl later ↦ rw later (
    (λ e. (insert-All rule_less (λ z. is_deny z ≡ false) x ys).0 (
      elim (Bool-cases (is_deny x)) [
        | inl deny ↦ absurd (ground (arith, rule_less-allow y x e deny))
        | inr other ↦ other
      ],
      h e,
    )),
    insert-DenyFirst x ys k,
  )
  | inr here ↦ rw here (
    (λ e. elim (Bool-cases (is_deny y)) [
      | inl deny ↦ absurd (ground (arith, rule_less-deny y x deny e))
      | inr other ↦ (other, h other)
    ]),
    (h, k),
  )
]

pub sort_rules-DenyFirst : (rules : List Rule) → DenyFirst (sort_rules rules)
unfolding sort_rules sort
sort_rules-DenyFirst [] = tt
sort_rules-DenyFirst (x ∷ xs) = insert-DenyFirst x (sort rule_less xs) (sort_rules-DenyFirst xs)

-- A rule that denies the request, and one that allows it.
abbrev pub blocks : Request → Rule → Bool
blocks q r = matches_base r q && is_deny r

abbrev pub permits : Request → Rule → Bool
permits q r = matches_base r q && not (is_deny r) && has_required_scopes q.scopes r.required_scopes

no_blocks :
    (q : Request) (rs : List Rule) → All (λ y. is_deny y ≡ false) rs → any (blocks q) rs ≡ false
no_blocks q [] h = refl
no_blocks q (r ∷ rs) (p, h) = ground (arith, no_blocks q rs h)

-- The answer of the loop.
pub scan-allowed :
    (q : Request) (missing : Option Rule) (rs : List Rule)
    → DenyFirst rs
    → (scan q missing rs).allowed ≡ (not (any (blocks q) rs) && any (permits q) rs)
unfolding scan
scan-allowed q none [] h = refl
scan-allowed q (some r) [] h = refl
scan-allowed q missing (r ∷ rs) (p, h) = elim (Bool-cases (matches_base r q)) [
  | inr apart ↦ rw (apart, scan-allowed q missing rs h)
  | inl meets ↦ elim (Bool-cases (is_deny r)) [
    | inl deny ↦ rw (meets, deny)
    | inr other ↦ elim (Bool-cases (has_required_scopes q.scopes r.required_scopes)) [
      | inl enough ↦ rw (meets, other, enough, no_blocks q rs (p other))
      | inr lacks ↦ rw (meets, other, lacks) (scan-allowed q (first_missing missing r) rs h)
    ]
  ]
]
