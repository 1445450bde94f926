-- ===== src/Policy/Store.antt =====
-- internal/policy/policy.go: Load, Save, Add and Remove, on rules as entries of a registry.
use anyauth.Base.{
  ℕ, String, ◌≡◌, refl, inl, inr, true, false, none, ◌==◌, List, [], arith, ap, eqb, Bool-cases,
  if◌then◌else◌, text_less_asymm, Result, eq_iff,
}
use anyauth.Registry.Store
use anyauth.Registry.Store.{Kind, Lawful, Error, Content, Disk}
use anyauth.Policy.Rules.{Rule, Invalid, normalize, validate, rule_less, effect_deny}
use anyauth.Policy.Normal.{Casing, normalize_idem}

-- The zero value `Rule{}`.
abbrev pub no_rule : Rule
no_rule = record {
  id = "";
  description = "";
  effect = "";
  methods = [];
  path_prefix = "";
  agent_id = "";
  required_scopes = [];
  created_at = 0;
}

-- The default of the creation time; `clock` is time.Now().
unfoldable pub stamp : ℕ → Rule → Rule
stamp clock r = if eqb r.created_at 0 then record r { created_at = clock } else r

module _ (to_upper to_lower : String → String) where
  -- Add appends and does not sort.
  abbrev pub policies : Kind Invalid Rule
  policies = record {
    id_of = λ r. r.id;
    blank = no_rule;
    normalize = normalize to_upper to_lower;
    validate = validate;
    less = rule_less;
    arrange = λ xs. xs;
  }

  unfoldable pub load : Content Rule → Result (Error Invalid) (List Rule)
  load c = Store.load policies c

  unfoldable pub save : List Rule → Disk Rule → Result (Error Invalid) (Unit {0}) × Disk Rule
  save rules d = Store.save policies rules d

  unfoldable pub add : ℕ → Rule → Disk Rule → Result (Error Invalid) Rule × Disk Rule
  add clock r d = Store.add policies (stamp clock (normalize to_upper to_lower r)) d

  unfoldable pub remove : String → Disk Rule → Result (Error Invalid) Rule × Disk Rule
  remove id d = Store.remove policies id d

valid_id : (r : Rule) → validate r ≡ none → ¬ (r.id ≡ "")
unfolding validate
valid_id r h e = ground (arith, eq_iff r.id "")

rule_less_asymm : (a b : Rule) → rule_less a b ≡ true → rule_less b a ≡ false
unfolding rule_less
rule_less_asymm a b h = elim (Bool-cases (a.effect == b.effect)) [
  | inl same ↦
      ground (arith, eq_iff a.effect b.effect, eq_iff b.effect a.effect, text_less_asymm a.id b.id)
  | inr differ ↦ ground (
    arith,
    eq_iff a.effect b.effect,
    eq_iff b.effect a.effect,
    eq_iff a.effect effect_deny,
    eq_iff b.effect effect_deny,
  )
]

module _ (to_upper to_lower : String → String) (casing : Casing to_upper to_lower) where
  pub policies-Lawful : Lawful (policies to_upper to_lower)
  policies-Lawful = record {
    normalize_idem = normalize_idem to_upper to_lower casing;
    less_asymm = rule_less_asymm;
    blank_id = refl;
    valid_id = valid_id;
    arranged = λ a xs. (λ h. h, λ h. h);
  }

  pub normalize-stamp :
      (clock : ℕ) (r : Rule)
      → let made = stamp clock (normalize to_upper to_lower r) in
        normalize to_upper to_lower made ≡ made
  unfolding stamp normalize
  normalize-stamp clock r =
      let same = normalize_idem to_upper to_lower casing r in
      elim (Bool-cases (eqb r.created_at 0)) [
        | inl new ↦ rw new (ap (λ (x : Rule). record x { created_at = clock }) same)
        | inr old ↦ rw old same
      ]
