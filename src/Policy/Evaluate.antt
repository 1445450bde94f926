-- ===== src/Policy/Evaluate.antt =====
-- internal/policy/policy.go: Evaluate and the tests it makes of a rule. Of a decision's reason the
-- text is kept.
use Prim.Native.Char.{Char, code}
use Prim.Native.String
use anyauth.Base.{
  String, Bool, true, false, not, ◌&&◌, ◌||◌, Option, none, some, List, [], ◌∷◌, ◌==◌, eqb,
  if◌then◌else◌, has_prefix, any, contains, is_empty,
}
use anyauth.Policy.Rules.{Rule, Request, effect_deny, normalize_all, normalize_request, sort_rules}

pub record Decision : Type 0 where
  pub allowed : Bool
  pub rule : Option Rule
  pub reason : String

unfoldable pub method_matches : List String → String → Bool
method_matches methods method = is_empty methods || any (λ m. m == "*" || m == method) methods

-- `c` goes if it is a slash and all behind it went.
unfoldable pub keep_unless_slash : Char → String → String
keep_unless_slash c rest = if eqb (code c) 47 && rest == "" then "" else String.◌∷◌ c rest

-- `strings.TrimRight(s, "/")`
unfoldable pub trim_right_slash : String → String
trim_right_slash String.[] = ""
trim_right_slash (String.◌∷◌ c s) = keep_unless_slash c (trim_right_slash s)

unfoldable pub path_prefix_matches : String → String → Bool
path_prefix_matches path prefix =
    if prefix == "/"
    then has_prefix path "/"
    else path == prefix || has_prefix path (String.◌++◌ (trim_right_slash prefix) "/")

unfoldable pub matches_base : Rule → Request → Bool
matches_base rule q =
    if not (rule.agent_id == "") && not (rule.agent_id == q.agent_id)
    then false
    else if not (method_matches rule.methods q.method)
    then false
    else path_prefix_matches q.path rule.path_prefix

-- The loop over the required scopes; `have` is the set of the scopes.
unfoldable pub has_required_scopes : List String → List String → Bool
has_required_scopes have [] = true
has_required_scopes have (s ∷ required) =
    let rest = has_required_scopes have required in if not (contains have s) then false else rest

-- `if candidateMissingScope == nil { candidateMissingScope = ... }`
abbrev pub first_missing : Option Rule → Rule → Option Rule
first_missing none r = some r
first_missing (some old) r = some old

-- What is returned after the loop.
abbrev pub no_match : Option Rule → Decision
no_match none = record { allowed = false; rule = none; reason = "no matching allow policy" }
no_match (some r) = record {
  allowed = false;
  rule = some r;
  reason = String.◌++◌ "missing required scope for policy " r.id;
}

-- The loop over the rules, with the first candidate that misses a scope.
unfoldable pub scan : Request → Option Rule → List Rule → Decision
scan q missing [] = no_match missing
scan q missing (r ∷ rs) =
    let skipped = scan q missing rs in
    let noted = scan q (first_missing missing r) rs in
    if not (matches_base r q)
    then skipped
    else if r.effect == effect_deny
    then record { allowed = false; rule = some r; reason = String.◌++◌ "matched deny policy " r.id }
    else if not (has_required_scopes q.scopes r.required_scopes)
    then noted
    else record { allowed = true; rule = some r; reason = String.◌++◌ "matched allow policy " r.id }

abbrev pub decide : Request → List Rule → Decision
decide q rules =
    if is_empty rules
    then record { allowed = true; rule = none; reason = "no policies configured" }
    else scan q none rules

unfoldable pub evaluate : (to_upper to_lower : String → String) → List Rule → Request → Decision
evaluate to_upper to_lower rules q =
    decide (normalize_request to_upper to_lower q)
      (sort_rules (normalize_all to_upper to_lower rules))
