-- ===== src/Policy/Rules.antt =====
-- internal/policy/policy.go: rules and requests, their normal form and the validator. An effect is a
-- text, as in the source. strings.ToUpper and strings.ToLower, of the packages strings and unicode,
-- are the parameters `to_upper` and `to_lower`.
use Prim.Native.String
use anyauth.Base.{
  ℕ, String, Bool, not, ◌&&◌, ◌||◌, Option, List, [], ◌∷◌, map, ◌==◌, ltb, eqb, if◌then◌else◌,
  trim_space, contains_any, has_prefix, contains, collect, sort, text_less, reject, first_error,
  first_error_of,
}

abbrev pub effect_allow : String
effect_allow = "allow"

abbrev pub effect_deny : String
effect_deny = "deny"

pub record Rule : Type 0 where
  pub id : String
  pub description : String
  pub effect : String
  pub methods : List String
  pub path_prefix : String
  pub agent_id : String
  pub required_scopes : List String
  pub created_at : ℕ

pub record Request : Type 0 where
  pub method : String
  pub path : String
  pub agent_id : String
  pub scopes : List String

-- The errors of Validate.
pub data Invalid : Type 0 where
  id_required id_has_whitespace effect_unknown path_prefix_shape method_empty : Invalid
  method_unsupported scope_invalid : String → Invalid
  created_at_required : Invalid

unfoldable pub normalize_path : String → String
normalize_path path =
    let p = trim_space path in
    if p == "" then p else if not (has_prefix p "/") then String.◌++◌ "/" p else p

unfoldable pub normalize_scopes : List String → List String
normalize_scopes scopes = sort text_less (collect [] scopes)

-- The loop of normalizeMethods over the methods, after a set of seen ones.
unfoldable pub collect_methods : (String → String) → List String → List String → List String
collect_methods to_upper seen [] = []
collect_methods to_upper seen (v ∷ vs) =
    let upper = to_upper (trim_space v) in
    let method = if upper == "ANY" then "*" else upper in
    let skipped = collect_methods to_upper seen vs in
    let kept = method ∷ collect_methods to_upper (method ∷ seen) vs in
    if upper == "" then skipped else if contains seen method then skipped else kept

unfoldable pub normalize_methods : (String → String) → List String → List String
normalize_methods to_upper methods = sort text_less (collect_methods to_upper [] methods)

module _ (to_upper to_lower : String → String) where
  unfoldable pub normalize : Rule → Rule
  normalize r = record r {
    id = trim_space r.id;
    description = trim_space r.description;
    effect = to_lower (trim_space r.effect);
    path_prefix = normalize_path r.path_prefix;
    agent_id = trim_space r.agent_id;
    methods = normalize_methods to_upper r.methods;
    required_scopes = normalize_scopes r.required_scopes;
  }

  abbrev pub normalize_all : List Rule → List Rule
  normalize_all rules = map normalize rules

  -- What Evaluate does to the request first.
  unfoldable pub normalize_request : Request → Request
  normalize_request q = record {
    method = to_upper (trim_space q.method);
    path = normalize_path q.path;
    agent_id = trim_space q.agent_id;
    scopes = normalize_scopes q.scopes;
  }

unfoldable pub valid_http_method : String → Bool
valid_http_method method =
    contains ("GET" ∷ "HEAD" ∷ "POST" ∷ "PUT" ∷ "PATCH" ∷ "DELETE" ∷ "OPTIONS" ∷ []) method

unfoldable pub validate_method : String → Option Invalid
validate_method method = first_error (
    reject (method == "") method_empty
    ∷ reject (not (method == "*") && not (valid_http_method method)) (method_unsupported method)
    ∷ [])

unfoldable pub validate_scope : String → Option Invalid
validate_scope scope = reject (scope == "" || contains_any scope " \t\r\n") (scope_invalid scope)

unfoldable pub validate : Rule → Option Invalid
validate r = first_error (
    reject (r.id == "") id_required
    ∷ reject (contains_any r.id " \t\r\n") id_has_whitespace
    ∷ reject (not (r.effect == effect_allow) && not (r.effect == effect_deny)) effect_unknown
    ∷ reject
        (r.path_prefix == "" || not (has_prefix r.path_prefix "/") || has_prefix r.path_prefix "//")
        path_prefix_shape
    ∷ first_error_of validate_method r.methods
    ∷ first_error_of validate_scope r.required_scopes
    ∷ reject (eqb r.created_at 0) created_at_required
    ∷ [])

-- The comparison of sortRules: deny first, then the longer prefix in bytes, then the ID.
unfoldable pub rule_less : Rule → Rule → Bool
rule_less a b =
    if not (a.effect == b.effect)
    then a.effect == effect_deny
    else if not (eqb (String.len a.path_prefix) (String.len b.path_prefix))
    then ltb (String.len b.path_prefix) (String.len a.path_prefix)
    else text_less a.id b.id

unfoldable pub sort_rules : List Rule → List Rule
sort_rules rules = sort rule_less rules
