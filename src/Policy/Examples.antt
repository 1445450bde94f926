-- ===== src/Policy/Examples.antt =====
-- Rules of a small service, in which letters outside ASCII have no case; the theorems at them.
use anyauth.Base.{
  String, ◌≡◌, refl, ◌↔◌, ◌⊎◌, true, false, List, [], ◌∷◌, Any, insert, sort, text_less, trim_space,
  has_prefix, collect, contains_any, ok,
}
use anyauth.Policy.Rules.{
  Rule, Request, normalize_path, normalize_scopes, collect_methods, normalize_methods, normalize,
  validate_method, validate_scope, valid_http_method, validate, normalize_all, normalize_request,
  rule_less, sort_rules,
}
use anyauth.Policy.Evaluate.{
  method_matches, keep_unless_slash, trim_right_slash, path_prefix_matches, matches_base,
  has_required_scopes, scan, evaluate,
}
use anyauth.Policy.Matching.{Covers, matches_base_iff, path_prefix_matches_iff}
use anyauth.Registry.Store
use anyauth.Registry.Store.{absent, stored, Disk, validate_all, plan_add}
use anyauth.Policy.Normal.{Casing}
use anyauth.Policy.Store.{stamp, load, add}
use anyauth.Policy.Files.{add-Denies}
use anyauth.Policy.Decisions.{Denies, Allows, evaluate-Allows_iff}

program : Unit {0}
unfolding insert sort text_less trim_space has_prefix collect normalize_path normalize_scopes
    collect_methods normalize_methods normalize normalize_request rule_less sort_rules
    method_matches keep_unless_slash trim_right_slash path_prefix_matches matches_base
    has_required_scopes scan evaluate validate_method validate_scope valid_http_method validate
    contains_any validate_all Store.load Store.save plan_add Store.add stamp load add
program = tt

-- The texts of the example are in one case already.
abbrev same_case : String → String
same_case s = s

abbrev read_docs : Rule
read_docs = record {
  id = "read-docs";
  description = "";
  effect = "allow";
  methods = "GET" ∷ [];
  path_prefix = "/docs";
  agent_id = "";
  required_scopes = "docs:read" ∷ [];
  created_at = 1;
}

abbrev no_drafts : Rule
no_drafts = record read_docs {
  id = "no-drafts";
  effect = "deny";
  methods = [];
  path_prefix = "/docs/drafts/";
  required_scopes = [];
}

abbrev rules : List Rule
rules = read_docs ∷ no_drafts ∷ []

abbrev get : String → Request
get path = record { method = "GET"; path = path; agent_id = "planner"; scopes = "docs:read" ∷ [] }

allows : (evaluate same_case same_case rules (get "/docs/7")).allowed ≡ true
unfolding program
allows = refl

denies : (evaluate same_case same_case rules (get "/docs/drafts/7")).allowed ≡ false
unfolding program
denies = refl

segment : path_prefix_matches "/documents" "/doc" ≡ false
unfolding program
segment = refl

evaluate-Allows_iff_example :
    ((evaluate same_case same_case rules (get "/docs/7")).allowed ≡ true) ↔ (
      (rules ≡ [])
      ⊎ (¬ Any
            (Denies (normalize_request same_case same_case (get "/docs/7")))
            (normalize_all same_case same_case rules)
          × Any
              (Allows (normalize_request same_case same_case (get "/docs/7")))
              (normalize_all same_case same_case rules)))
evaluate-Allows_iff_example = evaluate-Allows_iff same_case same_case rules (get "/docs/7")

path_prefix_matches_iff_example :
    (path_prefix_matches "/docs/7" "/docs" ≡ true) ↔ Covers "/docs" "/docs/7"
path_prefix_matches_iff_example = path_prefix_matches_iff "/docs/7" "/docs"

same_case-Casing : Casing same_case same_case
same_case-Casing = record {
  upper_idem = λ s. refl;
  upper_trim = λ s. refl;
  upper_star = refl;
  lower_idem = λ s. refl;
  lower_trim = λ s. refl;
}

abbrev before_disk : Disk Rule
before_disk = record { content = stored (read_docs ∷ []); writable = true }

abbrev after_disk : Disk Rule
after_disk = record { content = stored (no_drafts ∷ read_docs ∷ []); writable = true }

adds : add same_case same_case 9 no_drafts before_disk ≡ (ok no_drafts, after_disk)
unfolding program
adds = refl

loads : load same_case same_case after_disk.content ≡ ok (no_drafts ∷ read_docs ∷ [])
unfolding program
loads = refl

no_drafts-Denies : Denies (normalize_request same_case same_case (get "/docs/drafts/7")) no_drafts
no_drafts-Denies = (
  (matches_base_iff no_drafts (normalize_request same_case same_case (get "/docs/drafts/7"))).0
      (unfold program in refl),
  refl,
)

add-Denies_example :
    (evaluate same_case same_case (no_drafts ∷ read_docs ∷ []) (get "/docs/drafts/7")).allowed
    ≡ false
add-Denies_example =
    add-Denies same_case same_case same_case-Casing 9 no_drafts no_drafts before_disk after_disk
      (no_drafts ∷ read_docs ∷ []) (get "/docs/drafts/7") adds loads no_drafts-Denies
