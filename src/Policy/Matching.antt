-- ===== src/Policy/Matching.antt =====
-- When a rule applies to a request, said independently of the tests of internal/policy/policy.go,
-- and that the tests decide it.
use Prim.Native.Char.{code}
use Prim.Native.String
use Prim.Native.String.append
use text.Mathlib.TextEquality.{Char-path}
use anyauth.Base.{
  String, ◌≡◌, refl, sym, ap, ◌∙◌, ◌≢◌, ◌↔◌, ◌⊎◌, inl, true, not, ◌&&◌, ◌||◌, List, [], ◌∷◌, ◌==◌,
  arith, All, Any, any_iff, has_prefix, contains_iff, eq_iff, eqb_iff,
}
use anyauth.Policy.Rules.{Rule, Request}
use anyauth.Policy.Slashes.{IsBase, trim_right_slash-IsBase, IsBase-trim_right_slash}
use anyauth.Policy.Evaluate.{
  method_matches, trim_right_slash, path_prefix_matches, matches_base, has_required_scopes,
}

-- A path lies under a prefix.
abbrev pub Starts : String → String → Type 0
Starts path prefix = (rest : String) × (path ≡ String.◌++◌ prefix rest)

-- A path prefix covers itself and what continues it behind a slash, slashes at its end not counted; "/"
-- covers every absolute path.
abbrev pub Covers : String → String → Type 0
Covers prefix path =
    ((prefix ≡ "/") × Starts path "/")
    ⊎ ((prefix ≢ "/")
        × ((path ≡ prefix)
            ⊎ ((base : String) × IsBase prefix base × Starts path (String.◌++◌ base "/"))))

pub record Matches (q : Request) (r : Rule) : Type 0 where
  pub agent : (r.agent_id ≡ "") ⊎ (r.agent_id ≡ q.agent_id)
  pub method : (r.methods ≡ []) ⊎ Any (λ m. (m ≡ "*") ⊎ (m ≡ q.method)) r.methods
  pub path : Covers r.path_prefix q.path

-- Every required scope is one of those held.
abbrev pub HasScopes : List String → List String → Type 0
HasScopes have required = All (λ s. Any (λ h. h ≡ s) have) required

has_prefix-Starts : (s p : String) → has_prefix s p ≡ true → Starts s p
unfolding has_prefix
has_prefix-Starts s String.[] h = (s, sym (append.nil s))
has_prefix-Starts String.[] (String.◌∷◌ d p) h = absurd (ground arith)
has_prefix-Starts (String.◌∷◌ c s) (String.◌∷◌ d p) h =
    let (rest, e) = has_prefix-Starts s p (ground arith) in
    let same : c ≡ d = Char-path c d ((eqb_iff (code c) (code d)).0 (ground arith)) in
    (rest, ap (String.◌∷◌ c) e ∙ rw same (sym (append.cons d p rest)))

pub has_prefix_append : (p rest : String) → has_prefix (String.◌++◌ p rest) p ≡ true
unfolding has_prefix
has_prefix_append String.[] rest = refl
has_prefix_append (String.◌∷◌ d p) rest =
    ground (arith, append.cons d p rest, has_prefix_append p rest)

pub has_prefix_iff : (s p : String) → (has_prefix s p ≡ true) ↔ Starts s p
has_prefix_iff s p =
    (has_prefix-Starts s p, λ h. ap (λ t. has_prefix t p) h.1 ∙ has_prefix_append p h.0)

has_prefix-IsBase :
    (path prefix : String)
    → (has_prefix path (String.◌++◌ (trim_right_slash prefix) "/") ≡ true)
      ↔ ((base : String) × IsBase prefix base × Starts path (String.◌++◌ base "/"))
has_prefix-IsBase path prefix = (
  λ h. (
    trim_right_slash prefix,
    trim_right_slash-IsBase prefix,
    (has_prefix_iff path (String.◌++◌ (trim_right_slash prefix) "/")).0 h,
  ),
  λ (base, is_base, starts).
      (has_prefix_iff path (String.◌++◌ (trim_right_slash prefix) "/")).1
        (rw (IsBase-trim_right_slash is_base) starts),
)

-- pathPrefixMatches holds exactly if the prefix covers the path: the prefix is "/" and the path begins
-- with a slash, or the prefix is another and the path is the prefix or begins with the prefix without
-- the slashes at its end and then a slash.
pub path_prefix_matches_iff :
    (path prefix : String) → (path_prefix_matches path prefix ≡ true) ↔ Covers prefix path
unfolding path_prefix_matches
path_prefix_matches_iff path prefix = ground (
  arith,
  eq_iff prefix "/",
  eq_iff path prefix,
  has_prefix_iff path "/",
  has_prefix-IsBase path prefix,
)

method_matches_iff :
    (ms : List String) (m : String)
    → (method_matches ms m ≡ true) ↔ ((ms ≡ []) ⊎ Any (λ x. (x ≡ "*") ⊎ (x ≡ m)) ms)
unfolding method_matches
method_matches_iff [] m = (λ h. inl refl, λ h. refl)
method_matches_iff (x ∷ xs) m = ground (
  arith,
  any_iff (λ y. (y ≡ "*") ⊎ (y ≡ m)) (λ y. y == "*" || y == m)
      (λ y. ground (arith, eq_iff y "*", eq_iff y m)) (x ∷ xs),
)

pub matches_base_iff : (r : Rule) (q : Request) → (matches_base r q ≡ true) ↔ Matches q r
unfolding matches_base
matches_base_iff r q =
    let agents : (not (not (r.agent_id == "") && not (r.agent_id == q.agent_id)) ≡ true)
        ↔ ((r.agent_id ≡ "") ⊎ (r.agent_id ≡ q.agent_id)) =
      ground (arith, eq_iff r.agent_id "", eq_iff r.agent_id q.agent_id) in
    let methods = method_matches_iff r.methods q.method in
    let paths = path_prefix_matches_iff q.path r.path_prefix in
    (
      λ h. record {
        agent = agents.0 (ground arith);
        method = methods.0 (ground arith);
        path = paths.0 (ground arith);
      },
      λ k.
          let a = agents.1 k.agent in
          let m = methods.1 k.method in let p = paths.1 k.path in ground (arith, a, m, p),
    )

pub has_required_scopes_iff :
    (have required : List String)
    → (has_required_scopes have required ≡ true) ↔ HasScopes have required
unfolding has_required_scopes
has_required_scopes_iff have [] = (λ h. tt, λ h. refl)
has_required_scopes_iff have (s ∷ required) =
    ground (arith, contains_iff have s, has_required_scopes_iff have required)
