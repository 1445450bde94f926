-- ===== src/Policy/Files.antt =====
-- Evaluating what is in the file of internal/policy/policy.go: Evaluate on the rules that Load
-- returns, after Add and Remove.
use anyauth.Base.{ℕ, String, ◌≡◌, sym, inl, inr, false, List, [], ◌∷◌, Any, arith, Bool-cases, ok}
use anyauth.Registry.Store.{Disk}
use anyauth.Registry.Loading.{load-IsNormal, normalize_all_fixed}
use anyauth.Registry.Changes.{IsAmong, add-load}
use anyauth.Policy.Rules.{Rule, Request, normalize, normalize_all, normalize_request}
use anyauth.Policy.Evaluate.{evaluate}
use anyauth.Policy.Decisions.{Denies, evaluate-Allows_iff}
use anyauth.Policy.Normal.{Casing}
use anyauth.Policy.Store.{stamp, policies, policies-Lawful, normalize-stamp, load, add}

Any-of_IsAmong : (P : Rule → Type 0) (a : Rule) (xs : List Rule) → IsAmong a xs → P a → Any P xs
Any-of_IsAmong P a [] h p = absurd h
Any-of_IsAmong P a (x ∷ xs) (inl e) p = inl (rw e p)
Any-of_IsAmong P a (x ∷ xs) (inr h) p = inr (Any-of_IsAmong P a xs h p)

module _ (to_upper to_lower : String → String) (casing : Casing to_upper to_lower) where
  -- A deny rule that Add has returned decides: every request that it matches is refused on the rules
  -- that Load returns then, whatever other rules there are. This is for functions strings.ToUpper
  -- and strings.ToLower with the laws of Casing.
  pub add-Denies :
      (clock : ℕ) (r b : Rule) (d d' : Disk Rule) (rules : List Rule) (req : Request)
      → add to_upper to_lower clock r d ≡ (ok b, d')
      → load to_upper to_lower d'.content ≡ ok rules
      → Denies (normalize_request to_upper to_lower req) b
      → (evaluate to_upper to_lower rules req).allowed ≡ false
  unfolding add load
  add-Denies clock r b d d' rules req h listed denies =
      let laws = policies-Lawful to_upper to_lower casing in
      let (same, (xs, loaded, new, (ys, listed', members))) =
        add-load (policies to_upper to_lower) laws (stamp clock (normalize to_upper to_lower r)) b d
          d' (normalize-stamp to_upper to_lower casing clock r) h in
      let one : rules ≡ ys = ground (arith, listed, listed') in
      let there : IsAmong b rules = rw one ((members b).1 (inr (sym same))) in
      let normal : normalize_all to_upper to_lower rules ≡ rules =
        normalize_all_fixed (policies to_upper to_lower) laws rules
          (load-IsNormal (policies to_upper to_lower) laws d'.content rules listed).0 in
      let q = normalize_request to_upper to_lower req in
      let denied : Any (Denies q) (normalize_all to_upper to_lower rules) =
        rw normal (Any-of_IsAmong (Denies q) b rules there denies) in
      elim (Bool-cases (evaluate to_upper to_lower rules req).allowed) [
        | inr refused ↦ refused
        | inl passed ↦ absurd (elim ((evaluate-Allows_iff to_upper to_lower rules req).0 passed) [
          | inl empty ↦ rw empty at there
          | inr (clear, allowed) ↦ clear denied
        ])
      ]
