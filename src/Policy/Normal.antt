-- ===== src/Policy/Normal.antt =====
-- Normalizing a rule (internal/policy/policy.go) a second time changes nothing, for functions
-- strings.ToUpper and strings.ToLower that do what their documentation says of letters.
use Prim.Native.Char.{Char}
use Prim.Native.String
use Prim.Native.String.append
use anyauth.Base.{
  String, ◌≡◌, refl, ap, ◌∙◌, ◌≢◌, ◌⊎◌, inl, inr, true, false, List, [], ◌∷◌, ◌==◌, arith, All,
  Distinct, Bool-cases, contains, is_space, trim_space, trim_space_idem, trim_space-cons, text_less,
  text_less_asymm, sort, sort-All, sort-IsSorted, sort_of_IsSorted, sort-Distinct,
  sort-collect_idem, eq_iff, eq-false_of_ne, ne_of_eq-false,
}
use anyauth.Policy.Rules.{
  Rule, normalize_path, normalize_scopes, collect_methods, normalize_methods, normalize,
}
use anyauth.Policy.Matching.{has_prefix_append}

-- What the package relies on of strings.ToUpper and strings.ToLower: they map letters one by one,
-- to letters that they leave alone, and spaces and signs to themselves.
pub record Casing (to_upper to_lower : String → String) : Type 0 where
  pub upper_idem : (s : String) → to_upper (to_upper s) ≡ to_upper s
  pub upper_trim : (s : String) → trim_space (to_upper s) ≡ to_upper (trim_space s)
  pub upper_star : to_upper "*" ≡ "*"
  pub lower_idem : (s : String) → to_lower (to_lower s) ≡ to_lower s
  pub lower_trim : (s : String) → trim_space (to_lower s) ≡ to_lower (trim_space s)

star_trimmed : trim_space "*" ≡ "*"
unfolding trim_space
star_trimmed = refl

abbrev slash : Char
slash = "/"

-- A text that has been trimmed is trimmed with a slash before it.
slash_trimmed :
    (s : String) → trim_space (String.◌++◌ "/" (trim_space s)) ≡ String.◌++◌ "/" (trim_space s)
slash_trimmed s =
    let cons : String.◌++◌ "/" (trim_space s) ≡ String.◌∷◌ slash (trim_space s) =
      append.cons slash "" (trim_space s) ∙ ap (String.◌∷◌ slash) (append.nil (trim_space s)) in
    rw cons (trim_space-cons slash s (unfold is_space in refl))

normalize_path_idem : (path : String) → normalize_path (normalize_path path) ≡ normalize_path path
unfolding normalize_path
normalize_path_idem path = ground (
  arith,
  trim_space_idem path,
  slash_trimmed path,
  has_prefix_append "/" (trim_space path),
  eq_iff (trim_space path) "",
)

nothing_seen : (xs : List String) → All (λ x. contains [] x ≡ false) xs
nothing_seen [] = tt
nothing_seen (x ∷ xs) = (refl, nothing_seen xs)

seen-cons :
    (seen : List String) (x : String) (xs : List String)
    → All (λ y. y ≢ x) xs
    → All (λ y. contains seen y ≡ false) xs
    → All (λ y. contains (x ∷ seen) y ≡ false) xs
seen-cons seen x [] h k = tt
seen-cons seen x (y ∷ ys) (p, h) (q, k) = (ground (arith, eq_iff x y), seen-cons seen x ys h k)

module _ (to_upper to_lower : String → String) (casing : Casing to_upper to_lower) where
  -- A method as normalizeMethods leaves it.
  abbrev IsMethod : String → Type 0
  IsMethod m = (to_upper (trim_space m) ≡ m) × (m ≢ "") × (m ≢ "ANY")

  upper_method :
      (v : String) → to_upper (trim_space (to_upper (trim_space v))) ≡ to_upper (trim_space v)
  upper_method v =
      ap to_upper (casing.upper_trim (trim_space v) ∙ ap to_upper (trim_space_idem v))
      ∙ casing.upper_idem (trim_space v)

  collect_methods-cases :
      (seen : List String) (v : String) (vs : List String)
      → (collect_methods to_upper seen (v ∷ vs) ≡ collect_methods to_upper seen vs)
        ⊎ ((m : String) × IsMethod m
            × (contains seen m ≡ false)
            × (collect_methods to_upper seen (v ∷ vs) ≡ m ∷ collect_methods to_upper (m ∷ seen) vs))
  unfolding collect_methods
  collect_methods-cases seen v vs = elim (Bool-cases (to_upper (trim_space v) == "")) [
    | inl empty ↦ inl (rw empty refl)
    | inr filled ↦
        let any_star : IsMethod "*" = (
          ap to_upper star_trimmed ∙ casing.upper_star,
          (λ e. ground (arith, eq_iff "*" "")),
          (λ e. ground (arith, eq_iff "*" "ANY")),
        ) in
        elim (Bool-cases (to_upper (trim_space v) == "ANY")) [
          | inl any_method ↦ elim (Bool-cases (contains seen "*")) [
            | inl old ↦ inl (rw (filled, any_method, old) refl)
            | inr new ↦ inr ("*", any_star, new, rw (filled, any_method, new) refl)
          ]
          | inr other ↦ elim (Bool-cases (contains seen (to_upper (trim_space v)))) [
            | inl old ↦ inl (rw (filled, other, old) refl)
            | inr new ↦ inr (
              to_upper (trim_space v),
              (upper_method v, ne_of_eq-false _ "" filled, ne_of_eq-false _ "ANY" other),
              new,
              rw (filled, other, new) refl,
            )
          ]
        ]
  ]

  collect_methods-IsMethod :
      (seen vs : List String) → All IsMethod (collect_methods to_upper seen vs)
  collect_methods-IsMethod seen [] = unfold collect_methods in tt
  collect_methods-IsMethod seen (v ∷ vs) = elim (collect_methods-cases seen v vs) [
    | inl skipped ↦ rw skipped (collect_methods-IsMethod seen vs)
    | inr (m, fine, new, kept) ↦ rw kept (fine, collect_methods-IsMethod (m ∷ seen) vs)
  ]

  collect_methods-new :
      (seen vs : List String) (x : String)
      → contains seen x ≡ true
      → All (λ t. t ≢ x) (collect_methods to_upper seen vs)
  collect_methods-new seen [] x h = unfold collect_methods in tt
  collect_methods-new seen (v ∷ vs) x h = elim (collect_methods-cases seen v vs) [
    | inl skipped ↦ rw skipped (collect_methods-new seen vs x h)
    | inr (m, fine, new, kept) ↦ rw kept (
      (λ e. ground (arith, ap (contains seen) e)),
      collect_methods-new (m ∷ seen) vs x (ground arith),
    )
  ]

  collect_methods-Distinct : (seen vs : List String) → Distinct (collect_methods to_upper seen vs)
  collect_methods-Distinct seen [] = unfold collect_methods in tt
  collect_methods-Distinct seen (v ∷ vs) = elim (collect_methods-cases seen v vs) [
    | inl skipped ↦ rw skipped (collect_methods-Distinct seen vs)
    | inr (m, fine, new, kept) ↦ rw kept (
      collect_methods-new (m ∷ seen) vs m (ground (arith, eq_iff m m)),
      collect_methods-Distinct (m ∷ seen) vs,
    )
  ]

  -- A list of distinct methods is collected as it is.
  collect_methods_fixed :
      (seen xs : List String)
      → All IsMethod xs
      → Distinct xs
      → All (λ x. contains seen x ≡ false) xs
      → collect_methods to_upper seen xs ≡ xs
  unfolding collect_methods
  collect_methods_fixed seen [] h d f = refl
  collect_methods_fixed seen (x ∷ xs) ((upper, filled, other), h) (new, d) (p, f) = rw (
    upper,
    eq-false_of_ne x "" filled,
    eq-false_of_ne x "ANY" other,
    p,
    collect_methods_fixed (x ∷ seen) xs h d (seen-cons seen x xs new f),
  )

  normalize_methods_idem :
      (vs : List String)
      → normalize_methods to_upper (normalize_methods to_upper vs) ≡ normalize_methods to_upper vs
  unfolding normalize_methods
  normalize_methods_idem vs =
      let sorted = sort text_less (collect_methods to_upper [] vs) in
      ap (sort text_less) (
        collect_methods_fixed [] sorted
          ((sort-All text_less IsMethod _).0 (collect_methods-IsMethod [] vs))
          (sort-Distinct text_less _ (collect_methods-Distinct [] vs)) (nothing_seen sorted))
      ∙ sort_of_IsSorted text_less sorted
          (sort-IsSorted text_less text_less_asymm (collect_methods to_upper [] vs))

  -- normalize is idempotent, for functions strings.ToUpper and strings.ToLower with the laws of
  -- Casing.
  pub normalize_idem :
      (r : Rule)
      → normalize to_upper to_lower (normalize to_upper to_lower r) ≡ normalize to_upper to_lower r
  unfolding normalize normalize_scopes
  normalize_idem r = simp (
    trim_space_idem, casing.lower_trim, casing.lower_idem, normalize_path_idem,
    normalize_methods_idem, sort-collect_idem,
  )
