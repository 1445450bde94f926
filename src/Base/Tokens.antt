-- ===== src/Base/Tokens.antt =====
-- The loop that trims texts, drops the empty ones and keeps each once: the body of normalizeTokens
-- (internal/authzstore/store.go) and of the three normalizeScopes.
use Prim.Native.String.{String}
use mathlib.Core.Path.{◌≡◌, refl, ap, ◌∙◌, sym}
use mathlib.Core.Logic.{◌≢◌, inl, inr}
use mathlib.Core.Bool.{Bool, true, ◌||◌}
use mathlib.Core.List.{List, [], ◌∷◌}
use native.Mathlib.Omega.{arith}
use text.Mathlib.Text.{◌==◌}
use text.Mathlib.TextEquality.{eq_iff}
use anyauth.Base.Tests.{if◌then◌else◌, Bool-cases, eq-false_of_ne}
use anyauth.Base.Lists.{All, Distinct, contains, not-contains_iff}
use anyauth.Base.Text.{trim_space, trim_space_idem, text_less, text_less_asymm}
use anyauth.Base.Sort.{insert, insert-All, sort, sort-All, sort-IsSorted, sort_of_IsSorted}

unfoldable pub collect : List String → List String → List String
collect seen [] = []
collect seen (v ∷ vs) =
    let token = trim_space v in
    let skipped = collect seen vs in
    let kept = token ∷ collect (token ∷ seen) vs in
    if token == "" || contains seen token then skipped else kept

-- A text that trimming leaves alone, and that is not empty.
abbrev pub IsTrimmed : String → Type 0
IsTrimmed t = (trim_space t ≡ t) × (t ≢ "")

pub collect-IsTrimmed : (seen vs : List String) → All IsTrimmed (collect seen vs)
unfolding collect
collect-IsTrimmed seen [] = tt
collect-IsTrimmed seen (v ∷ vs) = ground (
  arith,
  collect-IsTrimmed seen vs,
  collect-IsTrimmed (trim_space v ∷ seen) vs,
  trim_space_idem v,
  eq_iff (trim_space v) "",
)

-- What is kept is new.
collect-new :
    (seen vs : List String) (x : String)
    → contains seen x ≡ true
    → All (λ t. t ≢ x) (collect seen vs)
unfolding collect
collect-new seen [] x h = tt
collect-new seen (v ∷ vs) x h =
    elim (Bool-cases (trim_space v == "" || contains seen (trim_space v))) [
      | inl skip ↦ rw skip (collect-new seen vs x h)
      | inr keep ↦ rw keep (
        (λ e. ground (arith, keep, rw e at keep)),
        collect-new (trim_space v ∷ seen) vs x (ground arith),
      )
    ]

collect-Distinct : (seen vs : List String) → Distinct (collect seen vs)
unfolding collect
collect-Distinct seen [] = tt
collect-Distinct seen (v ∷ vs) = ground (
  arith,
  collect-Distinct seen vs,
  collect-Distinct (trim_space v ∷ seen) vs,
  collect-new (trim_space v ∷ seen) vs (trim_space v),
  eq_iff (trim_space v) (trim_space v),
)

Fresh : List String → List String → Type 0
Fresh seen xs = All (λ x. All (λ s. s ≢ x) seen) xs

Fresh-cons :
    (seen : List String) (x : String) (xs : List String)
    → All (λ y. y ≢ x) xs
    → Fresh seen xs
    → Fresh (x ∷ seen) xs
unfolding Fresh
Fresh-cons seen x [] h k = tt
Fresh-cons seen x (y ∷ ys) (p, h) (q, k) = ((λ e. p (sym e), q), Fresh-cons seen x ys h k)

-- A list of distinct trimmed texts is collected as it is.
collect_fixed :
    (seen xs : List String) → All IsTrimmed xs → Distinct xs → Fresh seen xs → collect seen xs ≡ xs
unfolding collect Fresh
collect_fixed seen [] h d f = refl
collect_fixed seen (x ∷ xs) ((trimmed, filled), h) (new, d) (p, f) = rw (
  trimmed,
  eq-false_of_ne x "" filled,
  (not-contains_iff seen x).1 p,
  collect_fixed (x ∷ seen) xs h d (Fresh-cons seen x xs new f),
)

Fresh-nil : (xs : List String) → Fresh [] xs
unfolding Fresh
Fresh-nil [] = tt
Fresh-nil (x ∷ xs) = (tt, Fresh-nil xs)

pub collect_idem : (vs : List String) → collect [] (collect [] vs) ≡ collect [] vs
collect_idem vs =
    collect_fixed [] _ (collect-IsTrimmed [] vs) (collect-Distinct [] vs) (Fresh-nil _)

insert-Distinct :
    (less : String → String → Bool) (x : String) (ys : List String)
    → All (λ y. y ≢ x) ys
    → Distinct ys
    → Distinct (insert less x ys)
unfolding insert
insert-Distinct less x [] h d = (tt, tt)
insert-Distinct less x (y ∷ ys) (p, h) (q, d) = elim (Bool-cases (less y x)) [
  | inl later ↦
      rw later
        ((insert-All less (λ z. z ≢ y) x ys).0 ((λ e. p (sym e)), q), insert-Distinct less x ys h d)
  | inr here ↦ rw here ((p, h), (q, d))
]

pub sort-Distinct :
    (less : String → String → Bool) (xs : List String) → Distinct xs → Distinct (sort less xs)
unfolding sort
sort-Distinct less [] d = tt
sort-Distinct less (x ∷ xs) (h, d) =
    insert-Distinct less x _ ((sort-All less (λ y. y ≢ x) xs).0 h) (sort-Distinct less xs d)

-- Trimming, keeping once and sorting a second time changes nothing.
pub sort-collect_idem :
    (vs : List String)
    → sort text_less (collect [] (sort text_less (collect [] vs))) ≡ sort text_less (collect [] vs)
sort-collect_idem vs =
    let sorted = sort text_less (collect [] vs) in
    ap (sort text_less) (
      collect_fixed [] sorted ((sort-All text_less IsTrimmed _).0 (collect-IsTrimmed [] vs))
        (sort-Distinct text_less _ (collect-Distinct [] vs)) (Fresh-nil sorted))
    ∙ sort_of_IsSorted text_less sorted (sort-IsSorted text_less text_less_asymm (collect [] vs))
