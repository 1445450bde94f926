-- ===== src/Base/Lists.antt =====
-- Lists measured by native numbers, and predicates on lists by recursion.
use Prim.Native.Nat.{ℕ, suc}
use Prim.Native.String.{String}
use mathlib.Core.Path.{◌≡◌, refl}
use mathlib.Core.Logic.{◌⊎◌, inl, inr, ◌≢◌, ◌↔◌}
use mathlib.Core.Bool.{Bool, true, false, ◌||◌}
use mathlib.Core.List.{List, [], ◌∷◌, ◌++◌}
use native.Mathlib.Omega.{arith}
use text.Mathlib.Text.{◌==◌}
use text.Mathlib.TextEquality.{eq_iff}

module _ {ℓ} {A : Type ℓ} where
  abbrev pub length : List A → ℕ
  length [] = 0
  length (x ∷ xs) = suc (length xs)

  -- A loop that returns true at the first element that passes.
  abbrev pub any : (A → Bool) → List A → Bool
  any p [] = false
  any p (x ∷ xs) = p x || any p xs

  abbrev pub is_empty : List A → Bool
  is_empty [] = true
  is_empty (x ∷ xs) = false

module _ {ℓ} {A : Type ℓ} (P : A → Type 0) where
  abbrev pub All : List A → Type 0
  All [] = Unit
  All (x ∷ xs) = P x × All xs

  abbrev pub Any : List A → Type 0
  Any [] = ⊥
  Any (x ∷ xs) = P x ⊎ Any xs

module _ {ℓ} {A : Type ℓ} (P : A → Type 0) where
  pub All-append : (xs ys : List A) → All P xs → All P ys → All P (xs ++ ys)
  All-append [] ys h k = k
  All-append (x ∷ xs) ys (p, h) k = (p, All-append xs ys h k)

  pub any_iff :
      (p : A → Bool) → ((a : A) → (p a ≡ true) ↔ P a) → (xs : List A) → (any p xs ≡ true) ↔ Any P xs
  any_iff p e [] = (λ h. cc, λ h. absurd h)
  any_iff p e (x ∷ xs) = ground (arith, e x, any_iff p e xs)

module _ {ℓ} {A : Type ℓ} (P Q : A → Type 0) where
  pub All-map : ((a : A) → P a → Q a) → (xs : List A) → All P xs → All Q xs
  All-map f [] h = tt
  All-map f (x ∷ xs) (p, h) = (f x p, All-map f xs h)

  pub Any-map : ((a : A) → P a → Q a) → (xs : List A) → Any P xs → Any Q xs
  Any-map f [] h = h
  Any-map f (x ∷ xs) (inl p) = inl (f x p)
  Any-map f (x ∷ xs) (inr h) = inr (Any-map f xs h)

  -- What holds of all holds of the one that is there.
  pub Any-All : (xs : List A) → All P xs → Any Q xs → Any (λ a. P a × Q a) xs
  Any-All [] h k = k
  Any-All (x ∷ xs) (p, h) (inl q) = inl (p, q)
  Any-All (x ∷ xs) (p, h) (inr k) = inr (Any-All xs h k)

-- The `seen` maps and the `contains` loops of the program.
abbrev pub contains : List String → String → Bool
contains values want = any (λ v. v == want) values

abbrev pub Distinct : List String → Type 0
Distinct [] = Unit
Distinct (x ∷ xs) = All (λ y. y ≢ x) xs × Distinct xs

pub contains_iff :
    (values : List String) (want : String)
    → (contains values want ≡ true) ↔ Any (λ v. v ≡ want) values
contains_iff values want = any_iff (λ v. v ≡ want) (λ v. v == want) (λ v. eq_iff v want) values

pub not-contains_iff :
    (values : List String) (want : String)
    → (contains values want ≡ false) ↔ All (λ v. v ≢ want) values
not-contains_iff [] want = (λ h. tt, λ h. refl)
not-contains_iff (v ∷ vs) want = ground (arith, eq_iff v want, not-contains_iff vs want)
