-- ===== src/Base/Sort.antt =====
-- sort.Slice and sort.Strings, as a stable insertion sort by a `less` function. The program sorts
-- by comparisons that leave no ties in valid data, where every sort gives this list.
use mathlib.Core.Path.{◌≡◌, refl}
use mathlib.Core.Logic.{◌⊎◌, ◌↔◌}
use mathlib.Core.Bool.{Bool, true, false, ◌||◌}
use mathlib.Core.List.{List, [], ◌∷◌}
use native.Mathlib.Omega.{arith}
use anyauth.Base.Tests.{if◌then◌else◌}
use anyauth.Base.Lists.{All, Any, any}

module _ {A : Type 0} (less : A → A → Bool) where
  unfoldable pub insert : A → List A → List A
  insert x [] = x ∷ []
  insert x (y ∷ ys) = if less y x then y ∷ insert x ys else x ∷ y ∷ ys

  unfoldable pub sort : List A → List A
  unfolding insert
  sort [] = []
  sort (x ∷ xs) = insert x (sort xs)

  -- No element is less than the one before it.
  abbrev pub IsSorted : List A → Type 0
  IsSorted [] = Unit
  IsSorted (x ∷ []) = Unit
  IsSorted (x ∷ y ∷ ys) = (less y x ≡ false) × IsSorted (y ∷ ys)

  pub sort_of_IsSorted : (xs : List A) → IsSorted xs → sort xs ≡ xs
  unfolding sort
  sort_of_IsSorted [] h = refl
  sort_of_IsSorted (x ∷ []) h = refl
  sort_of_IsSorted (x ∷ y ∷ ys) (h, k) = ground (arith, sort_of_IsSorted (y ∷ ys) k)

  module _ (asymm : (a b : A) → less a b ≡ true → less b a ≡ false) where
    insert-IsSorted : (x : A) (ys : List A) → IsSorted ys → IsSorted (insert x ys)
    unfolding insert
    insert-IsSorted x [] h = tt
    insert-IsSorted x (y ∷ []) h = ground (arith, asymm y x)
    insert-IsSorted x (y ∷ z ∷ zs) (h, k) = ground (arith, asymm y x, insert-IsSorted x (z ∷ zs) k)

    pub sort-IsSorted : (xs : List A) → IsSorted (sort xs)
    unfolding sort
    sort-IsSorted [] = tt
    sort-IsSorted (x ∷ xs) = insert-IsSorted x (sort xs) (sort-IsSorted xs)

    pub sort_idem : (xs : List A) → sort (sort xs) ≡ sort xs
    sort_idem xs = sort_of_IsSorted (sort xs) (sort-IsSorted xs)

module _ {A : Type 0} (less : A → A → Bool) (P : A → Type 0) where
  pub insert-All : (x : A) (ys : List A) → (P x × All P ys) ↔ All P (insert less x ys)
  unfolding insert
  insert-All x [] = (λ h. h, λ h. h)
  insert-All x (y ∷ ys) = ground (arith, insert-All x ys)

  pub sort-All : (xs : List A) → All P xs ↔ All P (sort less xs)
  unfolding sort
  sort-All [] = (λ h. h, λ h. h)
  sort-All (x ∷ xs) = ground (arith, sort-All xs, insert-All x (sort less xs))

  insert-Any : (x : A) (ys : List A) → (P x ⊎ Any P ys) ↔ Any P (insert less x ys)
  unfolding insert
  insert-Any x [] = (λ h. h, λ h. h)
  insert-Any x (y ∷ ys) = ground (arith, insert-Any x ys)

  pub sort-Any : (xs : List A) → Any P xs ↔ Any P (sort less xs)
  unfolding sort
  sort-Any [] = (λ h. h, λ h. h)
  sort-Any (x ∷ xs) = ground (arith, sort-Any xs, insert-Any x (sort less xs))

insert-any :
    {A : Type 0} (less : A → A → Bool) (p : A → Bool) (x : A) (ys : List A)
    → any p (insert less x ys) ≡ (p x || any p ys)
unfolding insert
insert-any less p x [] = refl
insert-any less p x (y ∷ ys) = ground (arith, insert-any less p x ys)

-- Sorting leaves the answer of a search alone.
pub sort-any :
    {A : Type 0} (less : A → A → Bool) (p : A → Bool) (xs : List A)
    → any p (sort less xs) ≡ any p xs
unfolding sort
sort-any less p [] = refl
sort-any less p (x ∷ xs) = ground (arith, sort-any less p xs, insert-any less p x (sort less xs))
