-- ===== src/Base/Results.antt =====
-- Errors as values. A Go function that returns only an `error` is an `Option`, with `none` for nil;
-- one that returns a value and an error is a `Result`, whose `diverged` stands for a loop that
-- has used up its fuel.
use mathlib.Core.Path.{◌≡◌, refl}
use mathlib.Core.Logic.{◌⊎◌, inl, inr}
use mathlib.Core.Bool.{Bool, true, false}
use mathlib.Core.Option.{Option, none, some}
use mathlib.Core.List.{List, [], ◌∷◌}

pub data Result (E A : Type 0) : Type 0 where
  ok : A → Result E A
  err : E → Result E A
  diverged : Result E A

infixl 5 ◌>>=◌ ◌>>◌
abbrev pub ◌>>=◌ : {E A B : Type 0} → Result E A → (A → Result E B) → Result E B
diverged >>= next = diverged
err e >>= next = err e
ok x >>= next = next x

abbrev pub ◌>>◌ : {E B : Type 0} → Result E (Unit {0}) → Result E B → Result E B
first >> next = first >>= λ u. next

-- `if err := check; err != nil { return err }`.
abbrev pub check : {E : Type 0} → Option E → Result E (Unit {0})
check none = ok tt
check (some e) = err e

-- `if test { return e }`, in a function that returns only an error.
abbrev pub reject : {E : Type 0} → Bool → E → Option E
reject true e = some e
reject false e = none

-- The checks of a validator in turn: the first error is returned.
abbrev pub first_error : {E : Type 0} → List (Option E) → Option E
first_error [] = none
first_error (none ∷ rest) = first_error rest
first_error (some e ∷ rest) = some e

-- A loop of a validator: the first error that an element has.
abbrev pub first_error_of : {E A : Type 0} → (A → Option E) → List A → Option E
first_error_of f [] = none
first_error_of f (x ∷ xs) = first_error (f x ∷ first_error_of f xs ∷ [])

-- `fmt.Errorf("...: %w", err)` where `err` is not nil.
abbrev pub wrap : {E : Type 0} → (E → E) → Option E → Option E
wrap f none = none
wrap f (some e) = some (f e)

-- A step that lets the steps after it succeed has succeeded.
pub >>=-eq-ok :
    {E A B : Type 0} (first : Result E A) (next : A → Result E B) {y : B}
    → (first >>= next) ≡ ok y
    → (x : A) × (first ≡ ok x) × (next x ≡ ok y)
>>=-eq-ok diverged next done = cc
>>=-eq-ok (err e) next done = cc
>>=-eq-ok (ok x) next done = (x, refl, done)

pub check-eq-ok : {E : Type 0} (o : Option E) {u : Unit {0}} → check o ≡ ok u → o ≡ none
check-eq-ok none h = refl
check-eq-ok (some e) h = cc

pub Result-cases :
    {E A : Type 0} (m : Result E A)
    → ((a : A) × (m ≡ ok a)) ⊎ ((m ≡ diverged) ⊎ ((e : E) × (m ≡ err e)))
Result-cases (ok a) = inl (a, refl)
Result-cases (err e) = inr (inr (e, refl))
Result-cases diverged = inr (inl refl)

abbrev pub is_ok : {E A : Type 0} → Result E A → Bool
is_ok (ok a) = true
is_ok (err e) = false
is_ok diverged = false

pub is_ok_value : {E A : Type 0} (m : Result E A) → is_ok m ≡ true → (a : A) × (m ≡ ok a)
is_ok_value (ok a) h = (a, refl)
is_ok_value (err e) h = cc
is_ok_value diverged h = cc
