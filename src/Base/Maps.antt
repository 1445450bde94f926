-- ===== src/Base/Maps.antt =====
-- Maps with texts as keys, as association lists: `m[k]`, `m[k] = v` and `delete(m, k)`, and how often
-- a text stands in a list.
use Prim.Native.Nat.{ℕ, ◌+◌, ◌≤◌}
use Prim.Native.String.{String}
use mathlib.Core.Path.{◌≡◌, refl}
use mathlib.Core.Bool.{true}
use mathlib.Core.Logic.{inl, inr}
use mathlib.Core.Option.{Option, none, some}
use mathlib.Core.List.{List, [], ◌∷◌, ◌++◌}
use native.Mathlib.Omega.{arith}
use text.Mathlib.Text.{◌==◌}
use text.Mathlib.TextEquality.{eq_iff}
use anyauth.Base.Tests.{if◌then◌else◌, is_some, Bool-cases}
use anyauth.Base.Lists.{All}

module _ {V : Type 0} where
  unfoldable pub lookup : String → List (String × V) → Option V
  lookup k [] = none
  lookup k ((j, v) ∷ m) = if j == k then some v else lookup k m

  unfoldable pub put : String → V → List (String × V) → List (String × V)
  put k v [] = (k, v) ∷ []
  put k v ((j, w) ∷ m) = if j == k then (k, v) ∷ m else (j, w) ∷ put k v m

  unfoldable pub delete : String → List (String × V) → List (String × V)
  delete k [] = []
  delete k ((j, w) ∷ m) = let rest = delete k m in if j == k then rest else (j, w) ∷ rest

  pub lookup-put :
      (k j : String) (v : V) (m : List (String × V))
      → lookup j (put k v m) ≡ (if k == j then some v else lookup j m)
  unfolding lookup put
  lookup-put k j v [] = refl
  lookup-put k j v ((i, w) ∷ m) =
      ground (arith, eq_iff k j, eq_iff i k, eq_iff i j, lookup-put k j v m)

  pub lookup-delete :
      (k j : String) (m : List (String × V))
      → lookup j (delete k m) ≡ (if k == j then none else lookup j m)
  unfolding lookup delete
  lookup-delete k j [] = ground arith
  lookup-delete k j ((i, w) ∷ m) =
      ground (arith, eq_iff k j, eq_iff i k, eq_iff i j, lookup-delete k j m)

  module _ (P : V → Type 0) where
    abbrev pub AllValues : List (String × V) → Type 0
    AllValues m = All (λ e. P e.1) m

    pub put-AllValues :
        (k : String) (v : V) (m : List (String × V)) → P v → AllValues m → AllValues (put k v m)
    unfolding put
    put-AllValues k v [] p h = (p, tt)
    put-AllValues k v ((j, w) ∷ m) p h = ground (arith, put-AllValues k v m p)

    pub delete-AllValues :
        (k : String) (m : List (String × V)) → AllValues m → AllValues (delete k m)
    unfolding delete
    delete-AllValues k [] h = tt
    delete-AllValues k ((j, w) ∷ m) h = ground (arith, delete-AllValues k m)

    pub lookup-AllValues :
        (k : String) (m : List (String × V)) {v : V} → AllValues m → lookup k m ≡ some v → P v
    unfolding lookup
    lookup-AllValues k [] h e = absurd (ground arith)
    lookup-AllValues k ((j, w) ∷ m) {v} (p, h) e = elim (Bool-cases (j == k)) [
      | inl here ↦ let same : v ≡ w = ground arith in rw same p
      | inr there ↦ lookup-AllValues k m h (ground arith)
    ]

  -- How many entries have a key.
  abbrev pub count_keys : String → List (String × V) → ℕ
  count_keys k [] = 0
  count_keys k ((j, v) ∷ m) = (if j == k then 1 else 0) + count_keys k m

  pub count_keys-put :
      (k j : String) (v : V) (m : List (String × V))
      → count_keys j (put k v m) ≤ count_keys j m + (if k == j then 1 else 0)
  unfolding put
  count_keys-put k j v [] = ground arith
  count_keys-put k j v ((i, w) ∷ m) =
      ground (arith, eq_iff k j, eq_iff i k, eq_iff i j, count_keys-put k j v m)

  count_keys-delete_le :
      (k j : String) (m : List (String × V)) → count_keys j (delete k m) ≤ count_keys j m
  unfolding delete
  count_keys-delete_le k j [] = omega arith
  count_keys-delete_le k j ((i, w) ∷ m) = ground (arith, count_keys-delete_le k j m)

  -- Deleting an entry that is there.
  pub count_keys-delete :
      (k j : String) (m : List (String × V))
      → is_some (lookup k m) ≡ true
      → count_keys j (delete k m) + (if k == j then 1 else 0) ≤ count_keys j m
  unfolding lookup delete
  count_keys-delete k j [] h = absurd (ground arith)
  count_keys-delete k j ((i, w) ∷ m) h = ground (
    arith,
    eq_iff k j,
    eq_iff i k,
    eq_iff i j,
    count_keys-delete k j m,
    count_keys-delete_le k j m,
  )

  pub count_keys-append :
      (j : String) (m n : List (String × V))
      → count_keys j (m ++ n) ≡ count_keys j m + count_keys j n
  count_keys-append j [] n = omega arith
  count_keys-append j ((i, v) ∷ m) n = omega (arith, count_keys-append j m n)

-- How often a text stands in a list.
abbrev pub count : String → List String → ℕ
count k [] = 0
count k (j ∷ js) = (if j == k then 1 else 0) + count k js
