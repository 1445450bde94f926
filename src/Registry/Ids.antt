-- ===== src/Registry/Ids.antt =====
-- The lists that validateAll accepts (internal/agentregistry, internal/clientregistry and
-- internal/policy): valid entries with IDs of their own, in any order.
use anyauth.Base.{
  String, ◌≡◌, refl, sym, ◌≢◌, ◌↔◌, false, none, List, [], ◌∷◌, arith, inl, inr, All, Bool-cases,
  Option-cases, contains, insert, insert-All, sort, sort-All, eq_iff,
}
use anyauth.Registry.Store.{Kind, validate_all}

module _ {E A : Type 0} (k : Kind E A) where
  abbrev pub HasOwnIds : List A → Type 0
  HasOwnIds [] = Unit
  HasOwnIds (x ∷ xs) = All (λ y. k.id_of y ≢ k.id_of x) xs × HasOwnIds xs

  -- Valid entries with IDs of their own, all new to a set of IDs.
  abbrev Accepted : List String → List A → Type 0
  Accepted seen xs =
      All (λ x. k.validate x ≡ none) xs
      × HasOwnIds xs
      × All (λ x. contains seen (k.id_of x) ≡ false) xs

  pub split_seen :
      (id : String) (seen : List String) (xs : List A)
      → All (λ x. contains (id ∷ seen) (k.id_of x) ≡ false) xs
        ↔ (All (λ x. k.id_of x ≢ id) xs × All (λ x. contains seen (k.id_of x) ≡ false) xs)
  split_seen id seen [] = (λ h. (tt, tt), λ h. tt)
  split_seen id seen (x ∷ xs) = ground (arith, eq_iff id (k.id_of x), split_seen id seen xs)

  validate_all_iff_from :
      (seen : List String) (xs : List A) → (validate_all k seen xs ≡ none) ↔ Accepted seen xs
  unfolding validate_all
  validate_all_iff_from seen [] = (λ h. (tt, tt, tt), λ h. refl)
  validate_all_iff_from seen (x ∷ xs) = ground (
    arith,
    Option-cases (k.validate x),
    validate_all_iff_from (k.id_of x ∷ seen) xs,
    split_seen (k.id_of x) seen xs,
  )

  nothing_seen : (xs : List A) → All (λ x. contains [] (k.id_of x) ≡ false) xs
  nothing_seen [] = tt
  nothing_seen (x ∷ xs) = (refl, nothing_seen xs)

  pub validate_all_iff :
      (xs : List A)
      → (validate_all k [] xs ≡ none) ↔ (All (λ x. k.validate x ≡ none) xs × HasOwnIds xs)
  validate_all_iff xs = ground (arith, validate_all_iff_from [] xs, nothing_seen xs)

  insert-HasOwnIds :
      (x : A) (ys : List A)
      → All (λ y. k.id_of y ≢ k.id_of x) ys
      → HasOwnIds ys
      → HasOwnIds (insert k.less x ys)
  unfolding insert
  insert-HasOwnIds x [] h o = (tt, tt)
  insert-HasOwnIds x (y ∷ ys) (p, h) (q, o) = elim (Bool-cases (k.less y x)) [
    | inl later ↦ rw later (
      (insert-All k.less (λ z. k.id_of z ≢ k.id_of y) x ys).0 ((λ e. p (sym e)), q),
      insert-HasOwnIds x ys h o,
    )
    | inr here ↦ rw here ((p, h), (q, o))
  ]

  pub sort-HasOwnIds : (xs : List A) → HasOwnIds xs → HasOwnIds (sort k.less xs)
  unfolding sort
  sort-HasOwnIds [] o = tt
  sort-HasOwnIds (x ∷ xs) (h, o) =
      insert-HasOwnIds x _ ((sort-All k.less (λ y. k.id_of y ≢ k.id_of x) xs).0 h)
        (sort-HasOwnIds xs o)

  -- What validateAll accepts it accepts sorted.
  pub validate_all-sort :
      (xs : List A) → validate_all k [] xs ≡ none → validate_all k [] (sort k.less xs) ≡ none
  validate_all-sort xs h =
      let (valid, own) = (validate_all_iff xs).0 h in
      (validate_all_iff (sort k.less xs)).1
        ((sort-All k.less (λ x. k.validate x ≡ none) xs).0 valid, sort-HasOwnIds xs own)
