-- ===== src/Registry/Loading.antt =====
-- Saving and loading the files of internal/agentregistry, internal/clientregistry and
-- internal/policy.
use anyauth.Base.{
  ◌≡◌, refl, none, List, [], ◌∷◌, arith, inl, inr, All, Option-cases, sort, sort-All, sort_idem,
  Result, ok, err, diverged, Result-cases,
}
use anyauth.Registry.Store.{
  Kind, Lawful, Error, Content, absent, unreadable, stored, Disk, validate_all, normalize_all, load,
  save, commit,
}
use anyauth.Registry.Ids.{validate_all-sort}

module _ {E A : Type 0} (k : Kind E A) (laws : Lawful k) where
  abbrev pub IsNormal : A → Type 0
  IsNormal a = k.normalize a ≡ a

  normalize_all-IsNormal : (xs : List A) → All IsNormal (normalize_all k xs)
  normalize_all-IsNormal [] = tt
  normalize_all-IsNormal (x ∷ xs) = (laws.normalize_idem x, normalize_all-IsNormal xs)

  pub normalize_all_fixed : (xs : List A) → All IsNormal xs → normalize_all k xs ≡ xs
  normalize_all_fixed [] h = refl
  normalize_all_fixed (x ∷ xs) (p, h) = rw (p, normalize_all_fixed xs h)

  saved-IsNormal : (xs : List A) → All IsNormal (sort k.less (normalize_all k xs))
  saved-IsNormal xs = (sort-All k.less IsNormal (normalize_all k xs)).0 (normalize_all-IsNormal xs)

  -- What the saves that succeed do.
  save-ok :
      (xs : List A) (d d' : Disk A)
      → save k xs d ≡ (ok tt, d')
      → (validate_all k [] (normalize_all k xs) ≡ none)
        × (d'.content ≡ stored (sort k.less (normalize_all k xs)))
  unfolding save
  save-ok xs d d' h = elim (Option-cases (validate_all k [] (normalize_all k xs))) [
    | inl valid ↦ (valid, ground arith)
    | inr (e, bad) ↦ absurd (ground arith)
  ]

  -- After a successful Save, Load returns what was saved, normalized and sorted, in a
  -- package with the laws of Lawful.
  pub load-save :
      (xs : List A) (d d' : Disk A)
      → save k xs d ≡ (ok tt, d')
      → load k d'.content ≡ ok (sort k.less (normalize_all k xs))
  unfolding load
  load-save xs d d' h =
      let (valid, written) = save-ok xs d d' h in
      rw (
        written,
        normalize_all_fixed (sort k.less (normalize_all k xs)) (saved-IsNormal xs),
        validate_all-sort k (normalize_all k xs) valid,
        sort_idem k.less laws.less_asymm (normalize_all k xs),
      )

  -- What Load returns is valid and in normal form.
  pub load-IsNormal :
      (c : Content A) (xs : List A)
      → load k c ≡ ok xs
      → All IsNormal xs × (validate_all k [] xs ≡ none)
  unfolding load validate_all
  load-IsNormal absent xs h = ground arith
  load-IsNormal unreadable xs h = cc
  load-IsNormal (stored entries) xs h =
      elim (Option-cases (validate_all k [] (normalize_all k entries))) [
        | inl valid ↦
            let same : xs ≡ sort k.less (normalize_all k entries) = ground arith in
            rw same (saved-IsNormal entries, validate_all-sort k (normalize_all k entries) valid)
        | inr (e, bad) ↦ absurd (ground arith)
      ]

  -- An operation that returns an entry without an error has saved what was decided.
  pub commit-eq-ok :
      (d d' : Disk A) (p : Result (Error E) (List A × A)) (a : A)
      → commit k d p ≡ (ok a, d')
      → (xs : List A) × (p ≡ ok (xs, a)) × (save k xs d ≡ (ok tt, d'))
  commit-eq-ok d d' (err e) a h = absurd (ground arith)
  commit-eq-ok d d' diverged a h = absurd (ground arith)
  commit-eq-ok d d' (ok (xs, b)) a h = elim (Result-cases (save k xs d).0) [
    | inl (u, saved) ↦ (xs, ground arith, ground arith)
    | inr other ↦ absurd (ground arith)
  ]
