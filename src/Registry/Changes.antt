-- ===== src/Registry/Changes.antt =====
-- What Add and Remove of internal/agentregistry, internal/clientregistry and internal/policy do to
-- the file.
use anyauth.Base.{
  String, ◌≡◌, refl, sym, ap, ◌∙◌, ◌↔◌, ◌⊎◌, inl, inr, true, false, List, [], ◌∷◌, ◌++◌, ◌==◌,
  arith, All, Any, any, any_iff, Bool-cases, Option-cases, sort, sort-Any, Result, ok, err,
  diverged, is_ok, Result-cases, eq_iff, ne_of_eq-false,
}
use anyauth.Registry.Store.{
  Kind, Lawful, Error, Content, Disk, validate_all, normalize_all, load, save, commit, plan_add,
  add, take_out, plan_remove, remove,
}
use anyauth.Registry.Loading.{IsNormal, normalize_all_fixed, load-save, load-IsNormal, commit-eq-ok}

module _ {A : Type 0} where
  abbrev pub IsAmong : A → List A → Type 0
  IsAmong a xs = Any (λ x. x ≡ a) xs

  All-of_IsAmong : (P : A → Type 0) (xs : List A) → ((a : A) → IsAmong a xs → P a) → All P xs
  All-of_IsAmong P [] h = tt
  All-of_IsAmong P (x ∷ xs) h = (h x (inl refl), All-of_IsAmong P xs (λ a k. h a (inr k)))

  pub All-IsAmong : (P : A → Type 0) (xs : List A) (a : A) → All P xs → IsAmong a xs → P a
  All-IsAmong P [] a h k = absurd k
  All-IsAmong P (x ∷ xs) a (p, h) (inl e) = rw e at p
  All-IsAmong P (x ∷ xs) a (p, h) (inr k) = All-IsAmong P xs a h k

  IsAmong-append : (a b : A) (xs : List A) → IsAmong a (xs ++ b ∷ []) ↔ (IsAmong a xs ⊎ (b ≡ a))
  IsAmong-append a b [] = ground arith
  IsAmong-append a b (x ∷ xs) = ground (arith, IsAmong-append a b xs)

module _ {E A : Type 0} (k : Kind E A) (laws : Lawful k) where
  -- A list in normal form is loaded, once it is saved, with the same entries.
  load-save_same :
      (xs : List A) (d d' : Disk A)
      → All (IsNormal k laws) xs
      → save k xs d ≡ (ok tt, d')
      → (ys : List A) × (load k d'.content ≡ ok ys) × ((a : A) → IsAmong a xs ↔ IsAmong a ys)
  load-save_same xs d d' h saved = (
    sort k.less xs,
    load-save k laws xs d d' saved
        ∙ ap (λ (zs : List A). ok (sort k.less zs)) (normalize_all_fixed k laws xs h),
    λ a. sort-Any k.less (λ x. x ≡ a) xs,
  )

  plan_add_parts :
      (a b : A) (c : Content A) (zs : List A)
      → plan_add k a c ≡ ok (zs, b)
      → (xs : List A) × (load k c ≡ ok xs)
        × (b ≡ a)
        × (zs ≡ k.arrange (xs ++ a ∷ []))
        × (any (λ old. k.id_of old == k.id_of a) xs ≡ false)
  unfolding plan_add
  plan_add_parts a b c zs h = elim (Result-cases (load k c)) [
    | inl (xs, loaded) ↦ (xs, loaded, ground arith, ground arith, ground arith)
    | inr other ↦ absurd (ground arith)
  ]

  -- In a package with the laws of Lawful, a successful Add of a normalized entry returns it, under an ID that no entry of the file had,
  -- and from then on Load returns the entries of before and this one, and no others.
  pub add-load :
      (a b : A) (d d' : Disk A)
      → k.normalize a ≡ a
      → add k a d ≡ (ok b, d')
      → (b ≡ a)
        × ((xs : List A) × (load k d.content ≡ ok xs)
            × ¬ Any (λ x. k.id_of x ≡ k.id_of a) xs
            × ((ys : List A) × (load k d'.content ≡ ok ys)
                × ((x : A) → IsAmong x ys ↔ (IsAmong x xs ⊎ (a ≡ x)))))
  unfolding add
  add-load a b d d' normal h =
      let (zs, planned, saved) = commit-eq-ok k laws d d' (plan_add k a d.content) b h in
      let (xs, loaded, same, made, fresh) = plan_add_parts a b d.content zs planned in
      let normal_xs = (load-IsNormal k laws d.content xs loaded).0 in
      let members : (x : A) → IsAmong x zs ↔ (IsAmong x xs ⊎ (a ≡ x)) =
        λ x. ground (arith, made, laws.arranged x (xs ++ a ∷ []), IsAmong-append x a xs) in
      let (ys, listed, kept) =
        load-save_same zs d d'
          (All-of_IsAmong (IsNormal k laws) zs (λ x there. elim ((members x).0 there) [
            | inl old ↦ All-IsAmong (IsNormal k laws) xs x normal_xs old
            | inr new ↦ rw new at normal
          ]))
          saved in
      let new : ¬ Any (λ x. k.id_of x ≡ k.id_of a) xs = λ twice. ground (
        arith,
        fresh,
        any_iff (λ x. k.id_of x ≡ k.id_of a) (λ old. k.id_of old == k.id_of a)
            (λ x. eq_iff (k.id_of x) (k.id_of a)) xs,
      ) in
      (same, (xs, loaded, new, (ys, listed, λ x. ground (arith, members x, kept x))))

  take_out-kept :
      (id : String) (removed : A) (xs : List A) (a : A)
      → IsAmong a (take_out k id removed xs).1 ↔ (IsAmong a xs × ¬ (k.id_of a ≡ id))
  unfolding take_out
  take_out-kept id removed [] a = (λ h. absurd h, λ h. absurd h.0)
  take_out-kept id removed (x ∷ xs) a = elim (Bool-cases (k.id_of x == id)) [
    | inl same ↦ ground (arith, eq_iff (k.id_of x) id, take_out-kept id x xs a)
    | inr other ↦ ground (arith, eq_iff (k.id_of x) id, take_out-kept id removed xs a)
  ]

  take_out-here :
      (id : String) (removed x : A) (xs : List A)
      → k.id_of x == id ≡ true
      → (take_out k id removed (x ∷ xs)).0 ≡ (take_out k id x xs).0
  unfolding take_out
  take_out-here id removed x xs h = rw h

  take_out-there :
      (id : String) (removed x : A) (xs : List A)
      → k.id_of x == id ≡ false
      → (take_out k id removed (x ∷ xs)).0 ≡ (take_out k id removed xs).0
  unfolding take_out
  take_out-there id removed x xs h = rw h

  take_out-nil : (id : String) (removed : A) → (take_out k id removed []).0 ≡ removed
  unfolding take_out
  take_out-nil id removed = refl

  -- An entry with the ID of a list, or the one given for none.
  IsTaken : String → A → List A → A → Type 0
  IsTaken id removed xs a = (a ≡ removed) ⊎ (IsAmong a xs × (k.id_of a ≡ id))

  IsTaken-here :
      (id : String) (removed x a : A) (xs : List A)
      → k.id_of x ≡ id
      → IsTaken id x xs a
      → IsTaken id removed (x ∷ xs) a
  unfolding IsTaken
  IsTaken-here id removed x a xs named (inl last) = inr (inl (sym last), ap k.id_of last ∙ named)
  IsTaken-here id removed x a xs named (inr (there, e)) = inr (inr there, e)

  IsTaken-there :
      (id : String) (removed x a : A) (xs : List A)
      → IsTaken id removed xs a
      → IsTaken id removed (x ∷ xs) a
  unfolding IsTaken
  IsTaken-there id removed x a xs (inl last) = inl last
  IsTaken-there id removed x a xs (inr (there, e)) = inr (inr there, e)

  take_out-IsTaken :
      (id : String) (removed : A) (xs : List A) → IsTaken id removed xs (take_out k id removed xs).0
  take_out-IsTaken id removed [] = unfold IsTaken in inl (take_out-nil id removed)
  take_out-IsTaken id removed (x ∷ xs) = elim (Bool-cases (k.id_of x == id)) [
    | inl same ↦
        rw (take_out-here id removed x xs same) (
          IsTaken-here id removed x _ xs ((eq_iff (k.id_of x) id).0 same)
            (take_out-IsTaken id x xs))
    | inr other ↦
        rw (take_out-there id removed x xs other)
          (IsTaken-there id removed x _ xs (take_out-IsTaken id removed xs))
  ]

  take_out-found :
      (id : String) (xs : List A) (b : A)
      → b ≡ (take_out k id k.blank xs).0
      → k.id_of b == "" ≡ false
      → IsAmong b xs × (k.id_of b ≡ id)
  unfolding IsTaken
  take_out-found id xs b taken named =
      let found : IsTaken id k.blank xs b = rw (sym taken) at (take_out-IsTaken id k.blank xs) in
      elim found [
        | inl nothing ↦
            absurd (ne_of_eq-false (k.id_of b) "" named (ap k.id_of nothing ∙ laws.blank_id))
        | inr there ↦ there
      ]

  plan_remove_parts :
      (id : String) (b : A) (c : Content A) (zs : List A)
      → plan_remove k id c ≡ ok (zs, b)
      → (xs : List A) × (load k c ≡ ok xs)
        × (b ≡ (take_out k id k.blank xs).0)
        × (zs ≡ (take_out k id k.blank xs).1)
        × (k.id_of b == "" ≡ false)
  unfolding plan_remove
  plan_remove_parts id b c zs h = elim (Result-cases (load k c)) [
    | inl (xs, loaded) ↦ (xs, loaded, ground arith, ground arith, ground arith)
    | inr other ↦ absurd (ground arith)
  ]

  -- In a package with the laws of Lawful, a successful Remove returns an entry of the file with the ID, and from then on Load returns the
  -- entries of before that have another ID, and no others.
  pub remove-load :
      (id : String) (b : A) (d d' : Disk A)
      → remove k id d ≡ (ok b, d')
      → (k.id_of b ≡ id)
        × ((xs : List A) × (load k d.content ≡ ok xs)
            × IsAmong b xs
            × ((ys : List A) × (load k d'.content ≡ ok ys)
                × ((x : A) → IsAmong x ys ↔ (IsAmong x xs × ¬ (k.id_of x ≡ id)))))
  unfolding remove
  remove-load id b d d' h =
      let (zs, planned, saved) = commit-eq-ok k laws d d' (plan_remove k id d.content) b h in
      let (xs, loaded, taken, left, named) = plan_remove_parts id b d.content zs planned in
      let normal_xs = (load-IsNormal k laws d.content xs loaded).0 in
      let members : (x : A) → IsAmong x zs ↔ (IsAmong x xs × ¬ (k.id_of x ≡ id)) =
        λ x. ground (arith, left, take_out-kept id k.blank xs x) in
      let (there, has_id) = take_out-found id xs b taken named in
      let (ys, listed, kept) =
        load-save_same zs d d'
          (All-of_IsAmong (IsNormal k laws) zs
            (λ x there. All-IsAmong (IsNormal k laws) xs x normal_xs ((members x).0 there).0))
          saved in
      (has_id, (xs, loaded, there, (ys, listed, λ x. ground (arith, members x, kept x))))

  commit-fails :
      (d : Disk A) (p : Result (Error E) (List A × A))
      → is_ok (commit k d p).0 ≡ false
      → (commit k d p).1 ≡ d
  unfolding save
  commit-fails d (err e) h = refl
  commit-fails d diverged h = refl
  commit-fails d (ok (xs, a)) h = elim (Option-cases (validate_all k [] (normalize_all k xs))) [
    | inl valid ↦ ground arith
    | inr (e, bad) ↦ ground arith
  ]

  -- Add and Remove that return an error leave the disk as it was.
  pub add-remove_fails :
      (a : A) (id : String) (d : Disk A)
      → (is_ok (add k a d).0 ≡ false → (add k a d).1 ≡ d)
        × (is_ok (remove k id d).0 ≡ false → (remove k id d).1 ≡ d)
  unfolding add remove
  add-remove_fails a id d =
      (commit-fails d (plan_add k a d.content), commit-fails d (plan_remove k id d.content))
