-- ===== src/Delegation/Kept.antt =====
-- What Create of internal/delegation/delegation.go leaves in the file of delegations.
use anyauth.Base.{
  ℕ, String, ◌≡◌, refl, ap, ◌⊎◌, inl, inr, Option, List, [], ◌∷◌, ◌++◌, Any, Option-cases,
  Bool-cases, sort, sort-Any, Result, ok, err, diverged, Result-cases,
}
use anyauth.Registry.Store.{Content, stored, Disk}
use anyauth.Delegation.Records.{
  Delegation, RecordError, unwritable_file, normalize, normalize_all, validate_all, issued_before,
  load, save,
}
use anyauth.Delegation.Tokens.{Claims}
use anyauth.Delegation.Creation.{CreateRequest, CreateError, after_append, issue, create}
use anyauth.Delegation.Created.{IsIssued, issue-IsIssued}

abbrev pub Has : Delegation → List Delegation → Type 0
Has x ds = Any (λ y. y ≡ x) ds

normalize_all-Has :
    (x : Delegation) (ds : List Delegation) → Has x ds → Has (normalize x) (normalize_all ds)
normalize_all-Has x [] h = elim h [ ]
normalize_all-Has x (y ∷ ds) (inl here) = inl (ap normalize here)
normalize_all-Has x (y ∷ ds) (inr there) = inr (normalize_all-Has x ds there)

append-Has : (x r : Delegation) (ds : List Delegation) → Has x (r ∷ ds) → Has x (ds ++ (r ∷ []))
append-Has x r [] h = h
append-Has x r (y ∷ ds) (inl new) = inr (append-Has x r ds (inl new))
append-Has x r (y ∷ ds) (inr (inl here)) = inl here
append-Has x r (y ∷ ds) (inr (inr there)) = inr (append-Has x r ds (inr there))

-- A file that has what a list had, normalised.
abbrev pub Keeps : List Delegation → Content Delegation → Type 0
Keeps ds c =
    (file : List Delegation) × (c ≡ stored file)
    × ((x : Delegation) → Has x ds → Has (normalize x) file)

-- After Save either the file keeps the list or nothing is written.
save-cases :
    (ds : List Delegation) (d : Disk Delegation)
    → ((d' : Disk Delegation) × (save ds d ≡ (ok tt, d')) × Keeps ds d'.content)
      ⊎ ((e : RecordError) × (save ds d ≡ (err e, d)))
unfolding save
save-cases ds d = elim (Option-cases (validate_all [] [] (normalize_all ds))) [
  | inr (e, bad) ↦ inr (e, rw bad refl)
  | inl valid ↦ elim (Bool-cases d.writable) [
    | inr locked ↦ inr (unwritable_file, rw (valid, locked) refl)
    | inl open_ ↦
        let file = sort issued_before (normalize_all ds) in
        inl (
          record d { content = stored file },
          rw (valid, open_) refl,
          (
            file,
            refl,
            λ x h.
                (sort-Any issued_before (λ y. y ≡ normalize x) (normalize_all ds)).0
                  (normalize_all-Has x ds h),
          ),
        )
  ]
]

module _ (sign : Claims → Result String String) (digest : String → String) (clock : ℕ)
    (id_random token_random task_random : Option String) (req : CreateRequest) where
  -- What Create leaves of a disk: with its delegation, which is issued, the file keeps it and what was
  -- stored; with an error the disk is as it was.
  abbrev pub Outcome :
      Disk Delegation → Result CreateError (Delegation × String) × Disk Delegation → Type 0
  Outcome d (ok (r, token), d') =
      IsIssued sign digest clock id_random token_random task_random req r token
      × ((ds : List Delegation) × (load d.content ≡ ok ds) × Keeps (r ∷ ds) d'.content)
  Outcome d (err e, d') = d' ≡ d
  Outcome d (diverged, d') = d' ≡ d

  append-Outcome :
      (d : Disk Delegation) (ds : List Delegation) (r : Delegation) (token : String)
      → IsIssued sign digest clock id_random token_random task_random req r token
      → load d.content ≡ ok ds
      → Outcome d (after_append r token (save (ds ++ (r ∷ [])) d))
  append-Outcome d ds r token issued loaded = elim (save-cases (ds ++ (r ∷ [])) d) [
    | inr (e, unsaved) ↦ rw unsaved refl
    | inl (d', saved, (file, content, keeps)) ↦
        rw saved (issued, (ds, loaded, (file, content, λ x h. keeps x (append-Has x r ds h))))
  ]

  -- Create either returns a delegation that is issued as the request asks, for a valid and enabled
  -- agent, with a signed payload that validateClaims accepts from the second of the issue to that of
  -- the expiry and that the delegation stands for until it expires, and then the file keeps it and
  -- every delegation that was stored; or it returns an error and leaves the disk as it was.
  pub create-Outcome :
      (d : Disk Delegation)
      → Outcome d (create sign digest clock id_random token_random task_random req d)
  unfolding create
  create-Outcome d =
      elim (Result-cases (issue sign digest clock id_random token_random task_random req)) [
        | inr (inl none_) ↦ rw none_ refl
        | inr (inr (e, refused)) ↦ rw refused refl
        | inl ((r, token), made) ↦
            let issued =
              issue-IsIssued sign digest clock id_random token_random task_random req r token
                made in
            elim (Result-cases (load d.content)) [
              | inr (inl none_) ↦ rw (made, none_) refl
              | inr (inr (e, unread)) ↦ rw (made, unread) refl
              | inl (ds, loaded) ↦ rw (made, loaded) (append-Outcome d ds r token issued loaded)
            ]
      ]
