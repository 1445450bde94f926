-- ===== src/AuthzStore/Saving.antt =====
-- Saving and loading (internal/authzstore/store.go): what is saved is what is loaded, and every
-- operation leaves a file that can be loaded.
use anyauth.Base.{
  ℕ, String, ◌≡◌, refl, sym, ap, ◌∙◌, ◌⊎◌, inl, inr, Bool, true, false, arith, eqb, Result, ok, err,
  diverged, is_ok, Result-cases,
}
use anyauth.AuthzStore.Types.{Application, AuthorizationRequest, File, Error, Content, stored, Disk}
use anyauth.AuthzStore.Normalize.{normalize_file, normalize_file_idem}
use anyauth.AuthzStore.Validate.{validate_file}
use anyauth.AuthzStore.Store.{
  default_version, load_unlocked, write_file, save_unlocked, commit, plan_application,
  add_application, plan_create, create_request, plan_decision, decide_request, plan_revoke,
  revoke_grant,
}

-- The form in which a file is stored.
abbrev pub saved_form : File → File
saved_form f = normalize_file (default_version f)

normalize_file-version : (f : File) → (normalize_file f).version ≡ f.version
unfolding normalize_file
normalize_file-version f = refl

default_version_fixed : (f : File) → eqb f.version 0 ≡ false → default_version f ≡ f
unfolding default_version
default_version_fixed f h = ground arith

default_version-version : (f : File) → eqb (default_version f).version 0 ≡ false
unfolding default_version
default_version-version f = ground arith

pub saved_form_idem : (f : File) → saved_form (saved_form f) ≡ saved_form f
saved_form_idem f =
    ap normalize_file (
      default_version_fixed (saved_form f)
        (rw (normalize_file-version (default_version f)) (default_version-version f)))
    ∙ normalize_file_idem (default_version f)

-- What the saves that succeed do.
pub save_unlocked-ok :
    (f : File) (d d' : Disk)
    → save_unlocked f d ≡ (ok tt, d')
    → (validate_file (saved_form f) ≡ ok tt)
      × (d'.content ≡ stored (saved_form f))
      × (d'.writable ≡ d.writable)
unfolding save_unlocked write_file
save_unlocked-ok f d d' h = elim (Result-cases (validate_file (saved_form f))) [
  | inl (u, valid) ↦ (valid, ground arith, ground arith)
  | inr other ↦ absurd (ground arith)
]

-- A save that fails leaves the disk as it was.
pub save_unlocked-fails :
    (f : File) (d : Disk) → (save_unlocked f d).0 ≡ ok tt ⊎ ((save_unlocked f d).1 ≡ d)
unfolding save_unlocked write_file
save_unlocked-fails f d = elim (Result-cases (validate_file (saved_form f))) [
  | inl (u, valid) ↦ ground arith
  | inr other ↦ ground arith
]

-- What a successful save has written is what the next load returns: the normalized file.
pub load_unlocked-save_unlocked :
    (f : File) (d d' : Disk)
    → save_unlocked f d ≡ (ok tt, d')
    → load_unlocked d'.content ≡ ok (normalize_file (default_version f))
unfolding load_unlocked
load_unlocked-save_unlocked f d d' h =
    let (valid, written, same) = save_unlocked-ok f d d' h in rw (written, saved_form_idem f, valid)

-- How an operation ends: the disk is as it was, or what was decided has been saved and is returned.
pub commit-cases :
    {A : Type 0} (d : Disk) (p : Result Error (File × Result Error A))
    → ((commit d p).1 ≡ d)
      ⊎ ((f : File) × (p ≡ ok (f, (commit d p).0)) × (save_unlocked f d ≡ (ok tt, (commit d p).1)))
commit-cases d (err e) = inl refl
commit-cases d diverged = inl refl
commit-cases d (ok (f, r)) = elim (Result-cases (save_unlocked f d).0) [
  | inl (u, saved) ↦ inr (f, ground arith, ground arith)
  | inr other ↦ inl (ground (arith, save_unlocked-fails f d))
]

-- An operation that returns a value without an error has saved what was decided.
pub commit-eq-ok :
    {A : Type 0} (d d' : Disk) (p : Result Error (File × Result Error A)) (a : A)
    → commit d p ≡ (ok a, d')
    → (f : File) × (p ≡ ok (f, ok a)) × (save_unlocked f d ≡ (ok tt, d'))
commit-eq-ok d d' (err e) a h = absurd (ground arith)
commit-eq-ok d d' diverged a h = absurd (ground arith)
commit-eq-ok d d' (ok (f, r)) a h = elim (Result-cases (save_unlocked f d).0) [
  | inl (u, saved) ↦ (f, ground arith, ground arith)
  | inr other ↦ absurd (ground arith)
]

-- The operations that change the disk, with their arguments.
pub data Operation : Type 0 where
  adding : ℕ → Application → Operation
  creating : AuthorizationRequest → Operation
  deciding : String → Bool → String → ℕ → Operation
  revoking : String → ℕ → Operation

unfoldable pub run : Operation → Disk → Disk
run (adding clock a) d = (add_application clock a d).1
run (creating r) d = (create_request r d).1
run (deciding id approve grant_id now) d = (decide_request id approve grant_id now d).1
run (revoking id now) d = (revoke_grant id now d).1

plan_application-loads :
    (clock : ℕ) (a : Application) (c : Content)
    → is_ok (plan_application clock a c) ≡ true
    → is_ok (load_unlocked c) ≡ true
unfolding plan_application
plan_application-loads clock a c h = ground arith

plan_create-loads :
    (r : AuthorizationRequest) (c : Content)
    → is_ok (plan_create r c) ≡ true
    → is_ok (load_unlocked c) ≡ true
unfolding plan_create
plan_create-loads r c h = ground arith

plan_decision-loads :
    (id : String) (approve : Bool) (grant_id : String) (now : ℕ) (c : Content)
    → is_ok (plan_decision id approve grant_id now c) ≡ true
    → is_ok (load_unlocked c) ≡ true
unfolding plan_decision
plan_decision-loads id approve grant_id now c h = ground arith

plan_revoke-loads :
    (id : String) (now : ℕ) (c : Content)
    → is_ok (plan_revoke id now c) ≡ true
    → is_ok (load_unlocked c) ≡ true
unfolding plan_revoke
plan_revoke-loads id now c h = ground arith

commit-loads :
    {A : Type 0} (d : Disk) (p : Result Error (File × Result Error A))
    → (is_ok p ≡ true → is_ok (load_unlocked d.content) ≡ true)
    → is_ok (load_unlocked (commit d p).1.content) ≡ is_ok (load_unlocked d.content)
commit-loads d p h = elim (commit-cases d p) [
  | inl same ↦ ap (λ (e : Disk). is_ok (load_unlocked e.content)) same
  | inr (f, planned, saved) ↦
      ap is_ok (load_unlocked-save_unlocked f d (commit d p).1 saved) ∙ sym (h (rw planned))
]

-- Every operation, whatever it is called with and however it ends, leaves a disk that can be loaded
-- if and only if it could be loaded before: no operation damages the file, and none writes over a
-- file that it cannot read or that is invalid.
pub run-loads :
    (op : Operation) (d : Disk)
    → is_ok (load_unlocked (run op d).content) ≡ is_ok (load_unlocked d.content)
unfolding run add_application create_request decide_request revoke_grant
run-loads (adding clock a) d =
    commit-loads d (plan_application clock a d.content) (plan_application-loads clock a d.content)
run-loads (creating r) d = commit-loads d (plan_create r d.content) (plan_create-loads r d.content)
run-loads (deciding id approve grant_id now) d =
    commit-loads d (plan_decision id approve grant_id now d.content)
      (plan_decision-loads id approve grant_id now d.content)
run-loads (revoking id now) d =
    commit-loads d (plan_revoke id now d.content) (plan_revoke-loads id now d.content)
