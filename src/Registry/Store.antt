-- ===== src/Registry/Store.antt =====
-- Load, Save, Add and Remove, which internal/agentregistry/registry.go,
-- internal/clientregistry/registry.go and internal/policy/policy.go have word for word, over a record
-- of what differs. The version number, which Save writes and Load passes over, is left out.
use anyauth.Base.{
  String, ◌≡◌, ◌↔◌, Any, Bool, true, false, Option, none, some, List, [], ◌∷◌, ◌++◌, map, ◌==◌,
  if◌then◌else◌, any, contains, sort, reject, first_error, Result, ok, err, diverged, ◌>>=◌, ◌>>◌,
  check,
}

-- A package's own functions on its entries. `arrange` is what Add does to the list that it passes
-- to Save: it sorts it, or nothing; `blank` is the zero value of the type.
pub record Kind (E A : Type 0) : Type 0 where
  pub id_of : A → String
  pub blank : A
  pub normalize : A → A
  pub validate : A → Option E
  pub less : A → A → Bool
  pub arrange : List A → List A

pub data Error (E : Type 0) : Type 0 where
  invalid : E → Error E
  duplicate exists not_found : String → Error E
  unreadable_file unwritable_file : Error E

-- What stands at the path of the file.
pub data Content (A : Type 0) : Type 0 where
  absent unreadable : Content A
  stored : List A → Content A

pub record Disk (A : Type 0) : Type 0 where
  pub content : Content A
  pub writable : Bool

-- An error of a package's Validate.
abbrev pub from_validate : {E : Type 0} → Option E → Option (Error E)
from_validate none = none
from_validate (some e) = some (invalid e)

module _ {E A : Type 0} (k : Kind E A) where
  unfoldable pub validate_all : List String → List A → Option (Error E)
  validate_all seen [] = none
  validate_all seen (x ∷ xs) = first_error (
      from_validate (k.validate x)
      ∷ reject (contains seen (k.id_of x)) (duplicate (k.id_of x))
      ∷ validate_all (k.id_of x ∷ seen) xs
      ∷ [])

  abbrev pub normalize_all : List A → List A
  normalize_all xs = map k.normalize xs

  unfoldable pub load : Content A → Result (Error E) (List A)
  load absent = ok []
  load unreadable = err unreadable_file
  load (stored entries) =
      let xs = normalize_all entries in check (validate_all [] xs) >> ok (sort k.less xs)

  -- The end of Save: an invalid list is not written.
  abbrev pub write_file : Option (Error E) → List A → Disk A → Result (Error E) (Unit {0}) × Disk A
  write_file (some e) xs d = (err e, d)
  write_file none xs d =
      if d.writable then (ok tt, record d { content = stored xs }) else (err unwritable_file, d)

  unfoldable pub save : List A → Disk A → Result (Error E) (Unit {0}) × Disk A
  save entries d =
      let xs = normalize_all entries in write_file (validate_all [] xs) (sort k.less xs) d

  -- `if err := Save(...); err != nil { return ..., err }` and the return of a value.
  abbrev pub after_save : A → Result (Error E) (Unit {0}) × Disk A → Result (Error E) A × Disk A
  after_save a (ok u, d) = (ok a, d)
  after_save a (err e, d) = (err e, d)
  after_save a (diverged, d) = (diverged, d)

  -- The end of Add and Remove: what was decided is an error, or a list to save and an entry to
  -- return.
  abbrev pub commit : Disk A → Result (Error E) (List A × A) → Result (Error E) A × Disk A
  commit d (ok (xs, a)) = after_save a (save xs d)
  commit d (err e) = (err e, d)
  commit d diverged = (diverged, d)

  -- Add up to the call of Save, for an entry that has been normalized and given its defaults.
  unfoldable pub plan_add : A → Content A → Result (Error E) (List A × A)
  plan_add a c = do
    check (from_validate (k.validate a))
    xs ← load c
    check (reject (any (λ old. k.id_of old == k.id_of a) xs) (exists (k.id_of a)))
    ok (k.arrange (xs ++ a ∷ []), a)

  unfoldable pub add : A → Disk A → Result (Error E) A × Disk A
  add a d = commit d (plan_add a d.content)

  -- The loop of Remove: the last entry with the ID, and the entries that are kept.
  unfoldable pub take_out : String → A → List A → A × List A
  take_out id removed [] = (removed, [])
  take_out id removed (x ∷ xs) =
      let gone = take_out id x xs in
      let rest = take_out id removed xs in if k.id_of x == id then gone else (rest.0, x ∷ rest.1)

  unfoldable pub plan_remove : String → Content A → Result (Error E) (List A × A)
  plan_remove id c = do
    xs ← load c
    let out = take_out id k.blank xs
    check (reject (k.id_of out.0 == "") (not_found id))
    ok (out.1, out.0)

  unfoldable pub remove : String → Disk A → Result (Error E) A × Disk A
  remove id d = commit d (plan_remove id d.content)

-- What the packages' functions have in common.
pub record Lawful {E A : Type 0} (k : Kind E A) : Type 0 where
  pub normalize_idem : (a : A) → k.normalize (k.normalize a) ≡ k.normalize a
  pub less_asymm : (a b : A) → k.less a b ≡ true → k.less b a ≡ false
  pub blank_id : k.id_of k.blank ≡ ""
  pub valid_id : (a : A) → k.validate a ≡ none → ¬ (k.id_of a ≡ "")
  pub arranged : (a : A) (xs : List A) → Any (λ x. x ≡ a) xs ↔ Any (λ x. x ≡ a) (k.arrange xs)
