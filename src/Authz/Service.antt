-- ===== src/Authz/Service.antt =====
-- internal/authz/service.go: the Authorizer. The grant source, the recorder, the clock and the
-- generator of decision IDs are interfaces in the source and functions over a state `S` here.
use anyauth.Base.{
  ℕ, String, ◌≡◌, Option, none, some, List, arith, Result, ok, err, diverged, Option-cases,
  Result-cases, inl, inr,
}
use anyauth.Authz.Model.{Error, Request, validate_request}
use anyauth.Authz.Grants.{Grant}
use anyauth.Authz.Evaluate.{Decision, evaluate}

-- The errors of Check, by the prefix of their text; what the interfaces return is a text.
pub data CheckError : Type 0 where
  invalid_request evaluation : Error → CheckError
  load_grants create_decision_id record_decision : String → CheckError

pub record Authorizer (S : Type 0) : Type 0 where
  pub list_grants : S → Result String (List Grant)
  pub record_decision : Request → Decision → S → Option String × S
  pub now : S → ℕ
  pub new_id : S → Result String String × S

-- The errors of NewAuthorizer.
pub data MissingPart : Type 0 where
  grant_source decision_recorder clock decision_id_generator : MissingPart

-- NewAuthorizer; a part that may be nil is an `Option`.
unfoldable pub new_authorizer :
    {S : Type 0}
    → Option (S → Result String (List Grant))
    → Option (Request → Decision → S → Option String × S)
    → Option (S → ℕ)
    → Option (S → Result String String × S)
    → Result MissingPart (Authorizer S)
new_authorizer none recorder now new_id = err grant_source
new_authorizer (some grants) none now new_id = err decision_recorder
new_authorizer (some grants) (some recorder) none new_id = err clock
new_authorizer (some grants) (some recorder) (some now) none = err decision_id_generator
new_authorizer (some grants) (some recorder) (some now) (some new_id) =
    ok (record { list_grants = grants; record_decision = recorder; now = now; new_id = new_id })

module _ {S : Type 0} (a : Authorizer S) (r : Request) where
  recorded : Decision → Option String × S → Result CheckError Decision × S
  recorded d (none, s) = (ok d, s)
  recorded d (some e, s) = (err (CheckError.record_decision e), s)

  -- The last steps of Check: record the decision, and return it only if that succeeds.
  finish : Result Error Decision → S → Result CheckError Decision × S
  unfolding recorded
  finish (err e) s = (err (evaluation e), s)
  finish diverged s = (diverged, s)
  finish (ok d) s = recorded d (a.record_decision r d s)

  decide : List Grant → Result String String × S → Result CheckError Decision × S
  unfolding finish
  decide grants (err e, s) = (err (create_decision_id e), s)
  decide grants (diverged, s) = (diverged, s)
  decide grants (ok id, s) =
      finish (evaluate grants r (record { now = a.now s; decision_id = id })) s

  load : Result String (List Grant) → S → Result CheckError Decision × S
  unfolding decide
  load (err e) s = (err (load_grants e), s)
  load diverged s = (diverged, s)
  load (ok grants) s = decide grants (a.new_id s)

  checked : Option Error → S → Result CheckError Decision × S
  unfolding load
  checked (some e) s = (err (invalid_request e), s)
  checked none s = load (a.list_grants s) s

  -- Authorizer.Check
  unfoldable pub check_request : S → Result CheckError Decision × S
  unfolding checked
  check_request s = checked (validate_request r) s

-- How a check that returns a decision went: the grants were loaded, an ID was made, Evaluate made
-- the decision, and the recorder took it.
pub record Went {S : Type 0} (a : Authorizer S) (r : Request) (s s' : S) (d : Decision)
    : Type 0 where
  pub grants : List Grant
  pub id : String
  pub between : S
  pub loaded : a.list_grants s ≡ ok grants
  pub made : a.new_id s ≡ (ok id, between)
  pub decided : evaluate grants r (record { now = a.now between; decision_id = id }) ≡ ok d
  pub noted : a.record_decision r d between ≡ (none, s')

module _ {S : Type 0} (a : Authorizer S) (r : Request) where
  recorded_inv :
      (d : Decision) (o : Option String) (s s' : S) {d' : Decision}
      → recorded a r d (o, s) ≡ (ok d', s')
      → (d ≡ d') × (o ≡ none) × (s ≡ s')
  unfolding recorded
  recorded_inv d none s s' h = ground arith
  recorded_inv d (some e) s s' h = ground arith

  finish_inv :
      (m : Result Error Decision) (s s' : S) {d : Decision}
      → finish a r m s ≡ (ok d, s')
      → (m ≡ ok d) × (a.record_decision r d s ≡ (none, s'))
  unfolding finish
  finish_inv (err e) s s' h = ground arith
  finish_inv diverged s s' h = ground arith
  finish_inv (ok d) s s' h =
      let (o, s₁) = a.record_decision r d s in
      let (same, fine, end) = recorded_inv d o s₁ s' h in ground arith

  -- Authorizer.Check fails closed: a decision is returned only after Evaluate has made it from the
  -- loaded grants and the recorder has accepted it.
  pub check_request-Went :
      (s s' : S) (d : Decision) → check_request a r s ≡ (ok d, s') → Went a r s s' d
  unfolding check_request
  check_request-Went s s' d h = elim (Option-cases (validate_request r)) [
    | inr (e, bad) ↦ absurd (ground arith)
    | inl fine ↦ elim (Result-cases (a.list_grants s)) [
      | inr other ↦ absurd (ground arith)
      | inl (grants, loaded) ↦ elim (Result-cases (a.new_id s).0) [
        | inr other ↦ absurd (ground arith)
        | inl (id, made) ↦
            let m = evaluate grants r (record { now = a.now (a.new_id s).1; decision_id = id }) in
            let (decided, noted) = finish_inv m (a.new_id s).1 s' (ground arith) in
            record {
              grants = grants;
              id = id;
              between = (a.new_id s).1;
              loaded = loaded;
              made = ground arith;
              decided = decided;
              noted = noted;
            }
      ]
    ]
  ]
