-- ===== src/LocalDev/Decided.antt =====
-- What a decision of the evaluation endpoint means (internal/localdev/authorization.go).
use anyauth.Base.{
  ℕ, String, ◌≡◌, ◌↔◌, refl, sym, ap, inl, inr, true, false, Option, none, some, List, Any, arith,
  eq_iff, Result, ok, err, diverged, Result-cases, Option-cases,
}
use anyauth.AgentRegistry.Agents
use anyauth.AgentRegistry.Agents.{Agent, find}
use anyauth.Authz.Model.{Request, equal, identity_human, identity_agent}
use anyauth.Authz.Grants.{Grant}
use anyauth.Authz.Active.{Authorizes}
use anyauth.Authz.Evaluate.{Decision}
use anyauth.Authz.Decisions.{evaluate-allowed_iff}
use anyauth.Authz.Service.{check_request, Went, check_request-Went}
use anyauth.AuthzStore.Types
use anyauth.AuthzStore.Store.{list_grants, validate_evaluation}
use anyauth.AuditLog.Events
use anyauth.AuditLog.Events.{Event}
use anyauth.AuditLog.Log
use anyauth.LocalDev.State.{App}
use anyauth.LocalDev.Replies.{Data, Decoded, decoded, undecodable, evaluation}
use anyauth.LocalDev.Evaluation.{
  decision_event, error_text, with_message, record_decision, authorizer, check_evaluation,
  evaluated, access_evaluation,
}

module _ (store_message : Types.Error → String) (audit_message : Events.Error → String) where
  -- A request that the endpoint answers with a decision: it is for the local user, by an agent that is
  -- registered and enabled, and valid for the store's applications.
  pub record IsAdmitted (a : App) (r : Request) (data_ : Data) : Type 0 where
    pub human : (r.subject.type ≡ identity_human) × (r.subject.id ≡ a.profile.sub)
    pub actor : r.actor.type ≡ identity_agent
    pub agents : List Agent
    pub loaded : Agents.load data_.agents ≡ ok agents
    pub agent : Agent
    pub registered : find agents r.actor.id ≡ some agent
    pub enabled : agent.disabled ≡ false
    pub declared : validate_evaluation r data_.authorization ≡ ok tt

  check_evaluation-same :
      (a : App) (method : String) (q : Request) (data_ : Data) {r : Request}
      → check_evaluation store_message audit_message a method (decoded q) data_ ≡ ok r
      → q ≡ r
  unfolding check_evaluation
  check_evaluation-same a method q data_ h = ground arith

  check_evaluation-admits :
      (a : App) (method : String) (r : Request) (data_ : Data) {r' : Request}
      → check_evaluation store_message audit_message a method (decoded r) data_ ≡ ok r'
      → IsAdmitted a r data_
  unfolding check_evaluation equal
  check_evaluation-admits a method r data_ h = elim (Result-cases (Agents.load data_.agents)) [
    | inr other ↦ absurd (ground arith)
    | inl (agents, loaded) ↦ elim (Option-cases (find agents r.actor.id)) [
      | inl missing ↦ absurd (ground arith)
      | inr (agent, registered) ↦ record {
        human = (
          ground (arith, eq_iff r.subject.type identity_human),
          ground (arith, eq_iff r.subject.id a.profile.sub),
        );
        actor = ground (arith, eq_iff r.actor.type identity_agent);
        agents = agents;
        loaded = loaded;
        agent = agent;
        registered = registered;
        enabled = ground arith;
        declared = ground arith;
      }
    ]
  ]

  check_evaluation-IsAdmitted :
      (a : App) (method : String) (body : Decoded Request) (data_ : Data) {r : Request}
      → check_evaluation store_message audit_message a method body data_ ≡ ok r
      → (body ≡ decoded r) × IsAdmitted a r data_
  unfolding check_evaluation
  check_evaluation-IsAdmitted a method (undecodable e) data_ h = absurd (ground arith)
  check_evaluation-IsAdmitted a method (decoded q) data_ h =
      let same = check_evaluation-same a method q data_ h in
      (ap decoded same, rw (sym same) (check_evaluation-admits a method q data_ h))

  check_evaluation-refuses :
      (a : App) (method : String) (body : Decoded Request) (data_ : Data) {d : Decision}
      → check_evaluation store_message audit_message a method body data_ ≡ err (evaluation d)
      → ⊥
  unfolding check_evaluation
  check_evaluation-refuses a method (undecodable e) data_ h = ground arith
  check_evaluation-refuses a method (decoded r) data_ h = ground arith

  with_message-ok :
      (m : Result Types.Error (List Grant)) {grants : List Grant}
      → with_message store_message audit_message m ≡ ok grants
      → m ≡ ok grants
  with_message-ok (ok g) h = ground arith
  with_message-ok (err e) h = cc
  with_message-ok diverged h = cc

  error_text-none :
      (m : Result Events.Error Event)
      → error_text store_message audit_message m ≡ none
      → (e : Event) × (m ≡ ok e)
  error_text-none (ok e) h = (e, refl)
  error_text-none (err e) h = cc
  error_text-none diverged h = cc

  record_decision-append :
      (clock : ℕ) (random : Option String) (r : Request) (d : Decision) (s s' : Data)
      → record_decision store_message audit_message clock random r d s ≡ (none, s')
      → (e : Event) × (Log.append clock random (decision_event r d) s.audit ≡ (ok e, s'.audit))
  unfolding record_decision
  record_decision-append clock random r d s s' h =
      let (e, appended) =
        error_text-none (Log.append clock random (decision_event r d) s.audit).0 (ground arith) in
      (e, ground arith)

  same-append :
      (clock : ℕ) (random : Option String) (event : Event) (s between : Data)
      (o : Result String String) (id : String) {out : Result Events.Error Event × Log.Disk}
      → ◌≡◌ {A = Result String String × Data} (o, s) (ok id, between)
      → Log.append clock random event between.audit ≡ out
      → Log.append clock random event s.audit ≡ out
  same-append clock random event s between o id made h =
      rw (ap (λ (p : Result String String × Data). p.1) made) h

  Went-decides :
      (now clock : ℕ) (id_random event_random : Option String) (r : Request) (s s' : Data)
      (d : Decision)
      → Went (authorizer store_message audit_message now clock id_random event_random) r s s' d
      → ((grants : List Grant) × (list_grants s.authorization ≡ ok grants)
          × ((d.allowed ≡ true) ↔ Any (Authorizes grants r now) grants))
        × ((e : Event) × (Log.append clock event_random (decision_event r d) s.audit
              ≡ (ok e, s'.audit)))
  unfolding authorizer
  Went-decides now clock id_random event_random r s s' d went =
      let (e, noted) = record_decision-append clock event_random r d went.between s' went.noted in
      (
        (
          went.grants,
          with_message-ok (list_grants s.authorization) went.loaded,
          evaluate-allowed_iff went.grants r (record { now = now; decision_id = went.id })
              went.decided,
        ),
        (
          e,
          same-append clock event_random (decision_event r d) s went.between _ went.id went.made
              noted,
        ),
      )

  evaluated-ok :
      (p : Result _ Decision × Data) {d : Decision} {s' : Data}
      → evaluated store_message audit_message p ≡ (some (evaluation d), s')
      → p ≡ (ok d, s')
  evaluated-ok (ok d, s) h = ground arith
  evaluated-ok (err e, s) h = ground arith
  evaluated-ok (diverged, s) h = ground arith

  -- An answer with a decision is to a request that was admitted; the decision is true exactly if some
  -- grant of the store authorizes the request now; and the decision's event has been appended to the
  -- audit log.
  pub access_evaluation-IsDecided :
      (a : App) (now clock : ℕ) (id_random event_random : Option String) (method : String)
      (body : Decoded Request) (s s' : Data) (d : Decision)
      → access_evaluation store_message audit_message a now clock id_random event_random method body
          s
        ≡ (some (evaluation d), s')
      → (r : Request) × (body ≡ decoded r)
        × IsAdmitted a r s
        × ((grants : List Grant) × (list_grants s.authorization ≡ ok grants)
            × ((d.allowed ≡ true) ↔ Any (Authorizes grants r now) grants))
        × ((e : Event) × (Log.append clock event_random (decision_event r d) s.audit
              ≡ (ok e, s'.audit)))
  unfolding access_evaluation authorizer
  access_evaluation-IsDecided a now clock id_random event_random method body s s' d h =
      elim (Result-cases (check_evaluation store_message audit_message a method body s)) [
        | inr (inl out) ↦ absurd (ground arith)
        | inr (inr (e, refused)) ↦
            absurd (check_evaluation-refuses a method body s {d = d} (ground arith))
        | inl (r, admitted) ↦
            let (read, fits) = check_evaluation-IsAdmitted a method body s admitted in
            let asked : check_request
                  (authorizer store_message audit_message now clock id_random event_random) r s
                ≡ (ok d, s') =
              evaluated-ok _ (ground arith) in
            let (by_grants, noted) = Went-decides now clock id_random event_random r s s' d (
              check_request-Went
                (authorizer store_message audit_message now clock id_random event_random) r s s' d
                asked) in
            (r, read, fits, by_grants, noted)
      ]
