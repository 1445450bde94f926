-- ===== src/AuditLog/Events.antt =====
-- internal/auditlog/auditlog.go: events, their normal form and the validator.
use anyauth.Base.{
  ℕ, String, ◌≡◌, Option, List, [], ◌∷◌, ◌==◌, eqb, trim_space, trim_space_idem, collect,
  collect_idem, reject, first_error,
}

pub record Event : Type 0 where
  pub id : String
  pub time : ℕ
  pub type : String
  pub decision : String
  pub actor_type : String
  pub human_sub : String
  pub agent_id : String
  pub delegation_id : String
  pub token_id : String
  pub decision_id : String
  pub application_id : String
  pub action : String
  pub resource_type : String
  pub grant_ids : List String
  pub task_id : String
  pub task_name : String
  pub audience : String
  pub scopes : List String
  pub resource : String
  pub reason : String
  pub note : String

-- An event literal that leaves every field out.
abbrev pub no_event : Event
no_event = record {
  id = "";
  time = 0;
  type = "";
  decision = "";
  actor_type = "";
  human_sub = "";
  agent_id = "";
  delegation_id = "";
  token_id = "";
  decision_id = "";
  application_id = "";
  action = "";
  resource_type = "";
  grant_ids = [];
  task_id = "";
  task_name = "";
  audience = "";
  scopes = [];
  resource = "";
  reason = "";
  note = "";
}

-- The errors of the package.
pub data Error : Type 0 where
  id_required type_required decision_required time_required : Error
  no_randomness unreadable_file unwritable_file undecodable_line line_too_long : Error

unfoldable pub validate : Event → Option Error
validate e = first_error (
    reject (e.id == "") id_required
    ∷ reject (e.type == "") type_required
    ∷ reject (e.decision == "") decision_required
    ∷ reject (eqb e.time 0) time_required
    ∷ [])

unfoldable pub normalize_scopes : List String → List String
normalize_scopes scopes = collect [] scopes

unfoldable pub normalize : Event → Event
normalize e = record e {
  id = trim_space e.id;
  type = trim_space e.type;
  decision = trim_space e.decision;
  actor_type = trim_space e.actor_type;
  human_sub = trim_space e.human_sub;
  agent_id = trim_space e.agent_id;
  delegation_id = trim_space e.delegation_id;
  token_id = trim_space e.token_id;
  decision_id = trim_space e.decision_id;
  application_id = trim_space e.application_id;
  action = trim_space e.action;
  resource_type = trim_space e.resource_type;
  grant_ids = normalize_scopes e.grant_ids;
  task_id = trim_space e.task_id;
  task_name = trim_space e.task_name;
  audience = trim_space e.audience;
  resource = trim_space e.resource;
  reason = trim_space e.reason;
  note = trim_space e.note;
  scopes = normalize_scopes e.scopes;
}

pub normalize_idem : (e : Event) → normalize (normalize e) ≡ normalize e
unfolding normalize normalize_scopes
normalize_idem e = simp (trim_space_idem, collect_idem)
