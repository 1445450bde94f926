-- ===== src/Delegation/CreationExamples.antt =====
-- A delegation that Create makes; the theorem at this run. The signature of a payload is one text,
-- and the digest of a text is the text.
use anyauth.Base.{
  String, ◌≡◌, refl, true, false, none, some, [], ◌∷◌, insert, sort, text_less, trim_space,
  contains_any, collect, Result, ok, err,
}
use anyauth.Registry.Store.{stored, Disk}
use anyauth.AgentRegistry.Agents
use anyauth.AgentRegistry.Agents.{Agent}
use anyauth.Delegation.Records
use anyauth.Delegation.Records.{
  Delegation, validate_scope, validate_stored, normalize_scopes, issued_before, load, save,
}
use anyauth.Delegation.Tokens.{Claims, claim, join}
use anyauth.Delegation.Creation.{
  CreateRequest, disabled_agent, validate_create_request, task_of, payload_of, issue, create,
}
use anyauth.Delegation.Kept.{Outcome, create-Outcome}

program : Unit {0}
unfolding insert sort text_less trim_space contains_any collect Agents.validate validate_scope
    validate_stored normalize_scopes Records.normalize Records.validate_all issued_before load save
    claim join validate_create_request task_of payload_of issue create
program = tt

abbrev request : CreateRequest
request = record {
  issuer = "http://issuer";
  audience = "docs";
  human = record { version = 1; sub = "alice"; name = "Alice"; email = ""; pin_verifier = none };
  agent = record { id = "planner"; name = "planner"; kind = ""; created_at = 7; disabled = false };
  task_id = "";
  task_name = " trip ";
  scopes = "read" ∷ " list" ∷ "read" ∷ [];
  note = "";
  ttl = 3600000000000;
  now = 62135596900000000000;
  has_key = true;
}

abbrev made : Delegation
made = record {
  id = "del_a";
  token_id = "jti_b";
  token_sha256 = "sha256:signed";
  human_sub = "alice";
  human_name = "Alice";
  human_email = "";
  agent_id = "planner";
  agent_name = "planner";
  task_id = "task_c";
  task_name = "trip";
  audience = "docs";
  scopes = "read" ∷ "list" ∷ [];
  note = "";
  issued_at = 62135596900000000000;
  expires_at = 62135600500000000000;
  revoked_at = none;
}

-- A delegation made later.
abbrev later : Delegation
later = record made { id = "del_z"; token_id = "jti_z"; issued_at = 62135596900000000001 }

abbrev sign : Claims → Result String String
sign claims = ok "signed"

abbrev digest : String → String
digest token = token

abbrev disk : Disk Delegation
disk = record { content = stored (later ∷ []); writable = true }

abbrev disk_after : Disk Delegation
disk_after = record { content = stored (made ∷ later ∷ []); writable = true }

creates :
    create sign digest 0 (some "a") (some "b") (some "c") request disk
    ≡ (ok (made, "signed"), disk_after)
unfolding program
creates = refl

refuses :
    create sign digest 0
      (some "a")
      (some "b")
      none
      (record request { agent = record request.agent { disabled = true } })
      disk
    ≡ (err (disabled_agent "planner"), disk)
unfolding program
refuses = refl

create-Outcome_example :
    Outcome sign digest 0
      (some "a")
      (some "b")
      (some "c")
      request
      disk
      (ok (made, "signed"), disk_after)
unfolding program
create-Outcome_example = create-Outcome sign digest 0 (some "a") (some "b") (some "c") request disk
