-- ===== src/Delegation/Creation.antt =====
-- internal/delegation/delegation.go: Create. The signature of a payload, jose.SignJWT under the
-- key of the request, is the parameter `sign`, the SHA-256 of a text in hexadecimal is `digest`,
-- and the random texts of jose.RandomURLToken are arguments, `none` for one that fails.
use anyauth.Base.{
  ℕ, ◌+◌, ◌-◌, String, Bool, not, ◌&&◌, Option, none, some, List, [], ◌∷◌, ◌++◌, ◌==◌, ltb, eqb,
  if◌then◌else◌, trim_space, contains_any, is_empty, reject, first_error, Result, ok, err, diverged,
  ◌>>=◌, ◌>>◌, check,
}
use Prim.Native.String
use anyauth.Registry.Store.{Disk}
use anyauth.AgentRegistry.Agents
use anyauth.AgentRegistry.Agents.{Agent, Invalid}
use anyauth.UserStore.Profiles.{Profile}
use anyauth.Delegation.Records.{Delegation, RecordError, normalize_scopes, load, save, or_clock}
use anyauth.Delegation.Tokens.{
  Value, text, number, negative, other, Claims, join, epoch, seconds, token_sha256,
}

-- A lifetime below 0, which is refused as 0 is, is given by 0.
pub record CreateRequest : Type 0 where
  pub issuer : String
  pub audience : String
  pub human : Profile
  pub agent : Agent
  pub task_id : String
  pub task_name : String
  pub scopes : List String
  pub note : String
  pub ttl : ℕ
  pub now : ℕ
  pub has_key : Bool

pub data CreateError : Type 0 where
  key_required issuer_required audience_required ttl_not_positive : CreateError
  human_sub_required human_name_required task_id_has_whitespace no_scopes no_randomness :
      CreateError
  invalid_agent : Invalid → CreateError
  disabled_agent : String → CreateError
  unsigned : String → CreateError
  not_stored : RecordError → CreateError

abbrev pub agent_error : Option Invalid → Option CreateError
agent_error none = none
agent_error (some e) = some (invalid_agent e)

unfoldable pub validate_create_request : CreateRequest → Option CreateError
validate_create_request req = first_error (
    reject (not req.has_key) key_required
    ∷ reject (req.issuer == "") issuer_required
    ∷ reject (req.audience == "") audience_required
    ∷ reject (eqb req.ttl 0) ttl_not_positive
    ∷ reject (req.human.sub == "") human_sub_required
    ∷ reject (req.human.name == "") human_name_required
    ∷ agent_error (Agents.validate req.agent)
    ∷ reject req.agent.disabled (disabled_agent req.agent.id)
    ∷ reject (not (req.task_id == "") && contains_any req.task_id " \t\r\n") task_id_has_whitespace
    ∷ reject (is_empty req.scopes) no_scopes
    ∷ [])

abbrev pub random_prefixed_id : String → Option String → Result CreateError String
random_prefixed_id prefix none = err no_randomness
random_prefixed_id prefix (some value) = ok (String.◌++◌ prefix (String.◌++◌ "_" value))

-- The task of the record: a task that has a name alone is given an ID.
unfoldable pub task_of : CreateRequest → Option String → Result CreateError String
task_of req random =
    let id = trim_space req.task_id in
    if id == "" && not (trim_space req.task_name == "")
    then random_prefixed_id "task" random
    else ok id

-- The record, whose hash is still to come.
abbrev pub record_of : CreateRequest → ℕ → String → String → String → Delegation
record_of req now id token_id task_id = record {
  id = id;
  token_id = token_id;
  token_sha256 = "";
  human_sub = req.human.sub;
  human_name = req.human.name;
  human_email = req.human.email;
  agent_id = req.agent.id;
  agent_name = req.agent.name;
  task_id = task_id;
  task_name = trim_space req.task_name;
  audience = req.audience;
  scopes = req.scopes;
  note = trim_space req.note;
  issued_at = now;
  expires_at = now + req.ttl;
  revoked_at = none;
}

-- `t.Unix()`
abbrev pub unix : ℕ → Value
unix at =
    if ltb (seconds at) epoch then negative (epoch - seconds at) else number (seconds at - epoch)

-- `if text != "" { payload[key] = text }`
abbrev pub optional_claim : String → String → Claims
optional_claim key s = if s == "" then [] else (key, text s) ∷ []

-- The payload. The object under "act" repeats the agent's ID and name.
unfoldable pub payload_of : String → Delegation → Claims
payload_of issuer r =
    ("iss", text issuer)
    ∷ ("sub", text r.human_sub)
    ∷ ("name", text r.human_name)
    ∷ ("email", text r.human_email)
    ∷ ("aud", text r.audience)
    ∷ ("iat", unix r.issued_at)
    ∷ ("nbf", unix r.issued_at)
    ∷ ("exp", unix r.expires_at)
    ∷ ("jti", text r.token_id)
    ∷ ("token_use", text "delegation")
    ∷ ("scope", text (join r.scopes))
    ∷ ("act", other)
    ∷ ("anyauth_delegation_id", text r.id)
    ∷ ("anyauth_agent_id", text r.agent_id)
    ∷ ("anyauth_agent_name", text r.agent_name)
    ∷ (optional_claim "anyauth_task_id" r.task_id ++ optional_claim "anyauth_task_name" r.task_name)

abbrev pub signed : Result String String → Result CreateError String
signed (ok token) = ok token
signed (err e) = err (unsigned e)
signed diverged = diverged

abbrev pub after_append :
    Delegation
    → String
    → Result RecordError (Unit {0}) × Disk Delegation
    → Result CreateError (Delegation × String) × Disk Delegation
after_append r token (ok u, d) = (ok (r, token), d)
after_append r token (err e, d) = (err (not_stored e), d)
after_append r token (diverged, d) = (diverged, d)

-- Load, append and Save.
abbrev pub append_loaded :
    Delegation
    → String
    → Disk Delegation
    → Result RecordError (List Delegation)
    → Result CreateError (Delegation × String) × Disk Delegation
append_loaded r token d (ok ds) = after_append r token (save (ds ++ (r ∷ [])) d)
append_loaded r token d (err e) = (err (not_stored e), d)
append_loaded r token d diverged = (diverged, d)

abbrev pub append_issued :
    Disk Delegation
    → Result CreateError (Delegation × String)
    → Result CreateError (Delegation × String) × Disk Delegation
append_issued d (ok (r, token)) = append_loaded r token d (load d.content)
append_issued d (err e) = (err e, d)
append_issued d diverged = (diverged, d)

module _ (sign : Claims → Result String String) (digest : String → String) where
  -- Create up to the hash of the token.
  unfoldable pub issue :
      ℕ
      → Option String
      → Option String
      → Option String
      → CreateRequest
      → Result CreateError (Delegation × String)
  issue clock id_random token_random task_random request = do
    let now = or_clock clock request.now
    let req = record request { scopes = normalize_scopes request.scopes }
    check (validate_create_request req)
    id ← random_prefixed_id "del" id_random
    token_id ← random_prefixed_id "jti" token_random
    task_id ← task_of req task_random
    let r = record_of req now id token_id task_id
    token ← signed (sign (payload_of req.issuer r))
    ok (record r { token_sha256 = token_sha256 digest token }, token)

  unfoldable pub create :
      ℕ
      → Option String
      → Option String
      → Option String
      → CreateRequest
      → Disk Delegation
      → Result CreateError (Delegation × String) × Disk Delegation
  create clock id_random token_random task_random request d =
      append_issued d (issue clock id_random token_random task_random request)
