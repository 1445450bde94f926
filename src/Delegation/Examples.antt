-- ===== src/Delegation/Examples.antt =====
-- A delegation, a token that carries it and its revocation; the theorems at these runs. The
-- verification of a signature is a table with one token, and the digest of a text is the text.
use anyauth.Base.{
  ℕ, String, ◌≡◌, refl, ◌≢◌, true, false, none, [], ◌∷◌, ◌==◌, if◌then◌else◌, insert, sort,
  text_less, trim_space, contains_any, collect, Result, ok, err,
}
use Prim.Native.String
use anyauth.Registry.Store
use anyauth.Registry.Store.{Content, stored, Disk}
use anyauth.AgentRegistry.Agents
use anyauth.AgentRegistry.Agents.{Agent}
use anyauth.Delegation.Records
use anyauth.Delegation.Records.{
  Delegation, validate_scope, validate_stored, normalize_scopes, issued_before, load, save,
  find_delegation, set_delegation, revoked, revoke,
}
use anyauth.Delegation.Tokens.{
  text, number, Claims, ValidateOptions, Context, claim, audience_matches, validate_claims, join,
  check_record, validate_token,
}
use anyauth.Delegation.Checked.{Honoured, validate_token-Honoured}
use anyauth.Delegation.Revoked.{revoke-validate_token}

program : Unit {0}
unfolding insert sort text_less trim_space contains_any collect Store.validate_all Store.load
    Agents.validate Agents.normalize Agents.agent_less Agents.load Agents.find validate_scope
    validate_stored normalize_scopes Records.normalize Records.validate_all issued_before load save
    find_delegation set_delegation revoke claim audience_matches validate_claims join check_record
    validate_token
program = tt

abbrev planner : Agent
planner = record { id = "planner"; name = "planner"; kind = ""; created_at = 7; disabled = false }

abbrev agents : Content Agent
agents = stored (planner ∷ [])

-- 100, 200 and 150 seconds after the Unix epoch.
abbrev start : ℕ
start = 62135596900000000000

abbrev end_ : ℕ
end_ = 62135597000000000000

abbrev now : ℕ
now = 62135596950000000000

abbrev grant : String → Delegation
grant id = record {
  id = id;
  token_id = String.◌++◌ "jti_" id;
  token_sha256 = String.◌++◌ "sha256:token_" id;
  human_sub = "alice";
  human_name = "Alice";
  human_email = "";
  agent_id = "planner";
  agent_name = "planner";
  task_id = "";
  task_name = "";
  audience = "docs";
  scopes = "read" ∷ "list" ∷ [];
  note = "";
  issued_at = start;
  expires_at = end_;
  revoked_at = none;
}

abbrev claims : Claims
claims =
    ("iss", text "http://issuer")
    ∷ ("sub", text "alice")
    ∷ ("aud", text "docs")
    ∷ ("token_use", text "delegation")
    ∷ ("jti", text "jti_d1")
    ∷ ("scope", text "read list")
    ∷ ("nbf", number 100)
    ∷ ("exp", number 200)
    ∷ ("anyauth_delegation_id", text "d1")
    ∷ ("anyauth_agent_id", text "planner")
    ∷ []

abbrev verify : String → Result String Claims
verify token = if token == "token_d1" then ok claims else err "invalid signature"

abbrev digest : String → String
digest token = token

abbrev before_disk : Disk Delegation
before_disk = record { content = stored (grant "d1" ∷ grant "d2" ∷ []); writable = true }

-- The disk after the other delegation has been revoked.
abbrev after_disk : Disk Delegation
after_disk = record {
  content = stored (grant "d1" ∷ revoked now (grant "d2") ∷ []);
  writable = true;
}

abbrev opts : ValidateOptions
opts = record { issuer = "http://issuer"; audience = "docs"; now = now; has_public_key = true }

abbrev ctx : Context
ctx = record {
  delegation = grant "d1";
  agent = planner;
  claims = claims;
  scopes = "read" ∷ "list" ∷ [];
}

accepts : validate_token verify digest 0 "token_d1" opts before_disk.content agents ≡ ok ctx
unfolding program
accepts = refl

revokes : revoke 0 "d2" now before_disk ≡ (ok (revoked now (grant "d2")), after_disk)
unfolding program
revokes = refl

still_accepts : validate_token verify digest 0 "token_d1" opts after_disk.content agents ≡ ok ctx
unfolding program
still_accepts = refl

validate_token-Honoured_example :
    Honoured verify digest 0 "token_d1" opts before_disk.content agents ctx
validate_token-Honoured_example =
    validate_token-Honoured verify digest 0 "token_d1" opts before_disk.content agents ctx accepts

revoke-validate_token_example : ctx.delegation.id ≢ "d2"
revoke-validate_token_example =
    revoke-validate_token verify digest 0 0 "d2" now before_disk after_disk
      (revoked now (grant "d2")) "token_d1" opts agents ctx revokes still_accepts
