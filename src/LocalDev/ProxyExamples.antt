-- ===== src/LocalDev/ProxyExamples.antt =====
-- A proxied request under a delegation, with another delegation revoked, and the start of a server; the
-- theorems at these runs. A signature is looked up in a table with one token, the digest of a text is the
-- text, and letters have one case.
use Prim.Native.String
use anyauth.Base.{
  ℕ, String, ◌≡◌, ◌≢◌, ◌⊎◌, refl, true, false, Option, none, some, [], ◌∷◌, ◌==◌, if◌then◌else◌, ok,
  err, All, insert, sort, text_less, trim_space, trim_left, trim_right, is_space, has_prefix,
  collect, contains_any, lookup, put,
}
use anyauth.Registry.Store
use anyauth.Registry.Store.{Content, stored, absent, Disk, validate_all}
use anyauth.AgentRegistry.Agents
use anyauth.AgentRegistry.Agents.{Agent}
use anyauth.ClientRegistry.Clients
use anyauth.Policy.Rules
use anyauth.Policy.Rules.{
  Rule, normalize_path, collect_methods, normalize_methods, normalize_all, normalize_request,
  rule_less, sort_rules, validate_method, valid_http_method,
}
use anyauth.Policy.Evaluate.{
  method_matches, keep_unless_slash, trim_right_slash, path_prefix_matches, matches_base,
  has_required_scopes, scan, evaluate,
}
use anyauth.Policy.Store as PolicyStore
use anyauth.Delegation.Records
use anyauth.Delegation.Records.{
  Delegation, validate_stored, issued_before, find_delegation, set_delegation, revoked, revoke,
}
use anyauth.Delegation.Tokens.{
  text, number, Claims, Context, claim, audience_matches, validate_claims, join, check_record,
  validate_token,
}
use anyauth.AuditLog.Log
use anyauth.UserStore.Profiles
use anyauth.LocalDev.State.{new_store, Config, App}
use anyauth.LocalDev.Http.{reverse_onto, fields_from, fields}
use anyauth.LocalDev.Protect.{ProtectedApp, new_protected_app}
use anyauth.LocalDev.Proxy.{ProxyLibrary, ProxyRequest, Files, forward, bearer_token, identity_of}
use anyauth.LocalDev.Proxying.{Headers, direct, proxy}
use anyauth.LocalDev.Guard.{IsDelegated, HasSession, proxy-IsAuthorized, revoke-not-forward}
use anyauth.LocalDev.Headers.{IsTold, direct-IsTold}
use anyauth.LocalDev.Startup.{with_defaults, check_upstream, new_app, start}
use anyauth.LocalDev.Started.{IsConsistent, start-IsConsistent}

program : Unit {0}
unfolding insert sort text_less trim_space trim_left trim_right is_space has_prefix collect
    contains_any lookup put Store.validate_all Store.load Agents.validate Agents.normalize
    Agents.agent_less Agents.load Agents.find Rules.normalize Rules.normalize_scopes Rules.validate
    Rules.validate_scope normalize_path collect_methods normalize_methods normalize_request
    rule_less sort_rules validate_method valid_http_method method_matches keep_unless_slash
    trim_right_slash path_prefix_matches matches_base has_required_scopes scan evaluate
    PolicyStore.load Records.validate_scope validate_stored Records.normalize_scopes
    Records.normalize Records.validate_all issued_before Records.load Records.save find_delegation
    set_delegation revoke claim audience_matches validate_claims join check_record validate_token
    reverse_onto fields_from fields bearer_token proxy identity_of Profiles.complete Profiles.load
    Clients.load with_defaults check_upstream start
program = tt

abbrev planner : Agent
planner = record { id = "planner"; name = "planner"; kind = ""; created_at = 7; disabled = false }

-- 100, 200 and 150 seconds after the Unix epoch.
abbrev start_ : ℕ
start_ = 62135596900000000000

abbrev end_ : ℕ
end_ = 62135597000000000000

abbrev now : ℕ
now = 62135596950000000000

abbrev grant : String → Delegation
grant id = record {
  id = id;
  token_id = String.◌++◌ "jti_" id;
  token_sha256 = String.◌++◌ "sha256:token_" id;
  human_sub = "local-user";
  human_name = "Local User";
  human_email = "";
  agent_id = "planner";
  agent_name = "planner";
  task_id = "";
  task_name = "";
  audience = "anyauth-protect-7200";
  scopes = "docs:read" ∷ [];
  note = "";
  issued_at = start_;
  expires_at = end_;
  revoked_at = none;
}

abbrev claims : Claims
claims =
    ("iss", text "http://127.0.0.1:7100")
    ∷ ("sub", text "local-user")
    ∷ ("aud", text "anyauth-protect-7200")
    ∷ ("token_use", text "delegation")
    ∷ ("jti", text "jti_d1")
    ∷ ("scope", text "docs:read")
    ∷ ("nbf", number 100)
    ∷ ("exp", number 200)
    ∷ ("anyauth_delegation_id", text "d1")
    ∷ ("anyauth_agent_id", text "planner")
    ∷ []

abbrev lib : ProxyLibrary
lib = record {
  equal_fold = λ s t. s == t;
  verify = λ token. if token == "token_d1" then ok claims else err "invalid signature";
  digest = λ token. token;
  decimal = λ n. "7200";
  to_upper = λ s. s;
  to_lower = λ s. s;
  token_message = λ e. "token";
  policy_message = λ e. "policy";
}

abbrev before_disk : Disk Delegation
before_disk = record { content = stored (grant "d1" ∷ grant "d2" ∷ []); writable = true }

-- The disk after the other delegation has been revoked.
abbrev after_disk : Disk Delegation
after_disk = record {
  content = stored (grant "d1" ∷ revoked now (grant "d2") ∷ []);
  writable = true;
}

revokes : revoke 0 "d2" now before_disk ≡ (ok (revoked now (grant "d2")), after_disk)
unfolding program
revokes = refl

abbrev read_docs : Rule
read_docs = record {
  id = "read-docs";
  description = "";
  effect = "allow";
  methods = "GET" ∷ [];
  path_prefix = "/docs";
  agent_id = "";
  required_scopes = "docs:read" ∷ [];
  created_at = 1;
}

abbrev files : Files
files = record {
  delegations = after_disk.content;
  agents = stored (planner ∷ []);
  rules = stored (read_docs ∷ []);
  audit = record { content = Log.absent; writable = true };
}

abbrev cfg : Config
cfg = record {
  provider_port = 0;
  app_a_port = 0;
  app_b_port = 0;
  protect_port = 7200;
  demo_apps = true;
  protect_upstream = "http://127.0.0.1:3000";
  require_delegation = true;
}

abbrev app : App
app = record {
  cfg = cfg;
  issuer = "http://127.0.0.1:7100";
  clients = [];
  user = record { sub = "local-user"; name = "Local User"; email = "" };
  profile = Profiles.default_profile;
}

abbrev protected : ProtectedApp
protected = new_protected_app lib.decimal 7200

abbrev request : ProxyRequest
request = record {
  method = "GET";
  uri = "/docs/7?q";
  path = "/docs/7";
  authorization = "Bearer token_d1";
  cookie = none;
}

abbrev ctx : Context
ctx = record {
  delegation = grant "d1";
  agent = planner;
  claims = claims;
  scopes = "docs:read" ∷ [];
}

forwards :
    (proxy lib app protected now now (some "e") request files new_store).0
    ≡ some (forward (identity_of ctx))
unfolding program
forwards = refl

proxy-IsAuthorized_example :
    IsDelegated lib app protected now request files (identity_of ctx)
    ⊎ HasSession lib app protected request new_store (identity_of ctx)
proxy-IsAuthorized_example =
    proxy-IsAuthorized lib app protected now now (some "e") request files new_store
      (identity_of ctx) forwards

revoke-not-forward_example :
    ((identity_of ctx).delegation_id ≢ "d2")
    ⊎ HasSession lib app protected request new_store (identity_of ctx)
revoke-not-forward_example =
    revoke-not-forward lib app protected 0 "d2" now before_disk after_disk
      (revoked now (grant "d2")) now now (some "e") request files new_store (identity_of ctx)
      revokes refl forwards

-- The canonical form and the lower case of the names in use here.
abbrev canonical : String → String
canonical s = if s == "X-AnyAuth-Sub" then "X-Anyauth-Sub" else s

abbrev to_lower : String → String
to_lower s = if s == "X-Anyauth-Sub" then "x-anyauth-sub" else s

abbrev client_headers : Headers
client_headers =
    ("X-Anyauth-Sub", "mallory") ∷ ("Authorization", "Bearer token_d1") ∷ ("Accept", "*/*") ∷ []

direct-IsTold_example :
    All
      (IsTold canonical to_lower (identity_of ctx) client_headers)
      (direct canonical to_lower (identity_of ctx) client_headers)
direct-IsTold_example =
    direct-IsTold canonical to_lower (identity_of ctx) client_headers (refl, (refl, (refl, tt)))

abbrev parse : String → Option Clients.Url
parse s = some (record { scheme = "http"; host = "127.0.0.1:3000" })

abbrev bob : Profiles.Profile
bob = record { version = 1; sub = "bob"; name = "Bob"; email = ""; pin_verifier = none }

abbrev started : App
started = new_app lib.decimal (with_defaults cfg) bob []

starts : start lib.decimal parse cfg (Profiles.stored bob) absent ≡ ok started
unfolding program
starts = refl

start-IsConsistent_example : IsConsistent lib.decimal cfg (Profiles.stored bob) started
start-IsConsistent_example =
    start-IsConsistent lib.decimal parse cfg (Profiles.stored bob) absent started starts
