-- ===== src/LocalDev/ProviderExamples.antt =====
-- A client's code from its issue to the user's data; the theorems at this run. The hash of PKCE is the
-- identity, every signature is one text, and a number is shown in one way.
use Prim.Native.String
use anyauth.Base.{
  ℕ, ◌≤◌, String, ◌≡◌, refl, false, Option, none, some, [], ◌∷◌, arith, ok, count, count_keys,
  lookup, put, delete, is_space, trim_space, AllValues, trim_left, trim_right,
}
use anyauth.Delegation.Tokens.{Claims}
use anyauth.UserStore.Profiles.{Library, default_profile}
use anyauth.LocalDev.State.{Client, User, AuthCode, new_store, Config, App}
use anyauth.LocalDev.Http.{
  Values, form, get, reverse_onto, fields_from, fields, has_scope, tokens, user_info,
}
use anyauth.LocalDev.Provider.{
  validate_client, validate_authorize, new_code, store_code, issue_code_redirect, expires_in,
}
use anyauth.LocalDev.Tokens.{
  invalid_grant, take_code, check_code, exchange, unix, payload, new_token, store_token, check_form,
  token, userinfo,
}
use anyauth.LocalDev.Codes.{
  Exchange, System, init, issue, take, grant, Reach, start, later, here, then_,
}
use anyauth.LocalDev.Entitled.{IsIssued, IsEntitled}
use anyauth.LocalDev.Single.{Reach-once, Reach-IsHonoured}
use anyauth.LocalDev.Flow.{issue_code_redirect-userinfo}
use anyauth.LocalDev.Refused.{token-refuses_again}
use anyauth.LocalDev.Serving.{token_call, serve, Reaches, serve-Reaches}

program : Unit {0}
unfolding lookup put delete is_space get reverse_onto fields_from fields has_scope validate_client
    validate_authorize take_code check_code exchange unix payload check_form token
program = tt

abbrev pub demo : Client
demo = record {
  id = "demo";
  name = "Demo";
  secret = "demo-secret";
  redirect_uris = "http://a/cb" ∷ [];
}

abbrev pub alice : User
alice = record { sub = "local-user"; name = "Local User"; email = "local.user@anyauth.local" }

abbrev pub cfg : Config
cfg = record {
  provider_port = 7100;
  app_a_port = 7101;
  app_b_port = 7102;
  protect_port = 7200;
  demo_apps = false;
  protect_upstream = "http://127.0.0.1:3000";
  require_delegation = false;
}

abbrev pub app : App
app = record {
  cfg = cfg;
  issuer = "http://127.0.0.1:7100";
  clients = ("demo", demo) ∷ [];
  user = alice;
  profile = default_profile;
}

abbrev pub sign : Claims → Option String
sign claims = some "id_token"

abbrev pub pkce : String → String
pkce verifier = verifier

abbrev lib : Library
lib = record {
  bytes_of = λ s. [];
  encode = λ bs. "";
  decode = λ s. none;
  hmac_sha256 = λ key m. [];
}

abbrev query : Values
query =
    ("client_id", "demo")
    ∷ ("response_type", "code")
    ∷ ("scope", "openid profile")
    ∷ ("redirect_uri", "http://a/cb")
    ∷ ("state", "s")
    ∷ ("nonce", "n")
    ∷ ("code_challenge", "verifier")
    ∷ ("code_challenge_method", "S256")
    ∷ []

abbrev values : Values
values =
    ("grant_type", "authorization_code")
    ∷ ("code", "c1")
    ∷ ("client_id", "demo")
    ∷ ("client_secret", "demo-secret")
    ∷ ("redirect_uri", "http://a/cb")
    ∷ ("code_verifier", "verifier")
    ∷ []

-- When the code is issued, and when it is exchanged.
abbrev issued_at : ℕ
issued_at = 1000

abbrev now : ℕ
now = 2000

abbrev the_code : AuthCode
the_code = new_code app issued_at query

valid : validate_authorize app query ≡ none
unfolding program
valid = refl

entitled : IsEntitled pkce app the_code values now
unfolding program
entitled = record {
  client = demo;
  registered = refl;
  client_id = refl;
  client_secret = refl;
  redirect_uri = refl;
  verifier = refl;
  in_time = omega arith;
}

exchanges :
    exchange sign pkce app now now (some "t1") values (some the_code)
    ≡ ok (the_code, "id_token", "t1")
unfolding program
exchanges = refl

abbrev issued : System
issued = record init { store = store_code "c1" the_code new_store; issued = "c1" ∷ [] }

abbrev taken : System
taken = record issued {
  store = (take_code (get values "code") issued.store).1;
  in_flight = (get values "code", record { code = the_code; values = values }) ∷ [];
}

abbrev answered : System
answered = record taken {
  store = store_token "t1" (new_token the_code now) taken.store;
  in_flight = [];
  exchanged = (get values "code", record { code = the_code; values = values; at = now }) ∷ [];
}

reach_issued : Reach sign pkce app issued
reach_issued = later start (issue issued_at query "c1" valid refl)

finds : lookup (get values "code") issued.store.auth_codes ≡ some the_code
unfolding program
finds = refl

reach_answered : Reach sign pkce app answered
reach_answered = later (later reach_issued (take values the_code finds)) (
    grant [] [] (get values "code") (record { code = the_code; values = values }) now now
      (some "t1") "id_token" "t1" refl exchanges)

Reach-once_example :
    (count_keys "c1" answered.exchanged ≤ 1)
    × (count_keys "c1" answered.exchanged ≡ 1
        → (count_keys "c1" answered.store.auth_codes ≡ 0)
          × (count_keys "c1" answered.in_flight ≡ 0))
Reach-once_example = Reach-once sign pkce app {s = answered} reach_answered "c1"

Reach-IsHonoured_example :
    AllValues
      (λ (e : Exchange). IsIssued app e.code × IsEntitled pkce app e.code e.values e.at)
      answered.exchanged
    × AllValues (λ t. t.user ≡ app.user) answered.store.access_tokens
Reach-IsHonoured_example = Reach-IsHonoured sign pkce app {s = answered} reach_answered

serve-Reaches_example :
    Reaches sign pkce app issued []
      (serve lib sign pkce app (token_call now now (some "t1") "POST" (form values)) issued.store).1
serve-Reaches_example =
    serve-Reaches lib sign pkce app issued (token_call now now (some "t1") "POST" (form values)) tt

granted : get values "grant_type" ≡ "authorization_code"
unfolding program
granted = refl

named : get values "code" ≡ "c1"
unfolding program
named = refl

trimmed : trim_space "t1" ≡ "t1"
unfolding trim_space trim_left trim_right is_space
trimmed = refl

issue_code_redirect-userinfo_example :
    (let s = (issue_code_redirect app issued_at (some "c1") query [] new_store).1 in
      let end_ = token sign pkce app now now (some "t1") "POST" (form values) s in
      (end_.0 ≡ some (tokens "t1" expires_in "id_token"))
      × (userinfo 3000 (String.◌++◌ "Bearer " "t1") end_.1 ≡ user_info app.user))
issue_code_redirect-userinfo_example =
    issue_code_redirect-userinfo sign pkce app issued_at now now 3000 query values "c1" "id_token"
      "t1" new_store granted named entitled refl trimmed (omega arith)

-- The code has been exchanged, and its user has signed in again for another code.
abbrev used : System
used = record issued {
  store = (token sign pkce app now now (some "t1") "POST" (form values) issued.store).1;
}

abbrev issued_again : System
issued_again = record used {
  store = store_code "c2" (new_code app now query) used.store;
  issued = "c2" ∷ used.issued;
}

known : 1 ≤ count (get values "code") used.issued
unfolding program
known = omega arith

token-refuses_again_example :
    token sign pkce app 3000 3000 (some "t2") "POST" (form values) issued_again.store
    ≡ (some (invalid_grant "code is invalid or already used"), issued_again.store)
token-refuses_again_example =
    token-refuses_again sign pkce app now now (some "t1") values {s = used} {t = issued_again}
      issued.store 3000 3000 (some "t2") values granted granted refl known refl
      (then_ here (issue now query "c2" valid refl))
