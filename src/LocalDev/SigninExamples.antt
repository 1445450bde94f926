-- ===== src/LocalDev/SigninExamples.antt =====
-- A browser comes back to the protected proxy with a code; the theorem at this run. The hash of PKCE is the
-- identity, and one ID token is signed and verified.
use anyauth.Base.{
  ℕ, String, ◌≡◌, refl, false, Option, some, [], ◌∷◌, ok, lookup, put, delete, Result,
}
use anyauth.Delegation.Tokens.{Claims, claim}
use anyauth.UserStore.Profiles.{default_profile}
use anyauth.LocalDev.State.{AuthCode, Store, new_store, App}
use anyauth.LocalDev.Http.{Values, get, Response, redirect, set_cookie}
use anyauth.LocalDev.Tokens.{take_code, check_code, exchange, unix, payload, check_form, token}
use anyauth.LocalDev.Relying.{
  decode_answer, claim_is, expiry, validate_id_token_claims, check_answer, exchange_code,
}
use anyauth.LocalDev.Protect.{new_protected_app, take_state, callback}
use anyauth.LocalDev.Startup.{protect_client}
use anyauth.LocalDev.SignedIn.{IsSignedIn, callback-IsSignedIn}

program : Unit {0}
unfolding lookup put delete get take_code check_code exchange unix payload check_form token claim
    decode_answer claim_is expiry validate_id_token_claims check_answer exchange_code take_state
    callback
program = tt

abbrev decimal : ℕ → String
decimal n = "7200"

abbrev app : App
app = record {
  cfg = record {
    provider_port = 7100;
    app_a_port = 0;
    app_b_port = 0;
    protect_port = 7200;
    demo_apps = false;
    protect_upstream = "http://127.0.0.1:3000";
    require_delegation = false;
  };
  issuer = "http://127.0.0.1:7100";
  clients = ("anyauth-protect-7200", protect_client decimal 7200) ∷ [];
  user = record { sub = "local-user"; name = "Local User"; email = "" };
  profile = default_profile;
}

-- 150 seconds after the Unix epoch.
abbrev now : ℕ
now = 62135596950000000000

abbrev the_code : AuthCode
the_code = record {
  client_id = "anyauth-protect-7200";
  redirect_uri = "http://127.0.0.1:7200/__anyauth/callback";
  scope = "openid profile email";
  nonce = "n";
  code_challenge = "v";
  code_challenge_method = "S256";
  user = record { sub = "local-user"; name = "Local User"; email = "" };
  expires_at = now;
}

abbrev store : Store
store = record new_store {
  auth_codes = ("c1", the_code) ∷ [];
  protect_states =
      ("s1", record { nonce = "n"; verifier = "v"; return_path = "/docs"; created = now }) ∷ [];
}

abbrev sign : Claims → Option String
sign claims = some "id_token"

abbrev verify : String → Result String Claims
verify t = ok (payload app the_code now)

abbrev pkce : String → String
pkce v = v

abbrev query : Values
query = ("state", "s1") ∷ ("code", "c1") ∷ []

abbrev called_back : Option Response × Store
called_back =
    callback decimal verify pkce app (new_protected_app decimal 7200) now now (some "sid")
      (exchange_code sign pkce app now now (some "t1")) query store

signs_in :
    called_back.0 ≡ some (redirect "/docs" [] (set_cookie "anyauth_protect_session" "sid" ∷ []))
unfolding program
signs_in = refl

callback-IsSignedIn_example :
    IsSignedIn decimal sign verify pkce app
      (new_protected_app decimal 7200)
      now
      now
      now
      now
      query
      "sid"
      store
      called_back.1
callback-IsSignedIn_example =
    callback-IsSignedIn decimal sign verify pkce app (new_protected_app decimal 7200) now now now
      now (some "sid") (some "t1") query store "/docs" "sid" signs_in
