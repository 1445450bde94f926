-- ===== src/LocalDev/Provider.antt =====
-- internal/localdev/server.go: the handlers of the provider, authorize, login, token and userinfo. A
-- handler is a function of the store where it holds the mutex at most once, or where what it does in
-- between does not touch the store; for runs that interleave see LocalDev/Codes.antt. The outcomes of
-- jose.RandomURLToken, the instants of time.Now, jose.SignJWT (`sign`) and jose.PKCES256 (`pkce`)
-- are arguments.
use anyauth.Base.{
  ℕ, ◌+◌, String, Bool, true, false, not, Option, none, some, List, [], ◌∷◌, ◌==◌, if◌then◌else◌,
  contains, is_some, reject, first_error, Result, ok, err, diverged, ◌>>=◌, ◌>>◌, check, lookup,
  put,
}
use anyauth.UserStore.Profiles.{Library, Error as PinError, has_pin, verify_pin}
use anyauth.LocalDev.State.{Client, AuthCode, ProviderSession, Store, App}
use anyauth.LocalDev.Http.{
  Values, Form, form, malformed, get, has_scope, Cookie, set_cookie, Response, http_error, page,
  sign_in, pin_failed, redirect,
}

-- The checks after the client has been found.
unfoldable pub validate_client : Option Client → Values → Option String
validate_client none values = some "unknown client_id"
validate_client (some c) values = first_error (
    reject (not (get values "response_type" == "code")) "response_type must be code"
    ∷ reject (not (has_scope (get values "scope") "openid")) "scope must include openid"
    ∷ reject (not (contains c.redirect_uris (get values "redirect_uri")))
        "redirect_uri does not match registered client"
    ∷ reject (not (get values "code_challenge_method" == "S256")) "only PKCE S256 is supported"
    ∷ reject (get values "code_challenge" == "") "code_challenge is required"
    ∷ [])

-- The error that the source returns as a text, "" for none.
unfoldable pub validate_authorize : App → Values → Option String
validate_authorize a values = validate_client (lookup (get values "client_id") a.clients) values

-- 5 * time.Minute, and the 3600 seconds of a token.
abbrev pub code_lifetime : ℕ
code_lifetime = 300000000000

abbrev pub expires_in : ℕ
expires_in = 3600

abbrev pub token_lifetime : ℕ
token_lifetime = 3600000000000

-- The authCode that issueCodeRedirect stores.
abbrev pub new_code : App → ℕ → Values → AuthCode
new_code a now values = record {
  client_id = get values "client_id";
  redirect_uri = get values "redirect_uri";
  scope = get values "scope";
  nonce = get values "nonce";
  code_challenge = get values "code_challenge";
  code_challenge_method = get values "code_challenge_method";
  user = a.user;
  expires_at = now + code_lifetime;
}

abbrev pub store_code : String → AuthCode → Store → Store
store_code code c s = record s { auth_codes = put code c s.auth_codes }

-- `redirectValues`
abbrev pub redirect_values : String → String → Values
redirect_values code state = ("code", code) ∷ (if state == "" then [] else ("state", state) ∷ [])

-- The text of the error of jose.RandomURLToken, as far as it matters.
abbrev pub no_randomness : String
no_randomness = "no randomness"

abbrev pub issue_code_redirect :
    App → ℕ → Option String → Values → List Cookie → Store → Response × Store
issue_code_redirect a now none values cookies s = (http_error 500 no_randomness, s)
issue_code_redirect a now (some code) values cookies s = (
  redirect (get values "redirect_uri") (redirect_values code (get values "state")) cookies,
  store_code code (new_code a now values) s,
)

-- `_, ok := providerSessions[cookie.Value]`, false without a cookie.
abbrev pub has_session : Option String → Store → Bool
has_session none s = false
has_session (some cookie) s = is_some (lookup cookie s.provider_sessions)

abbrev pub continue_authorize :
    Option String → App → ℕ → Option String → Option String → Values → Store → Response × Store
continue_authorize (some e) a now random cookie query s = (page 200 "Authorize Error" e, s)
continue_authorize none a now random cookie query s =
    if has_session cookie s
    then issue_code_redirect a now random query [] s
    else (sign_in query (has_pin a.profile), s)

unfoldable pub authorize :
    App → ℕ → Option String → Option String → Values → Store → Response × Store
authorize a now random cookie query s =
    continue_authorize (validate_authorize a query) a now random cookie query s

-- `if err := validate(...); err != "" { page }`
abbrev pub refuse_with : (String → Response) → Option String → Result Response (Unit {0})
refuse_with page_of none = ok tt
refuse_with page_of (some e) = err (page_of e)

-- The end of a check of the PIN in a handler.
abbrev pub pin_result : Result PinError Bool → Result Response (Unit {0})
pin_result (ok true) = ok tt
pin_result (ok false) = err (pin_failed none)
pin_result (err e) = err (pin_failed (some e))
pin_result diverged = diverged

abbrev pub random_or : Option String → Result Response String
random_or none = err (http_error 500 no_randomness)
random_or (some t) = ok t

abbrev pub parsed : Form → (String → Response) → Result Response Values
parsed (form values) response = ok values
parsed (malformed e) response = err (response e)

module _ (lib : Library) where
  -- login up to the new session: the form and the session's ID. Without a PIN VerifyPIN is not called.
  unfoldable pub check_login :
      App → Option String → String → Form → Result Response (Values × String)
  check_login a random method body = do
    check (reject (not (method == "POST")) (http_error 405 "method not allowed"))
    values ← parsed body (http_error 400)
    refuse_with (page 200 "Login Error") (validate_authorize a values)
    if has_pin a.profile then pin_result (verify_pin lib a.profile (get values "pin")) else ok tt
    id ← random_or random
    ok (values, id)

  -- login; `created` and `now` are the instants of the session and of the code. No response means that
  -- the code did not return, which it always does.
  abbrev pub finish_login :
      App
      → ℕ
      → ℕ
      → Option String
      → Result Response (Values × String)
      → Store
      → Option Response × Store
  finish_login a created now random (err r) s = (some r, s)
  finish_login a created now random diverged s = (none, s)
  finish_login a created now random (ok (values, id)) s =
      let session : ProviderSession = record { user = a.user; created_at = created } in
      let answer : Response × Store =
        issue_code_redirect a now random values (set_cookie "anyauth_provider_session" id ∷ [])
          (record s { provider_sessions = put id session s.provider_sessions }) in
      (some answer.0, answer.1)

  unfoldable pub login :
      App
      → ℕ
      → ℕ
      → (session_random code_random : Option String) → String
      → Form
      → Store
      → Option Response × Store
  login a created now session_random code_random method body s =
      finish_login a created now code_random (check_login a session_random method body) s
