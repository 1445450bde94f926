-- ===== src/LocalDev/Demo.antt =====
-- internal/localdev/server.go: the demo apps.
use Prim.Native.String
use anyauth.Base.{
  ℕ, String, Bool, false, not, Option, none, some, [], ◌∷◌, ◌==◌, if◌then◌else◌, is_some, Result,
  ok, err, diverged, lookup, put, delete,
}
use anyauth.Delegation.Tokens.{Claims}
use anyauth.LocalDev.State.{DemoState, DemoSession, Store, App}
use anyauth.LocalDev.Http.{
  Values, get, Response, not_found, page, redirect, claims_page, set_cookie, delete_cookie,
}
use anyauth.LocalDev.Relying.{TokenResponse, exchange_values, authorize_values, check_answer, draw}

pub record DemoApp : Type 0 where
  pub app_name : String
  pub client_id : String
  pub client_secret : String
  pub port : ℕ
  pub session_cookie : String

module _ (decimal : ℕ → String) where
  -- `http://127.0.0.1:%d`
  abbrev pub local_url : ℕ → String
  local_url port = String.◌++◌ "http://127.0.0.1:" (decimal port)

  -- redirectURI
  abbrev pub redirect_uri : DemoApp → String
  redirect_uri d = String.◌++◌ (local_url d.port) "/callback"

-- currentSession; `cookie` is the app's cookie in the request.
unfoldable pub current_session : Option String → Store → Option DemoSession
current_session none s = none
current_session (some cookie) s = lookup cookie s.demo_sessions

abbrev pub home_page : DemoApp → Option DemoSession → Response
home_page d none = page 200 d.app_name "Login with AnyAuth"
home_page d (some session) = claims_page d.app_name session.claims

unfoldable pub home : DemoApp → String → Option String → Store → Response
home d path cookie s =
    if not (path == "/") then not_found else home_page d (current_session cookie s)

-- logout
unfoldable pub logout : DemoApp → Option String → Store → Response × Store
logout d none s = (redirect "/" [] (delete_cookie d.session_cookie ∷ []), s)
logout d (some cookie) s = (
  redirect "/" [] (delete_cookie d.session_cookie ∷ []),
  record s { demo_sessions = delete cookie s.demo_sessions },
)

-- callback up to the exchange: the state is looked up and deleted.
unfoldable pub take_state : String → Store → Option DemoState × Store
take_state state s =
    let found = lookup state s.demo_states in
    (found, if is_some found then record s { demo_states = delete state s.demo_states } else s)

-- The last critical section of callback.
abbrev pub store_session : String → DemoSession → Store → Store
store_session id session s = record s { demo_sessions = put id session s.demo_sessions }

abbrev pub finish_callback :
    DemoApp
    → ℕ
    → Result Response (TokenResponse × Claims × String)
    → Store
    → Option Response × Store
finish_callback d created (err r) s = (some r, s)
finish_callback d created diverged s = (none, s)
finish_callback d created (ok (r, claims, id)) s = (
  some (redirect "/" [] (set_cookie d.session_cookie id ∷ [])),
  store_session id (record { claims = claims; access_token = r.access_token; created_at = created })
      s,
)

abbrev pub is_own : DemoApp → Option DemoState → Bool
is_own d none = false
is_own d (some st) = st.client_id == d.client_id

module _ (decimal : ℕ → String) (sign : Claims → Option String)
    (verify : String → Result String Claims) (pkce : String → String) where
  abbrev pub finish_login :
      App
      → DemoApp
      → ℕ
      → Result Response (String × String × String)
      → Store
      → Option Response × Store
  finish_login a d now (err r) s = (some r, s)
  finish_login a d now diverged s = (none, s)
  finish_login a d now (ok (state, nonce, verifier)) s =
      let st : DemoState = record {
        client_id = d.client_id;
        nonce = nonce;
        verifier = verifier;
        created = now;
      } in
      let query =
        authorize_values d.client_id (redirect_uri decimal d) state nonce (pkce verifier) in
      (
        some (redirect (String.◌++◌ a.issuer "/authorize") query []),
        record s { demo_states = put state st s.demo_states },
      )

  -- login
  unfoldable pub login :
      App → DemoApp → ℕ → (state nonce verifier : Option String) → Store → Option Response × Store
  login a d now state nonce verifier s = finish_login a d now (draw state nonce verifier) s

  -- callback from the state on that was found, `post` being the exchange.
  abbrev pub continue_callback :
      App
      → DemoApp
      → ℕ
      → ℕ
      → Option String
      → String
      → (Values → Store → Result String TokenResponse × Store)
      → Option DemoState
      → Store
      → Option Response × Store
  continue_callback a d now created random code post none s =
      (some (page 200 "Login Error" "Invalid state"), s)
  continue_callback a d now created random code post (some st) s =
      if not (is_own d (some st))
      then (some (page 200 "Login Error" "Invalid state"), s)
      else (let posted =
            post
              (exchange_values code (redirect_uri decimal d) d.client_id d.client_secret
                st.verifier)
              s in
          finish_callback d created
            (check_answer verify a.issuer d.client_id st.nonce now random posted.0) posted.1)

  -- callback, run without interruption but for the exchange; `now` and `created` are the instants of the
  -- check of the ID token and of the session.
  unfoldable pub callback :
      App
      → DemoApp
      → ℕ
      → ℕ
      → Option String
      → (Values → Store → Result String TokenResponse × Store)
      → Values
      → Store
      → Option Response × Store
  callback a d now created random post query s =
      let taken = take_state (get query "state") s in
      continue_callback a d now created random (get query "code") post taken.0 taken.1
