-- ===== src/LocalDev/Protect.antt =====
-- internal/localdev/server.go: the login of the protected proxy.
use Prim.Native.String
use anyauth.Base.{
  ℕ, String, not, Option, none, some, [], ◌∷◌, ◌==◌, if◌then◌else◌, is_some, Result, ok, err,
  diverged, lookup, put, delete,
}
use anyauth.Delegation.Tokens.{Claims}
use anyauth.LocalDev.State.{ProtectState, ProtectSession, Store, App}
use anyauth.LocalDev.Http.{
  Values, get, clean_return_path, Response, http_error, page, redirect, set_cookie, delete_cookie,
}
use anyauth.LocalDev.Relying.{TokenResponse, exchange_values, authorize_values, check_answer, draw}
use anyauth.LocalDev.Demo.{local_url}

pub record ProtectedApp : Type 0 where
  pub port : ℕ
  pub client_id : String
  pub client_secret : String
  pub session_cookie : String

module _ (decimal : ℕ → String) where
  abbrev pub protect_client_id : ℕ → String
  protect_client_id port = String.◌++◌ "anyauth-protect-" (decimal port)

  abbrev pub protect_client_secret : ℕ → String
  protect_client_secret port = String.◌++◌ "anyauth-protect-" (String.◌++◌ (decimal port) "-secret")

  abbrev pub protect_redirect_uri : ℕ → String
  protect_redirect_uri port = String.◌++◌ (local_url decimal port) "/__anyauth/callback"

  -- newProtectedApp, less the reverse proxy
  abbrev pub new_protected_app : ℕ → ProtectedApp
  new_protected_app port = record {
    port = port;
    client_id = protect_client_id port;
    client_secret = protect_client_secret port;
    session_cookie = "anyauth_protect_session";
  }

unfoldable pub current_session : Option String → Store → Option ProtectSession
current_session none s = none
current_session (some cookie) s = lookup cookie s.protect_sessions

unfoldable pub logout : ProtectedApp → Option String → Store → Response × Store
logout p none s = (redirect "/" [] (delete_cookie p.session_cookie ∷ []), s)
logout p (some cookie) s = (
  redirect "/" [] (delete_cookie p.session_cookie ∷ []),
  record s { protect_sessions = delete cookie s.protect_sessions },
)

-- The first critical section of callback.
unfoldable pub take_state : String → Store → Option ProtectState × Store
take_state state s =
    let found = lookup state s.protect_states in
    (
      found,
      if is_some found then record s { protect_states = delete state s.protect_states } else s,
    )

-- The last critical section of callback.
abbrev pub store_session : String → ProtectSession → Store → Store
store_session id session s = record s { protect_sessions = put id session s.protect_sessions }

abbrev pub finish_callback :
    ProtectedApp
    → String
    → ℕ
    → Result Response (TokenResponse × Claims × String)
    → Store
    → Option Response × Store
finish_callback p return_path created (err r) s = (some r, s)
finish_callback p return_path created diverged s = (none, s)
finish_callback p return_path created (ok (r, claims, id)) s = (
  some (redirect return_path [] (set_cookie p.session_cookie id ∷ [])),
  store_session id (record { claims = claims; created_at = created }) s,
)

module _ (decimal : ℕ → String) (verify : String → Result String Claims)
    (pkce : String → String) where
  abbrev pub finish_login :
      App
      → ProtectedApp
      → ℕ
      → String
      → Result Response (String × String × String)
      → Store
      → Option Response × Store
  finish_login a p now return_path (err r) s = (some r, s)
  finish_login a p now return_path diverged s = (none, s)
  finish_login a p now return_path (ok (state, nonce, verifier)) s =
      let st : ProtectState = record {
        nonce = nonce;
        verifier = verifier;
        return_path = clean_return_path return_path;
        created = now;
      } in
      let query =
        authorize_values p.client_id (protect_redirect_uri decimal p.port) state nonce
          (pkce verifier) in
      (
        some (redirect (String.◌++◌ a.issuer "/authorize") query []),
        record s { protect_states = put state st s.protect_states },
      )

  unfoldable pub login :
      App
      → ProtectedApp
      → ℕ
      → (state nonce verifier : Option String) → String
      → Values
      → Store
      → Option Response × Store
  login a p now state nonce verifier method query s =
      if not (method == "GET")
      then (some (http_error 405 "method not allowed"), s)
      else finish_login a p now (get query "return") (draw state nonce verifier) s

  abbrev pub continue_callback :
      App
      → ProtectedApp
      → ℕ
      → ℕ
      → Option String
      → String
      → (Values → Store → Result String TokenResponse × Store)
      → Option ProtectState
      → Store
      → Option Response × Store
  continue_callback a p now created random code post none s =
      (some (page 200 "Login Error" "Invalid state"), s)
  continue_callback a p now created random code post (some st) s =
      let posted =
        post
          (exchange_values code (protect_redirect_uri decimal p.port) p.client_id p.client_secret
            st.verifier)
          s in
      finish_callback p st.return_path created
        (check_answer verify a.issuer p.client_id st.nonce now random posted.0) posted.1

  -- callback, run without interruption but for the exchange, which is `post`.
  unfoldable pub callback :
      App
      → ProtectedApp
      → ℕ
      → ℕ
      → Option String
      → (Values → Store → Result String TokenResponse × Store)
      → Values
      → Store
      → Option Response × Store
  callback a p now created random post query s =
      let taken = take_state (get query "state") s in
      continue_callback a p now created random (get query "code") post taken.0 taken.1
