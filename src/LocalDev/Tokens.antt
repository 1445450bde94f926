-- ===== src/LocalDev/Tokens.antt =====
-- internal/localdev/server.go: the handlers token and userinfo. token holds the mutex twice, so it is
-- given by its critical sections, take_code and store_token, and by what is done in between.
use anyauth.Base.{
  ℕ, ◌+◌, ◌-◌, String, Bool, true, not, ◌||◌, Option, none, some, [], ◌∷◌, ◌==◌, ltb, if◌then◌else◌,
  is_some, reject, first_error, Result, ok, err, diverged, ◌>>=◌, ◌>>◌, check, trim_space,
  has_prefix, lookup, put, delete,
}
use anyauth.Delegation.Tokens.{Claims, Value, text, number, negative, seconds, epoch}
use anyauth.LocalDev.State.{Client, AuthCode, AccessToken, Store, App}
use anyauth.LocalDev.Http.{
  Values, Form, get, drop_prefix, Response, http_error, json_error, tokens, user_info,
}
use anyauth.LocalDev.Provider.{parsed, random_or, expires_in, token_lifetime}

abbrev pub invalid_grant : String → Response
invalid_grant description = json_error 400 "invalid_grant" description

-- The handler up to its first critical section.
unfoldable pub check_form : String → Form → Result Response Values
check_form method body = do
  check (reject (not (method == "POST")) (http_error 405 "method not allowed"))
  values ← parsed body (λ e. json_error 400 "invalid_request" "")
  check (
      reject (not (get values "grant_type" == "authorization_code"))
        (json_error 400 "unsupported_grant_type" ""))
  ok values

-- The first critical section: the code is looked up and, if it is there, deleted.
unfoldable pub take_code : String → Store → Option AuthCode × Store
take_code code s =
    let found = lookup code s.auth_codes in
    (found, if is_some found then record s { auth_codes = delete code s.auth_codes } else s)

-- `!ok || client_id != c.ID || client_secret != c.Secret`
abbrev pub wrong_client : Option Client → Values → Bool
wrong_client none values = true
wrong_client (some c) values =
    not (get values "client_id" == c.id) || not (get values "client_secret" == c.secret)

abbrev pub taken : Option AuthCode → Result Response AuthCode
taken none = err (invalid_grant "code is invalid or already used")
taken (some c) = ok c

-- `t.Unix()`
unfoldable pub unix : ℕ → Value
unix t = if ltb (seconds t) epoch then negative (epoch - seconds t) else number (seconds t - epoch)

-- The claims of the ID token.
unfoldable pub payload : App → AuthCode → ℕ → Claims
payload a c issued_at =
    ("iss", text a.issuer)
    ∷ ("sub", text c.user.sub)
    ∷ ("aud", text c.client_id)
    ∷ ("iat", unix issued_at)
    ∷ ("exp", unix (issued_at + token_lifetime))
    ∷ ("name", text c.user.name)
    ∷ ("email", text c.user.email)
    ∷ (if c.nonce == "" then [] else ("nonce", text c.nonce) ∷ [])

-- The accessToken that token stores.
abbrev pub new_token : AuthCode → ℕ → AccessToken
new_token c issued_at = record {
  client_id = c.client_id;
  scope = c.scope;
  user = c.user;
  expires_at = issued_at + token_lifetime;
}

-- The second critical section.
abbrev pub store_token : String → AccessToken → Store → Store
store_token t data_ s = record s { access_tokens = put t data_ s.access_tokens }

abbrev pub signed : Option String → Result Response String
signed none = err (http_error 500 "signing failed")
signed (some t) = ok t

module _ (sign : Claims → Option String) (pkce : String → String) where
  -- The checks of a code that has been taken.
  unfoldable pub check_code : App → ℕ → Values → AuthCode → Option Response
  check_code a now values c = first_error (
      reject (ltb c.expires_at now) (invalid_grant "code expired")
      ∷ reject (wrong_client (lookup c.client_id a.clients) values)
          (json_error 400 "invalid_client" "")
      ∷ reject (not (get values "redirect_uri" == c.redirect_uri))
          (invalid_grant "redirect_uri mismatch")
      ∷ reject (not (pkce (get values "code_verifier") == c.code_challenge))
          (invalid_grant "PKCE verification failed")
      ∷ [])

  -- From the first critical section to the second: the code, the ID token and the access token.
  unfoldable pub exchange :
      App
      → ℕ
      → ℕ
      → Option String
      → Values
      → Option AuthCode
      → Result Response (AuthCode × String × String)
  exchange a now issued_at random values found = do
    c ← taken found
    check (check_code a now values c)
    id_token ← signed (sign (payload a c issued_at))
    t ← random_or random
    ok (c, id_token, t)

  abbrev pub answer :
      ℕ → Result Response (AuthCode × String × String) → Store → Option Response × Store
  answer issued_at (err r) s = (some r, s)
  answer issued_at diverged s = (none, s)
  answer issued_at (ok (c, id_token, t)) s =
      (some (tokens t expires_in id_token), store_token t (new_token c issued_at) s)

  abbrev pub continue_token :
      App → ℕ → ℕ → Option String → Result Response Values → Store → Option Response × Store
  continue_token a now issued_at random (err r) s = (some r, s)
  continue_token a now issued_at random diverged s = (none, s)
  continue_token a now issued_at random (ok values) s =
      let taken_code = take_code (get values "code") s in
      answer issued_at (exchange a now issued_at random values taken_code.0) taken_code.1

  -- token, run without interruption; `now` and `issued_at` are its two readings of the clock.
  unfoldable pub token :
      App → ℕ → ℕ → Option String → String → Form → Store → Option Response × Store
  token a now issued_at random method body s =
      continue_token a now issued_at random (check_form method body) s

abbrev pub invalid_token : Response
invalid_token = json_error 401 "invalid_token" ""

abbrev pub token_user : ℕ → Option AccessToken → Response
token_user now none = invalid_token
token_user now (some t) = if ltb t.expires_at now then invalid_token else user_info t.user

-- userinfo; `auth` is the Authorization header, "" for none.
unfoldable pub userinfo : ℕ → String → Store → Response
userinfo now auth s =
    if not (has_prefix auth "Bearer ")
    then invalid_token
    else token_user now (lookup (trim_space (drop_prefix auth "Bearer ")) s.access_tokens)
