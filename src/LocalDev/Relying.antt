-- ===== src/LocalDev/Relying.antt =====
-- internal/localdev/server.go: what the demo apps and the protected proxy share as clients of the
-- provider, their states of a login in progress, the exchange of a code and the checks of an ID token.
-- fmt.Sprintf of a port (`decimal`) and jose.VerifyRS256JWT under the server's key (`verify`) are
-- parameters.
use anyauth.Base.{
  ℕ, ◌+◌, ◌-◌, String, Bool, false, not, Option, none, some, [], ◌∷◌, ◌==◌, ltb, if◌then◌else◌,
  reject, first_error, Result, ok, err, diverged, ◌>>=◌, ◌>>◌, check,
}
use anyauth.Delegation.Tokens.{Claims, Value, text, number, negative, claim, seconds, epoch}
use anyauth.LocalDev.State.{Store, App}
use anyauth.LocalDev.Http.{Values, form, Response, page, json_error, tokens, token_error}
use anyauth.LocalDev.Provider.{random_or}
use anyauth.LocalDev.Tokens.{token}

pub record TokenResponse : Type 0 where
  pub access_token : String
  pub token_type : String
  pub expires_in : ℕ
  pub id_token : String
  pub error : String
  pub error_description : String

-- What the JSON of an answer of the token endpoint is decoded to; other bodies are no JSON.
unfoldable pub decode_answer : Response → Result String TokenResponse
decode_answer (tokens access n id_token) = ok (record {
  access_token = access;
  token_type = "Bearer";
  expires_in = n;
  id_token = id_token;
  error = "";
  error_description = "";
})
decode_answer (json_error status e d) = ok (record {
  access_token = "";
  token_type = "";
  expires_in = 0;
  id_token = "";
  error = e;
  error_description = d;
})
decode_answer _ = err "no JSON"

-- The form that exchangeCode posts.
abbrev pub exchange_values : (code redirect_uri client_id client_secret verifier : String) → Values
exchange_values code redirect_uri client_id client_secret verifier =
    ("grant_type", "authorization_code")
    ∷ ("code", code)
    ∷ ("redirect_uri", redirect_uri)
    ∷ ("client_id", client_id)
    ∷ ("client_secret", client_secret)
    ∷ ("code_verifier", verifier)
    ∷ []

-- The query of the redirect to the provider, with which login ends.
abbrev pub authorize_values : (client_id redirect_uri state nonce challenge : String) → Values
authorize_values client_id redirect_uri state nonce challenge =
    ("response_type", "code")
    ∷ ("client_id", client_id)
    ∷ ("redirect_uri", redirect_uri)
    ∷ ("scope", "openid profile email")
    ∷ ("state", state)
    ∷ ("nonce", nonce)
    ∷ ("code_challenge", challenge)
    ∷ ("code_challenge_method", "S256")
    ∷ []

-- `claims[key] == want`, for a claim of any type.
unfoldable pub claim_is : Option Value → String → Bool
claim_is (some (text s)) want = s == want
claim_is _ want = false

-- The `exp` claim as a float64, in seconds since Go's zero time.
unfoldable pub expiry : Option Value → Option ℕ
expiry (some (number n)) = some (epoch + n)
expiry (some (negative n)) = some (epoch - n)
expiry _ = none

abbrev pub expiry_error : Option ℕ → ℕ → Option String
expiry_error none now = some "exp claim missing or invalid"
expiry_error (some exp) now = reject (not (ltb (seconds now) exp)) "ID token expired"

unfoldable pub validate_id_token_claims :
    Claims → (issuer client_id nonce : String) → ℕ → Option String
validate_id_token_claims claims issuer client_id nonce now = first_error (
    reject (not (claim_is (claim claims "iss") issuer)) "issuer mismatch"
    ∷ reject (not (claim_is (claim claims "aud") client_id)) "audience mismatch"
    ∷ reject (not (claim_is (claim claims "nonce") nonce)) "nonce mismatch"
    ∷ expiry_error (expiry (claim claims "exp")) now
    ∷ [])

abbrev pub exchanged : Result String TokenResponse → Result Response TokenResponse
exchanged (ok r) = if r.error == "" then ok r else err (token_error r.error)
exchanged (err e) = err (token_error e)
exchanged diverged = diverged

abbrev pub verified : Result String Claims → Result Response Claims
verified (ok claims) = ok claims
verified (err e) = err (page 200 "Login Error" e)
verified diverged = diverged

abbrev pub accepted : Option String → Option Response
accepted none = none
accepted (some e) = some (page 200 "Login Error" e)

-- callback from the exchange of the code on, up to the ID of the new session.
unfoldable pub check_answer :
    (String → Result String Claims)
    → (issuer client_id nonce : String) → ℕ
    → Option String
    → Result String TokenResponse
    → Result Response (TokenResponse × Claims × String)
check_answer verify issuer client_id nonce now random response = do
  r ← exchanged response
  claims ← verified (verify r.id_token)
  check (accepted (validate_id_token_claims claims issuer client_id nonce now))
  id ← random_or random
  ok (r, claims, id)

-- The three random texts of login.
unfoldable pub draw :
    (state nonce verifier : Option String) → Result Response (String × String × String)
draw state nonce verifier = do
  s ← random_or state
  n ← random_or nonce
  v ← random_or verifier
  ok (s, n, v)

-- What http.DefaultClient.Do and the decoder return for a form posted to the token endpoint, which is
-- served by this program.
abbrev pub received : Option Response × Store → Result String TokenResponse × Store
received (none, s) = (err "no answer", s)
received (some r, s) = (decode_answer r, s)

module _ (sign : Claims → Option String) (pkce : String → String) where
  -- exchangeCode
  unfoldable pub exchange_code :
      App → ℕ → ℕ → Option String → Values → Store → Result String TokenResponse × Store
  exchange_code a now issued_at random values s =
      received (token sign pkce a now issued_at random "POST" (form values) s)
