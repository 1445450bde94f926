-- ===== src/LocalDev/Entitled.antt =====
-- Which codes are issued, and which requests have tokens (internal/localdev/server.go).
use anyauth.Base.{
  ℕ, ◌≤◌, String, ◌≡◌, ◌≢◌, refl, true, Option, none, some, arith, eq_iff, Option-cases, inl, inr,
  contains, ok, lookup, delete, lookup-delete, eq_refl, >>=-eq-ok, check-eq-ok,
}
use anyauth.Delegation.Tokens.{Claims}
use anyauth.LocalDev.State.{Client, AuthCode, Store, App}
use anyauth.LocalDev.Http.{Values, get, has_scope}
use anyauth.LocalDev.Provider.{validate_client, validate_authorize, new_code}
use anyauth.LocalDev.Tokens.{take_code, check_code, exchange}

pub take_code_found :
    (code : String) (s : Store) {c : AuthCode}
    → lookup code s.auth_codes ≡ some c
    → (take_code code s).1 ≡ record s { auth_codes = delete code s.auth_codes }
unfolding take_code
take_code_found code s found = rw found refl

pub take_code_missing :
    (code : String) (s : Store) → lookup code s.auth_codes ≡ none → (take_code code s).1 ≡ s
unfolding take_code
take_code_missing code s missing = rw missing refl

-- After the first critical section the code is gone.
pub lookup-take_code :
    (code : String) (s : Store) → lookup code (take_code code s).1.auth_codes ≡ none
lookup-take_code code s = elim (Option-cases (lookup code s.auth_codes)) [
  | inl missing ↦ rw (take_code_missing code s missing) missing
  | inr (c, found) ↦
      rw (take_code_found code s found, lookup-delete code code s.auth_codes, eq_refl code) refl
]

module _ (a : App) where
  -- A code of a registered client for one of its redirect URIs, under PKCE and for the local user.
  pub record IsIssued (c : AuthCode) : Type 0 where
    pub client : Client
    pub registered : lookup c.client_id a.clients ≡ some client
    pub redirects : contains client.redirect_uris c.redirect_uri ≡ true
    pub challenged : c.code_challenge ≢ ""
    pub method : c.code_challenge_method ≡ "S256"
    pub openid : has_scope c.scope "openid" ≡ true
    pub user : c.user ≡ a.user

  pub validate_authorize-IsIssued :
      (now : ℕ) (values : Values)
      → validate_authorize a values ≡ none
      → IsIssued (new_code a now values)
  unfolding validate_authorize validate_client
  validate_authorize-IsIssued now values h =
      elim (Option-cases (lookup (get values "client_id") a.clients)) [
        | inl unknown ↦ absurd (ground arith)
        | inr (c, found) ↦ record {
          client = c;
          registered = found;
          redirects = ground arith;
          challenged = ground (arith, eq_iff (get values "code_challenge") "");
          method = ground (arith, eq_iff (get values "code_challenge_method") "S256");
          openid = ground arith;
          user = refl;
        }
      ]

module _ (pkce : String → String) (a : App) where
  -- A form that may have the tokens of the code: from the client that it was issued to, with its secret,
  -- the same redirect URI and the verifier of the challenge, no later than the code expires.
  pub record IsEntitled (c : AuthCode) (values : Values) (now : ℕ) : Type 0 where
    pub client : Client
    pub registered : lookup c.client_id a.clients ≡ some client
    pub client_id : get values "client_id" ≡ client.id
    pub client_secret : get values "client_secret" ≡ client.secret
    pub redirect_uri : get values "redirect_uri" ≡ c.redirect_uri
    pub verifier : pkce (get values "code_verifier") ≡ c.code_challenge
    pub in_time : now ≤ c.expires_at

module _ (sign : Claims → Option String) (pkce : String → String) (a : App) where
  pub check_code-IsEntitled :
      (now : ℕ) (values : Values) (c : AuthCode)
      → check_code sign pkce a now values c ≡ none
      → IsEntitled pkce a c values now
  unfolding check_code
  check_code-IsEntitled now values c h = elim (Option-cases (lookup c.client_id a.clients)) [
    | inl unknown ↦ absurd (ground arith)
    | inr (client, found) ↦ record {
      client = client;
      registered = found;
      client_id = ground (arith, eq_iff (get values "client_id") client.id);
      client_secret = ground (arith, eq_iff (get values "client_secret") client.secret);
      redirect_uri = ground (arith, eq_iff (get values "redirect_uri") c.redirect_uri);
      verifier = ground (arith, eq_iff (pkce (get values "code_verifier")) c.code_challenge);
      in_time = ground arith;
    }
  ]

  pub exchange-IsEntitled :
      (now issued_at : ℕ) (random : Option String) (values : Values) (c : AuthCode)
      {r : AuthCode × String × String}
      → exchange sign pkce a now issued_at random values (some c) ≡ ok r
      → IsEntitled pkce a c values now
  unfolding exchange
  exchange-IsEntitled now issued_at random values c h =
      check_code-IsEntitled now values c (check-eq-ok _ (>>=-eq-ok _ _ h).1)
