-- ===== src/LocalDev/Flow.antt =====
-- A code from its issue to the user's data (internal/localdev/server.go).
use Prim.Native.String
use Prim.Native.String.append
use anyauth.Base.{
  ℕ, ◌+◌, ◌≤◌, String, ◌≡◌, refl, true, false, Option, none, some, [], arith, eq_iff, eq_refl, ltb,
  lookup, delete, lookup-put, trim_space, has_prefix,
}
use anyauth.Delegation.Tokens.{Claims}
use anyauth.LocalDev.State.{AuthCode, Store, App}
use anyauth.LocalDev.Http.{Values, form, get, drop_prefix, tokens, user_info}
use anyauth.LocalDev.Provider.{
  new_code, issue_code_redirect, store_code, expires_in, token_lifetime,
}
use anyauth.LocalDev.Tokens.{
  check_form, take_code, check_code, exchange, payload, new_token, store_token, token, userinfo,
}
use anyauth.LocalDev.Entitled.{IsEntitled}

pub has_prefix-append : (p s : String) → has_prefix (String.◌++◌ p s) p ≡ true
unfolding has_prefix
has_prefix-append String.[] s = refl
has_prefix-append (String.◌∷◌ c p) s =
    rw (append.cons c p s) (ground (arith, has_prefix-append p s))

pub drop_prefix-append : (p s : String) → drop_prefix (String.◌++◌ p s) p ≡ s
unfolding drop_prefix
drop_prefix-append String.[] s = append.nil s
drop_prefix-append (String.◌∷◌ c p) s = rw (append.cons c p s) (drop_prefix-append p s)

module _ (sign : Claims → Option String) (pkce : String → String) (a : App) where
  check_code_entitled :
      (now : ℕ) (values : Values) (c : AuthCode)
      → IsEntitled pkce a c values now
      → check_code sign pkce a now values c ≡ none
  unfolding check_code
  check_code_entitled now values c h = ground (
    arith,
    h.registered,
    h.in_time,
    eq_iff (get values "client_id") h.client.id,
    h.client_id,
    eq_iff (get values "client_secret") h.client.secret,
    h.client_secret,
    eq_iff (get values "redirect_uri") c.redirect_uri,
    h.redirect_uri,
    eq_iff (pkce (get values "code_verifier")) c.code_challenge,
    h.verifier,
  )

  -- What token does for a form that may have the tokens of a stored code.
  token_entitled :
      (now issued_at : ℕ) (values : Values) (s : Store) (c : AuthCode) (id_token t : String)
      → get values "grant_type" ≡ "authorization_code"
      → lookup (get values "code") s.auth_codes ≡ some c
      → IsEntitled pkce a c values now
      → sign (payload a c issued_at) ≡ some id_token
      → token sign pkce a now issued_at (some t) "POST" (form values) s ≡ (
        some (tokens t expires_in id_token),
        store_token t
            (new_token c issued_at)
            (record s { auth_codes = delete (get values "code") s.auth_codes }),
      )
  unfolding token check_form take_code exchange
  token_entitled now issued_at values s c id_token t g found h signed =
      rw (g, found, check_code_entitled now values c h, signed) refl

  -- A code that is issued for a valid request can be exchanged, by a form that may have its tokens, for
  -- an access token whose bearer gets the user's data from the user info endpoint. This is for a
  -- signature that succeeds, an access token with no space at its ends, and until the code and the
  -- access token expire.
  pub issue_code_redirect-userinfo :
      (issued now issued_at later : ℕ) (query values : Values) (code id_token t : String)
      (s : Store)
      → get values "grant_type" ≡ "authorization_code"
      → get values "code" ≡ code
      → IsEntitled pkce a (new_code a issued query) values now
      → sign (payload a (new_code a issued query) issued_at) ≡ some id_token
      → trim_space t ≡ t
      → later ≤ issued_at + token_lifetime
      → let s₁ = (issue_code_redirect a issued (some code) query [] s).1 in
        let end_ = token sign pkce a now issued_at (some t) "POST" (form values) s₁ in
        (end_.0 ≡ some (tokens t expires_in id_token))
        × (userinfo later (String.◌++◌ "Bearer " t) end_.1 ≡ user_info a.user)
  unfolding userinfo
  issue_code_redirect-userinfo issued now issued_at later query values code id_token t s g same h
        signed trimmed before =
      let stored = store_code code (new_code a issued query) s in
      let found : lookup (get values "code") stored.auth_codes ≡ some (new_code a issued query) =
        rw (same, lookup-put code code (new_code a issued query) s.auth_codes, eq_refl code) refl in
      let run = token_entitled now issued_at values stored _ id_token t g found h signed in
      let valid : ltb (issued_at + token_lifetime) later ≡ false = ground arith in
      rw run (
        refl,
        rw
            (
              has_prefix-append "Bearer " t,
              drop_prefix-append "Bearer " t,
              trimmed,
              lookup-put t t (new_token (new_code a issued query) issued_at) s.access_tokens,
              eq_refl t,
              valid,
            )
            refl,
      )
