-- ===== src/LocalDev/SignedIn.antt =====
-- What a session at the protected proxy rests on (internal/localdev/server.go).
use anyauth.Base.{
  ℕ, String, ◌≡◌, refl, sym, ap, ◌∙◌, inl, inr, Option, none, some, List, [], ◌∷◌, arith, eq_refl,
  is_some, Result, ok, err, diverged, Option-cases, Bool-cases, lookup, lookup-put,
}
use anyauth.Delegation.Tokens.{Claims}
use anyauth.LocalDev.State.{AuthCode, ProtectState, ProtectSession, Store, App}
use anyauth.LocalDev.Http.{Values, get, Response, Cookie, redirect, set_cookie}
use anyauth.LocalDev.Tokens.{payload}
use anyauth.LocalDev.Entitled.{IsEntitled}
use anyauth.LocalDev.Relying.{
  TokenResponse, exchange_values, validate_id_token_claims, check_answer, exchange_code,
}
use anyauth.LocalDev.Protect.{
  ProtectedApp, protect_redirect_uri, take_state, finish_callback, callback,
}
use anyauth.LocalDev.Exchanged.{exchange_code-IsExchanged, check_answer-ok, check_answer-refuses}

module _ (decimal : ℕ → String) (sign : Claims → Option String)
    (verify : String → Result String Claims) (pkce : String → String) (a : App)
    (p : ProtectedApp) where
  -- The form that the proxy posts for a code.
  abbrev pub posted_form : String → ProtectState → Values
  posted_form code st =
      exchange_values code (protect_redirect_uri decimal p.port) p.client_id p.client_secret
        st.verifier

  -- What a session for the ID rests on: a login that was in progress, a code that the provider had stored
  -- and whose tokens the proxy's form may have, and the ID token that the provider signed for it, which
  -- has the provider as issuer, the proxy as audience, the login's nonce and is not expired.
  pub record IsSignedIn (now issued_at checked_at created : ℕ) (query : Values) (id : String)
      (s s' : Store) : Type 0 where
    pub state : ProtectState
    pub in_progress : lookup (get query "state") s.protect_states ≡ some state
    pub code : AuthCode
    pub had : lookup (get query "code") s.auth_codes ≡ some code
    pub entitled : IsEntitled pkce a code (posted_form (get query "code") state) checked_at
    pub id_token : String
    pub signed : sign (payload a code issued_at) ≡ some id_token
    pub claims : Claims
    pub verified : verify id_token ≡ ok claims
    pub valid : validate_id_token_claims claims a.issuer p.client_id state.nonce now ≡ none
    pub session :
        lookup id s'.protect_sessions ≡ some (record { claims = claims; created_at = created })

  taken_state :
      (state : String) (s : Store) → (take_state state s).0 ≡ lookup state s.protect_states
  unfolding take_state
  taken_state state s = refl

  taken_state-codes :
      (state : String) (s : Store) → (take_state state s).1.auth_codes ≡ s.auth_codes
  unfolding take_state
  taken_state-codes state s = elim (Bool-cases (is_some (lookup state s.protect_states))) [
    | inl there ↦ rw there refl
    | inr missing ↦ rw missing refl
  ]

  abbrev the_session : Claims → ℕ → ProtectSession
  the_session claims created = record { claims = claims; created_at = created }

  finish_callback-ok :
      (path : String) (created : ℕ) (o : Result Response (TokenResponse × Claims × String))
      (s : Store) (url id : String)
      → ((query : Values) (cookies : List Cookie) → o ≡ err (redirect url query cookies) → ⊥)
      → (finish_callback p path created o s).0
        ≡ some (redirect url [] (set_cookie p.session_cookie id ∷ []))
      → (r : TokenResponse) × (claims : Claims) × (o ≡ ok (r, claims, id))
        × (lookup id (finish_callback p path created o s).1.protect_sessions
            ≡ some (record { claims = claims; created_at = created }))
  finish_callback-ok path created (err e) s url id never h =
      absurd (never [] (set_cookie p.session_cookie id ∷ []) (ground arith))
  finish_callback-ok path created diverged s url id never h = absurd (ground arith)
  finish_callback-ok path created (ok (r, claims, id')) s url id never h =
      let same : id' ≡ id = ground arith in
      (
        r,
        claims,
        ap (λ (i : String). ok (r, claims, i)) same,
        rw (same, lookup-put id id (the_session claims created) s.protect_sessions, eq_refl id)
            refl,
      )

  posted_form-get :
      (code : String) (st : ProtectState)
      → (get (posted_form code st) "grant_type" ≡ "authorization_code")
        × (get (posted_form code st) "code" ≡ code)
  unfolding get
  posted_form-get code st = (refl, refl)

  callback-known :
      (now created : ℕ) (random : Option String)
      (post : Values → Store → Result String TokenResponse × Store) (query : Values) (s : Store)
      (st : ProtectState)
      → lookup (get query "state") s.protect_states ≡ some st
      → (let posted =
            post (posted_form (get query "code") st) (take_state (get query "state") s).1 in
          callback decimal verify pkce a p now created random post query s
          ≡ finish_callback p st.return_path created
              (check_answer verify a.issuer p.client_id st.nonce now random posted.0)
              posted.1)
  unfolding callback
  callback-known now created random post query s st known =
      rw (taken_state (get query "state") s, known) refl

  callback-unknown :
      (now created : ℕ) (random : Option String)
      (post : Values → Store → Result String TokenResponse × Store) (query : Values) (s : Store)
      (url : String) (q : Values) (cookies : List Cookie)
      → lookup (get query "state") s.protect_states ≡ none
      → (callback decimal verify pkce a p now created random post query s).0
        ≡ some (redirect url q cookies)
      → ⊥
  unfolding callback
  callback-unknown now created random post query s url q cookies unknown h =
      ground (arith, taken_state (get query "state") s)

  -- A callback at the proxy that signs the browser in, by setting its cookie to an ID, has created a session
  -- for this ID, with the claims of the ID token that the provider signed for the code in the query, which
  -- it had stored, and under the state in the query, of a login in progress. The exchange is a request to
  -- the token endpoint of this server.
  pub callback-IsSignedIn :
      (now created checked_at issued_at : ℕ) (random token_random : Option String) (query : Values)
      (s : Store) (url id : String)
      → (callback decimal verify pkce a p now created random
          (exchange_code sign pkce a checked_at issued_at token_random)
          query
          s).0
        ≡ some (redirect url [] (set_cookie p.session_cookie id ∷ []))
      → IsSignedIn now issued_at checked_at created query id s
          (callback decimal verify pkce a p now created random
            (exchange_code sign pkce a checked_at issued_at token_random)
            query
            s).1
  callback-IsSignedIn now created checked_at issued_at random token_random query s url id h =
      let post = exchange_code sign pkce a checked_at issued_at token_random in
      elim (Option-cases (lookup (get query "state") s.protect_states)) [
        | inl unknown ↦ absurd (callback-unknown now created random post query s url _ _ unknown h)
        | inr (st, known) ↦
            let s₁ = (take_state (get query "state") s).1 in
            let posted = post (posted_form (get query "code") st) s₁ in
            let run = callback-known now created random post query s st known in
            let o = check_answer verify a.issuer p.client_id st.nonce now random posted.0 in
            let (r, claims, accepted, session) =
              finish_callback-ok st.return_path created o posted.1 url id
                (λ q cookies.
                  check_answer-refuses verify a.issuer p.client_id st.nonce now random posted.0 url
                    q cookies)
                (ap (λ (out : Option Response × Store). out.0) (sym run) ∙ h) in
            let (answered, fine, verified, valid) =
              check_answer-ok verify a.issuer p.client_id st.nonce now random posted.0 r claims id
                accepted in
            let (code, had, entitled, signed) =
              exchange_code-IsExchanged sign pkce a checked_at issued_at token_random
                (posted_form (get query "code") st) s₁ r (posted_form-get (get query "code") st).0
                answered fine in
            record {
              state = st;
              in_progress = known;
              code = code;
              had =
                  ap (lookup (get query "code")) (sym (taken_state-codes (get query "state") s))
                  ∙ ap (λ (k : String). lookup k s₁.auth_codes)
                      (sym (posted_form-get (get query "code") st).1)
                  ∙ had;
              entitled = entitled;
              id_token = r.id_token;
              signed = signed;
              claims = claims;
              verified = verified;
              valid = valid;
              session =
                  ap (λ (out : Option Response × Store). lookup id out.1.protect_sessions) run
                  ∙ session;
            }
      ]
