-- ===== src/LocalDev/Exchanged.antt =====
-- What an answer that the exchange of a code accepts rests on (internal/localdev/server.go).
use anyauth.Base.{
  ℕ, String, ◌≡◌, refl, sym, ap, ◌∙◌, inl, inr, false, Option, none, some, List, arith, eq_iff,
  ◌==◌, ltb, Result, ok, err, diverged, Result-cases, Option-cases, Bool-cases, lookup, ◌>>=◌,
}
use anyauth.Delegation.Tokens.{Claims}
use anyauth.LocalDev.State.{AuthCode, Store, App}
use anyauth.LocalDev.Http.{Values, form, get, Response, json_error, http_error, Cookie, redirect}
use anyauth.LocalDev.Provider.{random_or}
use anyauth.LocalDev.Tokens.{
  check_form, take_code, check_code, wrong_client, exchange, payload, answer, token,
}
use anyauth.LocalDev.Entitled.{IsEntitled, check_code-IsEntitled}
use anyauth.LocalDev.Relying.{
  TokenResponse, decode_answer, validate_id_token_claims, check_answer, received, exchange_code,
}

module _ (sign : Claims → Option String) (pkce : String → String) (a : App) where
  -- The token endpoint's answer was for a code that it had, whose ID token it signed.
  abbrev pub IsExchanged : ℕ → ℕ → Values → Option AuthCode → TokenResponse → Type 0
  IsExchanged now issued_at values found r =
      (c : AuthCode) × (found ≡ some c)
      × IsEntitled pkce a c values now
      × (sign (payload a c issued_at) ≡ some r.id_token)

  check_code-errors :
      (now : ℕ) (values : Values) (c : AuthCode) (e : Response)
      → check_code sign pkce a now values c ≡ some e
      → (name description : String) × (e ≡ json_error 400 name description) × ((name == "") ≡ false)
  unfolding check_code
  check_code-errors now values c e h = elim (Bool-cases (ltb c.expires_at now)) [
    | inl late ↦ ("invalid_grant", "code expired", ground arith, refl)
    | inr in_time ↦ elim (Bool-cases (wrong_client (lookup c.client_id a.clients) values)) [
      | inl wrong ↦ ("invalid_client", "", ground arith, refl)
      | inr right ↦ elim (Bool-cases (get values "redirect_uri" == c.redirect_uri)) [
        | inr other ↦ ("invalid_grant", "redirect_uri mismatch", ground arith, refl)
        | inl same ↦ ("invalid_grant", "PKCE verification failed", ground arith, refl)
      ]
    ]
  ]

  decoded_error :
      (name description : String) (r : TokenResponse)
      → decode_answer (json_error 400 name description) ≡ ok r
      → (name == "") ≡ false
      → r.error ≡ ""
      → ⊥
  unfolding decode_answer
  decoded_error name description r h named empty =
      let same : name ≡ r.error = ground arith in ground (arith, eq_iff name "", same ∙ empty)

  unsigned_answer :
      (issued_at : ℕ) (s : Store) (r : TokenResponse)
      → (received (answer sign pkce issued_at (err (http_error 500 "signing failed")) s)).0 ≡ ok r
      → ⊥
  unfolding decode_answer
  unsigned_answer issued_at s r h = ground arith

  -- What a signed ID token is answered with.
  decoded_tokens :
      (random : Option String) (t : String) (issued_at : ℕ) (c : AuthCode) (s : Store)
      (r : TokenResponse)
      → (received
          (answer sign pkce issued_at (random_or random >>= λ access. ok (c, t, access)) s)).0
        ≡ ok r
      → t ≡ r.id_token
  unfolding decode_answer
  decoded_tokens random t issued_at c s r h = ground arith

  exchange-IsExchanged :
      (now issued_at : ℕ) (random : Option String) (values : Values) (found : Option AuthCode)
      (s : Store) (r : TokenResponse)
      → (received
          (answer sign pkce issued_at (exchange sign pkce a now issued_at random values found) s)).0
        ≡ ok r
      → r.error ≡ ""
      → IsExchanged now issued_at values found r
  unfolding exchange
  exchange-IsExchanged now issued_at random values none s r h empty =
      absurd (decoded_error "invalid_grant" "code is invalid or already used" r h refl empty)
  exchange-IsExchanged now issued_at random values (some c) s r h empty =
      elim (Option-cases (check_code sign pkce a now values c)) [
        | inr (e, refused) ↦
            let (name, description, same, named) = check_code-errors now values c e refused in
            absurd (decoded_error name description r (ground arith) named empty)
        | inl fine ↦ elim (Option-cases (sign (payload a c issued_at))) [
          | inl unsigned ↦ absurd (unsigned_answer issued_at s r (ground arith))
          | inr (t, signed) ↦ (
            c,
            refl,
            check_code-IsEntitled sign pkce a now values c fine,
            ground (arith, decoded_tokens random t issued_at c s r (ground arith)),
          )
        ]
      ]

  token-answer :
      (now issued_at : ℕ) (random : Option String) (values : Values) (s : Store)
      → get values "grant_type" ≡ "authorization_code"
      → token sign pkce a now issued_at random "POST" (form values) s
        ≡ answer sign pkce issued_at
            (exchange sign pkce a now issued_at random values
              (lookup (get values "code") s.auth_codes))
            (take_code (get values "code") s).1
  unfolding token check_form take_code
  token-answer now issued_at random values s g = rw g refl

  pub exchange_code-IsExchanged :
      (now issued_at : ℕ) (random : Option String) (values : Values) (s : Store) (r : TokenResponse)
      → get values "grant_type" ≡ "authorization_code"
      → (exchange_code sign pkce a now issued_at random values s).0 ≡ ok r
      → r.error ≡ ""
      → IsExchanged now issued_at values (lookup (get values "code") s.auth_codes) r
  unfolding exchange_code
  exchange_code-IsExchanged now issued_at random values s r g h empty =
      let run = token-answer now issued_at random values s g in
      let got : (received (
            answer sign pkce issued_at
              (exchange sign pkce a now issued_at random values
                (lookup (get values "code") s.auth_codes))
              (take_code (get values "code") s).1)).0
          ≡ ok r =
        ap (λ (o : Option Response × Store). (received o).0) (sym run) ∙ h in
      exchange-IsExchanged now issued_at random values _ _ r got empty

module _ (verify : String → Result String Claims) (issuer client_id nonce : String) where
  pub check_answer-ok :
      (now : ℕ) (random : Option String) (response : Result String TokenResponse)
      (r : TokenResponse) (claims : Claims) (id : String)
      → check_answer verify issuer client_id nonce now random response ≡ ok (r, claims, id)
      → (response ≡ ok r)
        × (r.error ≡ "")
        × (verify r.id_token ≡ ok claims)
        × (validate_id_token_claims claims issuer client_id nonce now ≡ none)
  unfolding check_answer
  check_answer-ok now random (err e) r claims id h = absurd (ground arith)
  check_answer-ok now random diverged r claims id h = absurd (ground arith)
  check_answer-ok now random (ok q) r claims id h = elim (Result-cases (verify q.id_token)) [
    | inr other ↦ absurd (ground arith)
    | inl (cs, verified) ↦
        (let same : q ≡ r = ground arith in
          let read : cs ≡ claims = ground arith in
          rw (sym same, sym read) (refl, ground (arith, eq_iff q.error ""), verified, ground arith))
  ]

  pub check_answer-refuses :
      (now : ℕ) (random : Option String) (response : Result String TokenResponse) (url : String)
      (query : Values) (cookies : List Cookie)
      → check_answer verify issuer client_id nonce now random response
        ≡ err (redirect url query cookies)
      → ⊥
  unfolding check_answer
  check_answer-refuses now random response url query cookies h = ground arith
