-- ===== src/LocalDev/Serving.antt =====
-- internal/localdev/server.go: the requests that the provider serves, each run without interruption, as
-- steps of LocalDev/Codes.antt.
use anyauth.Base.{
  ℕ, String, ◌≡◌, refl, ap, ◌∙◌, ◌≢◌, Option, none, some, List, [], ◌∷◌, arith, ok, diverged,
  lookup, count, Result-cases, Option-cases, Bool-cases, inl, inr,
}
use anyauth.Delegation.Tokens.{Claims}
use anyauth.UserStore.Profiles.{Library}
use anyauth.LocalDev.State.{AuthCode, Store, App}
use anyauth.LocalDev.Http.{Values, Form, get, Response}
use anyauth.LocalDev.Provider.{
  validate_authorize, has_session, issue_code_redirect, authorize, refuse_with, check_login, login,
}
use anyauth.LocalDev.Tokens.{check_form, take_code, exchange, answer, token, userinfo}
use anyauth.LocalDev.Codes.{
  Request, System, issue, take, refuse, grant, elsewhere, Steps, here, then_,
}
use anyauth.LocalDev.Entitled.{take_code_missing}

-- The requests to the handlers that use the store, with the clock and the random tokens they get.
pub data Call : Type 0 where
  authorize_call : ℕ → Option String → Option String → Values → Call
  login_call : ℕ → ℕ → Option String → Option String → String → Form → Call
  token_call : ℕ → ℕ → Option String → String → Form → Call
  userinfo_call : ℕ → String → Call

-- The code that a request may be given.
abbrev pub drawn : Call → Option String
drawn (authorize_call now random cookie query) = random
drawn (login_call created now session_random random method body) = random
drawn _ = none

abbrev pub IsFresh : Option String → List String → Type 0
IsFresh none issued = Unit
IsFresh (some code) issued = count code issued ≡ 0

module _ (lib : Library) (sign : Claims → Option String) (pkce : String → String) (a : App) where
  -- providerMux
  unfoldable pub serve : Call → Store → Option Response × Store
  serve (authorize_call now random cookie query) s =
      let r = authorize a now random cookie query s in (some r.0, r.1)
  serve (login_call created now session_random random method body) s =
      login lib a created now session_random random method body s
  serve (token_call now issued_at random method body) s =
      token sign pkce a now issued_at random method body s
  serve (userinfo_call now auth) s = (some (userinfo now auth s), s)

module _ (sign : Claims → Option String) (pkce : String → String) (a : App) (from : System) where
  -- A state that steps lead to from `from`, with this store and with these requests in flight.
  pub record Reaches (waiting : List (String × Request)) (st : Store) : Type 0 where
    pub state : System
    pub steps : Steps sign pkce a from state
    pub store : state.store ≡ st
    pub in_flight : state.in_flight ≡ waiting

  -- The state stays as it is.
  stays :
      {s : System} {st : Store} → Steps sign pkce a from s → s.store ≡ st → Reaches s.in_flight st
  stays {s} r same = record { state = s; steps = r; store = same; in_flight = refl }

  issue_code_redirect-Reaches :
      {s : System} (now : ℕ) (random : Option String) (values : Values) (cookies : _)
      → Steps sign pkce a from s
      → validate_authorize a values ≡ none
      → IsFresh random s.issued
      → Reaches s.in_flight (issue_code_redirect a now random values cookies s.store).1
  issue_code_redirect-Reaches {s} now none values cookies r valid new = stays r refl
  issue_code_redirect-Reaches now (some code) values cookies r valid new = record {
    state = _;
    steps = then_ r (issue now values code valid new);
    store = refl;
    in_flight = refl;
  }

  authorize-Reaches :
      {s : System} (now : ℕ) (random cookie : Option String) (query : Values)
      → Steps sign pkce a from s
      → IsFresh random s.issued
      → Reaches s.in_flight (authorize a now random cookie query s.store).1
  unfolding authorize
  authorize-Reaches {s} now random cookie query r new =
      elim (Option-cases (validate_authorize a query)) [
        | inr (e, invalid) ↦ stays r (rw invalid refl)
        | inl valid ↦ elim (Bool-cases (has_session cookie s.store)) [
          | inl held ↦
              rw (valid, held) (issue_code_redirect-Reaches now random query [] r valid new)
          | inr absent ↦ stays r (rw (valid, absent) refl)
        ]
      ]

  refuse_with_lem :
      (page_of : String → Response) (o : Option String) {u : Unit {0}}
      → refuse_with page_of o ≡ ok u
      → o ≡ none
  refuse_with_lem page_of none h = refl
  refuse_with_lem page_of (some e) h = cc

  check_login-valid :
      (lib : Library) (random : Option String) (method : String) (body : Form) {values : Values}
      {id : String}
      → check_login lib a random method body ≡ ok (values, id)
      → validate_authorize a values ≡ none
  unfolding check_login
  check_login-valid lib random method body h = ground arith

  login-Reaches :
      {s : System} (lib : Library) (created now : ℕ) (session_random random : Option String)
      (method : String) (body : Form)
      → Steps sign pkce a from s
      → IsFresh random s.issued
      → Reaches s.in_flight (login lib a created now session_random random method body s.store).1
  unfolding login
  login-Reaches {s} lib created now session_random random method body r new =
      elim (Result-cases (check_login lib a session_random method body)) [
        | inl ((values, id), done) ↦ rw done (
            issue_code_redirect-Reaches now random values _ (then_ r (elsewhere _ refl refl))
              (check_login-valid lib session_random method body done) new)
        | inr (inl out) ↦ stays r (rw out refl)
        | inr (inr (e, failed)) ↦ stays r (rw failed refl)
      ]

  exchange-code :
      (now issued_at : ℕ) (random : Option String) (values : Values) (c : AuthCode) {c' : AuthCode}
      {i t : String}
      → exchange sign pkce a now issued_at random values (some c) ≡ ok (c', i, t)
      → c' ≡ c
  unfolding exchange
  exchange-code now issued_at random values c h = ground arith

  -- An exchange ends, with tokens or a refusal.
  exchange-ne-diverged :
      (now issued_at : ℕ) (random : Option String) (values : Values) (c : AuthCode)
      → exchange sign pkce a now issued_at random values (some c) ≢ diverged
  unfolding exchange
  exchange-ne-diverged now issued_at random values c h = ground arith

  answer-Reaches :
      {s : System} (now issued_at : ℕ) (random : Option String) (values : Values) (c : AuthCode)
      (others : List (String × Request))
      → Steps sign pkce a from s
      → s.in_flight ≡ (get values "code", record { code = c; values = values }) ∷ others
      → Reaches others
          (answer sign pkce issued_at
            (exchange sign pkce a now issued_at random values (some c))
            s.store).1
  answer-Reaches {s} now issued_at random values c others r flying =
      elim (Result-cases (exchange sign pkce a now issued_at random values (some c))) [
        | inl ((c', id_token, t), done) ↦
            let same = exchange-code now issued_at random values c done in
            record {
              state = _;
              steps = then_ r (
                  grant [] others (get values "code") _ now issued_at random id_token t flying
                    (done ∙ ap (λ (x : AuthCode). ok (x, id_token, t)) same));
              store = rw (done, same) refl;
              in_flight = refl;
            }
        | inr (inl out) ↦ absurd (exchange-ne-diverged now issued_at random values c out)
        | inr (inr (e, failed)) ↦ record {
          state = _;
          steps = then_ r (refuse [] others (get values "code") _ flying);
          store = rw failed refl;
          in_flight = refl;
        }
      ]

  taken_code :
      (code : String) (s : System) → (take_code code s.store).0 ≡ lookup code s.store.auth_codes
  unfolding take_code
  taken_code code s = refl

  taken-Reaches :
      {s : System} (now issued_at : ℕ) (random : Option String) (values : Values)
      → Steps sign pkce a from s
      → (let taken_code = take_code (get values "code") s.store in
          Reaches s.in_flight
            (answer sign pkce issued_at
              (exchange sign pkce a now issued_at random values taken_code.0)
              taken_code.1).1)
  unfolding exchange
  taken-Reaches {s} now issued_at random values r =
      elim (Option-cases (lookup (get values "code") s.store.auth_codes)) [
        | inl missing ↦ stays r (
            rw
              (
                taken_code (get values "code") s,
                missing,
                take_code_missing (get values "code") s.store missing,
              )
              refl)
        | inr (c, found) ↦
            rw (taken_code (get values "code") s, found)
              (answer-Reaches now issued_at random values c s.in_flight
                (then_ r (take values c found)) refl)
      ]

  token-Reaches :
      {s : System} (now issued_at : ℕ) (random : Option String) (method : String) (body : Form)
      → Steps sign pkce a from s
      → Reaches s.in_flight (token sign pkce a now issued_at random method body s.store).1
  unfolding token
  token-Reaches {s} now issued_at random method body r =
      elim (Result-cases (check_form method body)) [
        | inr (inl out) ↦ stays r (rw out refl)
        | inr (inr (e, failed)) ↦ stays r (rw failed refl)
        | inl (values, read) ↦ rw read (taken-Reaches now issued_at random values r)
      ]

module _ (lib : Library) (sign : Claims → Option String) (pkce : String → String) (a : App) where
  -- Serving a request without interruption is a sequence of steps: from any state, steps of interleaved
  -- requests lead to a state with the store that it leaves and the same requests in flight, if the code
  -- that the request may be given was not issued before.
  pub serve-Reaches :
      (s : System) (call : Call)
      → IsFresh (drawn call) s.issued
      → Reaches sign pkce a s s.in_flight (serve lib sign pkce a call s.store).1
  unfolding serve
  serve-Reaches s (authorize_call now random cookie query) new =
      authorize-Reaches sign pkce a s now random cookie query here new
  serve-Reaches s (login_call created now session_random random method body) new =
      login-Reaches sign pkce a s lib created now session_random random method body here new
  serve-Reaches s (token_call now issued_at random method body) new =
      token-Reaches sign pkce a s now issued_at random method body here
  serve-Reaches s (userinfo_call now auth) new = stays sign pkce a s here refl
