-- ===== src/LocalDev/Refused.antt =====
-- What comes of a second use of a code at the token endpoint (internal/localdev/server.go).
use anyauth.Base.{
  ℕ, ◌≤◌, String, ◌≡◌, refl, ap, ◌∙◌, Option, none, some, arith, eq_iff, Result, ok, err, diverged,
  lookup, lookup-put, lookup-delete, count,
}
use anyauth.Delegation.Tokens.{Claims}
use anyauth.LocalDev.State.{AuthCode, Store, App}
use anyauth.LocalDev.Http.{Values, form, get, Response}
use anyauth.LocalDev.Provider.{new_code}
use anyauth.LocalDev.Tokens.{invalid_grant, check_form, take_code, exchange, answer, token}
use anyauth.LocalDev.Entitled.{lookup-take_code}
use anyauth.LocalDev.Codes.{System, Step, issue, take, refuse, grant, elsewhere, Steps, here, then_}

module _ (sign : Claims → Option String) (pkce : String → String) (a : App) where
  token_again :
      (now issued_at : ℕ) (random : Option String) (values : Values) (s : Store)
      → get values "grant_type" ≡ "authorization_code"
      → lookup (get values "code") s.auth_codes ≡ none
      → token sign pkce a now issued_at random "POST" (form values) s
        ≡ (some (invalid_grant "code is invalid or already used"), s)
  unfolding token check_form take_code exchange
  token_again now issued_at random values s g gone = rw (g, gone) refl

  -- token keeps the codes that its first critical section leaves.
  answer-codes :
      (issued_at : ℕ) (r : Result Response (AuthCode × String × String)) (s : Store)
      → (answer sign pkce issued_at r s).1.auth_codes ≡ s.auth_codes
  answer-codes issued_at (ok (c, i, t)) s = refl
  answer-codes issued_at (err r) s = refl
  answer-codes issued_at diverged s = refl

  token-deletes :
      (now issued_at : ℕ) (random : Option String) (values : Values) (s : Store)
      → get values "grant_type" ≡ "authorization_code"
      → lookup
          (get values "code")
          (token sign pkce a now issued_at random "POST" (form values) s).1.auth_codes
        ≡ none
  unfolding token check_form take_code
  token-deletes now issued_at random values s g = rw g (
      ap (lookup (get values "code")) (answer-codes issued_at _ _)
      ∙ lookup-take_code (get values "code") s)

  -- A code that was issued and is not there any more.
  abbrev IsGone : String → System → Type 0
  IsGone code s = (1 ≤ count code s.issued) × (lookup code s.store.auth_codes ≡ none)

  lookup-take_code_gone :
      (taken code : String) (s : Store)
      → lookup code s.auth_codes ≡ none
      → lookup code (take_code taken s).1.auth_codes ≡ none
  unfolding take_code
  lookup-take_code_gone taken code s gone = ground (arith, lookup-delete taken code s.auth_codes)

  Step-IsGone :
      (code : String) {s t : System} → Step sign pkce a s t → IsGone code s → IsGone code t
  Step-IsGone code {s} (issue now values code' valid new) (known, gone) = (
    omega (arith, known),
    ground (
      arith,
      lookup-put code' code (new_code a now values) s.store.auth_codes,
      eq_iff code' code,
    ),
  )
  Step-IsGone code {s} (take values c found) (known, gone) =
      (known, lookup-take_code_gone (get values "code") code s.store gone)
  Step-IsGone code (refuse before after code' r flying) h = h
  Step-IsGone code (grant before after code' r now issued_at random i t flying done) h = h
  Step-IsGone code (elsewhere st codes tokens) (known, gone) =
      (known, ap (lookup code) codes ∙ gone)

  Steps-IsGone :
      (code : String) {s t : System} → Steps sign pkce a s t → IsGone code s → IsGone code t
  Steps-IsGone code here h = h
  Steps-IsGone code (then_ steps one) h = Step-IsGone code one (Steps-IsGone code steps h)

  -- However token answers a request for an authorization code that was issued, every later request with
  -- this code is refused as an invalid grant and changes nothing, whatever steps of interleaved requests
  -- lie between the two, none of which issues a code again.
  pub token-refuses_again :
      (now issued_at : ℕ) (random : Option String) (values : Values) {s t : System} (store : Store)
      (now' issued_at' : ℕ) (random' : Option String) (values' : Values)
      → get values "grant_type" ≡ "authorization_code"
      → get values' "grant_type" ≡ "authorization_code"
      → get values' "code" ≡ get values "code"
      → 1 ≤ count (get values "code") s.issued
      → s.store ≡ (token sign pkce a now issued_at random "POST" (form values) store).1
      → Steps sign pkce a s t
      → token sign pkce a now' issued_at' random' "POST" (form values') t.store
        ≡ (some (invalid_grant "code is invalid or already used"), t.store)
  token-refuses_again now issued_at random values {s} {t} store now' issued_at' random' values' g g'
        same known after steps =
      let taken : lookup (get values "code") s.store.auth_codes ≡ none =
        ap (λ (x : Store). lookup (get values "code") x.auth_codes) after
        ∙ token-deletes now issued_at random values store g in
      let gone = Steps-IsGone (get values "code") steps (known, taken) in
      token_again now' issued_at' random' values' t.store g'
        (ap (λ code. lookup code t.store.auth_codes) same ∙ gone.1)
