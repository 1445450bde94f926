-- ===== src/LocalDev/Codes.antt =====
-- internal/localdev/server.go: the life of authorization codes while requests are served concurrently.
-- A step is one critical section, or the end of a request that holds no mutex; requests to the token
-- endpoint are in flight from their first critical section on.
use anyauth.Base.{ℕ, String, ◌≡◌, Option, none, some, List, [], ◌∷◌, ◌++◌, ok, lookup, count}
use anyauth.Delegation.Tokens.{Claims}
use anyauth.LocalDev.State.{AuthCode, Store, new_store, App}
use anyauth.LocalDev.Http.{Values, get}
use anyauth.LocalDev.Provider.{validate_authorize, new_code, store_code}
use anyauth.LocalDev.Tokens.{take_code, exchange, new_token, store_token}

-- A code for which tokens have been answered: what was stored with it, the form that was sent, and
-- when the expiry was checked.
pub record Exchange : Type 0 where
  pub code : AuthCode
  pub values : Values
  pub at : ℕ

pub record Request : Type 0 where
  pub code : AuthCode
  pub values : Values

-- The store, the requests in flight, and what has happened so far: the codes that were issued and those
-- that were exchanged for tokens.
pub record System : Type 0 where
  pub store : Store
  pub in_flight : List (String × Request)
  pub issued : List String
  pub exchanged : List (String × Exchange)

abbrev pub init : System
init = record { store = new_store; in_flight = []; issued = []; exchanged = [] }

module _ (sign : Claims → Option String) (pkce : String → String) (a : App) where
  -- Codes are made of 32 random bytes: that one was issued before is left out.
  pub data Step (s : System) : System → Type 0 where
    issue :
        (now : ℕ) (values : Values) (code : String)
        → validate_authorize a values ≡ none
        → count code s.issued ≡ 0
        → Step s (record s {
          store = store_code code (new_code a now values) s.store;
          issued = code ∷ s.issued;
        })
    take :
        (values : Values) (c : AuthCode)
        → lookup (get values "code") s.store.auth_codes ≡ some c
        → Step s (record s {
          store = (take_code (get values "code") s.store).1;
          in_flight = (get values "code", record { code = c; values = values }) ∷ s.in_flight;
        })
    refuse :
        (before after : List (String × Request)) (code : String) (r : Request)
        → s.in_flight ≡ before ++ (code, r) ∷ after
        → Step s (record s { in_flight = before ++ after })
    grant :
        (before after : List (String × Request)) (code : String) (r : Request) (now issued_at : ℕ)
        (random : Option String) (id_token t : String)
        → s.in_flight ≡ before ++ (code, r) ∷ after
        → exchange sign pkce a now issued_at random r.values (some r.code)
          ≡ ok (r.code, id_token, t)
        → Step s (record s {
          store = store_token t (new_token r.code issued_at) s.store;
          in_flight = before ++ after;
          exchanged = (code, record { code = r.code; values = r.values; at = now }) ∷ s.exchanged;
        })
    -- a critical section of another handler
    elsewhere :
        (st : Store)
        → st.auth_codes ≡ s.store.auth_codes
        → st.access_tokens ≡ s.store.access_tokens
        → Step s (record s { store = st })

  pub data Reach : System → Type 0 where
    start : Reach init
    later : {s t : System} → Reach s → Step s t → Reach t

  -- The steps that lead from a state to another.
  pub data Steps (s : System) : System → Type 0 where
    here : Steps s s
    then_ : {t u : System} → Steps s t → Step t u → Steps s u

  pub Reach-Steps : {s t : System} → Reach s → Steps s t → Reach t
  Reach-Steps r here = r
  Reach-Steps r (then_ steps one) = later (Reach-Steps r steps) one
