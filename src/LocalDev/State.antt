-- ===== src/LocalDev/State.antt =====
-- internal/localdev/server.go: the state of the server. The maps of the store are lists of entries.
use anyauth.Base.{ℕ, String, Bool, List, []}
use anyauth.UserStore.Profiles.{Profile}
use anyauth.Delegation.Tokens.{Claims}

pub record Client : Type 0 where
  pub id : String
  pub name : String
  pub secret : String
  pub redirect_uris : List String

pub record User : Type 0 where
  pub sub : String
  pub name : String
  pub email : String

pub record AuthCode : Type 0 where
  pub client_id : String
  pub redirect_uri : String
  pub scope : String
  pub nonce : String
  pub code_challenge : String
  pub code_challenge_method : String
  pub user : User
  pub expires_at : ℕ

pub record ProviderSession : Type 0 where
  pub user : User
  pub created_at : ℕ

pub record AccessToken : Type 0 where
  pub client_id : String
  pub scope : String
  pub user : User
  pub expires_at : ℕ

pub record DemoState : Type 0 where
  pub client_id : String
  pub nonce : String
  pub verifier : String
  pub created : ℕ

pub record DemoSession : Type 0 where
  pub claims : Claims
  pub access_token : String
  pub created_at : ℕ

pub record ProtectState : Type 0 where
  pub nonce : String
  pub verifier : String
  pub return_path : String
  pub created : ℕ

pub record ProtectSession : Type 0 where
  pub claims : Claims
  pub created_at : ℕ

pub record Store : Type 0 where
  pub provider_sessions : List (String × ProviderSession)
  pub auth_codes : List (String × AuthCode)
  pub access_tokens : List (String × AccessToken)
  pub demo_states : List (String × DemoState)
  pub demo_sessions : List (String × DemoSession)
  pub protect_states : List (String × ProtectState)
  pub protect_sessions : List (String × ProtectSession)

abbrev pub new_store : Store
new_store = record {
  provider_sessions = [];
  auth_codes = [];
  access_tokens = [];
  demo_states = [];
  demo_sessions = [];
  protect_states = [];
  protect_sessions = [];
}

pub record Config : Type 0 where
  pub provider_port : ℕ
  pub app_a_port : ℕ
  pub app_b_port : ℕ
  pub protect_port : ℕ
  pub demo_apps : Bool
  pub protect_upstream : String
  pub require_delegation : Bool

-- The fields of `app` that do not change while the server runs, less the signing key and the
-- authorization store.
pub record App : Type 0 where
  pub cfg : Config
  pub issuer : String
  pub clients : List (String × Client)
  pub user : User
  pub profile : Profile
