-- ===== src/LocalDev/Startup.antt =====
-- internal/localdev/server.go: Start, up to the listening servers. The data directory is left out of the
-- configuration; fmt.Sprintf of a port (`decimal`) and url.Parse (`parse`) are parameters.
use Prim.Native.String
use anyauth.Base.{
  ℕ, String, Bool, not, ◌&&◌, ◌||◌, Option, none, some, List, [], ◌∷◌, ◌==◌, eqb, if◌then◌else◌,
  reject, Result, ok, err, diverged, ◌>>=◌, ◌>>◌, check, put,
}
use anyauth.Registry.Store.{Content, Error as RegistryError}
use anyauth.ClientRegistry.Clients.{Client as RegisteredClient, Url, Invalid, load}
use anyauth.UserStore.Profiles
use anyauth.UserStore.Profiles.{Profile}
use anyauth.LocalDev.State.{Client, User, Config, App}
use anyauth.LocalDev.Demo.{DemoApp, local_url}
use anyauth.LocalDev.Protect.{protect_client_id, protect_client_secret, protect_redirect_uri}

pub data StartError : Type 0 where
  upstream_unparsed upstream_not_absolute : StartError
  profile_error : Profiles.Error → StartError
  clients_error : RegistryError Invalid → StartError

abbrev pub or_default : ℕ → ℕ → ℕ
or_default default port = if eqb port 0 then default else port

abbrev pub has_upstream : Config → Bool
has_upstream cfg = not (cfg.protect_upstream == "")

-- The ports that are 0 have their defaults.
unfoldable pub with_defaults : Config → Config
with_defaults cfg = record cfg {
  provider_port = or_default 7100 cfg.provider_port;
  protect_port = if has_upstream cfg then or_default 7200 cfg.protect_port else cfg.protect_port;
  app_a_port = if cfg.demo_apps then or_default 7101 cfg.app_a_port else cfg.app_a_port;
  app_b_port = if cfg.demo_apps then or_default 7102 cfg.app_b_port else cfg.app_b_port;
}

abbrev pub check_url : Option Url → Option StartError
check_url none = some upstream_unparsed
check_url (some u) =
    reject (u.host == "" || (not (u.scheme == "http") && not (u.scheme == "https")))
      upstream_not_absolute

-- The check of the upstream, if there is one.
unfoldable pub check_upstream : (String → Option Url) → Config → Option StartError
check_upstream parse cfg = if has_upstream cfg then check_url (parse cfg.protect_upstream) else none

abbrev pub lift_error : {E A : Type 0} → (E → StartError) → Result E A → Result StartError A
lift_error f (ok x) = ok x
lift_error f (err e) = err (f e)
lift_error f diverged = diverged

abbrev pub user_of : Profile → User
user_of p = record { sub = p.sub; name = p.name; email = p.email }

module _ (decimal : ℕ → String) where
  abbrev pub demo_client : (id name secret : String) → ℕ → Client
  demo_client id name secret port = record {
    id = id;
    name = name;
    secret = secret;
    redirect_uris = String.◌++◌ (local_url decimal port) "/callback" ∷ [];
  }

  abbrev pub demo_clients : Config → List (String × Client)
  demo_clients cfg =
      if cfg.demo_apps
      then put "demo-app-b"
          (demo_client "demo-app-b" "Demo App B" "demo-app-b-secret" cfg.app_b_port)
          (put "demo-app-a"
            (demo_client "demo-app-a" "Demo App A" "demo-app-a-secret" cfg.app_a_port) [])
      else []

  -- A client of the registry, as the server has it.
  abbrev pub own_client : RegisteredClient → Client
  own_client c = record {
    id = c.id;
    name = c.name;
    secret = c.secret;
    redirect_uris = c.redirect_uris;
  }

  -- The loop over the registered clients.
  unfoldable pub register_all :
      List RegisteredClient → List (String × Client) → List (String × Client)
  register_all [] clients = clients
  register_all (c ∷ cs) clients = register_all cs (put c.id (own_client c) clients)

  abbrev pub protect_client : ℕ → Client
  protect_client port = record {
    id = protect_client_id decimal port;
    name = "AnyAuth Protected Proxy";
    secret = protect_client_secret decimal port;
    redirect_uris = protect_redirect_uri decimal port ∷ [];
  }

  abbrev pub register_protect : Config → List (String × Client) → List (String × Client)
  register_protect cfg clients =
      if has_upstream cfg
      then put (protect_client_id decimal cfg.protect_port) (protect_client cfg.protect_port)
          clients
      else clients

  abbrev pub clients_of : Config → List RegisteredClient → List (String × Client)
  clients_of cfg registered = register_protect cfg (register_all registered (demo_clients cfg))

  -- The demo apps that demoMux is called for.
  abbrev pub demo_app_a : Config → DemoApp
  demo_app_a cfg = record {
    app_name = "Demo App A";
    client_id = "demo-app-a";
    client_secret = "demo-app-a-secret";
    port = cfg.app_a_port;
    session_cookie = "demo_app_a_session";
  }

  abbrev pub demo_app_b : Config → DemoApp
  demo_app_b cfg = record {
    app_name = "Demo App B";
    client_id = "demo-app-b";
    client_secret = "demo-app-b-secret";
    port = cfg.app_b_port;
    session_cookie = "demo_app_b_session";
  }

  -- `a`, with its clients.
  unfoldable pub new_app : Config → Profile → List RegisteredClient → App
  new_app cfg profile registered = record {
    cfg = cfg;
    issuer = local_url decimal cfg.provider_port;
    clients = clients_of cfg registered;
    user = user_of profile;
    profile = profile;
  }

  -- Start up to the servers: the key's error, which comes before the profile's, is left out.
  unfoldable pub start :
      (String → Option Url)
      → Config
      → Profiles.Content
      → Content RegisteredClient
      → Result StartError App
  start parse config profile_file client_file = do
    let cfg = with_defaults config
    check (check_upstream parse cfg)
    profile ← lift_error profile_error (Profiles.load profile_file)
    registered ← lift_error clients_error (load parse client_file)
    ok (new_app cfg profile registered)
