-- ===== src/LocalDev/Started.antt =====
-- The clients that the server starts with (internal/localdev/server.go).
use anyauth.Base.{
  ℕ, String, ◌≡◌, refl, sym, ◌∙◌, inl, inr, true, Option, some, List, [], ◌∷◌, arith, eq_iff,
  eq_refl, ◌==◌, All, Bool-cases, ok, Result-cases, lookup, put, lookup-put,
}
use anyauth.Registry.Store.{Content}
use anyauth.ClientRegistry.Clients.{Client as RegisteredClient, Url, load}
use anyauth.UserStore.Profiles
use anyauth.LocalDev.State.{Client, Config, App}
use anyauth.LocalDev.Protect.{protect_client_id}
use anyauth.LocalDev.Startup.{
  has_upstream, with_defaults, demo_clients, own_client, register_all, protect_client,
  register_protect, new_app, start,
}

-- Each client stands under its own ID.
abbrev pub AreKeyed : List (String × Client) → Type 0
AreKeyed clients = All (λ e. e.1.id ≡ e.0) clients

put-AreKeyed :
    (c : Client) (clients : List (String × Client))
    → AreKeyed clients
    → AreKeyed (put c.id c clients)
unfolding put
put-AreKeyed c [] h = (refl, tt)
put-AreKeyed c ((j, d) ∷ clients) (p, h) = elim (Bool-cases (j == c.id)) [
  | inl here ↦ rw here (refl, h)
  | inr there ↦ rw there (p, put-AreKeyed c clients h)
]

lookup-AreKeyed :
    (k : String) (c : Client) (clients : List (String × Client))
    → AreKeyed clients
    → lookup k clients ≡ some c
    → c.id ≡ k
unfolding lookup
lookup-AreKeyed k c [] h e = absurd (ground arith)
lookup-AreKeyed k c ((j, d) ∷ clients) (p, h) e = elim (Bool-cases (j == k)) [
  | inl here ↦ let same : c ≡ d = ground arith in rw same (p ∙ (eq_iff j k).0 here)
  | inr there ↦ lookup-AreKeyed k c clients h (ground arith)
]

module _ (decimal : ℕ → String) where
  register_all-AreKeyed :
      (cs : List RegisteredClient) (clients : List (String × Client))
      → AreKeyed clients
      → AreKeyed (register_all decimal cs clients)
  unfolding register_all
  register_all-AreKeyed [] clients h = h
  register_all-AreKeyed (c ∷ cs) clients h =
      register_all-AreKeyed cs _ (put-AreKeyed (own_client decimal c) clients h)

  demo_clients-AreKeyed : (cfg : Config) → AreKeyed (demo_clients decimal cfg)
  unfolding put
  demo_clients-AreKeyed cfg = elim (Bool-cases cfg.demo_apps) [
    | inl on ↦ rw on (refl, (refl, tt))
    | inr off ↦ rw off tt
  ]

  register_protect-AreKeyed :
      (cfg : Config) (clients : List (String × Client))
      → AreKeyed clients
      → AreKeyed (register_protect decimal cfg clients)
  register_protect-AreKeyed cfg clients h = elim (Bool-cases (has_upstream cfg)) [
    | inl on ↦ rw on (put-AreKeyed (protect_client decimal cfg.protect_port) clients h)
    | inr off ↦ rw off h
  ]

  -- A server that finds each client under its own ID, has the client of the protected proxy if there is an
  -- upstream, and has the profile that Load of internal/userstore reads and the user of that profile.
  pub record IsConsistent (config : Config) (profile_file : Profiles.Content) (a : App)
      : Type 0 where
    pub settings : a.cfg ≡ with_defaults config
    pub keyed : (k : String) (c : Client) → lookup k a.clients ≡ some c → c.id ≡ k
    pub protects :
        has_upstream a.cfg ≡ true
        → lookup (protect_client_id decimal a.cfg.protect_port) a.clients
          ≡ some (protect_client decimal a.cfg.protect_port)
    pub profile : Profiles.load profile_file ≡ ok a.profile
    pub sub : a.user.sub ≡ a.profile.sub
    pub name : a.user.name ≡ a.profile.name
    pub email : a.user.email ≡ a.profile.email

  new_app-IsConsistent :
      (config : Config) (profile_file : Profiles.Content) (profile : Profiles.Profile)
      (registered : List RegisteredClient)
      → Profiles.load profile_file ≡ ok profile
      → IsConsistent config profile_file (new_app decimal (with_defaults config) profile registered)
  unfolding new_app
  new_app-IsConsistent config profile_file profile registered found =
      let cfg = with_defaults config in
      record {
        settings = refl;
        keyed = λ k c. lookup-AreKeyed k c _ (
            register_protect-AreKeyed cfg _
              (register_all-AreKeyed registered _ (demo_clients-AreKeyed cfg)));
        protects = λ on.
            let id = protect_client_id decimal cfg.protect_port in
            rw
              (
                on,
                lookup-put id id (protect_client decimal cfg.protect_port)
                    (register_all decimal registered (demo_clients decimal cfg)),
                eq_refl id,
              )
              refl;
        profile = found;
        sub = refl;
        name = refl;
        email = refl;
      }

  -- A server that Start has set up finds each client under its own ID, whatever the registered clients
  -- are, has the client of the protected proxy if there is an upstream, whoever is registered under its
  -- ID, has the given configuration with its default ports, has the profile that is loaded from the
  -- given file, and serves the user of that profile.
  pub start-IsConsistent :
      (parse : String → Option Url) (config : Config) (profile_file : Profiles.Content)
      (client_file : Content RegisteredClient) (a : App)
      → start decimal parse config profile_file client_file ≡ ok a
      → IsConsistent config profile_file a
  unfolding start
  start-IsConsistent parse config profile_file client_file a h =
      elim (Result-cases (Profiles.load profile_file)) [
        | inr other ↦ absurd (ground arith)
        | inl (profile, found) ↦ elim (Result-cases (load parse client_file)) [
          | inr other ↦ absurd (ground arith)
          | inl (registered, read) ↦
              let same : new_app decimal (with_defaults config) profile registered ≡ a =
                ground arith in
              rw (sym same) (new_app-IsConsistent config profile_file profile registered found)
        ]
      ]
