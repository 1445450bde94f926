-- ===== src/ClientRegistry/Secrets.antt =====
-- Which clients the registry of internal/clientregistry/registry.go hands out: each has an ID, a
-- secret and redirect URIs over http or https.
use anyauth.Base.{
  String, ◌≡◌, refl, sym, ap, ◌∙◌, ◌≢◌, ◌⊎◌, inl, inr, true, Option, none, some, List, [], ◌∷◌,
  ◌==◌, arith, All, All-map, Distinct, contains, Bool-cases, Option-cases, is_empty, ok, eq_iff,
}
use anyauth.Registry.Store
use anyauth.Registry.Store.{Error, Content, Disk}
use anyauth.Registry.Ids.{validate_all_iff}
use anyauth.Registry.Loading.{load-IsNormal}
use anyauth.Registry.Changes.{IsAmong, All-IsAmong, add-load}
use anyauth.ClientRegistry.Clients.{
  Client, Url, validate_url, with_defaults, validate_uris, validate, clients, clients-Lawful,
  add_with, add, load,
}

module _ (parse : String → Option Url) where
  -- A redirect URI with a host, over http or https.
  abbrev pub IsWeb : String → Type 0
  IsWeb uri =
      (u : Url) × (parse uri ≡ some u)
      × ((u.scheme ≡ "http") ⊎ (u.scheme ≡ "https"))
      × (u.host ≢ "")

  -- A client that can take part in a login.
  pub record IsUsable (c : Client) : Type 0 where
    pub id : c.id ≢ ""
    pub secret : c.secret ≢ ""
    pub some_uri : c.redirect_uris ≢ []
    pub uris : All IsWeb c.redirect_uris
    pub distinct : Distinct c.redirect_uris

  validate_url-IsWeb : (uri : String) → validate_url uri (parse uri) ≡ none → IsWeb uri
  unfolding validate_url
  validate_url-IsWeb uri h = elim (Option-cases (parse uri)) [
    | inl bad ↦ absurd (ground arith)
    | inr (u, parsed) ↦ (
      u,
      parsed,
      ground (arith, eq_iff u.scheme "http", eq_iff u.scheme "https"),
      ground (arith, eq_iff u.host ""),
    )
  ]

  validate_uris-IsWeb :
      (seen uris : List String) → validate_uris parse seen uris ≡ none → All IsWeb uris
  unfolding validate_uris
  validate_uris-IsWeb seen [] h = tt
  validate_uris-IsWeb seen (uri ∷ uris) h =
      (validate_url-IsWeb uri (ground arith), validate_uris-IsWeb (uri ∷ seen) uris (ground arith))

  validate_uris-new :
      (seen uris : List String) (x : String)
      → validate_uris parse seen uris ≡ none
      → contains seen x ≡ true
      → All (λ u. u ≢ x) uris
  unfolding validate_uris
  validate_uris-new seen [] x h k = tt
  validate_uris-new seen (uri ∷ uris) x h k = (
    λ e. ground (arith, ap (contains seen) e),
    validate_uris-new (uri ∷ seen) uris x (ground arith) (ground arith),
  )

  validate_uris-Distinct :
      (seen uris : List String) → validate_uris parse seen uris ≡ none → Distinct uris
  unfolding validate_uris
  validate_uris-Distinct seen [] h = tt
  validate_uris-Distinct seen (uri ∷ uris) h = (
    validate_uris-new (uri ∷ seen) uris uri (ground arith) (ground (arith, eq_iff uri uri)),
    validate_uris-Distinct (uri ∷ seen) uris (ground arith),
  )

  validate-IsUsable : (c : Client) → validate parse c ≡ none → IsUsable c
  unfolding validate
  validate-IsUsable c h = record {
    id = ground (arith, eq_iff c.id "");
    secret = ground (arith, eq_iff c.secret "");
    some_uri = λ e. ground (arith, ap (λ (xs : List String). is_empty xs) e);
    uris = validate_uris-IsWeb [] c.redirect_uris (ground arith);
    distinct = validate_uris-Distinct [] c.redirect_uris (ground arith);
  }

  -- Every client that Load returns has an ID, a secret and at least one redirect URI, and its
  -- redirect URIs are distinct, have a host and use http or https.
  pub load-IsUsable :
      (c : Content Client) (xs : List Client) → load parse c ≡ ok xs → All IsUsable xs
  unfolding load
  load-IsUsable c xs h =
      let accepted = (load-IsNormal (clients parse) (clients-Lawful parse) c xs h).1 in
      All-map (λ x. validate parse x ≡ none) IsUsable validate-IsUsable xs
        ((validate_all_iff (clients parse) xs).0 accepted).0

  add-IsUsable_with :
      (secret : String) (c b : Client) (d d' : Disk Client)
      → Store.add (clients parse) (with_defaults c secret) d ≡ (ok b, d')
      → IsUsable b
        × (b.redirect_uris ≡ c.redirect_uris)
        × (secret ≡ b.secret)
        × ((ys : List Client) × (load parse d'.content ≡ ok ys) × IsAmong b ys)
  unfolding load
  add-IsUsable_with secret c b d d' h =
      let (same, (xs, loaded, new, (ys, listed, members))) =
        add-load (clients parse) (clients-Lawful parse) (with_defaults c secret) b d d' refl h in
      let there = (members b).1 (inr (sym same)) in
      (
        All-IsAmong IsUsable ys b (load-IsUsable d'.content ys listed) there,
        ap (λ (x : Client). x.redirect_uris) same,
        sym (ap (λ (x : Client). x.secret) same),
        (ys, listed, there),
      )

  -- A client that Add has returned can be used, has the secret that it was given or else the
  -- generated one, and is in what Load returns then.
  pub add-IsUsable :
      (generated : Option String) (c b : Client) (d d' : Disk Client)
      → add parse generated c d ≡ (ok b, d')
      → IsUsable b
        × (b.redirect_uris ≡ c.redirect_uris)
        × ((c.secret ≡ b.secret) ⊎ ((c.secret ≡ "") × (generated ≡ some b.secret)))
        × ((ys : List Client) × (load parse d'.content ≡ ok ys) × IsAmong b ys)
  unfolding add add_with
  add-IsUsable generated c b d d' h = elim (Bool-cases (c.secret == "")) [
    | inl empty ↦ elim (Option-cases generated) [
      | inl nothing ↦ absurd (ground arith)
      | inr (s, made) ↦
          let (fine, uris, kept, listed) = add-IsUsable_with s c b d d' (ground arith) in
          (fine, uris, inr ((eq_iff c.secret "").0 empty, made ∙ ap some kept), listed)
    ]
    | inr given ↦
        let (fine, uris, kept, listed) = add-IsUsable_with c.secret c b d d' (ground arith) in
        (fine, uris, inl kept, listed)
  ]
