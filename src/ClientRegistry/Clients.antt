-- ===== src/ClientRegistry/Clients.antt =====
-- internal/clientregistry/registry.go: clients, as entries of a registry, and the registry's
-- operations. url.Parse is the parameter `parse`, which gives the scheme and the host, and the
-- outcome of GenerateSecret, which reads random bytes, is an argument of Add.
use anyauth.Base.{
  String, ◌≡◌, refl, Bool, true, false, not, ◌&&◌, Option, none, some, List, [], ◌∷◌, ◌==◌, arith,
  if◌then◌else◌, contains_any, contains, is_empty, text_less, text_less_asymm, sort, sort-Any,
  reject, first_error, Result, err, eq_iff,
}
use anyauth.Registry.Store
use anyauth.Registry.Store.{Kind, Lawful, Error, invalid, Content, Disk}

pub record Client : Type 0 where
  pub id : String
  pub name : String
  pub secret : String
  pub redirect_uris : List String

-- What the validator reads of a *url.URL.
pub record Url : Type 0 where
  pub scheme : String
  pub host : String

-- The errors of Validate, and that of GenerateSecret.
pub data Invalid : Type 0 where
  id_required id_has_whitespace secret_required no_redirect_uri : Invalid
  uri_unparsed uri_scheme uri_without_host uri_duplicate : String → Invalid
  no_randomness : Invalid

-- `err` or what the validator reads of the parsed URI.
unfoldable pub validate_url : String → Option Url → Option Invalid
validate_url uri none = some (uri_unparsed uri)
validate_url uri (some url) = first_error (
    reject (not (url.scheme == "http") && not (url.scheme == "https")) (uri_scheme uri)
    ∷ reject (url.host == "") (uri_without_host uri)
    ∷ [])

-- The zero value `Client{}`.
abbrev pub no_client : Client
no_client = record { id = ""; name = ""; secret = ""; redirect_uris = [] }

unfoldable pub client_less : Client → Client → Bool
client_less a b = text_less a.id b.id

-- What Add fills in: the name, and the secret it has been given.
abbrev pub with_defaults : Client → String → Client
with_defaults c secret = record c { secret = secret; name = if c.name == "" then c.id else c.name }

module _ (parse : String → Option Url) where
  -- The loop of Validate over the redirect URIs.
  unfoldable pub validate_uris : List String → List String → Option Invalid
  validate_uris seen [] = none
  validate_uris seen (uri ∷ uris) = first_error (
      validate_url uri (parse uri)
      ∷ reject (contains seen uri) (uri_duplicate uri)
      ∷ validate_uris (uri ∷ seen) uris
      ∷ [])

  unfoldable pub validate : Client → Option Invalid
  validate c = first_error (
      reject (c.id == "") Invalid.id_required
      ∷ reject (contains_any c.id " \t\r\n") Invalid.id_has_whitespace
      ∷ reject (c.secret == "") secret_required
      ∷ reject (is_empty c.redirect_uris) no_redirect_uri
      ∷ validate_uris [] c.redirect_uris
      ∷ [])

  -- Entries are kept as they are; Add sorts the list before it saves it.
  abbrev pub clients : Kind Invalid Client
  clients = record {
    id_of = λ c. c.id;
    blank = no_client;
    normalize = λ c. c;
    validate = validate;
    less = client_less;
    arrange = λ xs. sort client_less xs;
  }

  -- Add, after a secret has been found or made.
  unfoldable pub add_with :
      Client → Disk Client → Option String → Result (Error Invalid) Client × Disk Client
  add_with c d none = (err (invalid no_randomness), d)
  add_with c d (some secret) = Store.add clients (with_defaults c secret) d

  unfoldable pub add :
      Option String → Client → Disk Client → Result (Error Invalid) Client × Disk Client
  add generated c d = add_with c d (if c.secret == "" then generated else some c.secret)

  unfoldable pub load : Content Client → Result (Error Invalid) (List Client)
  load c = Store.load clients c

  unfoldable pub save : List Client → Disk Client → Result (Error Invalid) (Unit {0}) × Disk Client
  save xs d = Store.save clients xs d

  valid_id : (c : Client) → validate c ≡ none → ¬ (c.id ≡ "")
  unfolding validate
  valid_id c h e = ground (arith, eq_iff c.id "")

  client_less_asymm : (a b : Client) → client_less a b ≡ true → client_less b a ≡ false
  unfolding client_less
  client_less_asymm a b = text_less_asymm a.id b.id

  pub clients-Lawful : Lawful clients
  clients-Lawful = record {
    normalize_idem = λ c. refl;
    less_asymm = client_less_asymm;
    blank_id = refl;
    valid_id = valid_id;
    arranged = λ a xs. sort-Any client_less (λ x. x ≡ a) xs;
  }
