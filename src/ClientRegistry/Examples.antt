-- ===== src/ClientRegistry/Examples.antt =====
-- A registry to which one client is added; the theorems at this run. The texts parsed are two.
use anyauth.Base.{
  String, ◌≡◌, refl, ◌⊎◌, true, Option, none, some, List, [], ◌∷◌, ◌==◌, if◌then◌else◌, All, insert,
  sort, text_less, trim_space, contains_any, ok,
}
use anyauth.Registry.Store
use anyauth.Registry.Store.{Content, absent, stored, Disk, validate_all, plan_add}
use anyauth.Registry.Changes.{IsAmong}
use anyauth.ClientRegistry.Clients.{
  Client, Url, validate_url, client_less, validate_uris, validate, add_with, add, load,
}
use anyauth.ClientRegistry.Secrets.{IsUsable, load-IsUsable, add-IsUsable}

program : Unit {0}
unfolding insert sort text_less trim_space contains_any validate_all Store.load Store.save plan_add
    Store.add validate_url client_less validate_uris validate add_with add load
program = tt

abbrev parse : String → Option Url
parse uri =
    if uri == "http://localhost/callback"
    then some (record { scheme = "http"; host = "localhost" })
    else none

abbrev draft : Client
draft = record {
  id = "app";
  name = "";
  secret = "";
  redirect_uris = "http://localhost/callback" ∷ [];
}

abbrev app : Client
app = record draft { name = "app"; secret = "s3cret" }

abbrev empty_disk : Disk Client
empty_disk = record { content = absent; writable = true }

abbrev app_disk : Disk Client
app_disk = record { content = stored (app ∷ []); writable = true }

adds : add parse (some "s3cret") draft empty_disk ≡ (ok app, app_disk)
unfolding program
adds = refl

loads : load parse app_disk.content ≡ ok (app ∷ [])
unfolding program
loads = refl

load-IsUsable_example : All (IsUsable parse) (app ∷ [])
load-IsUsable_example = load-IsUsable parse app_disk.content (app ∷ []) loads

add-IsUsable_example :
    IsUsable parse app
    × (app.redirect_uris ≡ draft.redirect_uris)
    × ((draft.secret ≡ app.secret) ⊎ ((draft.secret ≡ "") × (some "s3cret" ≡ some app.secret)))
    × ((ys : List Client) × (load parse app_disk.content ≡ ok ys) × IsAmong app ys)
add-IsUsable_example = add-IsUsable parse (some "s3cret") draft app empty_disk app_disk adds
