-- ===== src/AuthzStore/Normalize.antt =====
-- internal/authzstore/store.go: normalizeFile and what it calls, and that normalizing a second time
-- changes nothing.
use anyauth.Base.{
  String, ◌≡◌, refl, ap, ◌∙◌, Bool, true, false, List, [], ◌∷◌, map, ◌==◌, ltb, eqb, if◌then◌else◌,
  arith, trim_space, trim_space_idem, collect, sort, text_less, text_less_asymm, sort-collect_idem,
  All, sort-All, sort_idem, eq_iff,
}
use anyauth.Authz.Grants.{Grant}
use anyauth.AuthzStore.Types.{Application, AuthorizationRequest, File}

unfoldable pub normalize_tokens : List String → List String
normalize_tokens values = sort text_less (collect [] values)

unfoldable pub normalize_application : Application → Application
normalize_application a =
    let id = trim_space a.id in
    let name = trim_space a.name in
    record a {
      id = id;
      name = if name == "" then id else name;
      actions = normalize_tokens a.actions;
      resource_types = normalize_tokens a.resource_types;
    }

unfoldable pub normalize_request : AuthorizationRequest → AuthorizationRequest
normalize_request r = record r {
  id = trim_space r.id;
  application_id = trim_space r.application_id;
  task_id = trim_space r.task_id;
  task_name = trim_space r.task_name;
  permission = record {
    action = trim_space r.permission.action;
    resource = record {
      type = trim_space r.permission.resource.type;
      id = trim_space r.permission.resource.id;
    };
  };
}

unfoldable pub application_less : Application → Application → Bool
application_less a b = text_less a.id b.id

-- By creation, then by ID.
unfoldable pub request_less : AuthorizationRequest → AuthorizationRequest → Bool
request_less a b =
    if eqb a.created_at b.created_at then text_less a.id b.id else ltb a.created_at b.created_at

unfoldable pub grant_less : Grant → Grant → Bool
grant_less a b =
    if eqb a.created_at b.created_at then text_less a.id b.id else ltb a.created_at b.created_at

unfoldable pub normalize_file : File → File
normalize_file f = record f {
  applications = sort application_less (map normalize_application f.applications);
  requests = sort request_less (map normalize_request f.requests);
  grants = sort grant_less f.grants;
}

application_less_asymm :
    (a b : Application) → application_less a b ≡ true → application_less b a ≡ false
unfolding application_less
application_less_asymm a b = text_less_asymm a.id b.id

request_less_asymm :
    (a b : AuthorizationRequest) → request_less a b ≡ true → request_less b a ≡ false
unfolding request_less
request_less_asymm a b h = ground (arith, text_less_asymm a.id b.id)

grant_less_asymm : (a b : Grant) → grant_less a b ≡ true → grant_less b a ≡ false
unfolding grant_less
grant_less_asymm a b h = ground (arith, text_less_asymm a.id b.id)

normalize_tokens_idem :
    (values : List String) → normalize_tokens (normalize_tokens values) ≡ normalize_tokens values
unfolding normalize_tokens
normalize_tokens_idem = sort-collect_idem

pub normalize_application_idem :
    (a : Application) → normalize_application (normalize_application a) ≡ normalize_application a
unfolding normalize_application
normalize_application_idem a = ground (
  arith,
  trim_space_idem a.id,
  trim_space_idem a.name,
  normalize_tokens_idem a.actions,
  normalize_tokens_idem a.resource_types,
  eq_iff (trim_space a.name) "",
)

pub normalize_request_idem :
    (r : AuthorizationRequest) → normalize_request (normalize_request r) ≡ normalize_request r
unfolding normalize_request
normalize_request_idem r = simp trim_space_idem

map_fixed : {A : Type 0} (f : A → A) (xs : List A) → All (λ a. f a ≡ a) xs → map f xs ≡ xs
map_fixed f [] h = refl
map_fixed f (x ∷ xs) (p, h) = rw (p, map_fixed f xs h)

All-map_idem :
    {A : Type 0} (f : A → A)
    → ((a : A) → f (f a) ≡ f a)
    → (xs : List A) → All (λ a. f a ≡ a) (map f xs)
All-map_idem f e [] = tt
All-map_idem f e (x ∷ xs) = (e x, All-map_idem f e xs)

-- Normalizing and sorting the elements of a list twice.
sort-map_idem :
    {A : Type 0} (less : A → A → Bool) (f : A → A)
    → ((a b : A) → less a b ≡ true → less b a ≡ false)
    → ((a : A) → f (f a) ≡ f a)
    → (xs : List A) → sort less (map f (sort less (map f xs))) ≡ sort less (map f xs)
sort-map_idem less f asymm e xs =
    ap (sort less)
      (map_fixed f _ ((sort-All less (λ a. f a ≡ a) (map f xs)).0 (All-map_idem f e xs)))
    ∙ sort_idem less asymm (map f xs)

-- normalizeFile is idempotent.
pub normalize_file_idem : (f : File) → normalize_file (normalize_file f) ≡ normalize_file f
unfolding normalize_file
normalize_file_idem f = rw (
  sort-map_idem application_less normalize_application application_less_asymm
      normalize_application_idem f.applications,
  sort-map_idem request_less normalize_request request_less_asymm normalize_request_idem f.requests,
  sort_idem grant_less grant_less_asymm f.grants,
)
