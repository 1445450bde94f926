-- ===== src/LocalDev/Confirmed.antt =====
-- What the user's confirmation protects (internal/localdev/authorization.go).
use Prim.Native.String
use anyauth.Base.{
  ℕ, String, ◌≡◌, ◌≢◌, ◌⊎◌, refl, inl, inr, Bool, true, Option, none, some, arith, trim_space,
  eq_iff, Result, ok, err, diverged, Result-cases,
}
use anyauth.Authz.Grants.{Grant}
use anyauth.AuthzStore.Types
use anyauth.AuthzStore.Types.{AuthorizationRequest}
use anyauth.AuthzStore.Store.{decide_request}
use anyauth.ClientRegistry.Clients.{Url}
use anyauth.UserStore.Profiles.{Library, has_pin, verify_pin}
use anyauth.LocalDev.State.{App}
use anyauth.LocalDev.Http.{Values, Form, form, malformed, get}
use anyauth.LocalDev.Replies.{Data}
use anyauth.LocalDev.Paths.{Says, parse_action-Says}
use anyauth.LocalDev.Deciding.{
  is_url_of, validate_local_form_origin, parse_action, form_values, ActionRequest, check_action,
  finish_action, approval_action,
}

module _ (lib : Library) (parse : String → Option Url) where
  -- Where a form may come from: an Origin header that is not empty is the issuer, and without one a
  -- Referer header that is not empty is a URL of the issuer. With neither it may come from anywhere.
  pub record IsLocal (issuer origin referer : String) : Type 0 where
    pub from_origin : trim_space origin ≢ "" → trim_space origin ≡ issuer
    pub from_referer :
        trim_space origin ≡ ""
        → trim_space referer ≢ ""
        → (u : Url) × (parse (trim_space referer) ≡ some u)
          × (String.◌++◌ u.scheme (String.◌++◌ "://" u.host) ≡ issuer)

  is_url_of_lem :
      (issuer : String) (u : Option Url)
      → is_url_of issuer u ≡ true
      → (v : Url) × (u ≡ some v) × (String.◌++◌ v.scheme (String.◌++◌ "://" v.host) ≡ issuer)
  is_url_of_lem issuer none h = absurd (ground arith)
  is_url_of_lem issuer (some u) h = (u, refl, (eq_iff _ issuer).0 h)

  validate_local_form_origin-IsLocal :
      (issuer origin referer : String)
      → validate_local_form_origin parse issuer origin referer ≡ none
      → IsLocal issuer origin referer
  unfolding validate_local_form_origin
  validate_local_form_origin-IsLocal issuer origin referer h = record {
    from_origin =
        λ present. ground (arith, eq_iff (trim_space origin) "", eq_iff (trim_space origin) issuer);
    from_referer = λ absent present.
        is_url_of_lem issuer (parse (trim_space referer))
          (ground (arith, eq_iff (trim_space origin) "", eq_iff (trim_space referer) ""));
  }

  -- A request that may decide: a POST of a form, as far as its Origin or Referer header tells from the
  -- server's own pages, whose path says what to decide, with the PIN if one is set.
  pub record IsConfirmed (a : App) (r : ActionRequest) (id : String) (approve : Bool) : Type 0 where
    pub posted : r.method ≡ "POST"
    pub own_origin : IsLocal a.issuer r.origin r.referer
    pub says : Says r.path id approve
    pub values : Values
    pub sent : r.body ≡ form values
    pub pin : has_pin a.profile ≡ true → verify_pin lib a.profile (get values "pin") ≡ ok true

  form_values-ok : (f : Form) {values : Values} → form_values f ≡ ok values → f ≡ form values
  form_values-ok (form v) h = ground arith
  form_values-ok (malformed e) h = cc

  check_action-IsConfirmed :
      (a : App) (random : Option String) (r : ActionRequest) {id grant_id : String} {approve : Bool}
      → check_action lib parse a random r ≡ ok (id, approve, grant_id)
      → IsConfirmed a r id approve
  unfolding check_action
  check_action-IsConfirmed a random r {id} {grant_id} {approve} h =
      elim (Result-cases (parse_action r.path)) [
        | inr other ↦ absurd (ground arith)
        | inl (action, read) ↦ elim (Result-cases (form_values r.body)) [
          | inr other ↦ absurd (ground arith)
          | inl (values, body) ↦ record {
            posted = ground (arith, eq_iff r.method "POST");
            own_origin =
                validate_local_form_origin-IsLocal a.issuer r.origin r.referer (ground arith);
            says = parse_action-Says r.path (ground arith);
            values = values;
            sent = form_values-ok r.body body;
            pin = λ set. ground arith;
          }
        ]
      ]

  finish_action-authorization :
      (clock : ℕ) (random : Option String) (approve : Bool) (s : Data)
      (out : Result Types.Error (AuthorizationRequest × Option Grant) × Types.Disk)
      → (finish_action lib parse clock random approve s out).1.authorization ≡ out.1
  finish_action-authorization clock random approve s (ok (r, g), d) = refl
  finish_action-authorization clock random approve s (err e, d) = refl
  finish_action-authorization clock random approve s (diverged, d) = refl

  -- Either the endpoint leaves the authorization store as it was, or the request may decide: it is a POST
  -- of a form; an Origin header, if there is one, is the issuer, and otherwise a Referer header, if there
  -- is one, is a URL of the issuer; its path is the ID of an authorization request and the verb approve
  -- or deny, slashes around not counted; and it has the PIN if one is set. What happened in the store is
  -- then DecideRequest for that request with that verb.
  pub approval_action-IsConfirmed :
      (a : App) (now clock : ℕ) (grant_random event_random : Option String) (r : ActionRequest)
      (s : Data)
      → ((approval_action lib parse a now clock grant_random event_random r s).1.authorization
          ≡ s.authorization)
        ⊎ ((id : String) × (approve : Bool) × (grant_id : String) × IsConfirmed a r id approve
            × ((approval_action lib parse a now clock grant_random event_random r s).1.authorization
                ≡ (decide_request id approve grant_id now s.authorization).1))
  unfolding approval_action
  approval_action-IsConfirmed a now clock grant_random event_random r s =
      elim (Result-cases (check_action lib parse a grant_random r)) [
        | inr (inl out) ↦ inl (rw out refl)
        | inr (inr (e, refused)) ↦ inl (rw refused refl)
        | inl ((id, approve, grant_id), done) ↦ inr (
          id,
          approve,
          grant_id,
          check_action-IsConfirmed a grant_random r done,
          rw done (
              finish_action-authorization clock event_random approve s
                (decide_request id approve grant_id now s.authorization)),
        )
      ]
