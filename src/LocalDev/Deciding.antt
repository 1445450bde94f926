-- ===== src/LocalDev/Deciding.antt =====
-- internal/localdev/authorization.go: the endpoint at which the user approves and denies requests.
-- url.Parse (`parse`) is a parameter.
use Prim.Native.Char.{Char, code}
use Prim.Native.String
use anyauth.Base.{
  ℕ, String, Bool, true, false, not, ◌&&◌, Option, none, some, List, [], ◌∷◌, ◌==◌, eqb,
  if◌then◌else◌, reject, Result, ok, err, diverged, ◌>>=◌, ◌>>◌, check, trim_space, has_prefix,
}
use anyauth.Authz.Grants.{Grant}
use anyauth.AuthzStore.Types
use anyauth.AuthzStore.Types.{AuthorizationRequest}
use anyauth.AuthzStore.Store.{decide_request}
use anyauth.AuditLog.Events.{Event}
use anyauth.AuditLog.Log
use anyauth.ClientRegistry.Clients.{Url}
use anyauth.Policy.Evaluate.{trim_right_slash}
use anyauth.UserStore.Profiles.{Library, has_pin, verify_pin, Error as PinError}
use anyauth.LocalDev.State.{App}
use anyauth.LocalDev.Http.{Values, Form, form, malformed, get, drop_prefix}
use anyauth.LocalDev.Replies.{
  Data, store_error, pin_error, message, Reply, http_error, not_found, approval_error, decided_page,
  method_not_allowed, random_prefixed_id, or_reply,
}
use anyauth.LocalDev.Requests.{request_event}

abbrev pub cross_origin : Option Reply
cross_origin = some (http_error 403 (message "cross-origin approval request rejected"))

abbrev pub is_url_of : String → Option Url → Bool
is_url_of issuer none = false
is_url_of issuer (some u) = String.◌++◌ u.scheme (String.◌++◌ "://" u.host) == issuer

-- validateLocalFormOrigin; a header that is not sent is "".
unfoldable pub validate_local_form_origin :
    (String → Option Url) → String → (origin referer : String) → Option Reply
validate_local_form_origin parse issuer origin_header referer_header =
    let origin = trim_space origin_header in
    let referer = trim_space referer_header in
    if not (origin == "")
    then (if origin == issuer then none else cross_origin)
    else if referer == ""
    then none
    else (if is_url_of issuer (parse referer) then none else cross_origin)

unfoldable pub trim_left_slash : String → String
trim_left_slash String.[] = ""
trim_left_slash (String.◌∷◌ c s) =
    let rest = trim_left_slash s in if eqb (code c) 47 then rest else String.◌∷◌ c s

-- `c` in front of the first part.
abbrev pub onto_first : Char → List String → List String
onto_first c [] = String.◌∷◌ c "" ∷ []
onto_first c (part ∷ parts) = String.◌∷◌ c part ∷ parts

-- `strings.Split(s, "/")`
unfoldable pub split_slash : String → List String
split_slash String.[] = "" ∷ []
split_slash (String.◌∷◌ c s) =
    let parts = split_slash s in if eqb (code c) 47 then "" ∷ parts else onto_first c parts

-- `strings.TrimPrefix(s, prefix)`
abbrev pub trim_prefix : String → String → String
trim_prefix s prefix = if has_prefix s prefix then drop_prefix s prefix else s

-- The request's ID and whether it is approved.
abbrev pub action_of : List String → Result Reply (String × Bool)
action_of (id ∷ verb ∷ []) =
    if not (verb == "approve") && not (verb == "deny")
    then err not_found
    else ok (id, verb == "approve")
action_of _ = err not_found

unfoldable pub parse_action : String → Result Reply (String × Bool)
parse_action path =
    action_of (split_slash (trim_right_slash (trim_left_slash (trim_prefix path "/approvals/"))))

abbrev pub form_values : Form → Result Reply Values
form_values (form values) = ok values
form_values (malformed e) = err (http_error 400 (message e))

abbrev pub pin_checked : Result PinError Bool → Result Reply (Unit {0})
pin_checked (ok true) = ok tt
pin_checked (ok false) = err (approval_error 401 (message "PIN verification failed"))
pin_checked (err e) = err (http_error 500 (pin_error e))
pin_checked diverged = diverged

-- The ID of the grant, "" for a denial.
abbrev pub grant_id_of : Bool → Option String → Result String String
grant_id_of true random = random_prefixed_id "grt" random
grant_id_of false random = ok ""

-- The event of a decision.
abbrev pub base_event : Bool → AuthorizationRequest → Event
base_event true r = request_event "authorization.approve" "allow" "human" r
base_event false r = request_event "authorization.deny" "deny" "human" r

abbrev pub decided_event : Bool → AuthorizationRequest → Option Grant → Event
decided_event approve r none = base_event approve r
decided_event approve r (some g) = record (base_event approve r) { grant_ids = g.id ∷ [] }

-- What a browser sends to the endpoint.
pub record ActionRequest : Type 0 where
  pub method : String
  pub path : String
  pub origin : String
  pub referer : String
  pub body : Form

module _ (lib : Library) (parse : String → Option Url) where
  -- approvalAction up to the call of DecideRequest: the request's ID, whether it is approved, and the ID of
  -- the grant.
  unfoldable pub check_action :
      App → Option String → ActionRequest → Result Reply (String × Bool × String)
  check_action a grant_random r = do
    check (reject (not (r.method == "POST")) method_not_allowed)
    check (validate_local_form_origin parse a.issuer r.origin r.referer)
    action ← parse_action r.path
    values ← form_values r.body
    if has_pin a.profile then pin_checked (verify_pin lib a.profile (get values "pin")) else ok tt
    grant_id ← or_reply (λ e. http_error 500 (message e)) (grant_id_of action.1 grant_random)
    ok (action.0, action.1, grant_id)

  abbrev pub finish_action :
      ℕ
      → Option String
      → Bool
      → Data
      → Result Types.Error (AuthorizationRequest × Option Grant) × Types.Disk
      → Option Reply × Data
  finish_action clock random approve data_ (err e, d) =
      (some (approval_error 409 (store_error e)), record data_ { authorization = d })
  finish_action clock random approve data_ (diverged, d) =
      (none, record data_ { authorization = d })
  finish_action clock random approve data_ (ok (r, g), d) = (
    some (decided_page r),
    record data_ {
      authorization = d;
      audit = (Log.append clock random (decided_event approve r g) data_.audit).1;
    },
  )

  abbrev pub continue_action :
      ℕ → ℕ → Option String → Result Reply (String × Bool × String) → Data → Option Reply × Data
  continue_action now clock random (err r) data_ = (some r, data_)
  continue_action now clock random diverged data_ = (none, data_)
  continue_action now clock random (ok (id, approve, grant_id)) data_ =
      finish_action clock random approve data_
        (decide_request id approve grant_id now data_.authorization)

  -- approvalAction
  unfoldable pub approval_action :
      App
      → ℕ
      → ℕ
      → (grant_random event_random : Option String) → ActionRequest
      → Data
      → Option Reply × Data
  approval_action a now clock grant_random event_random r data_ =
      continue_action now clock event_random (check_action a grant_random r) data_
