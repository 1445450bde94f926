-- ===== src/LocalDev/Replies.antt =====
-- internal/localdev/authorization.go: the data files behind the endpoints for agents, and what these
-- endpoints answer.
use Prim.Native.String
use anyauth.Base.{ℕ, String, Option, none, some, List, Result, ok, err, diverged}
use anyauth.Registry.Store.{Content, Error as RegistryError}
use anyauth.AgentRegistry.Agents.{Agent, Invalid}
use anyauth.Authz.Evaluate.{Decision}
use anyauth.Authz.Service.{CheckError, MissingPart}
use anyauth.AuthzStore.Types
use anyauth.AuthzStore.Types.{AuthorizationRequest}
use anyauth.AuditLog.Log
use anyauth.UserStore.Profiles

-- What the endpoints use of the data directory.
pub record Data : Type 0 where
  pub agents : Content Agent
  pub authorization : Types.Disk
  pub audit : Log.Disk

-- What the JSON decoder made of the body of a request.
pub data Decoded (A : Type 0) : Type 0 where
  decoded : A → Decoded A
  undecodable : String → Decoded A

-- An error whose text is sent.
pub data Cause : Type 0 where
  agents_error : RegistryError Invalid → Cause
  store_error : Types.Error → Cause
  check_error : CheckError → Cause
  missing_part : MissingPart → Cause
  pin_error : Profiles.Error → Cause
  message : String → Cause

pub data Reply : Type 0 where
  -- http.Error and http.NotFound
  http_error : ℕ → Cause → Reply
  not_found : Reply
  -- writeJSON with "error" and "error_description"
  json_error : ℕ → String → Cause → Reply
  -- the pages "Approval Error"
  approval_error : ℕ → Cause → Reply
  -- createAuthorizationRequestOutput and accessEvaluationOutput
  created : AuthorizationRequest → String → Reply
  evaluation : Decision → Reply
  -- the page of pending requests, and that of a decided one
  approvals_page : List AuthorizationRequest → Reply
  decided_page : AuthorizationRequest → Reply

abbrev pub invalid_request : Cause → Reply
invalid_request cause = json_error 400 "invalid_request" cause

abbrev pub server_error : Cause → Reply
server_error cause = json_error 500 "server_error" cause

abbrev pub method_not_allowed : Reply
method_not_allowed = http_error 405 (message "method not allowed")

-- randomPrefixedID; `random` is the outcome of jose.RandomURLToken.
abbrev pub random_prefixed_id : String → Option String → Result String String
random_prefixed_id prefix none = err "no randomness"
random_prefixed_id prefix (some value) = ok (String.◌++◌ prefix (String.◌++◌ "_" value))

abbrev pub or_reply : {E A : Type 0} → (E → Reply) → Result E A → Result Reply A
or_reply f (ok x) = ok x
or_reply f (err e) = err (f e)
or_reply f diverged = diverged

abbrev pub decoded_or : {A : Type 0} → Decoded A → Result Reply A
decoded_or (decoded x) = ok x
decoded_or (undecodable e) = err (invalid_request (message e))
