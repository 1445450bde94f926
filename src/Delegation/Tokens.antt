-- ===== src/Delegation/Tokens.antt =====
-- internal/delegation/delegation.go: ValidateToken and the checks of the claims. The verification of
-- the signature, jose.VerifyRS256JWT under the public key, is the parameter `verify`, and
-- the SHA-256 of a text in hexadecimal is `digest`. A JSON number is given by its integer part.
use anyauth.Base.{
  ℕ, ◌+◌, ◌-◌, ◌/◌, String, Bool, false, not, ◌&&◌, Option, none, some, List, [], ◌∷◌, ◌==◌, ltb,
  if◌then◌else◌, trim_space, any, reject, first_error, is_some, Result, ok, err, diverged, ◌>>=◌,
  ◌>>◌, check,
}
use Prim.Native.String
use anyauth.Registry.Store
use anyauth.Registry.Store.{Content}
use anyauth.AgentRegistry.Agents
use anyauth.AgentRegistry.Agents.{Agent, Invalid, find}
use anyauth.Delegation.Records.{Delegation, RecordError, load, find_delegation, or_clock}

-- A decoded JSON value, as far as the claims go.
pub data Value : Type 0 where
  text : String → Value
  number negative : ℕ → Value
  texts : List (Option String) → Value
  other : Value

abbrev pub Claims : Type 0
Claims = List (String × Value)

pub data TokenError : Type 0 where
  token_required public_key_required issuer_required audience_required : TokenError
  unverified : String → TokenError
  issuer_mismatch audience_mismatch token_use_differs not_valid_yet token_expired : TokenError
  claim_missing claim_invalid : String → TokenError
  records : RecordError → TokenError
  agents : Store.Error Invalid → TokenError
  delegation_not_found delegation_revoked delegation_expired : String → TokenError
  token_id_mismatch token_hash_mismatch agent_id_mismatch task_id_mismatch : TokenError
  delegation_audience_mismatch delegation_scope_mismatch : TokenError
  agent_not_found agent_disabled : String → TokenError

pub record ValidateOptions : Type 0 where
  pub issuer : String
  pub audience : String
  pub now : ℕ
  pub has_public_key : Bool

pub record Context : Type 0 where
  pub delegation : Delegation
  pub agent : Agent
  pub claims : Claims
  pub scopes : List String

-- `claims[key]`
unfoldable pub claim : Claims → String → Option Value
claim [] key = none
claim ((k, v) ∷ rest) key = if k == key then some v else claim rest key

-- claimString and optionalClaimString where the error is dropped: "" for a missing or invalid one.
abbrev pub text_of : Option Value → String
text_of (some (text s)) = s
text_of _ = ""

abbrev pub claim_text : Claims → String → String
claim_text claims key = text_of (claim claims key)

-- The error of claimString.
abbrev pub text_error : String → Option Value → Option TokenError
text_error key none = some (claim_missing key)
text_error key (some (text s)) = reject (s == "") (claim_invalid key)
text_error key (some _) = some (claim_invalid key)

abbrev pub require_text : Claims → String → Option TokenError
require_text claims key = text_error key (claim claims key)

unfoldable pub audience_matches : Option Value → String → Bool
audience_matches (some (text s)) want = s == want
audience_matches (some (texts items)) want =
    any (λ item. elim item [ some s ↦ s == want | none ↦ false ]) items
audience_matches _ want = false

-- The seconds from Go's zero time to the Unix epoch.
abbrev pub epoch : ℕ
epoch = 62135596800

-- claimUnix, and the claim's instant in seconds since the zero time: an instant before that, which
-- no `now` precedes, is taken as it.
abbrev pub seconds_of : String → Option Value → Result TokenError ℕ
seconds_of key none = err (claim_missing key)
seconds_of key (some (number n)) = ok (epoch + n)
seconds_of key (some (negative n)) = ok (epoch - n)
seconds_of key (some _) = err (claim_invalid key)

abbrev pub seconds : ℕ → ℕ
seconds now = now / 1000000000

unfoldable pub validate_claims : Claims → String → String → ℕ → Result TokenError (Unit {0})
validate_claims claims issuer audience now = do
  check (reject (not (claim_text claims "iss" == issuer)) issuer_mismatch)
  check (reject (not (audience_matches (claim claims "aud") audience)) audience_mismatch)
  check (reject (not (claim_text claims "token_use" == "delegation")) token_use_differs)
  check (
      first_error (
        require_text claims "sub"
        ∷ require_text claims "jti"
        ∷ require_text claims "anyauth_delegation_id"
        ∷ require_text claims "anyauth_agent_id"
        ∷ require_text claims "scope"
        ∷ []))
  nbf ← seconds_of "nbf" (claim claims "nbf")
  check (reject (ltb (seconds now) nbf) not_valid_yet)
  exp ← seconds_of "exp" (claim claims "exp")
  check (reject (not (ltb (seconds now) exp)) token_expired)

-- `strings.Join(scopes, " ")`
unfoldable pub join : List String → String
join [] = ""
join (s ∷ []) = s
join (s ∷ t ∷ rest) = String.◌++◌ s (String.◌++◌ " " (join (t ∷ rest)))

-- The checks of the stored delegation against the token.
unfoldable pub check_record : Claims → String → ℕ → String → Delegation → Option TokenError
check_record claims audience now digest r = first_error (
    reject (is_some r.revoked_at) (delegation_revoked r.id)
    ∷ reject (not (ltb now r.expires_at)) (delegation_expired r.id)
    ∷ reject (not (r.token_id == claim_text claims "jti")) token_id_mismatch
    ∷ reject (not (r.token_sha256 == digest)) token_hash_mismatch
    ∷ reject (not (r.agent_id == claim_text claims "anyauth_agent_id")) agent_id_mismatch
    ∷ reject (not (r.task_id == "") && not (r.task_id == claim_text claims "anyauth_task_id"))
        task_id_mismatch
    ∷ reject (not (r.audience == audience)) delegation_audience_mismatch
    ∷ reject (not (join r.scopes == claim_text claims "scope")) delegation_scope_mismatch
    ∷ [])

-- An error of another package, as one of this.
abbrev pub lift : {E A : Type 0} → (E → TokenError) → Result E A → Result TokenError A
lift f (ok a) = ok a
lift f (err e) = err (f e)
lift f diverged = diverged

-- The second result of a search.
abbrev pub found : {A : Type 0} → TokenError → Option A → Result TokenError A
found e none = err e
found e (some a) = ok a

-- TokenSHA256; `digest` is the SHA-256 of a text in hexadecimal.
abbrev pub token_sha256 : (String → String) → String → String
token_sha256 digest token = String.◌++◌ "sha256:" (digest token)

module _ (verify : String → Result String Claims) (digest : String → String) where
  unfoldable pub validate_token :
      ℕ → String → ValidateOptions → Content Delegation → Content Agent → Result TokenError Context
  validate_token clock token opts delegations agent_file = do
    check (
        first_error (
          reject (trim_space token == "") token_required
          ∷ reject (not opts.has_public_key) public_key_required
          ∷ reject (opts.issuer == "") issuer_required
          ∷ reject (opts.audience == "") audience_required
          ∷ []))
    let now = or_clock clock opts.now
    claims ← lift unverified (verify token)
    validate_claims claims opts.issuer opts.audience now
    let id = claim_text claims "anyauth_delegation_id"
    let agent_id = claim_text claims "anyauth_agent_id"
    ds ← lift records (load delegations)
    r ← found (delegation_not_found id) (find_delegation ds id)
    check (check_record claims opts.audience now (token_sha256 digest token) r)
    registered ← lift agents (Agents.load agent_file)
    agent ← found (agent_not_found agent_id) (find registered agent_id)
    check (reject agent.disabled (agent_disabled agent_id))
    ok (record { delegation = r; agent = agent; claims = claims; scopes = r.scopes })
