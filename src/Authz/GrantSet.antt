-- ===== src/Authz/GrantSet.antt =====
-- internal/authz/evaluate.go: the checks of a set of grants, and the walk up a chain of grants. A
-- `map[string]Grant` is the list of the grants put into it, the latest first. The walks take fuel:
-- one round more than there are grants.
use anyauth.Base.{
  ℕ, zero, suc, String, Bool, false, not, Option, none, some, List, [], ◌∷◌, ◌==◌, ltb,
  if◌then◌else◌, reject, first_error, first_error_of, wrap, contains, is_some, length, Result, ok,
  err, diverged, ◌>>=◌, ◌>>◌, check,
}
use anyauth.Authz.Model.{Error, missing_parent, duplicate_grant, ancestry_cycle, in_grant, Identity}
use anyauth.Authz.Grants.{Grant, validate_grant, validate_derived_grant}

pub data ReasonCode : Type 0 where
  matching_grant no_matching_grant permission_not_granted task_mismatch : ReasonCode
  grant_not_yet_valid grant_expired grant_revoked : ReasonCode

abbrev no_identity : Identity
no_identity = record { type = ""; id = "" }

-- Grant{}, which a Go map yields for a key that it lacks.
abbrev pub zero_grant : Grant
zero_grant = record {
  id = "";
  subject = no_identity;
  issuer = no_identity;
  grantee = no_identity;
  application_id = "";
  permissions = [];
  task_id = "";
  not_before = 0;
  expires_at = 0;
  revoked_at = none;
  parent_grant_id = "";
  created_at = 0;
}

unfoldable pub find_grant : List Grant → String → Option Grant
find_grant [] id = none
find_grant (g ∷ gs) id = if g.id == id then some g else find_grant gs id

abbrev or_zero : Option Grant → Grant
or_zero none = zero_grant
or_zero (some g) = g

-- grantByID[id]
unfoldable pub get_grant : List Grant → String → Grant
unfolding find_grant
get_grant by_id id = or_zero (find_grant by_id id)

-- The first loop of validateGrantSet, which fills the map.
unfoldable pub index_grants : List Grant → List Grant → Result Error (List Grant)
unfolding find_grant
index_grants by_id [] = ok by_id
index_grants by_id (g ∷ gs) = do
  check (wrap (in_grant g.id) (validate_grant g))
  check (reject (is_some (find_grant by_id g.id)) (duplicate_grant g.id))
  index_grants (g ∷ by_id) gs

abbrev against_parent : Grant → Option Grant → Option Error
against_parent g none = some (missing_parent g.id g.parent_grant_id)
against_parent g (some parent) = wrap (in_grant g.id) (validate_derived_grant g parent)

-- The body of the second loop.
unfoldable pub check_parent : List Grant → Grant → Option Error
check_parent by_id g =
    if g.parent_grant_id == "" then none else against_parent g (find_grant by_id g.parent_grant_id)

-- The inner loop of the third: the walk from `current` to a root, which stops at a repeated grant.
unfoldable pub ancestry : ℕ → List Grant → List String → Grant → Result Error (Unit {0})
ancestry zero by_id seen current = diverged
ancestry (suc fuel) by_id seen current =
    let rest = ancestry fuel by_id (current.id ∷ seen) (get_grant by_id current.parent_grant_id) in
    if current.parent_grant_id == ""
    then ok tt
    else if contains seen current.id
    then err (ancestry_cycle current.id)
    else rest

unfoldable pub check_ancestry : ℕ → List Grant → List Grant → Result Error (Unit {0})
unfolding ancestry
check_ancestry fuel by_id [] = ok tt
check_ancestry fuel by_id (g ∷ gs) = do ancestry fuel by_id [] g; check_ancestry fuel by_id gs

unfoldable pub validate_grant_set : List Grant → Result Error (List Grant)
unfolding index_grants check_parent check_ancestry get_grant
validate_grant_set grants = do
  by_id ← index_grants [] grants
  check (first_error_of (check_parent by_id) grants)
  check_ancestry (suc (length grants)) by_id grants
  ok by_id

-- ValidateGrants
unfoldable pub validate_grants : List Grant → Result Error (Unit {0})
validate_grants grants = validate_grant_set grants >>= λ _. ok tt

abbrev is_revoked : Option ℕ → ℕ → Bool
is_revoked none now = false
is_revoked (some at) now = not (ltb now at)

-- One round of activeGrantChain: why the grant itself is not active, if it is not.
unfoldable pub inactive_code : ℕ → Grant → Option ReasonCode
inactive_code now g = first_error (
    reject (is_revoked g.revoked_at now) grant_revoked
    ∷ reject (ltb now g.not_before) grant_not_yet_valid
    ∷ reject (not (ltb now g.expires_at)) grant_expired
    ∷ [])

-- activeGrantChain: `none` for an active chain, else the code and the grant that blocks it.
unfoldable pub active_grant_chain :
    ℕ → List Grant → ℕ → Grant → Result Error (Option (ReasonCode × String))
active_grant_chain zero by_id now g = diverged
active_grant_chain (suc fuel) by_id now g =
    let rest = active_grant_chain fuel by_id now (get_grant by_id g.parent_grant_id) in
    elim (inactive_code now g) [
      | some code ↦ ok (some (code, g.id))
      | none ↦ if g.parent_grant_id == "" then ok none else rest
    ]

unfoldable pub grant_chain_ids : ℕ → List Grant → Grant → Result Error (List String)
grant_chain_ids zero by_id g = diverged
grant_chain_ids (suc fuel) by_id g =
    let rest = grant_chain_ids fuel by_id (get_grant by_id g.parent_grant_id) in
    if g.parent_grant_id == "" then ok (g.id ∷ []) else (rest >>= λ ids. ok (g.id ∷ ids))
