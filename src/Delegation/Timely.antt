-- ===== src/Delegation/Timely.antt =====
-- The payload that Create of internal/delegation/delegation.go signs, under validateClaims.
use anyauth.Base.{
  ℕ, ◌<◌, ◌≤◌, String, ◌≡◌, refl, sym, ap, inl, inr, true, false, Option, none, some, List, [], ◌∷◌,
  ◌==◌, ltb, arith, eq_iff, eq_refl, All, Bool-cases, ok, is_empty, IsTrimmed, collect-IsTrimmed,
}
use Prim.Native.String
use Prim.Native.String.append
use Prim.Native.String.compare
use anyauth.Delegation.Records.{Delegation, normalize_scopes}
use anyauth.Delegation.Tokens.{
  claim, audience_matches, epoch, seconds, seconds_of, join, validate_claims,
}
use anyauth.Delegation.Creation.{random_prefixed_id, unix, payload_of}

seconds_of-unix : (key : String) (at : ℕ) → seconds_of key (some (unix at)) ≡ ok (seconds at)
seconds_of-unix key at = elim (Bool-cases (ltb (seconds at) epoch)) [
  | inl before ↦ rw before (ap ok (ground arith))
  | inr after ↦ rw after (ap ok (ground arith))
]

append-not_empty : (p s : String) → (p == "") ≡ false → (String.◌++◌ p s == "") ≡ false
append-not_empty String.[] s h = absurd (ground arith)
append-not_empty (String.◌∷◌ c p) s h =
    rw (append.cons c p s, compare.cons-nil c (String.◌++◌ p s)) refl

join-not_empty :
    (scopes : List String)
    → is_empty scopes ≡ false
    → All IsTrimmed scopes
    → (join scopes == "") ≡ false
unfolding join
join-not_empty [] h k = absurd (ground arith)
join-not_empty (s ∷ []) h ((t, ne), k) = ground (arith, eq_iff s "")
join-not_empty (s ∷ t ∷ rest) h ((u, ne), k) = append-not_empty s _ (ground (arith, eq_iff s ""))

pub normalize_scopes-not_empty :
    (scopes : List String)
    → is_empty (normalize_scopes scopes) ≡ false
    → (join (normalize_scopes scopes) == "") ≡ false
unfolding normalize_scopes
normalize_scopes-not_empty scopes h = join-not_empty _ h (collect-IsTrimmed [] scopes)

pub random_prefixed_id-not_empty :
    (prefix : String) (random : Option String) (id : String)
    → (prefix == "") ≡ false
    → random_prefixed_id prefix random ≡ ok id
    → (id == "") ≡ false
random_prefixed_id-not_empty prefix none id h k = cc
random_prefixed_id-not_empty prefix (some value) id h k =
    let same : String.◌++◌ prefix (String.◌++◌ "_" value) ≡ id = ground arith in
    rw (sym same) (append-not_empty prefix _ h)

-- A delegation with the texts that validateClaims asks for.
pub record IsNamed (r : Delegation) : Type 0 where
  pub sub : (r.human_sub == "") ≡ false
  pub id : (r.id == "") ≡ false
  pub token_id : (r.token_id == "") ≡ false
  pub agent : (r.agent_id == "") ≡ false
  pub scopes : (join r.scopes == "") ≡ false

-- validateClaims accepts the payload from the second of its issue to that of its expiry.
pub payload_of-IsTimely :
    (issuer : String) (r : Delegation) (at : ℕ)
    → IsNamed r
    → seconds r.issued_at ≤ seconds at
    → seconds at < seconds r.expires_at
    → validate_claims (payload_of issuer r) issuer r.audience at ≡ ok tt
unfolding payload_of claim audience_matches validate_claims
payload_of-IsTimely issuer r at named from until_ =
    let since : ltb (seconds at) (seconds r.issued_at) ≡ false = ground arith in
    let ends : ltb (seconds at) (seconds r.expires_at) ≡ true = ground arith in
    rw
      (
        eq_refl issuer,
        eq_refl r.audience,
        named.sub,
        named.id,
        named.token_id,
        named.agent,
        named.scopes,
        seconds_of-unix "nbf" r.issued_at,
        since,
        seconds_of-unix "exp" r.expires_at,
        ends,
      )
      refl
