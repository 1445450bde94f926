-- ===== src/Delegation/Revoked.antt =====
-- After Revoke of internal/delegation/delegation.go no token of the delegation is accepted.
use anyauth.Base.{
  ℕ, String, ◌≡◌, refl, sym, ◌∙◌, ◌≢◌, inl, inr, true, false, none, some, List, [], ◌∷◌, ◌==◌,
  arith, All, Bool-cases, Option-cases, is_some, contains, sort, sort-All, trim_space,
  trim_space_idem, Result, ok, Result-cases, eq_iff, ne_of_eq-false,
}
use anyauth.Registry.Store.{Kind, Content, absent, unreadable, stored, Disk}
use anyauth.Registry.Ids.{HasOwnIds, sort-HasOwnIds, split_seen}
use anyauth.AgentRegistry.Agents.{Agent}
use anyauth.Delegation.Records.{
  Delegation, RecordError, validate_stored, normalize, normalize_all, validate_all, issued_before,
  load, save, find_delegation, set_delegation, revoked, revoke, or_clock,
}
use anyauth.Delegation.Tokens.{Claims, ValidateOptions, Context, validate_token}
use anyauth.Delegation.Checked.{validate_token-Honoured}

-- Delegations as entries with IDs.
abbrev entries : Kind RecordError Delegation
entries = record {
  id_of = λ r. r.id;
  blank = record {
    id = "";
    token_id = "";
    token_sha256 = "";
    human_sub = "";
    human_name = "";
    human_email = "";
    agent_id = "";
    agent_name = "";
    task_id = "";
    task_name = "";
    audience = "";
    scopes = [];
    note = "";
    issued_at = 0;
    expires_at = 0;
    revoked_at = none;
  };
  normalize = normalize;
  validate = validate_stored;
  less = issued_before;
  arrange = λ xs. xs;
}

-- What validateAll accepts has IDs of its own.
validate_all-HasOwnIds :
    (ids tokens : List String) (ds : List Delegation)
    → validate_all ids tokens ds ≡ none
    → HasOwnIds entries ds × All (λ r. contains ids r.id ≡ false) ds
unfolding validate_all
validate_all-HasOwnIds ids tokens [] h = (tt, tt)
validate_all-HasOwnIds ids tokens (r ∷ rs) h =
    let (own, new) = validate_all-HasOwnIds (r.id ∷ ids) (r.token_id ∷ tokens) rs (ground arith) in
    let (apart, fresh) = (split_seen entries r.id ids rs).0 new in
    ((apart, own), (ground arith, fresh))

abbrev IsTrimmedId : Delegation → Type 0
IsTrimmedId r = trim_space r.id ≡ r.id

normalize_all-IsTrimmedId : (ds : List Delegation) → All IsTrimmedId (normalize_all ds)
unfolding normalize
normalize_all-IsTrimmedId [] = tt
normalize_all-IsTrimmedId (r ∷ rs) = (trim_space_idem r.id, normalize_all-IsTrimmedId rs)

load-HasOwnIds :
    (c : Content Delegation) (ds : List Delegation)
    → load c ≡ ok ds
    → HasOwnIds entries ds × All IsTrimmedId ds
unfolding load
load-HasOwnIds absent ds h = ground arith
load-HasOwnIds unreadable ds h = cc
load-HasOwnIds (stored file) ds h = elim (Option-cases (validate_all [] [] (normalize_all file))) [
  | inl valid ↦
      let same : ds ≡ sort issued_before (normalize_all file) = ground arith in
      rw same (
        sort-HasOwnIds entries (normalize_all file) (validate_all-HasOwnIds [] [] _ valid).0,
        (sort-All issued_before IsTrimmedId _).0 (normalize_all-IsTrimmedId file),
      )
  | inr (e, bad) ↦ absurd (ground arith)
]

-- Whatever has the ID once it is trimmed has been revoked.
abbrev IsClosed : String → Delegation → Type 0
IsClosed id r = trim_space r.id ≡ id → is_some r.revoked_at ≡ true

others-IsClosed :
    (id : String) (rs : List Delegation)
    → All IsTrimmedId rs
    → All (λ r. r.id ≢ id) rs
    → All (IsClosed id) rs
others-IsClosed id [] h k = tt
others-IsClosed id (r ∷ rs) (t, h) (ne, k) =
    ((λ e. absurd (ne (sym t ∙ e))), others-IsClosed id rs h k)

set_delegation-IsClosed :
    (id : String) (ds : List Delegation) (r' : Delegation)
    → HasOwnIds entries ds
    → All IsTrimmedId ds
    → is_some r'.revoked_at ≡ true
    → All (IsClosed id) (set_delegation ds id r')
unfolding set_delegation
set_delegation-IsClosed id [] r' own h closed = tt
set_delegation-IsClosed id (r ∷ rs) r' (apart, own) (t, h) closed = elim (Bool-cases (r.id == id)) [
  | inl here ↦
      rw here ((λ e. closed), others-IsClosed id rs h (rw ((eq_iff r.id id).0 here) at apart))
  | inr there ↦ rw there (
    (λ e. absurd (ne_of_eq-false r.id id there (sym t ∙ e))),
    set_delegation-IsClosed id rs r' own h closed,
  )
]

normalize_all-IsClosed :
    (id : String) (ds : List Delegation)
    → All (IsClosed id) ds
    → All (IsClosed id) (normalize_all ds)
unfolding normalize
normalize_all-IsClosed id [] h = tt
normalize_all-IsClosed id (r ∷ rs) (p, h) =
    ((λ e. p (sym (trim_space_idem r.id) ∙ e)), normalize_all-IsClosed id rs h)

save-content :
    (ds : List Delegation) (d d' : Disk Delegation)
    → save ds d ≡ (ok tt, d')
    → d'.content ≡ stored (sort issued_before (normalize_all ds))
unfolding save
save-content ds d d' h = elim (Option-cases (validate_all [] [] (normalize_all ds))) [
  | inl valid ↦ ground arith
  | inr (e, bad) ↦ absurd (ground arith)
]

stored-IsClosed :
    (id : String) (file ds : List Delegation)
    → All (IsClosed id) file
    → load (stored file) ≡ ok ds
    → All (IsClosed id) ds
unfolding load
stored-IsClosed id file ds closed h =
    elim (Option-cases (validate_all [] [] (normalize_all file))) [
      | inl valid ↦
          let same : ds ≡ sort issued_before (normalize_all file) = ground arith in
          rw same
            ((sort-All issued_before (IsClosed id) _).0 (normalize_all-IsClosed id file closed))
      | inr (e, bad) ↦ absurd (ground arith)
    ]

All-find_delegation :
    (P : Delegation → Type 0) (want : String) (ds : List Delegation) (r : Delegation)
    → All P ds
    → find_delegation ds want ≡ some r
    → P r
unfolding find_delegation
All-find_delegation P want [] r h k = absurd (ground arith)
All-find_delegation P want (x ∷ ds) r (p, h) k = elim (Bool-cases (x.id == want)) [
  | inl here ↦ let same : r ≡ x = ground arith in rw same p
  | inr there ↦ All-find_delegation P want ds r h (ground arith)
]

revoke-IsClosed :
    (clock : ℕ) (id : String) (now : ℕ) (d d' : Disk Delegation) (r : Delegation)
    (ds' : List Delegation)
    → revoke clock id now d ≡ (ok r, d')
    → load d'.content ≡ ok ds'
    → All (IsClosed id) ds'
unfolding revoke
revoke-IsClosed clock id now d d' r ds' h later = elim (Result-cases (load d.content)) [
  | inr other ↦ absurd (ground arith)
  | inl (ds, loaded) ↦ elim (Option-cases (find_delegation ds id)) [
    | inl missing ↦ absurd (ground arith)
    | inr (p, there) ↦
        let (own, trimmed) = load-HasOwnIds d.content ds loaded in
        let p' = revoked (or_clock clock now) p in
        elim (Result-cases (save (set_delegation ds id p') d).0) [
          | inr other ↦ absurd (ground arith)
          | inl (u, saved) ↦
              let written = save-content (set_delegation ds id p') d d' (ground arith) in
              let closed = set_delegation-IsClosed id ds p' own trimmed refl in
              stored-IsClosed id (sort issued_before (normalize_all (set_delegation ds id p'))) ds'
                ((sort-All issued_before (IsClosed id) _).0
                  (normalize_all-IsClosed id (set_delegation ds id p') closed))
                (rw written at later)
        ]
  ]
]

-- After a successful Revoke no token is accepted for the revoked delegation, at any time and with
-- whatever agents are registered: a token that ValidateToken accepts is of another delegation.
pub revoke-validate_token :
    (verify : String → Result String Claims) (digest : String → String) (clock clock' : ℕ)
    (id : String) (now : ℕ) (d d' : Disk Delegation) (r : Delegation) (token : String)
    (opts : ValidateOptions) (agents : Content Agent) (ctx : Context)
    → revoke clock id now d ≡ (ok r, d')
    → validate_token verify digest clock' token opts d'.content agents ≡ ok ctx
    → ctx.delegation.id ≢ id
revoke-validate_token verify digest clock clock' id now d d' r token opts agents ctx h accepted
      same =
    let honoured =
      validate_token-Honoured verify digest clock' token opts d'.content agents ctx accepted in
    let (ds', loaded, listed) = honoured.known in
    let trimmed =
      All-find_delegation IsTrimmedId _ ds' ctx.delegation (load-HasOwnIds d'.content ds' loaded).1
        listed in
    let closed =
      All-find_delegation (IsClosed id) _ ds' ctx.delegation
        (revoke-IsClosed clock id now d d' r ds' h loaded) listed in
    absurd (ground (arith, closed (trimmed ∙ same), honoured.stands.unrevoked))
