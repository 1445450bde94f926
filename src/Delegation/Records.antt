-- ===== src/Delegation/Records.antt =====
-- internal/delegation/delegation.go: the stored delegations, and Load, Save and Revoke.
use anyauth.Base.{
  ℕ, String, Bool, not, ◌&&◌, ◌||◌, Option, none, some, List, [], ◌∷◌, map, ◌==◌, ltb, eqb,
  if◌then◌else◌, trim_space, contains_any, contains, collect, sort, is_empty, reject, first_error,
  first_error_of, Result, ok, err, diverged, ◌>>◌, check,
}
use anyauth.Registry.Store.{Content, absent, unreadable, stored, Disk}

pub record Delegation : Type 0 where
  pub id : String
  pub token_id : String
  pub token_sha256 : String
  pub human_sub : String
  pub human_name : String
  pub human_email : String
  pub agent_id : String
  pub agent_name : String
  pub task_id : String
  pub task_name : String
  pub audience : String
  pub scopes : List String
  pub note : String
  pub issued_at : ℕ
  pub expires_at : ℕ
  pub revoked_at : Option ℕ

-- The errors of the stored delegations.
pub data RecordError : Type 0 where
  required : String → RecordError
  has_whitespace : String → RecordError
  scopes_required expires_before_issued : RecordError
  invalid_scope duplicate_id duplicate_token_id not_found : String → RecordError
  unreadable_file unwritable_file : RecordError

unfoldable pub validate_scope : String → Option RecordError
validate_scope scope = reject (scope == "" || contains_any scope " \t\r\n") (invalid_scope scope)

unfoldable pub validate_stored : Delegation → Option RecordError
validate_stored r = first_error (
    reject (r.id == "") (required "id")
    ∷ reject (contains_any r.id " \t\r\n") (has_whitespace "id")
    ∷ reject (r.token_id == "") (required "token id")
    ∷ reject (r.token_sha256 == "") (required "token hash")
    ∷ reject (r.human_sub == "") (required "human sub")
    ∷ reject (r.agent_id == "") (required "agent id")
    ∷ reject (r.agent_name == "") (required "agent name")
    ∷ reject (not (r.task_id == "") && contains_any r.task_id " \t\r\n") (has_whitespace "task id")
    ∷ reject (r.audience == "") (required "audience")
    ∷ reject (is_empty r.scopes) scopes_required
    ∷ first_error_of validate_scope r.scopes
    ∷ reject (eqb r.issued_at 0) (required "issued_at")
    ∷ reject (eqb r.expires_at 0) (required "expires_at")
    ∷ reject (not (ltb r.issued_at r.expires_at)) expires_before_issued
    ∷ [])

-- normalizeScopes, which keeps the order.
unfoldable pub normalize_scopes : List String → List String
normalize_scopes scopes = collect [] scopes

-- The body of the loop of normalizeAll.
unfoldable pub normalize : Delegation → Delegation
normalize r = record r {
  id = trim_space r.id;
  token_id = trim_space r.token_id;
  token_sha256 = trim_space r.token_sha256;
  human_sub = trim_space r.human_sub;
  human_name = trim_space r.human_name;
  human_email = trim_space r.human_email;
  agent_id = trim_space r.agent_id;
  agent_name = trim_space r.agent_name;
  task_id = trim_space r.task_id;
  task_name = trim_space r.task_name;
  audience = trim_space r.audience;
  note = trim_space r.note;
  scopes = normalize_scopes r.scopes;
}

abbrev pub normalize_all : List Delegation → List Delegation
normalize_all ds = map normalize ds

unfoldable pub validate_all : List String → List String → List Delegation → Option RecordError
validate_all seen_ids seen_token_ids [] = none
validate_all seen_ids seen_token_ids (r ∷ rs) = first_error (
    validate_stored r
    ∷ reject (contains seen_ids r.id) (duplicate_id r.id)
    ∷ reject (contains seen_token_ids r.token_id) (duplicate_token_id r.token_id)
    ∷ validate_all (r.id ∷ seen_ids) (r.token_id ∷ seen_token_ids) rs
    ∷ [])

-- sortDelegations sorts by the time of issue alone; those issued at one instant keep their
-- order, which is one that sort.Slice may leave them in.
unfoldable pub issued_before : Delegation → Delegation → Bool
issued_before a b = ltb a.issued_at b.issued_at

unfoldable pub load : Content Delegation → Result RecordError (List Delegation)
load absent = ok []
load unreadable = err unreadable_file
load (stored entries) =
    let ds = normalize_all entries in check (validate_all [] [] ds) >> ok (sort issued_before ds)

abbrev pub write_file :
    Option RecordError
    → List Delegation
    → Disk Delegation
    → Result RecordError (Unit {0}) × Disk Delegation
write_file (some e) ds d = (err e, d)
write_file none ds d =
    if d.writable then (ok tt, record d { content = stored ds }) else (err unwritable_file, d)

unfoldable pub save :
    List Delegation → Disk Delegation → Result RecordError (Unit {0}) × Disk Delegation
save entries d =
    let ds = normalize_all entries in write_file (validate_all [] [] ds) (sort issued_before ds) d

unfoldable pub find_delegation : List Delegation → String → Option Delegation
find_delegation [] id = none
find_delegation (r ∷ rs) id = if r.id == id then some r else find_delegation rs id

-- Writes to the first delegation with an ID.
unfoldable pub set_delegation : List Delegation → String → Delegation → List Delegation
set_delegation [] id r' = []
set_delegation (r ∷ rs) id r' = if r.id == id then r' ∷ rs else r ∷ set_delegation rs id r'

abbrev pub after_save :
    Delegation
    → Result RecordError (Unit {0}) × Disk Delegation
    → Result RecordError Delegation × Disk Delegation
after_save r (ok u, d) = (ok r, d)
after_save r (err e, d) = (err e, d)
after_save r (diverged, d) = (diverged, d)

abbrev pub revoked : ℕ → Delegation → Delegation
revoked now r = record r { revoked_at = some now }

-- The loop of Revoke on the delegation found.
abbrev pub revoke_found :
    String
    → ℕ
    → List Delegation
    → Disk Delegation
    → Option Delegation
    → Result RecordError Delegation × Disk Delegation
revoke_found id now ds d none = (err (not_found id), d)
revoke_found id now ds d (some r) =
    after_save (revoked now r) (save (set_delegation ds id (revoked now r)) d)

abbrev pub revoke_loaded :
    String
    → ℕ
    → Disk Delegation
    → Result RecordError (List Delegation)
    → Result RecordError Delegation × Disk Delegation
revoke_loaded id now d (ok ds) = revoke_found id now ds d (find_delegation ds id)
revoke_loaded id now d (err e) = (err e, d)
revoke_loaded id now d diverged = (diverged, d)

-- `clock` is time.Now(), which stands in for the zero time.
abbrev pub or_clock : ℕ → ℕ → ℕ
or_clock clock now = if eqb now 0 then clock else now

unfoldable pub revoke :
    ℕ → String → ℕ → Disk Delegation → Result RecordError Delegation × Disk Delegation
revoke clock id now d = revoke_loaded id (or_clock clock now) d (load d.content)
