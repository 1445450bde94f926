-- ===== src/AuditLog/Log.antt =====
-- internal/auditlog/auditlog.go: Append and Load. The file is the list of its lines; `size` is the
-- length in bytes of an event's JSON, and the outcome of jose.RandomURLToken is an argument. A write
-- is made whole or not at all.
use Prim.Native.String
use anyauth.Base.{
  ℕ, zero, suc, ◌-◌, String, Bool, ◌&&◌, Option, none, some, List, [], ◌∷◌, ◌++◌, ◌==◌, ltb, eqb,
  not, if◌then◌else◌, length, Result, ok, err, diverged, ◌>>=◌, ◌>>◌, check,
}
use anyauth.AuditLog.Events.{
  Event, Error, no_randomness, unreadable_file, unwritable_file, undecodable_line, line_too_long,
  validate, normalize,
}

pub data Line : Type 0 where
  blank undecodable : Line
  entry : Event → Line

pub data Content : Type 0 where
  absent unreadable : Content
  lines : List Line → Content

pub record Disk : Type 0 where
  pub content : Content
  pub writable : Bool

-- randomID
abbrev pub random_id : Option String → Option String
random_id none = none
random_id (some value) = some (String.◌++◌ "evt_" value)

abbrev pub with_id : Event → Option String → Result Error Event
with_id e none = err no_randomness
with_id e (some id) = ok (record e { id = id })

-- The defaults that Append fills in.
unfoldable pub identify : Option String → Event → Result Error Event
identify token e = if e.id == "" then with_id e (random_id token) else ok e

unfoldable pub stamp : ℕ → Event → Event
stamp clock e = if eqb e.time 0 then record e { time = clock } else e

-- What stands at the path after a line has been written at the end of the file.
abbrev pub written : Line → Content → Content
written l absent = lines (l ∷ [])
written l unreadable = unreadable
written l (lines ls) = lines (ls ++ l ∷ [])

-- Append up to the opening of the file; `clock` is time.Now().
unfoldable pub prepare : ℕ → Option String → Event → Result Error Event
prepare clock token event =
    identify token (normalize event) >>= λ e. let e' = stamp clock e in check (validate e') >> ok e'

abbrev pub write : Disk → Result Error Event → Result Error Event × Disk
write d (err e) = (err e, d)
write d diverged = (diverged, d)
write d (ok e) =
    if d.writable
    then (ok e, record d { content = written (entry e) d.content })
    else (err unwritable_file, d)

unfoldable pub append : ℕ → Option String → Event → Disk → Result Error Event × Disk
append clock token event d = write d (prepare clock token event)

-- bufio.Scanner gives up on a line that, with its end, does not fit into this many bytes.
abbrev pub max_line : ℕ
max_line = 65536

module _ (size : Event → ℕ) where
  -- The body of the loop of Load, on a line that has been scanned.
  unfoldable pub read_line : Line → Result Error (List Event)
  read_line blank = ok []
  read_line undecodable = err undecodable_line
  read_line (entry event) =
      let e = normalize event in
      if not (ltb (size event) max_line)
      then err line_too_long
      else check (validate e) >> ok (e ∷ [])

  unfoldable pub read_lines : List Line → Result Error (List Event)
  read_lines [] = ok []
  read_lines (l ∷ ls) = read_line l >>= λ es. read_lines ls >>= λ rest. ok (es ++ rest)

  unfoldable pub read : Content → Result Error (List Event)
  read absent = ok []
  read unreadable = err unreadable_file
  read (lines ls) = read_lines ls

-- `events[n:]`
unfoldable pub drop : ℕ → List Event → List Event
drop zero es = es
drop (suc n) [] = []
drop (suc n) (e ∷ es) = drop n es

-- The end of Load: with a limit above zero, the last events only.
unfoldable pub tail : ℕ → List Event → List Event
tail limit es = if ltb 0 limit && ltb limit (length es) then drop (length es - limit) es else es

unfoldable pub load : (Event → ℕ) → ℕ → Content → Result Error (List Event)
load size limit c = read size c >>= λ es. ok (tail limit es)
