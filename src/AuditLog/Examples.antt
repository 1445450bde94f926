-- ===== src/AuditLog/Examples.antt =====
-- An event is appended to a log; the theorem at this run.
use anyauth.Base.{
  ℕ, ◌<◌, ◌≡◌, refl, true, ◌&&◌, some, List, [], ◌∷◌, ◌++◌, ltb, trim_space, collect, ok, is_ok,
}
use anyauth.AuditLog.Events.{Event, no_event, validate, normalize_scopes, normalize}
use anyauth.AuditLog.Log.{
  blank, entry, lines, Disk, identify, stamp, prepare, append, max_line, read_line, read_lines,
  read, drop, tail, load,
}
use anyauth.AuditLog.Reading.{IsLast, append-load}

program : Unit {0}
unfolding trim_space collect validate normalize_scopes normalize identify stamp prepare append
    read_line read_lines read drop tail load
program = tt

abbrev first : Event
first = record no_event { id = "evt_1"; time = 5; type = "proxy.deny"; decision = "deny" }

abbrev draft : Event
draft = record no_event { type = "proxy.allow"; decision = "allow "; scopes = "a" ∷ " a" ∷ [] }

abbrev second : Event
second = record no_event {
  id = "evt_2";
  time = 9;
  type = "proxy.allow";
  decision = "allow";
  scopes = "a" ∷ [];
}

abbrev before_disk : Disk
before_disk = record { content = lines (entry first ∷ blank ∷ []); writable = true }

abbrev after_disk : Disk
after_disk = record { content = lines (entry first ∷ blank ∷ entry second ∷ []); writable = true }

abbrev size : Event → ℕ
size e = 100

appends : append 9 (some "2") draft before_disk ≡ (ok second, after_disk)
unfolding program
appends = refl

loads_one : load size 1 after_disk.content ≡ ok (second ∷ [])
unfolding program
loads_one = refl

clean : trim_space "2" ≡ "2"
unfolding trim_space
clean = refl

append-load_example :
    (is_ok (load size 1 after_disk.content)
      ≡ (is_ok (load size 0 before_disk.content) && ltb (size second) max_line))
    × ((es : List Event)
        → load size 0 before_disk.content ≡ ok es
        → size second < max_line
        → (ys : List Event) × (load size 1 after_disk.content ≡ ok ys)
          × IsLast 1 (es ++ second ∷ []) ys)
append-load_example =
    append-load size 9 (some "2") draft second before_disk after_disk 1 clean appends
