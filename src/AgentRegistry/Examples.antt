-- ===== src/AgentRegistry/Examples.antt =====
-- A registry to which an agent is added and from which it is removed; the theorems at these runs.
use anyauth.Base.{
  ◌≡◌, refl, true, false, some, List, [], ◌∷◌, insert, sort, text_less, trim_space, contains_any,
  ok, is_ok,
}
use anyauth.Registry.Store
use anyauth.Registry.Store.{
  Content, absent, stored, Disk, validate_all, normalize_all, plan_add, take_out, plan_remove,
}
use anyauth.Registry.Changes.{add-remove_fails}
use anyauth.AgentRegistry.Agents.{
  Agent, validate, normalize, agent_less, agents, agents-Lawful, stamp, add, remove, load, find,
}
use anyauth.AgentRegistry.Lookup.{add-find}

program : Unit {0}
unfolding insert sort text_less trim_space contains_any validate_all Store.load Store.save plan_add
    Store.add take_out plan_remove Store.remove validate normalize agent_less stamp add remove load
    find
program = tt

abbrev planner : Agent
planner = record { id = "planner"; name = "planner"; kind = ""; created_at = 7; disabled = false }

abbrev worker : Agent
worker = record { id = "worker"; name = "Worker"; kind = "job"; created_at = 5; disabled = false }

abbrev one : Disk Agent
one = record { content = stored (worker ∷ []); writable = true }

abbrev two : Disk Agent
two = record { content = stored (planner ∷ worker ∷ []); writable = true }

-- The name is empty and becomes the ID, and the time is filled in.
abbrev draft : Agent
draft = record { id = " planner"; name = ""; kind = ""; created_at = 0; disabled = false }

adds : add 7 draft one ≡ (ok planner, two)
unfolding program
adds = refl

removes : remove "planner" two ≡ (ok planner, one)
unfolding program
removes = refl

generic_adds : Store.add agents planner one ≡ (ok planner, two)
unfolding program
generic_adds = refl

generic_removes : Store.remove agents "planner" two ≡ (ok planner, one)
unfolding program
generic_removes = refl

planner_normal : normalize planner ≡ planner
unfolding program
planner_normal = refl

saves : Store.save agents (worker ∷ planner ∷ []) one ≡ (ok tt, two)
unfolding program
saves = refl

add-find_example :
    (ys : List Agent) × (load two.content ≡ ok ys) × (find ys "planner" ≡ some planner)
add-find_example = add-find 7 draft planner one two adds

add-remove_fails_example :
    (is_ok (Store.add agents planner two).0 ≡ false → (Store.add agents planner two).1 ≡ two)
    × (is_ok (Store.remove agents "ghost" two).0 ≡ false
        → (Store.remove agents "ghost" two).1 ≡ two)
add-remove_fails_example = add-remove_fails agents agents-Lawful planner "ghost" two
