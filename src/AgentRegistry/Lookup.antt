-- ===== src/AgentRegistry/Lookup.antt =====
-- What Find (internal/agentregistry/registry.go) finds after Add and Remove.
use anyauth.Base.{
  ℕ, String, ◌≡◌, refl, sym, ap, ◌∙◌, ◌≢◌, inl, inr, none, some, List, [], ◌∷◌, arith, ok, eq_iff,
  eq-false_of_ne,
}
use anyauth.Registry.Store
use anyauth.Registry.Store.{Error, Content, Disk, validate_all}
use anyauth.Registry.Ids.{HasOwnIds, validate_all_iff}
use anyauth.Registry.Loading.{load-IsNormal}
use anyauth.Registry.Changes.{IsAmong, All-IsAmong, add-load, remove-load}
use anyauth.AgentRegistry.Agents.{
  Agent, agents, agents-Lawful, normalize, stamp, normalize-stamp, add, remove, load, find,
}

-- Find returns the one entry with the ID.
find-IsAmong :
    (xs : List Agent) (a : Agent) → HasOwnIds agents xs → IsAmong a xs → find xs a.id ≡ some a
unfolding find
find-IsAmong [] a own h = absurd h
find-IsAmong (x ∷ xs) a (new, own) (inl e) = rw e (ground (arith, eq_iff a.id a.id))
find-IsAmong (x ∷ xs) a (new, own) (inr h) =
    let differ : a.id ≢ x.id = All-IsAmong (λ y. y.id ≢ x.id) xs a new h in
    rw (eq-false_of_ne x.id a.id (λ e. differ (sym e))) (find-IsAmong xs a own h)

find-missing :
    (xs : List Agent) (id : String)
    → ((x : Agent) → IsAmong x xs → ¬ (x.id ≡ id))
    → find xs id ≡ none
unfolding find
find-missing [] id h = refl
find-missing (x ∷ xs) id h =
    rw (eq-false_of_ne x.id id (h x (inl refl))) (find-missing xs id (λ y there. h y (inr there)))

loaded-HasOwnIds :
    (c : Content Agent) (xs : List Agent) → Store.load agents c ≡ ok xs → HasOwnIds agents xs
loaded-HasOwnIds c xs h =
    ((validate_all_iff agents xs).0 (load-IsNormal agents agents-Lawful c xs h).1).1

-- An agent that Add has returned is found, by its ID, in what Load returns then.
pub add-find :
    (clock : ℕ) (a b : Agent) (d d' : Disk Agent)
    → add clock a d ≡ (ok b, d')
    → (ys : List Agent) × (load d'.content ≡ ok ys) × (find ys b.id ≡ some b)
unfolding add load
add-find clock a b d d' h =
    let (same, (xs, loaded, new, (ys, listed, members))) =
      add-load agents agents-Lawful (stamp clock (normalize a)) b d d' (normalize-stamp clock a)
        h in
    (
      ys,
      listed,
      find-IsAmong ys b (loaded-HasOwnIds d'.content ys listed) ((members b).1 (inr (sym same))),
    )

-- After a Remove that succeeds, what Load returns has no agent with that ID, and finds every other
-- agent as before.
remove-find :
    (id : String) (b : Agent) (d d' : Disk Agent)
    → remove id d ≡ (ok b, d')
    → (xs ys : List Agent) × (load d.content ≡ ok xs)
      × (load d'.content ≡ ok ys)
      × (find xs id ≡ some b)
      × (find ys id ≡ none)
      × ((a : Agent) → IsAmong a xs → a.id ≢ id → find ys a.id ≡ some a)
unfolding remove load
remove-find id b d d' h =
    let (named, (xs, loaded, there, (ys, listed, members))) =
      remove-load agents agents-Lawful id b d d' h in
    let own = loaded-HasOwnIds d.content xs loaded in
    let own' = loaded-HasOwnIds d'.content ys listed in
    (
      xs,
      ys,
      loaded,
      listed,
      ap (λ i. find xs i) (sym named) ∙ find-IsAmong xs b own there,
      find-missing ys id (λ x k. ((members x).0 k).1),
      λ a k ne. find-IsAmong ys a own' ((members a).1 (k, ne)),
    )
