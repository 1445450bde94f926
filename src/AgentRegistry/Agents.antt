-- ===== src/AgentRegistry/Agents.antt =====
-- internal/agentregistry/registry.go: agents, as entries of a registry, and the registry's operations.
use anyauth.Base.{
  inl, inr, Bool-cases, ap, true, false, ℕ, String, ◌≡◌, refl, Bool, Option, none, some, List, [],
  ◌∷◌, ◌==◌, arith, eqb, if◌then◌else◌, trim_space, trim_space_idem, contains_any, text_less,
  text_less_asymm, sort, sort-Any, reject, first_error, Result, eq_iff,
}
use anyauth.Registry.Store
use anyauth.Registry.Store.{Kind, Lawful, Error, Content, Disk}

pub record Agent : Type 0 where
  pub id : String
  pub name : String
  pub kind : String
  pub created_at : ℕ
  pub disabled : Bool

-- The errors of Validate.
pub data Invalid : Type 0 where
  id_required id_has_whitespace name_required : Invalid

unfoldable pub validate : Agent → Option Invalid
validate a = first_error (
    reject (a.id == "") Invalid.id_required
    ∷ reject (contains_any a.id " \t\r\n") Invalid.id_has_whitespace
    ∷ reject (a.name == "") Invalid.name_required
    ∷ [])

unfoldable pub normalize : Agent → Agent
normalize a =
    let id = trim_space a.id in
    let name = trim_space a.name in
    record a { id = id; name = if name == "" then id else name; kind = trim_space a.kind }

unfoldable pub agent_less : Agent → Agent → Bool
agent_less a b = text_less a.id b.id

-- The zero value `Agent{}`.
abbrev pub no_agent : Agent
no_agent = record { id = ""; name = ""; kind = ""; created_at = 0; disabled = false }

-- Add sorts the list before it saves it.
abbrev pub agents : Kind Invalid Agent
agents = record {
  id_of = λ a. a.id;
  blank = no_agent;
  normalize = normalize;
  validate = validate;
  less = agent_less;
  arrange = λ xs. sort agent_less xs;
}

-- The default of the creation time; `clock` is time.Now().
unfoldable pub stamp : ℕ → Agent → Agent
stamp clock a = if eqb a.created_at 0 then record a { created_at = clock } else a

unfoldable pub add : ℕ → Agent → Disk Agent → Result (Error Invalid) Agent × Disk Agent
add clock a d = Store.add agents (stamp clock (normalize a)) d

unfoldable pub remove : String → Disk Agent → Result (Error Invalid) Agent × Disk Agent
remove id d = Store.remove agents id d

unfoldable pub load : Content Agent → Result (Error Invalid) (List Agent)
load c = Store.load agents c

unfoldable pub save : List Agent → Disk Agent → Result (Error Invalid) (Unit {0}) × Disk Agent
save xs d = Store.save agents xs d

unfoldable pub find : List Agent → String → Option Agent
find [] id = none
find (a ∷ xs) id = if a.id == id then some a else find xs id

normalize_idem : (a : Agent) → normalize (normalize a) ≡ normalize a
unfolding normalize
normalize_idem a = ground (
  arith,
  trim_space_idem a.id,
  trim_space_idem a.name,
  trim_space_idem a.kind,
  eq_iff (trim_space a.name) "",
)

agent_less_asymm : (a b : Agent) → agent_less a b ≡ true → agent_less b a ≡ false
unfolding agent_less
agent_less_asymm a b = text_less_asymm a.id b.id

pub valid_id : (a : Agent) → validate a ≡ none → ¬ (a.id ≡ "")
unfolding validate
valid_id a h e = ground (arith, eq_iff a.id "")

pub agents-Lawful : Lawful agents
agents-Lawful = record {
  normalize_idem = normalize_idem;
  less_asymm = agent_less_asymm;
  blank_id = refl;
  valid_id = valid_id;
  arranged = λ a xs. sort-Any agent_less (λ x. x ≡ a) xs;
}

-- What Add passes to the registry is normalized.
pub normalize-stamp :
    (clock : ℕ) (a : Agent) → normalize (stamp clock (normalize a)) ≡ stamp clock (normalize a)
unfolding stamp normalize
normalize-stamp clock a = elim (Bool-cases (eqb (normalize a).created_at 0)) [
  | inl new ↦ rw new (ap (λ (x : Agent). record x { created_at = clock }) (normalize_idem a))
  | inr old ↦ rw old (normalize_idem a)
]
