-- ===== src/LocalDev/Paths.antt =====
-- The paths that approvalAction (internal/localdev/authorization.go) takes for a decision.
use Prim.Native.Char.{Char, char, code}
use Prim.Native.String
use Prim.Native.String.append
use text.Mathlib.TextEquality.{Char-path}
use anyauth.Base.{
  String, ◌≡◌, refl, sym, ap, ◌∙◌, ◌⊎◌, inl, inr, Bool, true, false, List, [], ◌∷◌, ◌==◌, arith,
  eq_iff, eqb, eqb_iff, Bool-cases, ok, has_prefix,
}
use anyauth.Policy.Evaluate.{trim_right_slash}
use anyauth.Policy.Matching.{has_prefix_iff}
use anyauth.Policy.Slashes.{IsSlashes, trim_right_slash-IsBase}
use anyauth.LocalDev.Http.{drop_prefix}
use anyauth.LocalDev.Flow.{drop_prefix-append}
use anyauth.LocalDev.Deciding.{
  trim_left_slash, onto_first, split_slash, trim_prefix, action_of, parse_action,
}

abbrev pub verb_of : Bool → String
verb_of true = "approve"
verb_of false = "deny"

-- A path that says what to decide: the request's ID and the verb with a slash between them, behind
-- "/approvals/" or nothing, and with slashes around.
pub record Says (path id : String) (approve : Bool) : Type 0 where
  pub prefix : String
  pub is_prefix : (prefix ≡ "/approvals/") ⊎ (prefix ≡ "")
  pub before : String
  pub only_before : IsSlashes before
  pub after : String
  pub only_after : IsSlashes after
  pub reads :
      path
      ≡ String.◌++◌ prefix (
          String.◌++◌ before
            (String.◌++◌ (String.◌++◌ id (String.◌++◌ "/" (verb_of approve))) after))

abbrev slash : Char
slash = char 47 tt

slash_lem : (c : Char) (s : String) → code c ≡ 47 → String.◌∷◌ c s ≡ String.◌++◌ "/" s
slash_lem c s h =
    let same : c ≡ slash = Char-path c slash h in
    rw same (sym (append.cons slash "" s ∙ ap (String.◌∷◌ slash) (append.nil s)))

-- The parts with a slash between any two.
abbrev joined : List String → String
joined [] = ""
joined (part ∷ []) = part
joined (part ∷ next ∷ rest) = String.◌++◌ part (String.◌++◌ "/" (joined (next ∷ rest)))

joined-onto_first :
    (c : Char) (part : String) (parts : List String)
    → joined (onto_first c (part ∷ parts)) ≡ String.◌∷◌ c (joined (part ∷ parts))
joined-onto_first c part [] = refl
joined-onto_first c part (next ∷ rest) = append.cons c part _

split_slash-cons :
    (s : String) → (part : String) × (parts : List String) × (split_slash s ≡ part ∷ parts)
unfolding split_slash
split_slash-cons String.[] = ("", [], refl)
split_slash-cons (String.◌∷◌ c s) = elim (Bool-cases (eqb (code c) 47)) [
  | inl here ↦ ("", split_slash s, rw here refl)
  | inr other ↦
      let (part, parts, same) = split_slash-cons s in
      (String.◌∷◌ c part, parts, rw (other, same) refl)
]

joined-split_slash : (s : String) → joined (split_slash s) ≡ s
unfolding split_slash
joined-split_slash String.[] = refl
joined-split_slash (String.◌∷◌ c s) =
    let (part, parts, same) = split_slash-cons s in
    let rest : joined (part ∷ parts) ≡ s = ap joined (sym same) ∙ joined-split_slash s in
    elim (Bool-cases (eqb (code c) 47)) [
      | inl here ↦
          rw (here, same)
            (append.nil _
              ∙ ap (String.◌++◌ "/") rest
              ∙ sym (slash_lem c s ((eqb_iff (code c) 47).0 here)))
      | inr other ↦ rw (other, same) (joined-onto_first c part parts ∙ ap (String.◌∷◌ c) rest)
    ]

trim_left_slash_lem :
    (s : String)
    → (before : String) × IsSlashes before × (s ≡ String.◌++◌ before (trim_left_slash s))
unfolding trim_left_slash
trim_left_slash_lem String.[] = ("", tt, sym (append.nil ""))
trim_left_slash_lem (String.◌∷◌ c s) = elim (Bool-cases (eqb (code c) 47)) [
  | inl here ↦
      let (before, only, same) = trim_left_slash_lem s in
      rw here (
        String.◌∷◌ c before,
        ((eqb_iff (code c) 47).0 here, only),
        ap (String.◌∷◌ c) same ∙ sym (append.cons c before _),
      )
  | inr other ↦ rw other ("", tt, sym (append.nil (String.◌∷◌ c s)))
]

trim_prefix_lem :
    (s p : String)
    → (prefix : String) × ((prefix ≡ p) ⊎ (prefix ≡ ""))
      × (s ≡ String.◌++◌ prefix (trim_prefix s p))
trim_prefix_lem s p = elim (Bool-cases (has_prefix s p)) [
  | inl here ↦
      let (rest, same) = (has_prefix_iff s p).0 here in
      let dropped : drop_prefix s p ≡ rest =
        ap (λ t. drop_prefix t p) same ∙ drop_prefix-append p rest in
      rw here (p, inl refl, same ∙ ap (String.◌++◌ p) (sym dropped))
  | inr other ↦ rw other ("", inr refl, sym (append.nil s))
]

action_of_lem :
    (parts : List String) {id : String} {approve : Bool}
    → action_of parts ≡ ok (id, approve)
    → parts ≡ id ∷ verb_of approve ∷ []
action_of_lem [] h = absurd (ground arith)
action_of_lem (part ∷ []) h = absurd (ground arith)
action_of_lem (id' ∷ verb ∷ []) {id} {approve} h = elim (Bool-cases (verb == "approve")) [
  | inl approves ↦
      let same : id' ≡ id = ground arith in
      let on : approve ≡ true = ground arith in
      rw (same, on, (eq_iff verb "approve").0 approves) refl
  | inr denies ↦
      let same : id' ≡ id = ground arith in
      let off : approve ≡ false = ground arith in
      let deny : verb ≡ "deny" = ground (arith, eq_iff verb "deny") in rw (same, off, deny) refl
]
action_of_lem (a ∷ b ∷ c ∷ rest) h = absurd (ground arith)

pub parse_action-Says :
    (path : String) {id : String} {approve : Bool}
    → parse_action path ≡ ok (id, approve)
    → Says path id approve
unfolding parse_action
parse_action-Says path {id} {approve} h =
    let (prefix, is_prefix, p) = trim_prefix_lem path "/approvals/" in
    let rest = trim_prefix path "/approvals/" in
    let (before, only, b) = trim_left_slash_lem rest in
    let base = trim_right_slash-IsBase (trim_left_slash rest) in
    let middle = trim_right_slash (trim_left_slash rest) in
    let parts : middle ≡ String.◌++◌ id (String.◌++◌ "/" (verb_of approve)) =
      sym (joined-split_slash middle) ∙ ap joined (action_of_lem (split_slash middle) h) in
    record {
      prefix = prefix;
      is_prefix = is_prefix;
      before = before;
      only_before = only;
      after = base.slashes;
      only_after = base.only;
      reads =
          p
          ∙ ap (String.◌++◌ prefix) (
              b
              ∙ ap (String.◌++◌ before) (base.splits ∙ ap (λ m. String.◌++◌ m base.slashes) parts));
    }
