-- ===== src/Policy/Slashes.antt =====
-- A text without the slashes at its end, said without the loop of strings.TrimRight, and that
-- trim_right_slash of Policy/Evaluate.antt gives it.
use Prim.Native.Char.{code}
use Prim.Native.String
use Prim.Native.String.append
use Prim.Native.String.compare
use anyauth.Base.{
  String, ◌≡◌, refl, sym, ap, ◌∙◌, inl, inr, false, ◌==◌, ◌&&◌, arith, eq_iff, eqb, eqb_iff,
  Bool-cases,
}
use anyauth.Policy.Evaluate.{keep_unless_slash, trim_right_slash}

-- A text of slashes alone.
abbrev pub IsSlashes : String → Type 0
IsSlashes String.[] = Unit
IsSlashes (String.◌∷◌ c s) = (code c ≡ 47) × IsSlashes s

-- A text whose last character is a slash.
abbrev pub EndsInSlash : String → Type 0
EndsInSlash String.[] = ⊥
EndsInSlash (String.◌∷◌ c String.[]) = code c ≡ 47
EndsInSlash (String.◌∷◌ c (String.◌∷◌ d s)) = EndsInSlash (String.◌∷◌ d s)

-- `base` is `s` without the slashes at its end.
pub record IsBase (s base : String) : Type 0 where
  pub slashes : String
  pub only : IsSlashes slashes
  pub splits : s ≡ String.◌++◌ base slashes
  pub ends : ¬ EndsInSlash base

trim_right_slash-slashes : (s : String) → IsSlashes s → trim_right_slash s ≡ ""
unfolding trim_right_slash keep_unless_slash
trim_right_slash-slashes String.[] h = refl
trim_right_slash-slashes (String.◌∷◌ c s) (slash, h) = rw (trim_right_slash-slashes s h, slash) refl

-- A character in front of a text that does not end in a slash, unless it is a slash alone.
cons-ends :
    (c : _) (s : String)
    → (eqb (code c) 47 && s == "") ≡ false
    → ¬ EndsInSlash s
    → ¬ EndsInSlash (String.◌∷◌ c s)
cons-ends c String.[] h k e = absurd (ground (arith, eqb_iff (code c) 47))
cons-ends c (String.◌∷◌ d s) h k e = k e

pub trim_right_slash-IsBase : (s : String) → IsBase s (trim_right_slash s)
unfolding trim_right_slash keep_unless_slash
trim_right_slash-IsBase String.[] = record {
  slashes = "";
  only = tt;
  splits = sym (append.nil "");
  ends = λ e. e;
}
trim_right_slash-IsBase (String.◌∷◌ c s) =
    let rest = trim_right_slash-IsBase s in
    elim (Bool-cases (eqb (code c) 47 && trim_right_slash s == "")) [
      | inl dropped ↦
          let empty : trim_right_slash s ≡ "" = ground (arith, eq_iff (trim_right_slash s) "") in
          let all : s ≡ rest.slashes =
            rest.splits ∙ ap (λ b. String.◌++◌ b rest.slashes) empty ∙ append.nil rest.slashes in
          rw dropped (record {
            slashes = String.◌∷◌ c rest.slashes;
            only = (ground (arith, eqb_iff (code c) 47), rest.only);
            splits = ap (String.◌∷◌ c) all ∙ sym (append.nil (String.◌∷◌ c rest.slashes));
            ends = λ e. e;
          })
      | inr kept ↦ rw kept (record {
        slashes = rest.slashes;
        only = rest.only;
        splits =
            ap (String.◌∷◌ c) rest.splits ∙ sym (append.cons c (trim_right_slash s) rest.slashes);
        ends = cons-ends c (trim_right_slash s) kept rest.ends;
      })
    ]

tail-ends : (c : _) (s : String) → ¬ EndsInSlash (String.◌∷◌ c s) → ¬ EndsInSlash s
tail-ends c String.[] k e = e
tail-ends c (String.◌∷◌ d s) k e = k e

keeps : (c : _) (s : String) → ¬ EndsInSlash (String.◌∷◌ c s) → (eqb (code c) 47 && s == "") ≡ false
keeps c String.[] k = elim (Bool-cases (eqb (code c) 47)) [
  | inl slash ↦ absurd (k ((eqb_iff (code c) 47).0 slash))
  | inr other ↦ rw other refl
]
keeps c (String.◌∷◌ d s) k = ground (arith, compare.cons-nil d s)

append-trim_right_slash :
    (base slashes : String)
    → IsSlashes slashes
    → ¬ EndsInSlash base
    → trim_right_slash (String.◌++◌ base slashes) ≡ base
unfolding trim_right_slash keep_unless_slash
append-trim_right_slash String.[] slashes h k =
    ap trim_right_slash (append.nil slashes) ∙ trim_right_slash-slashes slashes h
append-trim_right_slash (String.◌∷◌ c base) slashes h k =
    rw
      (
        append.cons c base slashes,
        append-trim_right_slash base slashes h (tail-ends c base k),
        keeps c base k,
      )
      refl

-- There is one such text.
pub IsBase-trim_right_slash : {s base : String} → IsBase s base → trim_right_slash s ≡ base
IsBase-trim_right_slash {s} {base} h =
    ap trim_right_slash h.splits ∙ append-trim_right_slash base h.slashes h.only h.ends
