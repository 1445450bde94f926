-- ===== src/Base/Text.antt =====
-- What the program uses of the packages strings and unicode, on the code points of a text.
use Prim.Native.Nat.{ℕ, compare as compare_nat, Ordering}
use Prim.Native.Char.{Char, code}
use Prim.Native.String.{String, compare}
use Prim.Native.String.compare
use Prim.Native.String
use Prim.Native.String.append
use mathlib.Core.Path.{◌≡◌, refl, sym, ap, ◌∙◌}
use mathlib.Core.Bool.{Bool, true, false, not, ◌&&◌, ◌||◌}
use native.Mathlib.Omega.{arith}
use text.Mathlib.Text.{◌==◌}
use text.Mathlib.TextEquality.{eq_iff}
use anyauth.Base.Tests.{if◌then◌else◌, eqb}

leb : ℕ → ℕ → Bool
leb a b = elim (compare_nat a b) [ Ordering.gt ↦ false | _ ↦ true ]

-- unicode.IsSpace, the property White_Space.
unfoldable pub is_space : Char → Bool
unfolding leb
is_space c =
    (leb 9 (code c) && leb (code c) 13)
    || eqb (code c) 32
    || eqb (code c) 0x85
    || eqb (code c) 0xa0
    || eqb (code c) 0x1680
    || (leb 0x2000 (code c) && leb (code c) 0x200a)
    || eqb (code c) 0x2028
    || eqb (code c) 0x2029
    || eqb (code c) 0x202f
    || eqb (code c) 0x205f
    || eqb (code c) 0x3000

unfoldable pub trim_left : String → String
trim_left String.[] = ""
trim_left (String.◌∷◌ c s) = if is_space c then trim_left s else String.◌∷◌ c s

-- Drops the spaces at the end: `c` goes if it is a space and all behind it went.
keep_unless_space : Char → String → String
keep_unless_space c rest = if is_space c && rest == "" then "" else String.◌∷◌ c rest

unfoldable pub trim_right : String → String
unfolding keep_unless_space
trim_right String.[] = ""
trim_right (String.◌∷◌ c s) = keep_unless_space c (trim_right s)

-- strings.TrimSpace
unfoldable pub trim_space : String → String
unfolding trim_left trim_right is_space
trim_space s = trim_right (trim_left s)

unfoldable pub has_char : String → Char → Bool
has_char String.[] c = false
has_char (String.◌∷◌ d s) c = eqb (code d) (code c) || has_char s c

-- strings.ContainsAny
unfoldable pub contains_any : String → String → Bool
unfolding has_char
contains_any String.[] chars = false
contains_any (String.◌∷◌ c s) chars = has_char chars c || contains_any s chars

-- strings.HasPrefix
unfoldable pub has_prefix : String → String → Bool
has_prefix s String.[] = true
has_prefix String.[] (String.◌∷◌ d p) = false
has_prefix (String.◌∷◌ c s) (String.◌∷◌ d p) = eqb (code c) (code d) && has_prefix s p

-- `s < t` on texts: by their bytes, which is by their code points.
unfoldable pub text_less : String → String → Bool
text_less s t = elim (compare s t) [ Ordering.lt ↦ true | _ ↦ false ]

compare_flip : (s t : String) → compare s t ≡ Ordering.lt → compare t s ≡ Ordering.gt
compare_flip String.[] String.[] h = cc (compare.nil-nil)
compare_flip String.[] (String.◌∷◌ d t) h = compare.cons-nil d t
compare_flip (String.◌∷◌ c s) String.[] h = cc (compare.cons-nil c s)
compare_flip (String.◌∷◌ c s) (String.◌∷◌ d t) h =
    ground (arith, compare.cons-cons c d s t, compare.cons-cons d c t s, compare_flip s t)

pub text_less_asymm : (s t : String) → text_less s t ≡ true → text_less t s ≡ false
unfolding text_less
text_less_asymm s t h = ground (arith, compare_flip s t)

trim_left-cons :
    (c : Char) (s : String) → is_space c ≡ false → trim_left (String.◌∷◌ c s) ≡ String.◌∷◌ c s
unfolding trim_left
trim_left-cons c s h = ground arith

-- Trimming the end keeps a first character that is no space.
trim_left-trim_right :
    (s : String) → trim_left (trim_right (trim_left s)) ≡ trim_right (trim_left s)
unfolding trim_left trim_right
trim_left-trim_right String.[] = refl
trim_left-trim_right (String.◌∷◌ c s) = ground (arith, trim_left-trim_right s)

trim_right-trim_right : (s : String) → trim_right (trim_right s) ≡ trim_right s
unfolding trim_right
trim_right-trim_right String.[] = refl
trim_right-trim_right (String.◌∷◌ c s) =
    ground (arith, trim_right-trim_right s, eq_iff (trim_right s) "")

pub trim_space_idem : (s : String) → trim_space (trim_space s) ≡ trim_space s
unfolding trim_space
trim_space_idem s = ap trim_right (trim_left-trim_right s) ∙ trim_right-trim_right (trim_left s)

-- A character that is no space, before a trimmed text.
pub trim_space-cons :
    (c : Char) (s : String)
    → is_space c ≡ false
    → trim_space (String.◌∷◌ c (trim_space s)) ≡ String.◌∷◌ c (trim_space s)
unfolding trim_space trim_right
trim_space-cons c s h =
    ap trim_right (trim_left-cons c (trim_space s) h)
    ∙ ground (arith, trim_right-trim_right (trim_left s))

-- A text with no space in it.
unfoldable pub is_visible : String → Bool
is_visible String.[] = true
is_visible (String.◌∷◌ c s) = not (is_space c) && is_visible s

is_visible-cons :
    (c : Char) (s : String)
    → is_visible (String.◌∷◌ c s) ≡ true
    → (is_space c ≡ false) × (is_visible s ≡ true)
unfolding is_visible
is_visible-cons c s h = ground arith

pub trim_space-append :
    (p s : String)
    → is_visible p ≡ true
    → trim_space s ≡ s
    → trim_space (String.◌++◌ p s) ≡ String.◌++◌ p s
trim_space-append String.[] s v h = ap trim_space (append.nil s) ∙ h ∙ sym (append.nil s)
trim_space-append (String.◌∷◌ c p) s v h =
    let (first, others) = is_visible-cons c p v in
    let rest = trim_space-append p s others h in
    let cons = append.cons c p s in
    ap trim_space (cons ∙ ap (String.◌∷◌ c) (sym rest))
    ∙ trim_space-cons c (String.◌++◌ p s) first
    ∙ ap (String.◌∷◌ c) rest
    ∙ sym cons
