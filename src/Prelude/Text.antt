-- ===== src/Prelude/Text.antt =====
-- Text of the standard library: `strings.TrimSpace`, `strconv.ParseBool` and the order of texts.
use Prim.Native.Char.{Char, code}
use mathlib.Core.HLevel.{hedberg}
use text.Mathlib.TextEquality.{Char-path, eq_iff}
use Prim.Native.Nat.{ℕ}
use Prim.Native.String.{String}
use mathlib.Core.Logic.{◌⊎◌, inl, inr}
use mathlib.Core.Path.{◌≡◌, refl}
use native.Mathlib.Omega.{arith}
use mathlib.Core.Bool.{Bool, true, false, ◌||◌, ◌&&◌}
use mathlib.Core.Option.{Option, none, some}
use text.Mathlib.Text.{◌==◌}
use platform_governance_oper.Prelude.Tests.{leb, ltb, if◌then◌else◌}

abbrev within : (first last code_point : ℕ) → Bool
within first last c = leb first c && leb c last

-- `unicode.IsSpace`
unfoldable pub is_space : ℕ → Bool
is_space c =
    within 9 13 c
    || within 0x20 0x20 c
    || within 0x85 0x85 c
    || within 0xa0 0xa0 c
    || within 0x1680 0x1680 c
    || within 0x2000 0x200a c
    || within 0x2028 0x2029 c
    || within 0x202f 0x202f c
    || within 0x205f 0x205f c
    || within 0x3000 0x3000 c

unfoldable pub trim_left : String → String
trim_left String.[] = ""
trim_left (String.◌∷◌ c s) =
    let rest = trim_left s in if is_space (code c) then rest else String.◌∷◌ c s

abbrev cons_unless_blank : Char → String → String
cons_unless_blank c String.[] = if is_space (code c) then "" else String.◌∷◌ c ""
cons_unless_blank c (String.◌∷◌ d s) = String.◌∷◌ c (String.◌∷◌ d s)

unfoldable pub trim_right : String → String
trim_right String.[] = ""
trim_right (String.◌∷◌ c s) = cons_unless_blank c (trim_right s)

-- `strings.TrimSpace`
unfoldable pub trim_space : String → String
unfolding trim_left trim_right is_space
trim_space s = trim_right (trim_left s)

-- `strconv.ParseBool`; `none` is its syntax error.
unfoldable pub parse_bool : String → Option Bool
parse_bool s =
    if s == "1" || s == "t" || s == "T" || s == "true" || s == "TRUE" || s == "True"
    then some true
    else if s == "0" || s == "f" || s == "F" || s == "false" || s == "FALSE" || s == "False"
    then some false
    else none

-- `a < b` on texts: bytes of UTF-8 are ordered as their code points.
unfoldable pub str_ltb : String → String → Bool
str_ltb String.[] String.[] = false
str_ltb String.[] (String.◌∷◌ d t) = true
str_ltb (String.◌∷◌ c s) String.[] = false
str_ltb (String.◌∷◌ c s) (String.◌∷◌ d t) =
    let rest = str_ltb s t in
    if ltb (code c) (code d) then true else if ltb (code d) (code c) then false else rest

pub str_ltb-asymm : (a b : String) → str_ltb a b ≡ true → str_ltb b a ≡ false
unfolding str_ltb
str_ltb-asymm String.[] String.[] h = refl
str_ltb-asymm String.[] (String.◌∷◌ d t) h = refl
str_ltb-asymm (String.◌∷◌ c s) String.[] h = cc
str_ltb-asymm (String.◌∷◌ c s) (String.◌∷◌ d t) h = ground (arith, str_ltb-asymm s t)

-- What lies between two texts in order is after the first or before the second.
pub str_ltb-cotrans :
    (a b c : String) → str_ltb a c ≡ true → (str_ltb a b ≡ true) ⊎ (str_ltb b c ≡ true)
unfolding str_ltb
str_ltb-cotrans String.[] String.[] c h = inr h
str_ltb-cotrans String.[] (String.◌∷◌ e u) c h = inl refl
str_ltb-cotrans (String.◌∷◌ d t) b String.[] h = absurd (cc)
str_ltb-cotrans (String.◌∷◌ d t) String.[] (String.◌∷◌ f v) h = inr refl
str_ltb-cotrans (String.◌∷◌ d t) (String.◌∷◌ e u) (String.◌∷◌ f v) h =
    ground (arith, str_ltb-cotrans t u v)

-- Texts neither of which is before the other are equal.
pub str_ltb-total : (a b : String) → str_ltb a b ≡ false → str_ltb b a ≡ false → a ≡ b
unfolding str_ltb
str_ltb-total String.[] String.[] h h' = refl
str_ltb-total String.[] (String.◌∷◌ d t) h h' = absurd cc
str_ltb-total (String.◌∷◌ c s) String.[] h h' = absurd cc
str_ltb-total (String.◌∷◌ c s) (String.◌∷◌ d t) h h' =
    let same : code c ≡ code d = ground arith in
    let rest : s ≡ t = str_ltb-total s t (ground (arith, same)) (ground (arith, same)) in
    λ i. String.◌∷◌ (Char-path c d same i) (rest i)

String-discrete : Discrete String
String-discrete a b = decided (a == b) refl
  where
    decided : (test : Bool) → (a == b) ≡ test → Dec (a ≡ b)
    decided true same = yes ((eq_iff a b).0 same)
    decided false other = no (λ e. cc ((eq_iff a b).1 e, other))

pub String-set : IsSet String
String-set = hedberg String-discrete
