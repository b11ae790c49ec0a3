-- ===== src/Prelude/Texts.antt =====
-- JavaScript strings. A stored string is a native `String`; where the code walks a string it is the
-- list of its UTF-16 code units. Case folding (`toLowerCase`) is that of the ASCII letters.
use Prim.Native.Nat.{ℕ, zero, suc, ◌+◌, ◌-◌, ◌/◌, ◌%◌}
use Prim.Native.Char.{code}
use Prim.Native.String
use Prim.Native.String.{String}
use mathlib.Core.Path.{◌≡◌, refl}
use mathlib.Core.Logic.{◌↔◌}
use mathlib.Core.Bool.{Bool, true, false, ◌&&◌, ◌||◌}
use mathlib.Core.List.{List, [], ◌∷◌, reverse}
use text.Mathlib.Text.{◌==◌}
use native.Mathlib.Omega.{arith}
use psychic_octo_invention.Prelude.Tests.{ltb, leb, eqb, if◌then◌else◌}
use psychic_octo_invention.Prelude.Lists.{length, any}

abbrev pub Text : Type 0
Text = List ℕ

-- The code units of one character: a pair of surrogates above the basic plane.
abbrev pub units : ℕ → Text → Text
units c rest =
    if ltb c 0x10000
    then c ∷ rest
    else (0xd800 + (c - 0x10000) / 1024) ∷ (0xdc00 + (c - 0x10000) % 1024) ∷ rest

abbrev pub codes : String → Text
codes String.[] = []
codes (String.◌∷◌ c s) = units (code c) (codes s)

-- `s.length`
abbrev pub text_length : String → ℕ
text_length s = length (codes s)

-- `===` on texts.
abbrev pub text_eq : Text → Text → Bool
text_eq [] [] = true
text_eq [] (d ∷ t) = false
text_eq (c ∷ s) [] = false
text_eq (c ∷ s) (d ∷ t) = eqb c d && text_eq s t

-- `s.startsWith(t)`
abbrev pub starts_with : Text → Text → Bool
starts_with s [] = true
starts_with [] (d ∷ t) = false
starts_with (c ∷ s) (d ∷ t) = eqb c d && starts_with s t

-- `s.includes(t)`
abbrev pub text_includes : Text → Text → Bool
text_includes [] t = starts_with [] t
text_includes (c ∷ s) t = starts_with (c ∷ s) t || text_includes s t

abbrev lower : ℕ → ℕ
lower c = if leb b'A' c && leb c b'Z' then c + 32 else c

-- `s.toLowerCase()`
abbrev pub to_lower_case : Text → Text
to_lower_case [] = []
to_lower_case (c ∷ s) = lower c ∷ to_lower_case s

-- The white space and the line terminators of ECMAScript, which `trim` and `\s` take.
abbrev pub is_space : ℕ → Bool
is_space c =
    any (eqb c) (9 ∷ 10 ∷ 11 ∷ 12 ∷ 13 ∷ 32 ∷ 0xa0 ∷ 0x1680 ∷ 0x2028 ∷ 0x2029 ∷ [])
    || (leb 0x2000 c && leb c 0x200a)
    || any (eqb c) (0x202f ∷ 0x205f ∷ 0x3000 ∷ 0xfeff ∷ [])

abbrev pub trim_start : Text → Text
trim_start [] = []
trim_start (c ∷ s) = if is_space c then trim_start s else c ∷ s

-- `s.trim()`
abbrev pub trim : Text → Text
trim s = reverse (trim_start (reverse (trim_start s)))

unfoldable pub string_trim_start : String → String
string_trim_start String.[] = ""
string_trim_start (String.◌∷◌ c s) =
    if is_space (code c) then string_trim_start s else String.◌∷◌ c s

unfoldable pub string_trim_end : String → String
string_trim_end String.[] = ""
string_trim_end (String.◌∷◌ c s) =
    let rest = string_trim_end s in
    if is_space (code c) && rest == "" then "" else String.◌∷◌ c rest

-- `s.trim()` on a stored string; no white space takes two code units.
unfoldable pub string_trim : String → String
string_trim s = string_trim_end (string_trim_start s)

-- `xs.includes(s)` for an array of strings, and `set.has(s)`.
abbrev pub includes : List String → String → Bool
includes xs s = any (λ x. x == s) xs

pub text_eq_iff : (s t : Text) → (text_eq s t ≡ true) ↔ (s ≡ t)
text_eq_iff [] [] = (λ h. refl, λ h. refl)
text_eq_iff [] (d ∷ t) = (λ h. cc, λ h. cc)
text_eq_iff (c ∷ s) [] = (λ h. cc, λ h. cc)
text_eq_iff (c ∷ s) (d ∷ t) = ground (arith, text_eq_iff s t)

digit : ℕ → String
digit n =
    if eqb n 0
    then "0"
    else if eqb n 1
    then "1"
    else if eqb n 2
    then "2"
    else if eqb n 3
    then "3"
    else if eqb n 4
    then "4"
    else if eqb n 5
    then "5"
    else if eqb n 6
    then "6"
    else if eqb n 7
    then "7"
    else if eqb n 8
    then "8"
    else "9"

show_from : ℕ → ℕ → String → String
show_from zero n acc = acc
show_from (suc fuel) n acc =
    let rest = show_from fuel (n / 10) (String.◌++◌ (digit (n % 10)) acc) in
    if ltb n 10 then String.◌++◌ (digit n) acc else rest

-- `${n}` for a natural number: `n + 1` rounds are more than its digits.
unfoldable pub show : ℕ → String
unfolding show_from digit
show n = show_from (suc n) n ""

-- `a + b` and template literals.
infixr 66 ◌⧺◌
abbrev pub ◌⧺◌ : String → String → String
s ⧺ t = String.◌++◌ s t

-- `xs.join(separator)`
abbrev pub join : String → List String → String
join separator [] = ""
join separator (x ∷ []) = x
join separator (x ∷ y ∷ xs) = x ⧺ separator ⧺ join separator (y ∷ xs)

show_tests : (show 0 ≡ "0") × (show 1507 ≡ "1507") × (join ", " ("a" ∷ "b" ∷ []) ≡ "a, b")
unfolding show
show_tests = (refl, refl, refl)
