-- ===== src/Prelude/Trims.antt =====
-- A string that `trim` leaves something of holds a character that is no white space.
use mathlib.Core.List.{reverse-cons}
use mathlib.Core.Path.{◌≡◌, refl}
use mathlib.Core.Logic.{◌≢◌, inl, inr}
use mathlib.Core.Bool.{Bool, true, false, not, ◌||◌}
use mathlib.Core.List.{[], ◌∷◌, ◌++◌, reverse}
use Prim.Native.Nat.{ℕ, ◌+◌, ◌-◌, ◌/◌, ◌%◌, ◌≤◌}
use Prim.Native.Char.{code}
use Prim.Native.String.{String}
use text.Mathlib.Text.{◌==◌}
use text.Mathlib.TextEquality.{eq_iff}
use native.Mathlib.Omega.{arith}
use psychic_octo_invention.Prelude.Tests.{Bool-cases, ltb}
use psychic_octo_invention.Prelude.Lists.{any}
use psychic_octo_invention.Prelude.Texts.{
  Text, codes, is_space, trim, trim_start, string_trim, string_trim_end, string_trim_start, units,
}

-- Some code unit is no white space.
abbrev pub has_ink : Text → Bool
has_ink s = any (λ c. not (is_space c)) s

any-append : (p : ℕ → Bool) (s t : Text) → any p (s ++ t) ≡ any p s || any p t
any-append p [] t = refl
any-append p (c ∷ s) t = ground (arith, any-append p s t)

or_true : (b : Bool) → b || true ≡ true
or_true true = refl
or_true false = refl

has_ink-reverse : (s : Text) → has_ink s ≡ true → has_ink (reverse s) ≡ true
has_ink-reverse [] h = cc
has_ink-reverse (c ∷ s) h =
    rw (reverse-cons c s, any-append (λ x. not (is_space x)) (reverse s) (c ∷ []))
      (elim (Bool-cases (is_space c)) [
        | inl space ↦ rw (space, has_ink-reverse s (rw space at h)) refl
        | inr ink ↦ rw ink (or_true (has_ink (reverse s)))
      ])

trim_start-has_ink : (s : Text) → has_ink s ≡ true → has_ink (trim_start s) ≡ true
trim_start-has_ink [] h = h
trim_start-has_ink (c ∷ s) h = elim (Bool-cases (is_space c)) [
  | inl space ↦ rw space (trim_start-has_ink s (rw space at h))
  | inr ink ↦ rw ink h
]

trim-has_ink : (s : Text) → has_ink s ≡ true → has_ink (trim s) ≡ true
trim-has_ink s h = has_ink-reverse (trim_start (reverse (trim_start s))) (
    trim_start-has_ink (reverse (trim_start s))
      (has_ink-reverse (trim_start s) (trim_start-has_ink s h)))

surrogate : (n : ℕ) → 0xdc00 ≤ n → n ≤ 0xdfff → is_space n ≡ false
surrogate n h k = ground arith

low_surrogate : (c : ℕ) → is_space (0xdc00 + (c - 0x10000) % 1024) ≡ false
low_surrogate c = surrogate (0xdc00 + (c - 0x10000) % 1024) (omega arith) (omega arith)

units-keeps : (c : ℕ) (rest : Text) → has_ink rest ≡ true → has_ink (units c rest) ≡ true
units-keeps c rest h = ground arith

units-has_ink : (c : ℕ) (rest : Text) → is_space c ≡ false → has_ink (units c rest) ≡ true
units-has_ink c rest h = elim (Bool-cases (ltb c 0x10000)) [
  | inl small ↦ rw (small, h) refl
  | inr large ↦
      rw (large, low_surrogate c) (or_true (not (is_space (0xd800 + (c - 0x10000) / 1024))))
]

string_trim_end-has_ink :
    (s : String) → string_trim_end s ≢ "" → has_ink (codes (string_trim_end s)) ≡ true
unfolding string_trim_end
string_trim_end-has_ink String.[] h = absurd (h refl)
string_trim_end-has_ink (String.◌∷◌ c s) h = elim (Bool-cases (string_trim_end s == "")) [
  | inl blank ↦ elim (Bool-cases (is_space (code c))) [
    | inl space ↦ absurd (h (rw (space, blank) refl))
    | inr ink ↦ rw ink (units-has_ink (code c) (codes (string_trim_end s)) ink)
  ]
  | inr full ↦
      let rest =
        string_trim_end-has_ink s (λ e. let blank = (eq_iff (string_trim_end s) "").1 e in cc) in
      let kept = units-keeps (code c) (codes (string_trim_end s)) rest in
      elim (Bool-cases (is_space (code c))) [
        | inl space ↦ rw (space, full) kept
        | inr ink ↦ rw ink kept
      ]
]

-- What is left by `trim` is not blank, unless it is empty.
pub string_trim-has_ink :
    (s : String) → string_trim s ≢ "" → has_ink (trim (codes (string_trim s))) ≡ true
unfolding string_trim
string_trim-has_ink s h =
    trim-has_ink (codes (string_trim s)) (string_trim_end-has_ink (string_trim_start s) h)
