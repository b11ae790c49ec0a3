-- ===== src/Prelude/Lists.antt =====
-- Arrays as lists: JavaScript's `length`, `some`, `find`, `filter`, `slice`, and predicates on lists.
use Prim.Native.Nat.{ℕ, zero, suc, ◌+◌, ◌-◌, ◌≤◌}
use mathlib.Core.Path.{◌≡◌, refl, ap, ◌∙◌, sym, subst}
use mathlib.Core.Logic.{◌⊎◌, inl, inr}
use mathlib.Core.Bool.{Bool, true, false, ◌||◌}
use mathlib.Core.Option.{Option, none, some}
use mathlib.Core.List.{List, [], ◌∷◌, ◌++◌, map, reverse, reverse-cons, reverse-append, append-nil}
use native.Mathlib.Omega.{arith}
use psychic_octo_invention.Prelude.Tests.{if◌then◌else◌, Bool-cases}

module _ {ℓ} {A : Type ℓ} where
  abbrev pub length : List A → ℕ
  length [] = 0
  length (x ∷ xs) = suc (length xs)

  abbrev pub take : ℕ → List A → List A
  take zero xs = []
  take (suc n) [] = []
  take (suc n) (x ∷ xs) = x ∷ take n xs

  abbrev pub drop : ℕ → List A → List A
  drop zero xs = xs
  drop (suc n) [] = []
  drop (suc n) (x ∷ xs) = drop n xs

  -- `xs[0]`
  abbrev pub head? : List A → Option A
  head? [] = none
  head? (x ∷ xs) = some x

  -- `xs.some(p)`
  abbrev pub any : (A → Bool) → List A → Bool
  any p [] = false
  any p (x ∷ xs) = p x || any p xs

  -- `xs.find(p)`
  abbrev pub find : (A → Bool) → List A → Option A
  find p [] = none
  find p (x ∷ xs) = if p x then some x else find p xs

  -- `xs.filter(p)`
  abbrev pub filter : (A → Bool) → List A → List A
  filter p [] = []
  filter p (x ∷ xs) = if p x then x ∷ filter p xs else filter p xs

  pub length-append : (xs ys : List A) → length (xs ++ ys) ≡ length xs + length ys
  length-append [] ys = omega arith
  length-append (x ∷ xs) ys = omega (arith, length-append xs ys)

  pub length-take_le : (n : ℕ) (xs : List A) → length (take n xs) ≤ n
  length-take_le zero xs = omega arith
  length-take_le (suc n) [] = omega arith
  length-take_le (suc n) (x ∷ xs) = omega (arith, length-take_le n xs)

module _ {ℓ κ} {A : Type ℓ} where
  abbrev pub All : (A → Type κ) → List A → Type κ
  All P [] = Unit
  All P (x ∷ xs) = P x × All P xs

module _ {A : Type 0} where
  -- `x` is an element of the list.
  abbrev pub In : A → List A → Type 0
  In x [] = ⊥
  In x (y ∷ ys) = (x ≡ y) ⊎ In x ys

  pub All-append {κ} : (P : A → Type κ) (xs ys : List A) → All P xs → All P ys → All P (xs ++ ys)
  All-append P [] ys h k = k
  All-append P (x ∷ xs) ys (p, h) k = (p, All-append P xs ys h k)

  pub map-append :
      {B : Type 0} (f : A → B) (xs ys : List A) → map f (xs ++ ys) ≡ map f xs ++ map f ys
  map-append f [] ys = refl
  map-append f (x ∷ xs) ys = ap (λ zs. f x ∷ zs) (map-append f xs ys)

  pub find-satisfies :
      (p : A → Bool) (xs : List A) {x : A} → find p xs ≡ some x → In x xs × (p x ≡ true)
  find-satisfies p [] h = cc
  find-satisfies p (y ∷ ys) {x} h = ground (arith, find-satisfies p ys {x = x})

  -- An array in which no element passes has no element found.
  pub find-none : (p : A → Bool) (xs : List A) → find p xs ≡ none → All (λ x. p x ≡ false) xs
  find-none p [] h = tt
  find-none p (y ∷ ys) h = ground (arith, find-none p ys)

  pub All-In {κ} : (P : A → Type κ) (x : A) (xs : List A) → All P xs → In x xs → P x
  All-In P x [] h m = absurd m
  All-In P x (y ∷ ys) h (inl e) = subst P (sym e) h.0
  All-In P x (y ∷ ys) h (inr m) = All-In P x ys h.1 m

  -- The first element is found, if it passes.
  pub find-head :
      (p : A → Bool) (xs : List A) (x : A) → head? xs ≡ some x → p x ≡ true → find p xs ≡ some x
  find-head p [] x h e = cc
  find-head p (y ∷ ys) x h e = ground arith

  pub filter-append :
      (p : A → Bool) (xs ys : List A) → filter p (xs ++ ys) ≡ filter p xs ++ filter p ys
  filter-append p [] ys = refl
  filter-append p (x ∷ xs) ys = ground (arith, filter-append p xs ys)

  pub take-drop : (n : ℕ) (xs : List A) → take n xs ++ drop n xs ≡ xs
  take-drop zero xs = refl
  take-drop (suc n) [] = refl
  take-drop (suc n) (x ∷ xs) = ap (λ ys. x ∷ ys) (take-drop n xs)

  pub length-drop : (n : ℕ) (xs : List A) → length (drop n xs) ≡ length xs - n
  length-drop zero xs = omega arith
  length-drop (suc n) [] = omega arith
  length-drop (suc n) (x ∷ xs) = omega (arith, length-drop n xs)

  pub length-reverse : (xs : List A) → length (reverse xs) ≡ length xs
  length-reverse [] = refl
  length-reverse (x ∷ xs) =
      rw (reverse-cons x xs) (omega (arith, length-append (reverse xs) (x ∷ []), length-reverse xs))

  drop-append : (xs ys : List A) → drop (length xs) (xs ++ ys) ≡ ys
  drop-append [] ys = refl
  drop-append (x ∷ xs) ys = drop-append xs ys

  -- The last elements of a reversed array are the first ones, reversed.
  pub drop-reverse : (n : ℕ) (xs : List A) → drop (length xs - n) (reverse xs) ≡ reverse (take n xs)
  drop-reverse n xs =
      let split : reverse xs ≡ reverse (drop n xs) ++ reverse (take n xs) =
        ap reverse (sym (take-drop n xs)) ∙ reverse-append (take n xs) (drop n xs) in
      let size : length xs - n ≡ length (reverse (drop n xs)) =
        sym (length-reverse (drop n xs) ∙ length-drop n xs) in
      ap (λ k. drop k (reverse xs)) size
      ∙ ap (λ ys. drop (length (reverse (drop n xs))) ys) split
      ∙ drop-append (reverse (drop n xs)) (reverse (take n xs))

  pub filter-reverse : (p : A → Bool) (xs : List A) → filter p (reverse xs) ≡ reverse (filter p xs)
  filter-reverse p [] = refl
  filter-reverse p (x ∷ xs) =
      ap (filter p) (reverse-cons x xs)
      ∙ filter-append p (reverse xs) (x ∷ [])
      ∙ ap (λ ys. ys ++ filter p (x ∷ [])) (filter-reverse p xs)
      ∙ elim (Bool-cases (p x)) [
        | inl e ↦ rw e (sym (reverse-cons x (filter p xs)))
        | inr e ↦ rw e (append-nil (reverse (filter p xs)))
      ]

  pub map-reverse : {B : Type 0} (f : A → B) (xs : List A) → map f (reverse xs) ≡ reverse (map f xs)
  map-reverse f [] = refl
  map-reverse f (x ∷ xs) =
      ap (map f) (reverse-cons x xs)
      ∙ map-append f (reverse xs) (x ∷ [])
      ∙ ap (λ ys. ys ++ (f x ∷ [])) (map-reverse f xs)
      ∙ sym (reverse-cons (f x) (map f xs))

  -- An array with its elements mapped is filtered by what they are mapped to.
  pub filter-map :
      {B : Type 0} (p : B → Bool) (f : A → B) (xs : List A)
      → filter p (map f xs) ≡ map f (filter (λ x. p (f x)) xs)
  filter-map p f [] = refl
  filter-map p f (x ∷ xs) = elim (Bool-cases (p (f x))) [
    | inl e ↦ rw e (ap (λ ys. f x ∷ ys) (filter-map p f xs))
    | inr e ↦ rw e (filter-map p f xs)
  ]
