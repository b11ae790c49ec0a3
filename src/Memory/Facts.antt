-- ===== src/Memory/Facts.antt =====
-- `dedupeFacts` of apps/api/src/services/memory/memory.service.ts. Importances are counted in tenths.
use psychic_octo_invention.Prelude.{
  ℕ, ◌≤◌, ◌≡◌, ◌≢◌, refl, sym, ap, subst, ◌∙◌, inl, inr, String, Option, List, [], ◌∷◌, arith, All,
  In, leb, ◌==◌, eq_iff, Bool-cases, if◌then◌else◌, ◌⧺◌,
}
use psychic_octo_invention.Json.{Json}

-- `MemoryFact` of packages/shared, without the id that no fact of an exchange has.
pub record MemoryFact : Type 0 where
  pub namespace : String
  pub subject_key : String
  pub value : Json
  pub summary : String
  pub importance : ℕ
  pub source_conversation_id : Option String
  pub source_message_id : Option String
  pub expires_at : Option ℕ

unfoldable pub fact_key : MemoryFact → String
fact_key f = f.namespace ⧺ ":" ⧺ f.subject_key

-- One round of the loop on the values of the map: a set of a known key keeps its place.
unfoldable pub set_fact : MemoryFact → List MemoryFact → List MemoryFact
set_fact fact [] = fact ∷ []
set_fact fact (x ∷ xs) =
    if fact_key x == fact_key fact
    then (if leb x.importance fact.importance then fact else x) ∷ xs
    else x ∷ set_fact fact xs

unfoldable pub dedupe_from : List MemoryFact → List MemoryFact → List MemoryFact
dedupe_from unique [] = unique
dedupe_from unique (fact ∷ facts) = dedupe_from (set_fact fact unique) facts

unfoldable pub dedupe_facts : List MemoryFact → List MemoryFact
dedupe_facts facts = dedupe_from [] facts

abbrev pub HaveDistinctKeys : List MemoryFact → Type 0
HaveDistinctKeys [] = Unit
HaveDistinctKeys (x ∷ xs) = All (λ y. fact_key y ≢ fact_key x) xs × HaveDistinctKeys xs

-- A fact of the list has this key and is at least as important.
abbrev pub Covers : List MemoryFact → MemoryFact → Type 0
Covers facts f =
    (g : MemoryFact) × In g facts × (fact_key g ≡ fact_key f) × (f.importance ≤ g.importance)

Covers-cons : (x f : MemoryFact) (xs : List MemoryFact) → Covers xs f → Covers (x ∷ xs) f
Covers-cons x f xs (g, m, k, le) = (g, inr m, k, le)

set_fact-keys :
    (k : String) (fact : MemoryFact) (xs : List MemoryFact)
    → fact_key fact ≢ k
    → All (λ y. fact_key y ≢ k) xs
    → All (λ y. fact_key y ≢ k) (set_fact fact xs)
unfolding set_fact
set_fact-keys k fact [] ne h = (ne, tt)
set_fact-keys k fact (x ∷ xs) ne h = elim (Bool-cases (fact_key x == fact_key fact)) [
  | inl same ↦ elim (Bool-cases (leb x.importance fact.importance)) [
    | inl le ↦ simp (same, le) (ne, h.1)
    | inr gt ↦ simp (same, gt) h
  ]
  | inr other ↦ simp other (h.0, set_fact-keys k fact xs ne h.1)
]

set_fact-HaveDistinctKeys :
    (fact : MemoryFact) (xs : List MemoryFact)
    → HaveDistinctKeys xs
    → HaveDistinctKeys (set_fact fact xs)
unfolding set_fact
set_fact-HaveDistinctKeys fact [] d = (tt, tt)
set_fact-HaveDistinctKeys fact (x ∷ xs) d =
    let iff = eq_iff (fact_key x) (fact_key fact) in
    elim (Bool-cases (fact_key x == fact_key fact)) [
      | inl same ↦ elim (Bool-cases (leb x.importance fact.importance)) [
        | inl le ↦ simp (same, le) (subst (λ k. All (λ y. fact_key y ≢ k) xs) (iff.0 same) d.0, d.1)
        | inr gt ↦ simp (same, gt) d
      ]
      | inr other ↦ simp other (
        set_fact-keys (fact_key x) fact xs (λ e. absurd (let t = iff.1 (sym e) in cc)) d.0,
        set_fact-HaveDistinctKeys fact xs d.1,
      )
    ]

-- The new fact is covered, and so is what was covered before.
set_fact-Covers-new : (fact : MemoryFact) (xs : List MemoryFact) → Covers (set_fact fact xs) fact
unfolding set_fact
set_fact-Covers-new fact [] = (fact, inl refl, refl, omega arith)
set_fact-Covers-new fact (x ∷ xs) = elim (Bool-cases (fact_key x == fact_key fact)) [
  | inl same ↦ elim (Bool-cases (leb x.importance fact.importance)) [
    | inl le ↦ simp (same, le) (fact, inl refl, refl, omega arith)
    | inr gt ↦
        simp (same, gt) (x, inl refl, (eq_iff (fact_key x) (fact_key fact)).0 same, (ground arith))
  ]
  | inr other ↦ simp other (Covers-cons x fact (set_fact fact xs) (set_fact-Covers-new fact xs))
]

set_fact-Covers :
    (fact f : MemoryFact) (xs : List MemoryFact) → Covers xs f → Covers (set_fact fact xs) f
unfolding set_fact
set_fact-Covers fact f [] (g, m, k, le) = absurd m
set_fact-Covers fact f (x ∷ xs) (g, m, k, le) = elim (Bool-cases (fact_key x == fact_key fact)) [
  | inl same ↦
      let q = (eq_iff (fact_key x) (fact_key fact)).0 same in
      elim (Bool-cases (leb x.importance fact.importance)) [
        | inl up ↦ elim m [
          | inl e ↦
              simp (same, up)
                (
                  fact,
                  inl refl,
                  sym q ∙ ap fact_key (sym e) ∙ k,
                  (let bound = ap (λ y. y.importance) e in ground arith),
                )
          | inr n ↦ simp (same, up) (g, inr n, k, le)
        ]
        | inr gt ↦ simp (same, gt) (g, m, k, le)
      ]
  | inr other ↦ elim m [
    | inl e ↦ simp other (g, inl e, k, le)
    | inr n ↦
        simp other (Covers-cons x f (set_fact fact xs) (set_fact-Covers fact f xs (g, n, k, le)))
  ]
]

dedupe_from-Covers :
    (unique facts : List MemoryFact) (f : MemoryFact)
    → Covers unique f
    → Covers (dedupe_from unique facts) f
unfolding dedupe_from
dedupe_from-Covers unique [] f c = c
dedupe_from-Covers unique (x ∷ xs) f c =
    dedupe_from-Covers (set_fact x unique) xs f (set_fact-Covers x f unique c)

dedupe_from-Covers-All :
    (unique facts : List MemoryFact) → All (Covers (dedupe_from unique facts)) facts
unfolding dedupe_from
dedupe_from-Covers-All unique [] = tt
dedupe_from-Covers-All unique (x ∷ xs) = (
  dedupe_from-Covers (set_fact x unique) xs x (set_fact-Covers-new x unique),
  dedupe_from-Covers-All (set_fact x unique) xs,
)

dedupe_from-HaveDistinctKeys :
    (unique facts : List MemoryFact)
    → HaveDistinctKeys unique
    → HaveDistinctKeys (dedupe_from unique facts)
unfolding dedupe_from
dedupe_from-HaveDistinctKeys unique [] d = d
dedupe_from-HaveDistinctKeys unique (x ∷ xs) d =
    dedupe_from-HaveDistinctKeys (set_fact x unique) xs (set_fact-HaveDistinctKeys x unique d)

set_fact-All :
    (P : MemoryFact → Type 0) (fact : MemoryFact) (xs : List MemoryFact)
    → P fact
    → All P xs
    → All P (set_fact fact xs)
unfolding set_fact
set_fact-All P fact [] p h = (p, tt)
set_fact-All P fact (x ∷ xs) p h = elim (Bool-cases (fact_key x == fact_key fact)) [
  | inl same ↦ elim (Bool-cases (leb x.importance fact.importance)) [
    | inl le ↦ simp (same, le) (p, h.1)
    | inr gt ↦ simp (same, gt) h
  ]
  | inr other ↦ simp other (h.0, set_fact-All P fact xs p h.1)
]

dedupe_from-All :
    (P : MemoryFact → Type 0) (unique facts : List MemoryFact)
    → All P unique
    → All P facts
    → All P (dedupe_from unique facts)
unfolding dedupe_from
dedupe_from-All P unique [] h k = h
dedupe_from-All P unique (x ∷ xs) h k =
    dedupe_from-All P (set_fact x unique) xs (set_fact-All P x unique k.0 h) k.1

All-In-self :
    (facts more : List MemoryFact)
    → ((g : MemoryFact) → In g facts → In g more)
    → All (λ g. In g more) facts
All-In-self [] more sub = tt
All-In-self (x ∷ xs) more sub = (sub x (inl refl), All-In-self xs more (λ g m. sub g (inr m)))

-- The facts that are kept have distinct keys and are facts of the exchange, and each fact of the
-- exchange is outweighed by one of its key that is kept.
pub dedupe_facts-best :
    (facts : List MemoryFact)
    → HaveDistinctKeys (dedupe_facts facts)
      × All (λ g. In g facts) (dedupe_facts facts)
      × All (Covers (dedupe_facts facts)) facts
unfolding dedupe_facts
dedupe_facts-best facts = (
  dedupe_from-HaveDistinctKeys [] facts tt,
  dedupe_from-All (λ g. In g facts) [] facts tt (All-In-self facts facts (λ g m. m)),
  dedupe_from-Covers-All [] facts,
)
