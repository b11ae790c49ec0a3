-- ===== src/Routing/Router/Rules.antt =====
-- Which routing rule `selectModel` reads: the head of the filtered and sorted list, described
-- without filtering or sorting.
use psychic_octo_invention.Prelude.{
  ℕ, ◌≤◌, ◌<◌, ◌≡◌, refl, ◌⊎◌, inl, inr, Bool, true, false, Option, none, some, List, [], ◌∷◌, ◌++◌,
  arith, All, head?, filter, leb, ap, Bool-cases, Option-cases,
}
use psychic_octo_invention.Routing.Types.{ModelTier, RoutingSignals, RoutingRule}
use psychic_octo_invention.Routing.Router.{
  matches_routing_rule, insert_rule, sort_rules, matched_rule,
}

module _ (p : RoutingRule → Bool) where
  -- `r` passes, what passes before it has a lower priority, and what passes behind it no higher one.
  pub record IsSelected (r : RoutingRule) (rules : List RoutingRule) : Type 0 where
    pub before : List RoutingRule
    pub after : List RoutingRule
    pub split : rules ≡ before ++ (r ∷ after)
    pub passes : p r ≡ true
    pub above : All (λ x. p x ≡ true → x.priority < r.priority) before
    not_below : All (λ x. p x ≡ true → x.priority ≤ r.priority) after

  -- The head of the sorted list, step by step.
  head-insert_rule :
      (r : RoutingRule) (xs : List RoutingRule)
      → head? (insert_rule r xs) ≡ elim (head? xs) [
        | none ↦ some r
        | some x ↦ elim (leb x.priority r.priority) [ true ↦ some r | false ↦ some x ]
      ]
  unfolding insert_rule
  head-insert_rule r [] = refl
  head-insert_rule r (x ∷ xs) = ground arith

  abbrev best : List RoutingRule → Option RoutingRule
  best rules = head? (sort_rules (filter p rules))

  IsSelected-weaken :
      (r y : RoutingRule) (rules : List RoutingRule)
      → IsSelected y rules
      → (p r ≡ true → r.priority < y.priority)
      → IsSelected y (r ∷ rules)
  IsSelected-weaken r y rules s lower = record {
    before = r ∷ s.before;
    after = s.after;
    split = ap (λ l. r ∷ l) s.split;
    passes = s.passes;
    above = (lower, s.above);
    not_below = s.not_below;
  }

  -- Every rule that passes has a priority of at most `k`.
  abbrev Bounded : ℕ → List RoutingRule → Type 0
  Bounded k = All (λ x. p x ≡ true → x.priority ≤ k)

  Bounded-append :
      (k : ℕ) (xs ys : List RoutingRule) → Bounded k xs → Bounded k ys → Bounded k (xs ++ ys)
  Bounded-append k [] ys h g = g
  Bounded-append k (x ∷ xs) ys h g = (h.0, Bounded-append k xs ys h.1 g)

  Bounded-mono : (j k : ℕ) (xs : List RoutingRule) → j ≤ k → Bounded j xs → Bounded k xs
  Bounded-mono j k [] le h = tt
  Bounded-mono j k (x ∷ xs) le h = ((λ q. omega (arith, h.0 q)), Bounded-mono j k xs le h.1)

  Bounded-of_above :
      (k : ℕ) (xs : List RoutingRule) → All (λ x. p x ≡ true → x.priority < k) xs → Bounded k xs
  Bounded-of_above k [] h = tt
  Bounded-of_above k (x ∷ xs) h = ((λ q. omega (arith, h.0 q)), Bounded-of_above k xs h.1)

  IsSelected-Bounded :
      {y : RoutingRule} {rules : List RoutingRule} → IsSelected y rules → Bounded y.priority rules
  IsSelected-Bounded {y} s = rw s.split (
      Bounded-append y.priority s.before (y ∷ s.after)
        (Bounded-of_above y.priority s.before s.above) ((λ q. omega arith), s.not_below))

  -- What `best` says of a list: no rule passes, or it is the one selected.
  abbrev Describes : Option RoutingRule → List RoutingRule → Type 0
  Describes none rules = All (λ x. p x ≡ false) rules
  Describes (some r) rules = IsSelected r rules

  none-Bounded : (k : ℕ) (rules : List RoutingRule) → All (λ x. p x ≡ false) rules → Bounded k rules
  none-Bounded k [] h = tt
  none-Bounded k (x ∷ xs) h = ((λ q. cc), none-Bounded k xs h.1)

  here :
      (r : RoutingRule) (rules : List RoutingRule)
      → p r ≡ true
      → Bounded r.priority rules
      → IsSelected r (r ∷ rules)
  here r rules e h = record {
    before = [];
    after = rules;
    split = refl;
    passes = e;
    above = tt;
    not_below = h;
  }

  step :
      (r : RoutingRule) (rules : List RoutingRule) (o : Option RoutingRule)
      → Describes o rules
      → p r ≡ true
      → Describes
          (elim o [
            | none ↦ some r
            | some x ↦ elim (leb x.priority r.priority) [ true ↦ some r | false ↦ some x ]
          ])
          (r ∷ rules)
  step r rules none d e = here r rules e (none-Bounded r.priority rules d)
  step r rules (some x) d e = elim (Bool-cases (leb x.priority r.priority)) [
    | inl le ↦ rw le (
        here r rules e
          (Bounded-mono x.priority r.priority rules (ground arith) (IsSelected-Bounded d)))
    | inr gt ↦ rw gt (IsSelected-weaken r x rules d (λ q. ground arith))
  ]

  skip :
      (r : RoutingRule) (rules : List RoutingRule) (o : Option RoutingRule)
      → Describes o rules
      → p r ≡ false
      → Describes o (r ∷ rules)
  skip r rules none d e = (e, d)
  skip r rules (some x) d e = IsSelected-weaken r x rules d (λ q. cc)

  best-Describes : (rules : List RoutingRule) → Describes (best rules) rules
  unfolding sort_rules
  best-Describes [] = tt
  best-Describes (r ∷ rules) = elim (Bool-cases (p r)) [
    | inl e ↦ rw (e, head-insert_rule) (step r rules (best rules) (best-Describes rules) e)
    | inr e ↦ rw e (skip r rules (best rules) (best-Describes rules) e)
  ]

abbrev pub passes : ModelTier → RoutingSignals → RoutingRule → Bool
passes tier signals r = matches_routing_rule r.pattern tier signals

-- The rule that is read is found at its place in the settings: it matches, every matching rule before
-- it has a lower priority, and no matching rule behind it has a higher one. If none is read, no rule
-- of the settings matches.
pub matched_rule-IsSelected :
    (tier : ModelTier) (signals : RoutingSignals) (rules : List RoutingRule)
    → ((matched_rule tier signals rules ≡ none) × All (λ r. passes tier signals r ≡ false) rules)
      ⊎ ((r : RoutingRule) × (matched_rule tier signals rules ≡ some r)
          × IsSelected (passes tier signals) r rules)
unfolding matched_rule
matched_rule-IsSelected tier signals rules =
    let d = best-Describes (passes tier signals) rules in
    elim (Option-cases (matched_rule tier signals rules)) [
      | inl e ↦ inl (e, rw e at d)
      | inr (r, e) ↦ inr (r, e, rw e at d)
    ]
