-- ===== src/Routing/Spend/Candidates.antt =====
-- The models among which the spend controls choose.
use psychic_octo_invention.Prelude.{
  ℕ, ◌≤◌, ◌≡◌, refl, inl, inr, Bool, true, false, List, [], ◌∷◌, ◌++◌, arith, String, All,
  All-append, any, ◌==◌, eq_iff, Bool-cases, head?, some,
}
use psychic_octo_invention.Routing.Types.{
  ModelTier, cheap, standard, strong, RoutingDecision, RoutingSettings,
}
use psychic_octo_invention.Routing.Router.{default_cheap, resolve_tier_model}
use psychic_octo_invention.Routing.Router.Laws.{rank}
use psychic_octo_invention.Routing.Pricing.{estimate_llm_cost}
use psychic_octo_invention.Routing.Spend.{
  is_cheap, CandidateSelection, push_candidate, usable, tier_order, push_usable, push_tiers,
  build_candidate_selections,
}

-- No model is listed twice.
abbrev pub AreDistinct : List CandidateSelection → Type 0
AreDistinct [] = Unit
AreDistinct (c ∷ cs) = (any (λ x. x.model == c.model) cs ≡ false) × AreDistinct cs

any-append :
    (p : CandidateSelection → Bool) (xs : List CandidateSelection) (y : CandidateSelection)
    → any p xs ≡ false
    → p y ≡ false
    → any p (xs ++ (y ∷ [])) ≡ false
any-append p [] y h k = ground arith
any-append p (x ∷ xs) y h k = ground (arith, any-append p xs y)

AreDistinct-append :
    (cs : List CandidateSelection) (y : CandidateSelection)
    → AreDistinct cs
    → any (λ x. x.model == y.model) cs ≡ false
    → AreDistinct (cs ++ (y ∷ []))
AreDistinct-append [] y d h = (refl, tt)
AreDistinct-append (c ∷ cs) y d h = (
  any-append (λ x. x.model == c.model) cs y d.0
      (ground (arith, eq_iff y.model c.model, eq_iff c.model y.model)),
  AreDistinct-append cs y d.1 (ground arith),
)

module _ (routing : RoutingDecision) (settings : RoutingSettings) (prompt completion : ℕ) where
  -- A model that may answer, at no higher tier than the routed one, with its estimate.
  pub record IsCandidate (c : CandidateSelection) : Type 0 where
    pub may_answer : usable routing.signals c.model ≡ true
    pub tier_le : rank c.tier ≤ rank routing.tier
    pub estimate : c.estimated_cost ≡ estimate_llm_cost c.model prompt completion

  abbrev pub AreCandidates : List CandidateSelection → Type 0
  AreCandidates cs = All IsCandidate cs × AreDistinct cs

  push_candidate-AreCandidates :
      (cs : List CandidateSelection) (model : String) (tier : ModelTier)
      → usable routing.signals model ≡ true
      → rank tier ≤ rank routing.tier
      → AreCandidates cs
      → AreCandidates (push_candidate prompt completion cs model tier)
  unfolding push_candidate
  push_candidate-AreCandidates cs model tier ok le h =
      elim (Bool-cases (any (λ c. c.model == model) cs)) [
        | inl listed ↦ rw listed h
        | inr fresh ↦ rw fresh (
          All-append IsCandidate cs _ h.0
              (record { may_answer = ok; tier_le = le; estimate = refl }, tt),
          AreDistinct-append cs _ h.1 fresh,
        )
      ]

  push_usable-AreCandidates :
      (cs : List CandidateSelection) (model : String) (tier : ModelTier)
      → rank tier ≤ rank routing.tier
      → AreCandidates cs
      → AreCandidates (push_usable routing settings prompt completion cs model tier)
  unfolding push_usable
  push_usable-AreCandidates cs model tier le h = elim (Bool-cases (usable routing.signals model)) [
    | inl ok ↦ rw ok (push_candidate-AreCandidates cs model tier ok le h)
    | inr refused ↦ rw refused h
  ]

  push_tiers-AreCandidates :
      (cs : List CandidateSelection) (tiers : List ModelTier)
      → All (λ t. rank t ≤ rank routing.tier) tiers
      → AreCandidates cs
      → AreCandidates (push_tiers routing settings prompt completion cs tiers)
  unfolding push_tiers
  push_tiers-AreCandidates cs [] le h = h
  push_tiers-AreCandidates cs (t ∷ ts) le h =
      push_tiers-AreCandidates
        (push_usable routing settings prompt completion cs
          (resolve_tier_model t routing.signals settings) t)
        ts le.1
        (push_usable-AreCandidates cs (resolve_tier_model t routing.signals settings) t le.0 h)

tier_order-le : (tier : ModelTier) → All (λ t. rank t ≤ rank tier) (tier_order tier)
unfolding tier_order
tier_order-le cheap = omega arith
tier_order-le standard = omega arith
tier_order-le strong = omega arith

module _ (routing : RoutingDecision) (settings : RoutingSettings) (prompt completion : ℕ) where
  abbrev current : List CandidateSelection
  current = push_usable routing settings prompt completion [] routing.model routing.tier

  current-AreCandidates : AreCandidates routing settings prompt completion current
  current-AreCandidates =
      push_usable-AreCandidates routing settings prompt completion [] routing.model routing.tier
        (omega arith) (tt, tt)

  -- Every candidate may answer, is at no higher tier than the routed model and carries the estimate
  -- of its own cost, and no model is a candidate twice.
  pub build_candidate_selections-AreCandidates :
      (allow_downgrade : Bool)
      → AreCandidates routing settings prompt completion
          (build_candidate_selections routing settings prompt completion allow_downgrade)
  unfolding build_candidate_selections
  build_candidate_selections-AreCandidates false = current-AreCandidates
  build_candidate_selections-AreCandidates true =
      let lower =
        push_tiers-AreCandidates routing settings prompt completion current
          (tier_order routing.tier) (tier_order-le routing.tier) current-AreCandidates in
      elim (Bool-cases (is_cheap routing.tier)) [
        | inl e ↦ rw e lower
        | inr e ↦ rw e (
            push_usable-AreCandidates routing settings prompt completion _ default_cheap cheap
              (omega arith) lower)
      ]

  -- The only candidate without downgrades is the routed model.
  pub build_candidate_selections-current :
      All
        (λ c. c.model ≡ routing.model)
        (build_candidate_selections routing settings prompt completion false)
  unfolding build_candidate_selections push_usable push_candidate
  build_candidate_selections-current = elim (Bool-cases (usable routing.signals routing.model)) [
    | inl ok ↦ rw ok (refl, tt)
    | inr refused ↦ rw refused tt
  ]

  module _ (first : CandidateSelection) where
    push_usable-head :
        (cs : List CandidateSelection) (model : String) (tier : ModelTier)
        → head? cs ≡ some first
        → head? (push_usable routing settings prompt completion cs model tier) ≡ some first
    unfolding push_usable push_candidate
    push_usable-head [] model tier h = cc
    push_usable-head (c ∷ cs) model tier h = ground arith

    push_tiers-head :
        (cs : List CandidateSelection) (tiers : List ModelTier)
        → head? cs ≡ some first
        → head? (push_tiers routing settings prompt completion cs tiers) ≡ some first
    unfolding push_tiers
    push_tiers-head cs [] h = h
    push_tiers-head cs (t ∷ ts) h =
        push_tiers-head
          (push_usable routing settings prompt completion cs
            (resolve_tier_model t routing.signals settings) t)
          ts (push_usable-head cs (resolve_tier_model t routing.signals settings) t h)

  abbrev routed : CandidateSelection
  routed = record {
    model = routing.model;
    tier = routing.tier;
    estimated_cost = estimate_llm_cost routing.model prompt completion;
  }

  current-head : usable routing.signals routing.model ≡ true → head? current ≡ some routed
  unfolding push_usable push_candidate
  current-head ok = rw ok refl

  -- The routed model is tried first, if it may answer at all.
  pub build_candidate_selections-head :
      (allow_downgrade : Bool)
      → usable routing.signals routing.model ≡ true
      → head? (build_candidate_selections routing settings prompt completion allow_downgrade)
        ≡ some routed
  unfolding build_candidate_selections
  build_candidate_selections-head false ok = current-head ok
  build_candidate_selections-head true ok =
      let lower = push_tiers-head routed current (tier_order routing.tier) (current-head ok) in
      elim (Bool-cases (is_cheap routing.tier)) [
        | inl e ↦ rw e lower
        | inr e ↦ rw e (push_usable-head routed _ default_cheap cheap lower)
      ]
