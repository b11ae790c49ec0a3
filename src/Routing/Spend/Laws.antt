-- ===== src/Routing/Spend/Laws.antt =====
-- What an answer of the spend controls guarantees.
use psychic_octo_invention.Prelude.{
  ℕ, ◌≤◌, ◌≡◌, refl, sym, ap, ◌∙◌, ◌⊎◌, inl, inr, ◌≢◌, true, false, none, some, [], arith, All-In,
  In, find, find-satisfies, find-head, eq_iff, eq_refl, Option-cases, or_else,
}
use psychic_octo_invention.Routing.Router.{model_supports_vision}
use psychic_octo_invention.Routing.Router.Laws.{rank}
use psychic_octo_invention.Routing.Pricing.{
  estimate_llm_cost, calculate_affordable_max_completion_tokens,
}
use psychic_octo_invention.Routing.Pricing.Laws.{
  estimate_llm_cost-prompt, calculate_affordable_max_completion_tokens_bounds,
}
use psychic_octo_invention.Routing.Spend.{
  build_candidate_selections, SpendControlParams, CandidateSelection, append_spend_reason, usable,
  fits, prompt_tokens, completion_tokens, effective_cap, candidates, blocked_outcome,
  affordable_outcome, enforce_spend_controls,
}
use psychic_octo_invention.Routing.Spend.Candidates.{
  IsCandidate, AreCandidates, build_candidate_selections-current, build_candidate_selections-head,
  build_candidate_selections-AreCandidates,
}

module _ (params : SpendControlParams) where
  candidates-AreCandidates :
      AreCandidates params.routing params.settings
        (prompt_tokens params)
        (completion_tokens params)
        (candidates params)
  candidates-AreCandidates =
      build_candidate_selections-AreCandidates params.routing params.settings (prompt_tokens params)
        (completion_tokens params) (or_else params.allow_downgrade true)

  -- The candidate that answers under a cap, and what is known of it.
  record IsChosen (limit : ℕ) (c : CandidateSelection) : Type 0 where
    listed : In c (candidates params)
    valid :
        IsCandidate params.routing params.settings
          (prompt_tokens params)
          (completion_tokens params)
          c
    fitting : fits limit c ≡ true
    outcome : enforce_spend_controls params ≡ affordable_outcome params limit c

  -- Under a cap the outcome is a block, or that of a chosen candidate.
  cases :
      (limit : ℕ)
      → effective_cap params ≡ some limit
      → ((find (fits limit) (candidates params) ≡ none)
          × (enforce_spend_controls params ≡ blocked_outcome params limit))
        ⊎ ((c : CandidateSelection) × IsChosen limit c)
  unfolding enforce_spend_controls
  cases limit e = elim (Option-cases (find (fits limit) (candidates params))) [
    | inl absent ↦ inl (absent, ground arith)
    | inr (c, found) ↦
        let (listed, fitting) = find-satisfies (fits limit) (candidates params) found in
        inr (
          c,
          record {
            listed = listed;
            valid = All-In _ c (candidates params) candidates-AreCandidates.0 listed;
            fitting = fitting;
            outcome = ground arith;
          },
        )
  ]

  -- A candidate that fits has a known cost within the cap.
  fits_cost :
      (limit : ℕ) (c : CandidateSelection)
      → fits limit c ≡ true
      → (cost : ℕ) × (c.estimated_cost ≡ some cost) × (cost ≤ limit)
  fits_cost limit c h = elim (Option-cases c.estimated_cost) [
    | inl absent ↦ ground arith
    | inr (cost, e) ↦ (cost, e, ground arith)
  ]

  -- The most tokens that the chosen candidate may answer with.
  chosen_tokens :
      (limit : ℕ) (c : CandidateSelection)
      → IsChosen limit c
      → (m cost : ℕ) × (calculate_affordable_max_completion_tokens params.falls_short c.model
            (prompt_tokens params)
            limit
          ≡ some m)
        × (estimate_llm_cost c.model (prompt_tokens params) m ≡ some cost)
        × (cost ≤ limit)
  chosen_tokens limit c h =
      let (cost, e, le) = fits_cost limit c h.fitting in
      let (prompt_cost, ep, lp) =
        estimate_llm_cost-prompt c.model (prompt_tokens params) (completion_tokens params) cost
          (sym h.valid.estimate ∙ e) in
      let (m, paid, more, em, ec, ed, lc, ld) =
        calculate_affordable_max_completion_tokens_bounds params.falls_short c.model
          (prompt_tokens params) limit prompt_cost ep (omega arith) in
      (m, paid, em, ec, lc)

  -- The outcome names the chosen candidate, at a tier that is not raised.
  affordable_outcome-model :
      (limit : ℕ) (c : CandidateSelection)
      → (affordable_outcome params limit c).routing.model ≡ c.model
  unfolding affordable_outcome append_spend_reason
  affordable_outcome-model limit c = ground (arith, eq_iff c.model params.routing.model)

  affordable_outcome-tier :
      (limit : ℕ) (c : CandidateSelection)
      → rank c.tier ≤ rank params.routing.tier
      → rank (affordable_outcome params limit c).routing.tier ≤ rank params.routing.tier
  unfolding affordable_outcome append_spend_reason
  affordable_outcome-tier limit c h = ground arith

  affordable_outcome-tokens :
      (limit : ℕ) (c : CandidateSelection) (m : ℕ)
      → calculate_affordable_max_completion_tokens params.falls_short c.model
          (prompt_tokens params)
          limit
        ≡ some m
      → ((affordable_outcome params limit c).max_tokens ≡ some m)
        × ((affordable_outcome params limit c).blocked_reply ≡ none → 96 ≤ m)
        × (96 ≤ m → (affordable_outcome params limit c).blocked_reply ≡ none)
  unfolding affordable_outcome
  affordable_outcome-tokens limit c m e = ground arith

  blocked_outcome-blocks : (limit : ℕ) → (blocked_outcome params limit).blocked_reply ≢ none
  unfolding blocked_outcome
  blocked_outcome-blocks limit = ground arith

  -- Under a cap, a call that is let through has a token limit of at least 96, and its prompt with that
  -- many completion tokens costs no more than what is left of the caps.
  pub enforce_spend_controls-within_cap :
      (limit : ℕ)
      → effective_cap params ≡ some limit
      → (enforce_spend_controls params).blocked_reply ≡ none
      → (m cost : ℕ) × ((enforce_spend_controls params).max_tokens ≡ some m)
        × (96 ≤ m)
        × (estimate_llm_cost (enforce_spend_controls params).routing.model (prompt_tokens params) m
            ≡ some cost)
        × (cost ≤ limit)
  enforce_spend_controls-within_cap limit e h = elim (cases limit e) [
    | inl (absent, blocked) ↦
        absurd (blocked_outcome-blocks limit (sym (ap (λ o. o.blocked_reply) blocked) ∙ h))
    | inr (c, chosen) ↦
        let (m, cost, em, ec, lc) = chosen_tokens limit c chosen in
        let (tokens, minimum, _) = affordable_outcome-tokens limit c m em in
        (
          m,
          cost,
          ap (λ o. o.max_tokens) chosen.outcome ∙ tokens,
          minimum (sym (ap (λ o. o.blocked_reply) chosen.outcome) ∙ h),
          rw (chosen.outcome, affordable_outcome-model limit c) ec,
          lc,
        )
  ]

  blocked_outcome-tier :
      (limit : ℕ) → rank (blocked_outcome params limit).routing.tier ≤ rank params.routing.tier
  unfolding blocked_outcome append_spend_reason
  blocked_outcome-tier limit = omega arith

  blocked_outcome-model :
      (limit : ℕ) → (blocked_outcome params limit).routing.model ≡ params.routing.model
  unfolding blocked_outcome append_spend_reason
  blocked_outcome-model limit = refl

  -- Without caps the routing is kept and nothing is blocked or warned of.
  enforce_spend_controls-uncapped :
      effective_cap params ≡ none
      → ((enforce_spend_controls params).routing ≡ params.routing)
        × ((enforce_spend_controls params).blocked_reply ≡ none)
        × ((enforce_spend_controls params).max_tokens ≡ none)
        × ((enforce_spend_controls params).warnings ≡ [])
  unfolding enforce_spend_controls
  enforce_spend_controls-uncapped e = ground arith

  -- The tier is never raised, under no cap, under a cap and by a block.
  pub enforce_spend_controls-tier_le :
      rank (enforce_spend_controls params).routing.tier ≤ rank params.routing.tier
  enforce_spend_controls-tier_le = elim (Option-cases (effective_cap params)) [
    | inl free ↦ rw (enforce_spend_controls-uncapped free).0 (omega arith)
    | inr (limit, e) ↦ elim (cases limit e) [
      | inl (absent, blocked) ↦ rw blocked (blocked_outcome-tier limit)
      | inr (c, chosen) ↦ rw chosen.outcome (affordable_outcome-tier limit c chosen.valid.tier_le)
    ]
  ]

  -- Under a cap, a message that needs vision is let through only to a model that supports it.
  pub enforce_spend_controls-supports_vision :
      (limit : ℕ)
      → effective_cap params ≡ some limit
      → params.routing.signals.requires_vision ≡ true
      → (enforce_spend_controls params).blocked_reply ≡ none
      → model_supports_vision (enforce_spend_controls params).routing.model ≡ true
  unfolding usable
  enforce_spend_controls-supports_vision limit e v h = elim (cases limit e) [
    | inl (absent, blocked) ↦
        absurd (blocked_outcome-blocks limit (sym (ap (λ o. o.blocked_reply) blocked) ∙ h))
    | inr (c, chosen) ↦
        let ok = chosen.valid.may_answer in
        rw (chosen.outcome, affordable_outcome-model limit c) (ground arith)
  ]

  -- With downgrades forbidden the model is never changed, also by a block.
  pub enforce_spend_controls-no_downgrade :
      params.allow_downgrade ≡ some false
      → (enforce_spend_controls params).routing.model ≡ params.routing.model
  enforce_spend_controls-no_downgrade h = elim (Option-cases (effective_cap params)) [
    | inl free ↦ ap (λ r. r.model) (enforce_spend_controls-uncapped free).0
    | inr (limit, e) ↦ elim (cases limit e) [
      | inl (absent, blocked) ↦ rw blocked (blocked_outcome-model limit)
      | inr (c, chosen) ↦
          rw (chosen.outcome, affordable_outcome-model limit c)
            (All-In (λ x. x.model ≡ params.routing.model) c
              (build_candidate_selections params.routing params.settings (prompt_tokens params)
                (completion_tokens params) false)
              (build_candidate_selections-current params.routing params.settings
                (prompt_tokens params) (completion_tokens params))
              (rw h at chosen.listed))
    ]
  ]

  -- A routed model that may answer, whose estimate is within the cap and which can answer with 96
  -- tokens, is let through unchanged and without a warning.
  pub enforce_spend_controls-keeps :
      (limit cost m : ℕ)
      → effective_cap params ≡ some limit
      → usable params.routing.signals params.routing.model ≡ true
      → estimate_llm_cost params.routing.model (prompt_tokens params) (completion_tokens params)
        ≡ some cost
      → cost ≤ limit
      → calculate_affordable_max_completion_tokens params.falls_short params.routing.model
          (prompt_tokens params)
          limit
        ≡ some m
      → 96 ≤ m
      → ((enforce_spend_controls params).routing ≡ params.routing)
        × ((enforce_spend_controls params).blocked_reply ≡ none)
        × ((enforce_spend_controls params).max_tokens ≡ some m)
        × ((enforce_spend_controls params).warnings ≡ [])
  unfolding enforce_spend_controls affordable_outcome
  enforce_spend_controls-keeps limit cost m e ok ec le em lm =
      let c : CandidateSelection = record {
        model = params.routing.model;
        tier = params.routing.tier;
        estimated_cost =
            estimate_llm_cost params.routing.model (prompt_tokens params)
              (completion_tokens params);
      } in
      let head =
        build_candidate_selections-head params.routing params.settings (prompt_tokens params)
          (completion_tokens params) (or_else params.allow_downgrade true) ok in
      let found : find (fits limit) (candidates params) ≡ some c =
        find-head (fits limit) (candidates params) c head (ground arith) in
      ground (arith, eq_refl params.routing.model)
