-- ===== src/Routing/Spend/Caps.antt =====
-- The two caps as bounds of what is left for a call.
use psychic_octo_invention.Prelude.{
  ℕ, ◌-◌, ◌≤◌, ◌≡◌, refl, some, arith, or_else, Option-cases, inl, inr,
}
use psychic_octo_invention.Routing.Spend.{
  SpendControlParams, effective_cap, normalize_remaining_budget, min_defined,
}

module _ (params : SpendControlParams) where
  pub effective_cap-request :
      (cap : ℕ)
      → params.settings.max_cost_per_request ≡ some cap
      → (limit : ℕ) × (effective_cap params ≡ some limit)
        × (limit ≤ cap - or_else params.request_cost_spent 0)
  unfolding normalize_remaining_budget min_defined
  effective_cap-request cap e = elim (Option-cases params.settings.max_monthly_budget) [
    | inl free ↦ rw (e, free) (_, refl, omega arith)
    | inr (budget, b) ↦ rw (e, b) (_, refl, omega arith)
  ]

  pub effective_cap-monthly :
      (budget month : ℕ)
      → params.settings.max_monthly_budget ≡ some budget
      → params.monthly_cost_so_far ≡ some month
      → (limit : ℕ) × (effective_cap params ≡ some limit) × (limit ≤ budget - month)
  unfolding normalize_remaining_budget min_defined
  effective_cap-monthly budget month e m =
      elim (Option-cases params.settings.max_cost_per_request) [
        | inl free ↦ rw (e, m, free) (_, refl, omega arith)
        | inr (cap, b) ↦ rw (e, m, b) (_, refl, omega arith)
      ]
