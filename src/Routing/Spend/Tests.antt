-- ===== src/Routing/Spend/Tests.antt =====
-- Runs of the spend controls, and the theorems about them at a concrete request.
use psychic_octo_invention.Prelude.{
  codes, ℕ, ◌≤◌, ◌≡◌, refl, true, false, Bool, Option, none, some, [], ◌∷◌, show, arith,
}
use psychic_octo_invention.Routing.Types.{
  user, strong, low, RoutingDecision, RoutingSettings, RoutingSignals,
}
use psychic_octo_invention.Routing.Router.{
  model_supports_vision, default_models, first_vision_model, resolve_tier_model,
}
use psychic_octo_invention.Routing.Pricing.{
  estimate_llm_cost, floor_quotient, calculate_affordable_max_completion_tokens,
  estimate_prompt_tokens, estimate_completion_tokens, resolve_model_pricing, family_pricing,
  exact_pricing, normalize_model_name, strip_free, message_tokens, tool_tokens, tool_shape,
}
use psychic_octo_invention.Routing.Spend.{
  initial, SpendControlParams, normalize_remaining_budget, min_defined, four_digits, to_fixed4,
  stage_name, build_cap_warning, append_spend_reason, downgrade_warning, push_candidate, usable,
  tier_order, push_usable, push_tiers, build_candidate_selections, blocked_outcome,
  affordable_outcome, enforce_spend_controls, prompt_tokens,
}
use psychic_octo_invention.Routing.Spend.Laws.{
  enforce_spend_controls-within_cap, enforce_spend_controls-supports_vision,
  enforce_spend_controls-keeps,
}

run : Unit {0}
unfolding model_supports_vision default_models first_vision_model resolve_tier_model
    estimate_llm_cost floor_quotient calculate_affordable_max_completion_tokens
    estimate_prompt_tokens estimate_completion_tokens resolve_model_pricing family_pricing
    exact_pricing normalize_model_name strip_free message_tokens tool_tokens tool_shape
    normalize_remaining_budget min_defined four_digits to_fixed4 stage_name build_cap_warning
    append_spend_reason downgrade_warning push_candidate usable tier_order push_usable push_tiers
    build_candidate_selections blocked_outcome affordable_outcome enforce_spend_controls show
run = tt

abbrev signals : Bool → RoutingSignals
signals vision = record {
  message_length = 40;
  has_attachments = vision;
  requires_vision = vision;
  requires_tool_use = false;
  estimated_complexity = low;
  has_follow_up_need = false;
}

abbrev opus : RoutingDecision
opus = record {
  model = "anthropic/claude-opus-4";
  tier = strong;
  provider = "openrouter";
  reason = "r";
  signals = signals true;
  escalated_from = none;
}

abbrev settings : ℕ → RoutingSettings
settings per_request = record {
  primary_model = "anthropic/claude-sonnet-4";
  fallback_model = none;
  max_cost_per_request = some per_request;
  max_monthly_budget = some 100000000;
  routing_rules = [];
}

abbrev request : ℕ → Option Bool → SpendControlParams
request per_request allow_downgrade = record {
  stage = initial;
  routing = opus;
  settings = settings per_request;
  messages =
      record {
        role = user;
        content = codes "What does this picture show, and where is it?";
        images = 1;
        tool_calls = [];
        tool_call_id = none;
      }
      ∷ [];
  tools = [];
  monthly_cost_so_far = some 90000000;
  request_cost_spent = none;
  allow_downgrade = allow_downgrade;
  falls_short = λ cap prompt price. false;
}

-- The prompt is 1112 tokens and the completion 380. Opus costs 0.04518 USD, Sonnet 0.009036 and
-- Flash 0.00026320.
outcomes :
    ((enforce_spend_controls (request 5000000 none)).routing ≡ opus)
    × ((enforce_spend_controls (request 1000000 none)).routing.model ≡ "anthropic/claude-sonnet-4")
    × ((enforce_spend_controls (request 1000000 none)).routing.reason
        ≡ "r; spend_cap_initial<=0.0100; estimated_cost=$0.0090")
    × ((enforce_spend_controls (request 1000000 none)).max_tokens ≡ some 444)
    × ((enforce_spend_controls (request 1000000 (some false))).warnings
        ≡ "LLM request blocked by spend controls (per-request remaining $0.0100, monthly remaining $0.1000)"
          ∷ [])
unfolding run
outcomes = (refl, refl, refl, refl, refl)

enforce_spend_controls-within_cap_example :
    (m cost : ℕ) × ((enforce_spend_controls (request 1000000 none)).max_tokens ≡ some m)
    × (96 ≤ m)
    × (estimate_llm_cost
          (enforce_spend_controls (request 1000000 none)).routing.model
          (prompt_tokens (request 1000000 none))
          m
        ≡ some cost)
    × (cost ≤ 1000000)
unfolding run
enforce_spend_controls-within_cap_example =
    enforce_spend_controls-within_cap (request 1000000 none) 1000000 refl refl

enforce_spend_controls-supports_vision_example :
    model_supports_vision (enforce_spend_controls (request 1000000 none)).routing.model ≡ true
unfolding run
enforce_spend_controls-supports_vision_example =
    enforce_spend_controls-supports_vision (request 1000000 none) 1000000 refl refl refl

enforce_spend_controls-keeps_example :
    ((enforce_spend_controls (request 5000000 none)).routing ≡ opus)
    × ((enforce_spend_controls (request 5000000 none)).blocked_reply ≡ none)
    × ((enforce_spend_controls (request 5000000 none)).max_tokens ≡ some 444)
    × ((enforce_spend_controls (request 5000000 none)).warnings ≡ [])
unfolding run
enforce_spend_controls-keeps_example =
    enforce_spend_controls-keeps (request 5000000 none) 5000000 4518000 444 refl refl refl
      (omega arith) refl (omega arith)
