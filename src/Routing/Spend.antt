-- ===== src/Routing/Spend.antt =====
-- apps/api/src/services/routing/spend-controls.ts: the budget checks before a call of the provider.
-- Caps and costs are in 1e-8 USD; log lines are left out.
pub mod Candidates
pub mod Laws
pub mod Caps
mod Tests
use psychic_octo_invention.Prelude.{
  ℕ, ◌+◌, ◌-◌, ◌/◌, ◌%◌, min, String, Bool, true, false, not, ◌&&◌, ◌||◌, Option, none, some, List,
  [], ◌∷◌, ◌++◌, leb, ltb, eqb, any, find, head?, or_else, if◌then◌else◌, ◌==◌, ◌⧺◌, show, join,
}
use psychic_octo_invention.Routing.Types.{
  ModelTier, cheap, standard, strong, RoutingSignals, RoutingDecision, RoutingSettings,
  ToolDefinition, Message,
}
use psychic_octo_invention.Routing.Router.{default_cheap, model_supports_vision, resolve_tier_model}
use psychic_octo_invention.Routing.Pricing.{
  estimate_llm_cost, estimate_prompt_tokens, estimate_completion_tokens,
  calculate_affordable_max_completion_tokens,
}

pub data Stage : Type 0 where
  initial follow_up : Stage

pub record SpendControlOutcome : Type 0 where
  pub routing : RoutingDecision
  pub warnings : List String
  pub blocked_reply : Option String
  pub max_tokens : Option ℕ
  pub estimated_cost : Option ℕ

-- The parameters, with the division of the runtime (`floor_quotient`).
pub record SpendControlParams : Type 0 where
  pub stage : Stage
  pub routing : RoutingDecision
  pub settings : RoutingSettings
  pub messages : List Message
  pub tools : List ToolDefinition
  pub monthly_cost_so_far : Option ℕ
  pub request_cost_spent : Option ℕ
  pub allow_downgrade : Option Bool
  pub falls_short : ℕ → ℕ → ℕ → Bool

pub record CandidateSelection : Type 0 where
  pub model : String
  pub tier : ModelTier
  pub estimated_cost : Option ℕ

abbrev pub min_completion_tokens : ℕ
min_completion_tokens = 96

abbrev pub blocked_text : String
blocked_text =
    "I'm temporarily unable to process this request because the configured AI budget limit has been reached. Please try again later or ask an admin to adjust the budget settings."

abbrev is_follow_up : Stage → Bool
is_follow_up initial = false
is_follow_up follow_up = true

abbrev is_cheap : ModelTier → Bool
is_cheap cheap = true
is_cheap standard = false
is_cheap strong = false

-- `Math.max(0, limit - spent)`: subtraction on ℕ stops at 0.
pub normalize_remaining_budget : Option ℕ → Option ℕ → Option ℕ
normalize_remaining_budget none spent = none
normalize_remaining_budget (some limit) spent = some (limit - or_else spent 0)

pub min_defined : Option ℕ → Option ℕ → Option ℕ
min_defined none right = right
min_defined (some l) none = some l
min_defined (some l) (some r) = some (min l r)

-- The amount in USD with four decimals, `toFixed(4)`; a tie is rounded up.
four_digits : ℕ → String
four_digits n = show (n / 1000) ⧺ show (n / 100 % 10) ⧺ show (n / 10 % 10) ⧺ show (n % 10)

to_fixed4 : ℕ → String
to_fixed4 cost = let n = (cost + 5000) / 10000 in show (n / 10000) ⧺ "." ⧺ four_digits (n % 10000)

stage_name : Stage → String
stage_name initial = "initial"
stage_name follow_up = "follow_up"

abbrev limit_part : String → Option ℕ → List String
limit_part label none = []
limit_part label (some left) = (label ⧺ " remaining $" ⧺ to_fixed4 left) ∷ []

build_cap_warning : Stage → Option ℕ → Option ℕ → String
build_cap_warning stage request_left monthly_left =
    (if is_follow_up stage
      then "Follow-up LLM call blocked by spend controls"
      else "LLM request blocked by spend controls")
    ⧺ " ("
    ⧺ join ", " (limit_part "per-request" request_left ++ limit_part "monthly" monthly_left)
    ⧺ ")"

abbrev estimate_label : Option ℕ → String
estimate_label none = "unknown"
estimate_label (some cost) = "$" ⧺ to_fixed4 cost

pub append_spend_reason :
    RoutingDecision → String → Option ℕ → ℕ → Stage → ModelTier → RoutingDecision
append_spend_reason routing model estimated_cost effective_cap stage tier = record routing {
  model = model;
  tier = tier;
  reason =
      routing.reason
      ⧺ "; spend_cap_"
      ⧺ stage_name stage
      ⧺ "<="
      ⧺ to_fixed4 effective_cap
      ⧺ "; estimated_cost="
      ⧺ estimate_label estimated_cost;
}

downgrade_warning : Stage → String → String → String
downgrade_warning stage from to =
    "Spend controls downgraded "
    ⧺ (if is_follow_up stage then "follow-up " else "")
    ⧺ "model from "
    ⧺ from
    ⧺ " to "
    ⧺ to
    ⧺ "."

-- The candidates are tried in their order, and each model once.
pub push_candidate : ℕ → ℕ → List CandidateSelection → String → ModelTier → List CandidateSelection
push_candidate prompt_tokens completion_tokens candidates model tier =
    if any (λ c. c.model == model) candidates
    then candidates
    else candidates
      ++ (record {
        model = model;
        tier = tier;
        estimated_cost = estimate_llm_cost model prompt_tokens completion_tokens;
      }
          ∷ [])

-- A model may answer where no vision is needed or it supports it.
pub usable : RoutingSignals → String → Bool
usable signals model = not signals.requires_vision || model_supports_vision model

pub tier_order : ModelTier → List ModelTier
tier_order strong = strong ∷ standard ∷ cheap ∷ []
tier_order standard = standard ∷ cheap ∷ []
tier_order cheap = cheap ∷ []

module _ (routing : RoutingDecision) (settings : RoutingSettings) (prompt completion : ℕ) where
  pub push_usable : List CandidateSelection → String → ModelTier → List CandidateSelection
  push_usable candidates model tier =
      if usable routing.signals model
      then push_candidate prompt completion candidates model tier
      else candidates

  -- The loop over the tiers.
  pub push_tiers : List CandidateSelection → List ModelTier → List CandidateSelection
  push_tiers candidates [] = candidates
  push_tiers candidates (tier ∷ tiers) =
      push_tiers (push_usable candidates (resolve_tier_model tier routing.signals settings) tier)
        tiers

  pub build_candidate_selections : Bool → List CandidateSelection
  build_candidate_selections allow_downgrade =
      let current = push_usable [] routing.model routing.tier in
      let lower = push_tiers current (tier_order routing.tier) in
      if allow_downgrade
      then (if is_cheap routing.tier then lower else push_usable lower default_cheap cheap)
      else current

abbrev pub fits : ℕ → CandidateSelection → Bool
fits effective_cap candidate = elim candidate.estimated_cost [
  | none ↦ false
  | some cost ↦ leb cost effective_cap
]

abbrev below_minimum : Option ℕ → Bool
below_minimum none = false
below_minimum (some n) = ltb n min_completion_tokens

abbrev first_estimate : List CandidateSelection → Option ℕ
first_estimate [] = none
first_estimate (c ∷ cs) = c.estimated_cost

module _ (params : SpendControlParams) where
  abbrev pub prompt_tokens : ℕ
  prompt_tokens = estimate_prompt_tokens params.messages params.tools

  abbrev pub completion_tokens : ℕ
  completion_tokens = estimate_completion_tokens params.routing.signals (is_follow_up params.stage)

  abbrev request_cap_remaining : Option ℕ
  request_cap_remaining =
      normalize_remaining_budget params.settings.max_cost_per_request params.request_cost_spent

  abbrev monthly_cap_remaining : Option ℕ
  monthly_cap_remaining =
      normalize_remaining_budget params.settings.max_monthly_budget params.monthly_cost_so_far

  abbrev pub effective_cap : Option ℕ
  effective_cap = min_defined request_cap_remaining monthly_cap_remaining

  abbrev pub candidates : List CandidateSelection
  candidates =
      build_candidate_selections params.routing params.settings prompt_tokens completion_tokens
        (or_else params.allow_downgrade true)

  abbrev cap_warning : String
  cap_warning = build_cap_warning params.stage request_cap_remaining monthly_cap_remaining

  -- No candidate is affordable.
  blocked_outcome : ℕ → SpendControlOutcome
  blocked_outcome cap_left = record {
    routing =
        append_spend_reason params.routing params.routing.model (first_estimate candidates) cap_left
          params.stage params.routing.tier;
    warnings = cap_warning ∷ [];
    blocked_reply = some blocked_text;
    max_tokens = none;
    estimated_cost = first_estimate candidates;
  }

  -- The first affordable candidate is taken, unless it can answer too little.
  affordable_outcome : ℕ → CandidateSelection → SpendControlOutcome
  affordable_outcome cap_left affordable =
      let same = affordable.model == params.routing.model in
      let routing : RoutingDecision =
        if same
        then params.routing
        else append_spend_reason params.routing affordable.model affordable.estimated_cost cap_left
            params.stage affordable.tier in
      let warnings : List String =
        if same
        then []
        else downgrade_warning params.stage params.routing.model affordable.model ∷ [] in
      let max_tokens =
        calculate_affordable_max_completion_tokens params.falls_short affordable.model prompt_tokens
          cap_left in
      let blocked = below_minimum max_tokens in
      record {
        routing = routing;
        warnings = if blocked then warnings ++ (cap_warning ∷ []) else warnings;
        blocked_reply = if blocked then some blocked_text else none;
        max_tokens = max_tokens;
        estimated_cost = affordable.estimated_cost;
      }

  pub enforce_spend_controls : SpendControlOutcome
  enforce_spend_controls = elim effective_cap [
    | none ↦ record {
      routing = params.routing;
      warnings = [];
      blocked_reply = none;
      max_tokens = none;
      estimated_cost = first_estimate candidates;
    }
    | some cap_left ↦ elim (find (fits cap_left) candidates) [
      | none ↦ blocked_outcome cap_left
      | some affordable ↦ affordable_outcome cap_left affordable
    ]
  ]
