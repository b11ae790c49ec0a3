-- ===== src/Routing/Router.antt =====
-- apps/api/src/services/routing/model-router.ts: the tier of a message, the model of a tier, the
-- routing rules and the escalation to a stronger model. The settings are an argument, as they are in
-- the orchestrator's calls; log lines are left out.
pub mod Rules
pub mod Laws
mod Tests
use psychic_octo_invention.Prelude.{
  ℕ, String, Bool, true, false, not, ◌&&◌, ◌||◌, Option, none, some, List, [], ◌∷◌, ◌++◌, Text,
  codes, text_eq, text_includes, to_lower_case, trim, leb, any, head?, filter, includes,
  if◌then◌else◌, ◌==◌, ◌⧺◌, show, join,
}
use psychic_octo_invention.Routing.Types.{
  ModelTier, cheap, standard, strong, Complexity, low, medium, high, InboundEvent, RoutingSignals,
  RoutingDecision, RoutingRule, RoutingSettings, ToolDefinition,
}
use psychic_octo_invention.Routing.Signals.{analyze_signals}

abbrev pub default_cheap : String
default_cheap = "google/gemini-2.5-flash"

abbrev pub default_standard : String
default_standard = "anthropic/claude-sonnet-4"

abbrev pub default_strong : String
default_strong = "anthropic/claude-opus-4"

-- `DEFAULT_MODELS`
unfoldable pub default_models : ModelTier → String
default_models cheap = default_cheap
default_models standard = default_standard
default_models strong = default_strong

abbrev pub vision_models : List String
vision_models =
    "anthropic/claude-sonnet-4" ∷ "anthropic/claude-opus-4" ∷ "google/gemini-2.5-flash"
    ∷ "google/gemini-2.5-pro" ∷ "openai/gpt-4o" ∷ []

unfoldable pub model_supports_vision : String → Bool
model_supports_vision model = includes vision_models model

abbrev is_high : Complexity → Bool
is_high low = false
is_high medium = false
is_high high = true

abbrev is_medium : Complexity → Bool
is_medium low = false
is_medium medium = true
is_medium high = false

abbrev is_low : Complexity → Bool
is_low low = true
is_low medium = false
is_low high = false

abbrev is_cheap : ModelTier → Bool
is_cheap cheap = true
is_cheap standard = false
is_cheap strong = false

-- A model is from the cheap tier, as far as `classifyTier` can tell.
pub looks_cheap : String → Bool
looks_cheap model = model == default_cheap || text_includes (codes model) (codes "gemini")

pub classify_tier : RoutingSignals → Option String → ModelTier
unfolding looks_cheap
classify_tier signals (some model) = if looks_cheap model then standard else strong
classify_tier signals none =
    if signals.requires_vision
    then (if is_high signals.estimated_complexity then strong else standard)
    else if is_high signals.estimated_complexity
    then strong
    else if signals.requires_tool_use || is_medium signals.estimated_complexity
    then standard
    else cheap

-- `name || fallback`: the empty string counts as absent.
abbrev or_default : String → String → String
or_default name fallback = if name == "" then fallback else name

abbrev or_default? : Option String → String → String
or_default? none fallback = fallback
or_default? (some name) fallback = or_default name fallback

-- The model for a vision request: the candidate of the tier, or the next that supports vision.
unfoldable pub first_vision_model : String → String → String → String
first_vision_model candidate standard_model strong_model =
    if model_supports_vision candidate
    then candidate
    else if model_supports_vision standard_model
    then standard_model
    else if model_supports_vision strong_model
    then strong_model
    else default_standard

unfoldable pub resolve_tier_model : ModelTier → RoutingSignals → RoutingSettings → String
resolve_tier_model tier signals settings =
    let standard_model = or_default settings.primary_model default_standard in
    let strong_model = or_default? settings.fallback_model default_strong in
    let candidate : String = elim tier [
      | strong ↦ strong_model
      | cheap ↦ default_standard
      | standard ↦ standard_model
    ] in
    let by_tier : String = elim tier [
      | cheap ↦ default_cheap
      | standard ↦ if settings.primary_model == "" then default_models standard else standard_model
      | strong ↦ strong_model
    ] in
    if signals.requires_vision
    then first_vision_model candidate standard_model strong_model
    else by_tier

abbrev tier_name : ModelTier → String
tier_name cheap = "cheap"
tier_name standard = "standard"
tier_name strong = "strong"

pub matches_routing_rule : String → ModelTier → RoutingSignals → Bool
matches_routing_rule pattern tier signals =
    let lower = trim (to_lower_case (codes pattern)) in
    text_eq lower (codes ("tier:" ⧺ tier_name tier))
    || (text_eq lower (codes "vision:true") && signals.requires_vision)
    || (text_eq lower (codes "tools:true") && signals.requires_tool_use)
    || (text_eq lower (codes "complexity:high") && is_high signals.estimated_complexity)

-- `sort((a, b) => b.priority - a.priority)`, which is stable.
insert_rule : RoutingRule → List RoutingRule → List RoutingRule
insert_rule r [] = r ∷ []
insert_rule r (x ∷ xs) = if leb x.priority r.priority then r ∷ x ∷ xs else x ∷ insert_rule r xs

sort_rules : List RoutingRule → List RoutingRule
sort_rules [] = []
sort_rules (r ∷ rs) = insert_rule r (sort_rules rs)

-- The rule that `selectModel` reads: the first of the highest priority among those that match.
pub matched_rule : ModelTier → RoutingSignals → List RoutingRule → Option RoutingRule
unfolding sort_rules insert_rule
matched_rule tier signals rules =
    head? (sort_rules (filter (λ r. matches_routing_rule r.pattern tier signals) rules))

pub select_model : ModelTier → RoutingSignals → RoutingSettings → String
unfolding matched_rule
select_model tier signals settings = elim (matched_rule tier signals settings.routing_rules) [
  | none ↦ resolve_tier_model tier signals settings
  | some rule ↦
      if signals.requires_vision && not (model_supports_vision rule.model)
      then resolve_tier_model tier signals settings
      else rule.model
]

abbrev only_if : Bool → String → List String
only_if true part = part ∷ []
only_if false part = []

abbrev escalation_part : Option String → List String
escalation_part none = []
escalation_part (some model) = only_if (not (model == "")) ("Escalated from " ⧺ model)

pub build_reason : ModelTier → RoutingSignals → Option String → String
build_reason tier signals escalated_from = join "; " (
    escalation_part escalated_from
    ++ (only_if signals.requires_vision "vision required"
        ++ (only_if signals.requires_tool_use "tool use available"
            ++ (only_if (is_high signals.estimated_complexity) "high-complexity request"
                ++ (only_if (is_low signals.estimated_complexity && is_cheap tier) "simple message"
                    ++ (only_if signals.has_follow_up_need "conversational follow-up detected"
                        ++ (("tier=" ⧺ tier_name tier)
                            ∷ ("msg_len=" ⧺ show signals.message_length)
                            ∷ [])))))))

pub route_model :
    InboundEvent → List ToolDefinition → Option String → RoutingSettings → RoutingDecision
route_model event tools escalated_from settings =
    let signals = analyze_signals event tools in
    let tier = classify_tier signals escalated_from in
    record {
      model = select_model tier signals settings;
      tier = tier;
      provider = "openrouter";
      reason = build_reason tier signals escalated_from;
      signals = signals;
      escalated_from = escalated_from;
    }

abbrev pub is_strong : ModelTier → Bool
is_strong cheap = false
is_strong standard = false
is_strong strong = true

-- `null` where the decision is at the strongest tier or is an escalation already.
pub escalate_model :
    RoutingDecision → InboundEvent → List ToolDefinition → RoutingSettings → Option RoutingDecision
escalate_model current event tools settings =
    if is_strong current.tier then none else elim current.escalated_from [
      | some model ↦ none
      | none ↦ some (route_model event tools (some current.model) settings)
    ]
