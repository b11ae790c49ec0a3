-- ===== src/Routing/Router/Laws.antt =====
-- What the choice of a model guarantees: vision, tiers and escalation.
use psychic_octo_invention.Prelude.{
  ℕ, ◌≤◌, ◌<◌, ◌≡◌, refl, ◌⊎◌, ◌≢◌, true, false, Option, none, some, List, [], arith, String,
  text_length, to_lower_case, text_includes, codes, sym, ap, ◌∙◌, subst, ◌↔◌,
}
use psychic_octo_invention.Routing.Types.{
  ModelTier, cheap, standard, strong, InboundEvent, RoutingSignals, RoutingDecision,
  RoutingSettings, ToolDefinition,
}
use psychic_octo_invention.Routing.Signals.{analyze_signals, is_high_keyword}
use psychic_octo_invention.Routing.Signals.Laws.{analyze_signals-long, analyze_signals-low}
use psychic_octo_invention.Routing.Router.{
  default_standard, first_vision_model, model_supports_vision, looks_cheap, classify_tier,
  resolve_tier_model, select_model, route_model, escalate_model,
}

-- `cheap` below `standard` below `strong`.
abbrev pub rank : ModelTier → ℕ
rank cheap = 0
rank standard = 1
rank strong = 2

default_standard-supports_vision : model_supports_vision default_standard ≡ true
unfolding model_supports_vision
default_standard-supports_vision = refl

first_vision_model-supports_vision :
    (candidate standard_model strong_model : String)
    → model_supports_vision (first_vision_model candidate standard_model strong_model) ≡ true
unfolding first_vision_model
first_vision_model-supports_vision c s t = ground (arith, default_standard-supports_vision)

-- For a message that needs vision the model of every tier supports it, whatever the settings.
resolve_tier_model-supports_vision :
    (tier : ModelTier) (signals : RoutingSignals) (settings : RoutingSettings)
    → signals.requires_vision ≡ true
    → model_supports_vision (resolve_tier_model tier signals settings) ≡ true
unfolding resolve_tier_model
resolve_tier_model-supports_vision tier signals settings h =
    rw h (first_vision_model-supports_vision _ _ _)

select_model-supports_vision :
    (tier : ModelTier) (signals : RoutingSignals) (settings : RoutingSettings)
    → signals.requires_vision ≡ true
    → model_supports_vision (select_model tier signals settings) ≡ true
unfolding select_model
select_model-supports_vision tier signals settings h =
    ground (arith, resolve_tier_model-supports_vision tier signals settings)

-- Whatever the routing rules and the settings name, a message that needs vision is routed to a model
-- that supports it.
pub route_model-supports_vision :
    (event : InboundEvent) (tools : List ToolDefinition) (escalated_from : Option String)
    (settings : RoutingSettings)
    → (analyze_signals event tools).requires_vision ≡ true
    → model_supports_vision (route_model event tools escalated_from settings).model ≡ true
unfolding route_model
route_model-supports_vision event tools escalated_from settings h =
    select_model-supports_vision _ (analyze_signals event tools) settings h

module _ (event : InboundEvent) (tools : List ToolDefinition) (settings : RoutingSettings) where
  -- An escalation is never escalated again.
  escalate_model-once :
      (current next : RoutingDecision)
      → escalate_model current event tools settings ≡ some next
      → (next.escalated_from ≡ some current.model)
        × (current.escalated_from ≡ none)
        × (current.tier ≢ strong)
        × (escalate_model next event tools settings ≡ none)
  unfolding escalate_model route_model
  escalate_model-once current next h = ground arith

  -- An escalation is refused exactly at the strongest tier and of an earlier escalation.
  escalate_model-none_iff :
      (current : RoutingDecision)
      → (escalate_model current event tools settings ≡ none)
        ↔ ((current.tier ≡ strong) ⊎ (current.escalated_from ≢ none))
  unfolding escalate_model
  escalate_model-none_iff current = ground arith

  -- An escalation from the cheap tier, or from a model that the code does not take for a cheap one,
  -- reaches a higher tier.
  pub escalate_model-raises :
      (current next : RoutingDecision)
      → ((current.tier ≡ cheap) ⊎ (looks_cheap current.model ≡ false))
      → escalate_model current event tools settings ≡ some next
      → rank current.tier < rank next.tier
  unfolding escalate_model route_model classify_tier
  escalate_model-raises current next c h = ground arith

-- The cheap model answers only a message of at most 200 code units with no attachment and none of the
-- keywords of a complex request, which calls for no tool.
pub route_model-cheap :
    (event : InboundEvent) (tools : List ToolDefinition) (escalated_from : Option String)
    (settings : RoutingSettings)
    → (route_model event tools escalated_from settings).tier ≡ cheap
    → (escalated_from ≡ none)
      × (text_length event.text ≤ 200)
      × (event.attachments ≡ [])
      × (is_high_keyword (to_lower_case (codes event.text)) ≡ false)
      × ((analyze_signals event tools).requires_tool_use ≡ false)
unfolding route_model classify_tier
route_model-cheap event tools escalated_from settings h =
    ground (arith, analyze_signals-low event tools)

-- A message of more than 1500 code units is routed to the strongest tier.
route_model-long :
    (event : InboundEvent) (tools : List ToolDefinition) (settings : RoutingSettings)
    → 1500 < text_length event.text
    → (route_model event tools none settings).tier ≡ strong
unfolding route_model classify_tier
route_model-long event tools settings h = ground (arith, analyze_signals-long event tools)

classify_tier-looks_cheap :
    (signals : RoutingSignals) (model : String)
    → looks_cheap model ≡ true
    → classify_tier signals (some model) ≡ standard
unfolding classify_tier
classify_tier-looks_cheap signals model h = ground arith

looks_cheap-gemini :
    (model : String)
    → text_includes (codes model) (codes "gemini") ≡ true
    → looks_cheap model ≡ true
unfolding looks_cheap
looks_cheap-gemini model h = ground arith

-- If the standard tier is served by a model whose name contains "gemini", the escalation of its
-- failure is at the standard tier again and names the same model again.
pub escalate_model-gemini :
    (event : InboundEvent) (tools : List ToolDefinition) (settings : RoutingSettings)
    (current : RoutingDecision)
    → current ≡ route_model event tools none settings
    → current.tier ≡ standard
    → text_includes (codes current.model) (codes "gemini") ≡ true
    → (next : RoutingDecision) × (escalate_model current event tools settings ≡ some next)
      × (next.tier ≡ standard)
      × (next.model ≡ current.model)
unfolding escalate_model route_model
escalate_model-gemini event tools settings current e t g =
    let again : classify_tier (analyze_signals event tools) (some current.model) ≡ standard =
      classify_tier-looks_cheap _ current.model (looks_cheap-gemini current.model g) in
    let first : classify_tier (analyze_signals event tools) none ≡ standard =
      sym (ap (λ d. d.tier) e) ∙ t in
    let model : select_model standard (analyze_signals event tools) settings ≡ current.model =
      subst (λ tier. select_model tier (analyze_signals event tools) settings ≡ current.model) first
        (sym (ap (λ d. d.model) e)) in
    (route_model event tools (some current.model) settings, ground arith, again, rw again model)
