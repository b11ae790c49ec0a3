-- ===== src/Routing/Router/Tests.antt =====
-- Runs of the router, and the theorems about it at concrete messages and settings.
use psychic_octo_invention.Prelude.{◌≡◌, refl, ◌⊎◌, true, false, none, some, [], ◌∷◌, All, show}
use psychic_octo_invention.Json.{null, end}
use psychic_octo_invention.Routing.Types.{
  telegram, cheap, standard, strong, image, InboundEvent, RoutingDecision, RoutingRule,
  RoutingSettings, ToolDefinition,
}
use psychic_octo_invention.Routing.Phrases.{test_words, test_words_then}
use psychic_octo_invention.Routing.Signals.{
  analyze_signals, estimate_complexity, is_high_keyword, detect_follow_up_need,
  detect_tool_use_need, ghl_crm_wording, bookkeeping_wording, followup_wording, explicit_wording,
}
use psychic_octo_invention.Routing.Router.{
  model_supports_vision, default_models, looks_cheap, classify_tier, first_vision_model,
  resolve_tier_model, matches_routing_rule, insert_rule, sort_rules, matched_rule, select_model,
  build_reason, route_model, escalate_model,
}
use psychic_octo_invention.Routing.Router.Rules.{IsSelected, passes, matched_rule-IsSelected}
use psychic_octo_invention.Routing.Router.Laws.{route_model-supports_vision, escalate_model-gemini}

-- What a run of the router computes with.
run : Unit {0}
unfolding analyze_signals estimate_complexity is_high_keyword detect_follow_up_need
    detect_tool_use_need ghl_crm_wording bookkeeping_wording followup_wording explicit_wording
    test_words test_words_then model_supports_vision default_models looks_cheap classify_tier
    first_vision_model resolve_tier_model matches_routing_rule insert_rule sort_rules matched_rule
    select_model build_reason route_model escalate_model show
run = tt

abbrev settings : RoutingSettings
settings = record {
  primary_model = "google/gemini-2.5-pro";
  fallback_model = some "";
  max_cost_per_request = none;
  max_monthly_budget = none;
  routing_rules =
      record { pattern = " Tier:STRONG "; model = "a/low"; priority = 1 }
      ∷ record { pattern = "vision:true"; model = "b/text-only"; priority = 9 }
      ∷ record { pattern = "tier:strong"; model = "c/tie"; priority = 9 }
      ∷ [];
}

abbrev greeting : InboundEvent
greeting = record {
  channel = telegram;
  external_user_id = "7";
  external_user_name = none;
  external_thread_id = "7";
  conversation_id = none;
  text = "Hello!";
  attachments = [];
  metadata = end;
}

abbrev picture : InboundEvent
picture = record {
  channel = telegram;
  external_user_id = "7";
  external_user_name = none;
  external_thread_id = "7";
  conversation_id = none;
  text = "What is this?";
  attachments = record { kind = image; mime_type = none; url = some "u"; base64 = none } ∷ [];
  metadata = end;
}

abbrev code_question : InboundEvent
code_question = record {
  channel = telegram;
  external_user_id = "7";
  external_user_name = none;
  external_thread_id = "7";
  conversation_id = none;
  text = "Debug my function";
  attachments = [];
  metadata = end;
}

abbrev crm_request : InboundEvent
crm_request = record {
  channel = telegram;
  external_user_id = "7";
  external_user_name = none;
  external_thread_id = "7";
  conversation_id = none;
  text = "Find the lead Ann";
  attachments = [];
  metadata = end;
}

abbrev crm : ToolDefinition
crm = record { name = "ghl_crm"; description = ""; parameters = null }

routes :
    (route_model greeting [] none settings ≡ record {
      model = "google/gemini-2.5-flash";
      tier = cheap;
      provider = "openrouter";
      reason = "simple message; tier=cheap; msg_len=6";
      signals = analyze_signals greeting [];
      escalated_from = none;
    })
    × ((route_model picture [] none settings).model ≡ "google/gemini-2.5-pro")
    × ((route_model code_question [] none settings).tier ≡ standard)
    × ((analyze_signals crm_request (crm ∷ [])).requires_tool_use ≡ true)
unfolding run
routes = (refl, refl, refl, refl)

selected : select_model strong (analyze_signals greeting []) settings ≡ "c/tie"
unfolding run
selected = refl

-- The rule of a vision request is passed over: its model cannot see.
passed_over :
    matched_rule standard (analyze_signals picture []) settings.routing_rules
    ≡ some (record { pattern = "vision:true"; model = "b/text-only"; priority = 9 })
unfolding run
passed_over = refl

route_model-supports_vision_example :
    model_supports_vision (route_model picture [] none settings).model ≡ true
unfolding run
route_model-supports_vision_example = route_model-supports_vision picture [] none settings refl

matched_rule-IsSelected_example :
    ((matched_rule strong (analyze_signals greeting []) settings.routing_rules ≡ none)
      × All (λ r. passes strong (analyze_signals greeting []) r ≡ false) settings.routing_rules)
    ⊎ ((r : RoutingRule) × (matched_rule strong (analyze_signals greeting []) settings.routing_rules
          ≡ some r)
        × IsSelected (passes strong (analyze_signals greeting [])) r settings.routing_rules)
matched_rule-IsSelected_example =
    matched_rule-IsSelected strong (analyze_signals greeting []) settings.routing_rules

abbrev current : RoutingDecision
current = route_model code_question [] none settings

abbrev escalated : RoutingDecision
escalated = route_model code_question [] (some "google/gemini-2.5-pro") settings

escalate_model-gemini_example :
    (next : RoutingDecision) × (escalate_model current code_question [] settings ≡ some next)
    × (next.tier ≡ standard)
    × (next.model ≡ current.model)
unfolding run
escalate_model-gemini_example =
    escalate_model-gemini code_question [] settings current refl refl refl
