-- ===== src/Routing/Pricing/Tests.antt =====
-- Prices and estimates of concrete calls.
use psychic_octo_invention.Prelude.{
  codes, ℕ, ◌+◌, ◌≤◌, ◌<◌, ◌≡◌, refl, ◌⊎◌, Bool, true, false, none, some, [], ◌∷◌, arith,
}
use psychic_octo_invention.Json.{stringify, obj, end}
use psychic_octo_invention.Routing.Types.{user, Message, ToolDefinition}
use psychic_octo_invention.Routing.Pricing.{
  strip_free, normalize_model_name, family_pricing, exact_pricing, resolve_model_pricing,
  estimate_llm_cost, floor_quotient, message_tokens, tool_shape, tool_tokens,
  estimate_prompt_tokens, estimate_completion_tokens, estimate_request_cost,
  calculate_affordable_max_completion_tokens,
}
use psychic_octo_invention.Routing.Pricing.Laws.{calculate_affordable_max_completion_tokens_bounds}

-- What a run of the estimates computes with.
run : Unit {0}
unfolding strip_free normalize_model_name family_pricing exact_pricing resolve_model_pricing
    estimate_llm_cost floor_quotient message_tokens tool_shape tool_tokens estimate_prompt_tokens
    estimate_completion_tokens estimate_request_cost calculate_affordable_max_completion_tokens
    stringify
run = tt

abbrev hello : Message
hello = record {
  role = user;
  content = codes "Hello";
  images = 1;
  tool_calls = [];
  tool_call_id = none;
}

abbrev ping : ToolDefinition
ping = record { name = "ping"; description = ""; parameters = obj end }

abbrev exact : ℕ → ℕ → ℕ → Bool
exact cap prompt price = false

abbrev short : ℕ → ℕ → ℕ → Bool
short cap prompt price = true

estimates :
    (estimate_llm_cost " Anthropic/Claude-Opus-4:free" 1000 10 ≡ some 1575000)
    × (estimate_llm_cost "vendor/gpt-4o-mini" 1 1 ≡ some 2000)
    × (estimate_llm_cost "vendor/unknown" 1 1 ≡ none)
    × (estimate_prompt_tokens (hello ∷ []) (ping ∷ []) ≡ 1142)
    × (calculate_affordable_max_completion_tokens exact "google/gemini-2.5-flash" 100 5010
        ≡ some 100)
    × (calculate_affordable_max_completion_tokens short "google/gemini-2.5-flash" 256 1000000
        ≡ some 24935)
unfolding run
estimates = (refl, refl, refl, refl, refl, refl)

calculate_affordable_max_completion_tokens_bounds_example :
    (k c d : ℕ) × (calculate_affordable_max_completion_tokens short "google/gemini-2.5-flash" 256
        1000000
      ≡ some k)
    × (estimate_llm_cost "google/gemini-2.5-flash" 256 k ≡ some c)
    × (estimate_llm_cost "google/gemini-2.5-flash" 256 (k + 1) ≡ some d)
    × (c ≤ 1000000)
    × ((1000000 < d) ⊎ ((1000000 ≡ d) × (price : ℕ) × (short 1000000 2560 price ≡ true)))
unfolding run
calculate_affordable_max_completion_tokens_bounds_example =
    calculate_affordable_max_completion_tokens_bounds short "google/gemini-2.5-flash" 256 1000000
      2560 refl (omega arith)
