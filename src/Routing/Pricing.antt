-- ===== src/Routing/Pricing.antt =====
-- apps/api/src/services/routing/model-pricing.ts. Prices are in cents per million tokens, so a number
-- of tokens times a price is an exact number of 1e-8 USD, the unit to which `toFixed(8)` rounds.
pub mod Laws
mod Tests
use psychic_octo_invention.Prelude.{
  ℕ, ◌+◌, ◌-◌, ◌*◌, ◌/◌, max, String, Bool, true, false, ◌&&◌, Option, none, some, List, [], ◌∷◌,
  Text, codes, text_eq, text_includes, to_lower_case, trim, leb, eqb, find, length, if◌then◌else◌,
  ◌==◌,
}
use psychic_octo_invention.Json.{stringify, obj, field, end, str}
use psychic_octo_invention.Routing.Types.{
  Complexity, low, medium, high, RoutingSignals, ToolDefinition, Message,
}

pub record ModelPricing : Type 0 where
  pub model : String
  pub input_per_million : ℕ
  pub output_per_million : ℕ

abbrev pub model_pricing_table : List ModelPricing
model_pricing_table =
    record { model = "google/gemini-2.5-flash"; input_per_million = 10; output_per_million = 40 }
    ∷ record { model = "google/gemini-2.5-pro"; input_per_million = 125; output_per_million = 500 }
    ∷ record {
      model = "anthropic/claude-sonnet-4";
      input_per_million = 300;
      output_per_million = 1500;
    }
    ∷ record {
      model = "anthropic/claude-opus-4";
      input_per_million = 1500;
      output_per_million = 7500;
    }
    ∷ record { model = "openai/gpt-4o"; input_per_million = 500; output_per_million = 1500 }
    ∷ []

-- `.replace(/:free$/, '')`
unfoldable pub strip_free : Text → Text
strip_free [] = []
strip_free (c ∷ s) = if text_eq (c ∷ s) (codes ":free") then [] else c ∷ strip_free s

unfoldable pub normalize_model_name : String → Text
unfolding strip_free
normalize_model_name model = strip_free (to_lower_case (trim (codes model)))

abbrev by_name : String → Option ModelPricing
by_name name = find (λ entry. entry.model == name) model_pricing_table

-- The price of a model family, by a part of the normalized name.
unfoldable pub family_pricing : Text → Option ModelPricing
family_pricing normalized =
    if text_includes normalized (codes "claude-opus")
    then by_name "anthropic/claude-opus-4"
    else if text_includes normalized (codes "claude-sonnet")
    then by_name "anthropic/claude-sonnet-4"
    else if text_includes normalized (codes "gemini-2.5-flash")
    then by_name "google/gemini-2.5-flash"
    else if text_includes normalized (codes "gemini-2.5-pro")
    then by_name "google/gemini-2.5-pro"
    else if text_includes normalized (codes "gpt-4o")
    then by_name "openai/gpt-4o"
    else none

unfoldable pub exact_pricing : Text → Option ModelPricing
exact_pricing normalized =
    find (λ entry. text_eq (normalize_model_name entry.model) normalized) model_pricing_table

unfoldable pub resolve_model_pricing : String → Option ModelPricing
resolve_model_pricing model = elim (exact_pricing (normalize_model_name model)) [
  | some entry ↦ some entry
  | none ↦ family_pricing (normalize_model_name model)
]

unfoldable pub estimate_llm_cost : String → ℕ → ℕ → Option ℕ
estimate_llm_cost model prompt_tokens completion_tokens = elim (resolve_model_pricing model) [
  | none ↦ none
  | some pricing ↦
      some
        (prompt_tokens * pricing.input_per_million + completion_tokens * pricing.output_per_million)
]

abbrev base_prompt_tokens : ℕ
base_prompt_tokens = 250

abbrev tool_schema_tokens_floor : ℕ
tool_schema_tokens_floor = 40

abbrev image_attachment_token_overhead : ℕ
image_attachment_token_overhead = 850

-- `Math.ceil(chars / CHARS_PER_TOKEN)`
abbrev tokens_of_chars : ℕ → ℕ
tokens_of_chars chars = (chars + 3) / 4

-- The two `reduce` loops, from the total so far.
unfoldable pub message_tokens : ℕ → List Message → ℕ
message_tokens total [] = total
message_tokens total (m ∷ ms) =
    message_tokens
      (total + tokens_of_chars (length m.content) + m.images * image_attachment_token_overhead) ms

unfoldable pub tool_shape : ToolDefinition → Text
tool_shape tool = stringify (
    obj (
      field "name" (str tool.name)
        (field "description" (str tool.description) (field "parameters" tool.parameters end))))

unfoldable pub tool_tokens : ℕ → List ToolDefinition → ℕ
tool_tokens total [] = total
tool_tokens total (t ∷ ts) =
    tool_tokens (total + max tool_schema_tokens_floor (tokens_of_chars (length (tool_shape t)))) ts

unfoldable pub estimate_prompt_tokens : List Message → List ToolDefinition → ℕ
estimate_prompt_tokens messages tools =
    message_tokens base_prompt_tokens messages + tool_tokens 0 tools

abbrev complexity_tokens : Complexity → ℕ
complexity_tokens high = 900
complexity_tokens medium = 450
complexity_tokens low = 220

abbrev plus_if : Bool → ℕ → ℕ
plus_if true n = n
plus_if false n = 0

-- `Math.round(tokens * 0.6)` is written over tenths: it rounds a half up.
unfoldable pub estimate_completion_tokens : RoutingSignals → Bool → ℕ
estimate_completion_tokens signals follow_up =
    let tokens : ℕ =
      complexity_tokens signals.estimated_complexity
      + plus_if signals.requires_tool_use 180
      + plus_if signals.requires_vision 160
      + plus_if signals.has_follow_up_need 120 in
    if follow_up then max 180 ((tokens * 6 + 5) / 10) else tokens

pub estimate_request_cost :
    String → List Message → List ToolDefinition → RoutingSignals → Bool → Option ℕ
estimate_request_cost model messages tools signals follow_up =
    estimate_llm_cost model (estimate_prompt_tokens messages tools)
      (estimate_completion_tokens signals follow_up)

-- `Math.floor(budget / price)` on doubles. The doubles are that close to the amounts that the floor is
-- the exact one, unless the price divides the budget: then their quotient may fall short of the whole
-- number. Whether it does is an argument.
unfoldable pub floor_quotient : Bool → ℕ → ℕ → ℕ
floor_quotient falls_short budget price =
    let whole = budget / price in
    if falls_short && eqb (whole * price) budget then whole - 1 else whole

-- The completion tokens that fit under a cap, given the prompt; `falls_short` is asked for the cap, the
-- cost of the prompt and the price of a token.
unfoldable pub calculate_affordable_max_completion_tokens :
    (ℕ → ℕ → ℕ → Bool) → String → ℕ → ℕ → Option ℕ
calculate_affordable_max_completion_tokens falls_short model prompt_tokens max_cost =
    elim (resolve_model_pricing model) [
      | none ↦ none
      | some pricing ↦ elim (estimate_llm_cost model prompt_tokens 0) [
        | none ↦ some 0
        | some prompt_cost ↦
            if leb max_cost prompt_cost
            then some 0
            else if leb pricing.output_per_million 0
            then none
            else some (
                floor_quotient (falls_short max_cost prompt_cost pricing.output_per_million)
                  (max_cost - prompt_cost) pricing.output_per_million)
      ]
    ]
