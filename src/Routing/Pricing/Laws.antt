-- ===== src/Routing/Pricing/Laws.antt =====
-- Costs and token estimates.
use psychic_octo_invention.Prelude.{
  ℕ, ◌+◌, ◌*◌, ◌≤◌, ◌<◌, ◌≡◌, refl, ap, ◌∙◌, ◌⊎◌, Bool, true, false, Bool-cases, eqb, eqb→eq, ltb,
  zero, suc, none, some, List, [], ◌∷◌, ◌++◌, arith, String, All, find, find-satisfies, Text,
  Option-cases, All-In, inl, inr, ◌==◌, ◌-◌, ◌/◌, text_eq, length,
}
use psychic_octo_invention.Routing.Types.{RoutingSignals, ToolDefinition, Message}
use psychic_octo_invention.Routing.Pricing.{
  tokens_of_chars, image_attachment_token_overhead, ModelPricing, model_pricing_table,
  family_pricing, exact_pricing, resolve_model_pricing, estimate_llm_cost, message_tokens,
  estimate_prompt_tokens, estimate_completion_tokens, floor_quotient,
  calculate_affordable_max_completion_tokens, normalize_model_name,
}

-- Output is charged for.
abbrev IsCharged : ModelPricing → Type 0
IsCharged entry = 0 < entry.output_per_million

table-IsCharged : All IsCharged model_pricing_table
table-IsCharged = omega arith

find-IsCharged :
    (p : ModelPricing → Bool) (entry : ModelPricing)
    → find p model_pricing_table ≡ some entry
    → IsCharged entry
find-IsCharged p entry e =
    All-In IsCharged entry model_pricing_table table-IsCharged
      (find-satisfies p model_pricing_table e).0

family_pricing-IsCharged :
    (normalized : Text) (entry : ModelPricing)
    → family_pricing normalized ≡ some entry
    → IsCharged entry
unfolding family_pricing
family_pricing-IsCharged normalized entry e = ground (
  arith,
  find-IsCharged (λ (x : ModelPricing). x.model == "anthropic/claude-opus-4") entry,
  find-IsCharged (λ (x : ModelPricing). x.model == "anthropic/claude-sonnet-4") entry,
  find-IsCharged (λ (x : ModelPricing). x.model == "google/gemini-2.5-flash") entry,
  find-IsCharged (λ (x : ModelPricing). x.model == "google/gemini-2.5-pro") entry,
  find-IsCharged (λ (x : ModelPricing). x.model == "openai/gpt-4o") entry,
)

-- Every price that the code resolves charges for output tokens.
resolve_model_pricing-IsCharged :
    (model : String) (entry : ModelPricing)
    → resolve_model_pricing model ≡ some entry
    → 0 < entry.output_per_million
unfolding resolve_model_pricing exact_pricing
resolve_model_pricing-IsCharged model entry e =
    elim (Option-cases (exact_pricing (normalize_model_name model))) [
      | inl absent ↦ family_pricing-IsCharged (normalize_model_name model) entry (ground arith)
      | inr (x, found) ↦
          find-IsCharged (λ y. text_eq (normalize_model_name y.model) (normalize_model_name model))
            entry (ground arith)
    ]

-- The floor of a quotient.
floor_bounds : (b o : ℕ) → 0 < o → ((b / o) * o ≤ b) × (b < (b / o + 1) * o)
floor_bounds b o h = (grind arith, grind arith)

unpriced :
    (model : String) (p c cost : ℕ)
    → resolve_model_pricing model ≡ none
    → estimate_llm_cost model p c ≡ some cost
    → ⊥
unfolding estimate_llm_cost
unpriced model p c cost absent e = ground arith

priced :
    (model : String) (p c : ℕ) (entry : ModelPricing)
    → resolve_model_pricing model ≡ some entry
    → estimate_llm_cost model p c
      ≡ some (p * entry.input_per_million + c * entry.output_per_million)
unfolding estimate_llm_cost
priced model p c entry found = ground arith

floor_quotient_bounds :
    (short : Bool) (b o : ℕ)
    → 0 < o
    → 0 < b
    → (floor_quotient short b o * o ≤ b)
      × ((b < (floor_quotient short b o + 1) * o)
          ⊎ ((b ≡ (floor_quotient short b o + 1) * o) × (short ≡ true)))
unfolding floor_quotient
floor_quotient_bounds false b o h k = let (low, high) = floor_bounds b o h in (low, inl high)
floor_quotient_bounds true b o h k =
    let (low, high) = floor_bounds b o h in
    elim (Bool-cases (eqb (b / o * o) b)) [
      | inr e ↦ rw e (low, inl high)
      | inl e ↦ rw e (one_less (b / o) o b (eqb→eq (b / o * o) b e) k)
    ]
  where
    one_less :
        (q o b : ℕ)
        → q * o ≡ b
        → 0 < b
        → ((q - 1) * o ≤ b) × ((b < (q - 1 + 1) * o) ⊎ ((b ≡ (q - 1 + 1) * o) × (true ≡ true)))
    one_less zero o b e k = absurd (omega arith)
    one_less (suc q) o b e k =
        let same : suc q - 1 ≡ q = omega arith in rw same (grind arith, inr (grind arith, refl))

module _ (falls_short : ℕ → ℕ → ℕ → Bool) where
  affordable_none :
      (model : String) (p limit : ℕ) (entry : ModelPricing)
      → resolve_model_pricing model ≡ some entry
      → estimate_llm_cost model p 0 ≡ some limit
      → calculate_affordable_max_completion_tokens falls_short model p limit ≡ some 0
  unfolding calculate_affordable_max_completion_tokens
  affordable_none model p limit entry found e = ground arith

  affordable_value :
      (model : String) (p limit prompt_cost : ℕ) (entry : ModelPricing)
      → resolve_model_pricing model ≡ some entry
      → estimate_llm_cost model p 0 ≡ some prompt_cost
      → prompt_cost < limit
      → 0 < entry.output_per_million
      → calculate_affordable_max_completion_tokens falls_short model p limit
        ≡ some (
            floor_quotient
              (falls_short limit prompt_cost entry.output_per_million)
              (limit - prompt_cost)
              entry.output_per_million)
  unfolding calculate_affordable_max_completion_tokens
  affordable_value model p limit prompt_cost entry found e h charged = ground arith

  affordable :
      (model : String) (p limit prompt_cost : ℕ) (entry : ModelPricing)
      → resolve_model_pricing model ≡ some entry
      → estimate_llm_cost model p 0 ≡ some prompt_cost
      → prompt_cost ≤ limit
      → (k c d : ℕ) × (calculate_affordable_max_completion_tokens falls_short model p limit
          ≡ some k)
        × (estimate_llm_cost model p k ≡ some c)
        × (estimate_llm_cost model p (k + 1) ≡ some d)
        × (c ≤ limit)
        × ((limit < d) ⊎ ((limit ≡ d) × (price : ℕ) × (falls_short limit prompt_cost price ≡ true)))
  affordable model p limit prompt_cost entry found e h =
      let charged = resolve_model_pricing-IsCharged model entry found in
      let total : prompt_cost ≡ p * entry.input_per_million + 0 * entry.output_per_million =
        cc (priced model p 0 entry found) in
      elim (Bool-cases (ltb prompt_cost limit)) [
        | inr whole ↦
            let same : prompt_cost ≡ limit = ground arith in
            (
              0,
              p * entry.input_per_million + 0 * entry.output_per_million,
              p * entry.input_per_million + (0 + 1) * entry.output_per_million,
              affordable_none model p limit entry found (e ∙ ap some same),
              priced model p 0 entry found,
              priced model p (0 + 1) entry found,
              omega arith,
              inl (omega arith),
            )
        | inl more ↦
            let less : prompt_cost < limit = ground arith in
            let short = falls_short limit prompt_cost entry.output_per_million in
            let k = floor_quotient short (limit - prompt_cost) entry.output_per_million in
            let (low, high) =
              floor_quotient_bounds short (limit - prompt_cost) entry.output_per_million charged
                (omega arith) in
            (
              k,
              p * entry.input_per_million + k * entry.output_per_million,
              p * entry.input_per_million + (k + 1) * entry.output_per_million,
              affordable_value model p limit prompt_cost entry found e less charged,
              priced model p k entry found,
              priced model p (k + 1) entry found,
              omega arith,
              elim high [
                | inl lt ↦ inl (omega arith)
                | inr (eq, s) ↦ inr (omega arith, entry.output_per_million, s)
              ],
            )
      ]

  -- With a price, and a prompt that costs no more than the cap, the affordable completion tokens cost
  -- with the prompt no more than the cap. One more token breaks the cap, or reaches it exactly: the
  -- latter only where the quotient of the doubles falls short of a whole number of tokens.
  pub calculate_affordable_max_completion_tokens_bounds :
      (model : String) (prompt_tokens limit prompt_cost : ℕ)
      → estimate_llm_cost model prompt_tokens 0 ≡ some prompt_cost
      → prompt_cost ≤ limit
      → (k c d : ℕ) × (calculate_affordable_max_completion_tokens falls_short model prompt_tokens
            limit
          ≡ some k)
        × (estimate_llm_cost model prompt_tokens k ≡ some c)
        × (estimate_llm_cost model prompt_tokens (k + 1) ≡ some d)
        × (c ≤ limit)
        × ((limit < d) ⊎ ((limit ≡ d) × (price : ℕ) × (falls_short limit prompt_cost price ≡ true)))
  calculate_affordable_max_completion_tokens_bounds model p limit prompt_cost e h =
      elim (Option-cases (resolve_model_pricing model)) [
        | inl absent ↦ absurd (unpriced model p 0 prompt_cost absent e)
        | inr (entry, found) ↦ affordable model p limit prompt_cost entry found e h
      ]

-- More messages never make the estimate of the prompt smaller.
message_tokens-append :
    (total : ℕ) (xs ys : List Message)
    → message_tokens total (xs ++ ys) ≡ message_tokens (message_tokens total xs) ys
unfolding message_tokens
message_tokens-append total [] ys = refl
message_tokens-append total (x ∷ xs) ys =
    message_tokens-append
      (total + tokens_of_chars (length x.content) + x.images * image_attachment_token_overhead) xs
      ys

message_tokens-grows : (total : ℕ) (xs : List Message) → total ≤ message_tokens total xs
unfolding message_tokens
message_tokens-grows total [] = omega arith
message_tokens-grows total (x ∷ xs) = omega (
  arith,
  message_tokens-grows
      (total + tokens_of_chars (length x.content) + x.images * image_attachment_token_overhead) xs,
)

estimate_prompt_tokens-append :
    (xs ys : List Message) (tools : List ToolDefinition)
    → estimate_prompt_tokens xs tools ≤ estimate_prompt_tokens (xs ++ ys) tools
unfolding estimate_prompt_tokens
estimate_prompt_tokens-append xs ys tools =
    omega (arith, message_tokens-append 250 xs ys, message_tokens-grows (message_tokens 250 xs) ys)

-- A completion is estimated between 180 and 1360 tokens, and a follow-up at no more than the first
-- answer.
estimate_completion_tokens_bounds :
    (signals : RoutingSignals) (follow_up : Bool)
    → (180 ≤ estimate_completion_tokens signals follow_up)
      × (estimate_completion_tokens signals follow_up ≤ estimate_completion_tokens signals false)
      × (estimate_completion_tokens signals follow_up ≤ 1360)
unfolding estimate_completion_tokens
estimate_completion_tokens_bounds signals follow_up = ground arith

-- An estimate with completion tokens is no smaller than that of the prompt alone.
pub estimate_llm_cost-prompt :
    (model : String) (p c cost : ℕ)
    → estimate_llm_cost model p c ≡ some cost
    → (prompt_cost : ℕ) × (estimate_llm_cost model p 0 ≡ some prompt_cost) × (prompt_cost ≤ cost)
estimate_llm_cost-prompt model p c cost e = elim (Option-cases (resolve_model_pricing model)) [
  | inl absent ↦ absurd (unpriced model p c cost absent e)
  | inr (entry, found) ↦
      let value : cost ≡ p * entry.input_per_million + c * entry.output_per_million =
        cc (priced model p c entry found) in
      (
        p * entry.input_per_million + 0 * entry.output_per_million,
        priced model p 0 entry found,
        omega arith,
      )
]
