-- ===== src/Orchestration/Execution/Caps.antt =====
-- The budget caps over all the requests of an event.
use psychic_octo_invention.Prelude.{
  ℕ, ◌-◌, ◌≤◌, ◌≡◌, refl, sym, ap, ◌∙◌, subst, ◌⊎◌, inl, inr, some, List, [], ◌∷◌, ◌++◌, ◌+◌, ◌*◌,
  All, arith, Text, codes, take, length, length-append, length-take_le,
}
use psychic_octo_invention.Routing.Pricing.{
  estimate_llm_cost, estimate_prompt_tokens, message_tokens, tool_tokens, resolve_model_pricing,
  exact_pricing, normalize_model_name, strip_free,
}
use psychic_octo_invention.Routing.Spend.{SpendControlParams, effective_cap}
use psychic_octo_invention.Routing.Spend.Laws.{enforce_spend_controls-within_cap}
use psychic_octo_invention.Routing.Spend.Caps.{effective_cap-request, effective_cap-monthly}
use psychic_octo_invention.Routing.Types.{InboundEvent}
use psychic_octo_invention.Orchestration.Types.{LlmRequest}
use psychic_octo_invention.Orchestration.Tools.Executor.{returned}
use psychic_octo_invention.Orchestration.PostProcessing.{title_model, title_request}
use psychic_octo_invention.Orchestration.Attempts.{Prepared, monthly_cost_so_far}
use psychic_octo_invention.Orchestration.Attempts.Laws.{IsPermitted, IsFor}
use psychic_octo_invention.Orchestration.Stages.{Collaborators}
use psychic_octo_invention.Orchestration.Execution.{Execution, prepare, execute_event}
use psychic_octo_invention.Orchestration.Execution.Laws.{
  AreTitles, ArePermitted, execute_event-permits,
}

-- The prompt and the completion tokens that the provider may use cost no more than the limit.
pub record IsWithin (limit : ℕ) (request : LlmRequest) : Type 0 where
  pub tokens : ℕ
  pub cost : ℕ
  pub token_limit : request.max_tokens ≡ some tokens
  pub enough : 96 ≤ tokens
  pub estimated :
      estimate_llm_cost request.model (estimate_prompt_tokens request.messages request.tools) tokens
      ≡ some cost
  pub within : cost ≤ limit

-- What the settings leave for an event: the cap per request, or what is left of the monthly budget.
abbrev pub Leaves : Prepared → ℕ → Type 0
Leaves p limit =
    (p.settings.max_cost_per_request ≡ some limit)
    ⊎ ((budget : ℕ) × (p.settings.max_monthly_budget ≡ some budget)
        × (limit ≡ budget - p.month_cost))

module _ (p : Prepared) (limit : ℕ) (leaves : Leaves p limit) where
  left_for :
      (params : SpendControlParams)
      → IsFor p params
      → Leaves p limit
      → (n : ℕ) × (effective_cap params ≡ some n) × (n ≤ limit)
  left_for params f (inl cap) =
      let (n, e, le) =
        effective_cap-request params limit (ap (λ s. s.max_cost_per_request) f.settings ∙ cap) in
      (n, e, omega (arith, le))
  left_for params f (inr (budget, b, l)) =
      let (n, e, le) =
        effective_cap-monthly params budget f.month (ap (λ s. s.max_monthly_budget) f.settings ∙ b)
          f.counted in
      let same : monthly_cost_so_far p ≡ p.month_cost = rw b refl in
      (n, e, omega (arith, le, f.enough, same, l))

  IsPermitted-IsWithin : (request : LlmRequest) → IsPermitted p request → IsWithin limit request
  IsPermitted-IsWithin request r =
      let (n, e, le) = left_for r.params r.for_event leaves in
      let (m, cost, tokens, enough, estimated, within) =
        enforce_spend_controls-within_cap r.params n e r.passed in
      subst (IsWithin limit) (sym r.permitted) (record {
        tokens = m;
        cost = cost;
        token_limit = tokens;
        enough = enough;
        estimated = estimated;
        within = omega (arith, le, within);
      })

  all-IsWithin :
      (requests : List LlmRequest) → All (IsPermitted p) requests → All (IsWithin limit) requests
  all-IsWithin [] h = tt
  all-IsWithin (r ∷ rs) h = (IsPermitted-IsWithin r h.0, all-IsWithin rs h.1)

-- The request for a title is small, whatever it is about: it may be answered with 30 tokens, and it is
-- estimated at 7000 units, which are 0.00007 USD, at most.
pub record IsSmall (request : LlmRequest) : Type 0 where
  pub cost : ℕ
  pub token_limit : request.max_tokens ≡ some 30
  pub estimated :
      estimate_llm_cost request.model (estimate_prompt_tokens request.messages request.tools) 30
      ≡ some cost
  pub within : cost ≤ 7000

flash_price : (p k : ℕ) → estimate_llm_cost title_model p k ≡ some (p * 10 + k * 40)
unfolding estimate_llm_cost resolve_model_pricing exact_pricing normalize_model_name strip_free
flash_price p k = refl

-- The text of the second message.
abbrev title_text : Text → Text → Text
title_text question reply =
    codes "User: " ++ (take 500 question ++ (codes "\n\nAssistant: " ++ take 500 reply))

title_text-short : (question reply : Text) → length (title_text question reply) ≤ 1019
title_text-short question reply = omega (
  arith,
  length-append (codes "User: ") (take 500 question ++ (codes "\n\nAssistant: " ++ take 500 reply)),
  length-append (take 500 question) (codes "\n\nAssistant: " ++ take 500 reply),
  length-append (codes "\n\nAssistant: ") (take 500 reply),
  length-take_le 500 question,
  length-take_le 500 reply,
)

title_tokens :
    (question reply : Text)
    → estimate_prompt_tokens (title_request question reply).messages [] ≤ 550
unfolding estimate_prompt_tokens message_tokens tool_tokens
title_tokens question reply =
    let n = length (title_text question reply) in
    let le = title_text-short question reply in omega arith

title_request-IsSmall : (question reply : Text) → IsSmall (title_request question reply)
title_request-IsSmall question reply = record {
  cost = estimate_prompt_tokens (title_request question reply).messages [] * 10 + 30 * 40;
  token_limit = refl;
  estimated = flash_price (estimate_prompt_tokens (title_request question reply).messages []) 30;
  within = omega (arith, title_tokens question reply);
}

all-IsSmall :
    {S Fact : Type 0} (c : Collaborators S Fact) (p : Prepared) (e : Execution S Fact)
    → AreTitles c p e
    → All IsSmall e.title_requests
all-IsSmall c p e (inl q) = rw q tt
all-IsSmall c p e (inr (r, result, q)) =
    rw q (title_request-IsSmall (codes p.event.text) r.reply, tt)

-- If the look-ups for an event succeed, then under a cap per request, or under a monthly budget, every
-- request that the orchestrator sends for the reply has a token limit of at least 96, and its prompt
-- with that many completion tokens costs no more than the cap, or than what the month so far leaves of
-- the budget. The request for a title is not held to the cap: it is limited to 30 tokens and estimated
-- at no more than 0.00007 USD. What the services of the sub-agents ask a provider for is not counted.
pub execute_event-IsWithin_caps :
    {S Fact : Type 0} (c : Collaborators S Fact) (event : InboundEvent) (state : S) (p : Prepared)
    (limit : ℕ)
    → (prepare c event state).0 ≡ returned p
    → Leaves p limit
    → All (IsWithin limit) (execute_event c event state).traffic.requests
      × All IsSmall (execute_event c event state).title_requests
execute_event-IsWithin_caps c event state p limit prepared leaves =
    let (permits, few, titles) =
      subst (λ o. ArePermitted c o (execute_event c event state)) prepared
        (execute_event-permits c event state) in
    (all-IsWithin p limit leaves _ permits, all-IsSmall c p (execute_event c event state) titles)
