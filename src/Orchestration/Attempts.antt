-- ===== src/Orchestration/Attempts.antt =====
-- The calls of the provider in `executeEvent` of apps/api/src/orchestration/orchestrator.ts: the first,
-- its escalation, and the parameters of the follow-up. What is looked up before (the conversation,
-- memories, tools and settings) is given; the provider is an argument.
pub mod Laws
use psychic_octo_invention.Prelude.{
  ℕ, ◌+◌, String, Bool, true, false, not, Option, none, some, List, [], ◌∷◌, ◌++◌, map, filter,
  Text, codes, or_else, if◌then◌else◌, ◌⧺◌,
}
use psychic_octo_invention.Routing.Types.{
  InboundEvent, RoutingDecision, RoutingSettings, ToolDefinition, Message, ToolCall, Role,
  assistant, tool,
}
use psychic_octo_invention.Routing.Router.{route_model, escalate_model}
use psychic_octo_invention.Routing.Spend.{
  Stage, initial, follow_up, SpendControlParams, SpendControlOutcome, enforce_spend_controls,
}
use psychic_octo_invention.Orchestration.Types.{
  ToolDispatch, ToolResult, SubAgentDispatch, LlmUsage, LlmRequest, LlmResponse, ExecutionResult,
}
use psychic_octo_invention.Orchestration.Prompt.{
  MemorySnippet, RecentMessage, compose_prompt, context_to_messages, join_texts, blank_line,
}
use psychic_octo_invention.Orchestration.Tools.Settings.{is_sub_agent_tool_call}
use psychic_octo_invention.Orchestration.Tools.Executor.{Outcome, returned, thrown}

-- An event with what is looked up for it; the cost of the month so far is summed up if there is a
-- monthly budget.
pub record Prepared : Type 0 where
  pub event : InboundEvent
  pub conversation_id : ℕ
  pub inbound_message_id : ℕ
  pub memories : List MemorySnippet
  pub recent_messages : List RecentMessage
  pub tools : List ToolDefinition
  pub settings : RoutingSettings
  pub month_cost : ℕ
  pub falls_short : ℕ → ℕ → ℕ → Bool

-- How a call of the provider ends: refused by the spend controls, failed, or answered.
pub data AttemptOutcome : Type 0 where
  blocked : String → Option ℕ → AttemptOutcome
  failed : String → AttemptOutcome
  responded : LlmResponse → AttemptOutcome

-- The requests that were sent, oldest first, and the responses that came.
pub record Traffic : Type 0 where
  pub requests : List LlmRequest
  pub responses : List LlmResponse

pub record Attempt : Type 0 where
  pub routing : RoutingDecision
  pub warnings : List String
  pub traffic : Traffic
  pub outcome : AttemptOutcome

abbrev pub prompt_messages : Prepared → List Message
prompt_messages p =
    context_to_messages (compose_prompt p.event p.memories p.recent_messages p.tools)

-- `monthlyCostSoFarUsd`
abbrev pub monthly_cost_so_far : Prepared → ℕ
monthly_cost_so_far p = elim p.settings.max_monthly_budget [ none ↦ 0 | some budget ↦ p.month_cost ]

abbrev pub initial_params : Prepared → RoutingDecision → SpendControlParams
initial_params p routing = record {
  stage = initial;
  routing = routing;
  settings = p.settings;
  messages = prompt_messages p;
  tools = p.tools;
  monthly_cost_so_far = some (monthly_cost_so_far p);
  request_cost_spent = none;
  allow_downgrade = none;
  falls_short = p.falls_short;
}

-- The first call again with the answer, the tool calls and their results.
abbrev pub follow_up_messages : Prepared → LlmResponse → List ToolResult → List Message
follow_up_messages p response results =
    prompt_messages p
    ++ (record {
      role = assistant;
      content = response.content;
      images = 0;
      tool_calls = response.tool_calls;
      tool_call_id = none;
    }
        ∷ map
            (λ r. record {
              role = tool;
              content = r.result;
              images = 0;
              tool_calls = [];
              tool_call_id = some r.tool_call_id;
            })
            results)

abbrev pub cost_of : LlmResponse → ℕ
cost_of response = or_else response.usage.estimated_cost 0

abbrev pub follow_up_params :
    Prepared → RoutingDecision → LlmResponse → List ToolResult → SpendControlParams
follow_up_params p routing response results = record {
  stage = follow_up;
  routing = routing;
  settings = p.settings;
  messages = follow_up_messages p response results;
  tools = [];
  monthly_cost_so_far = some (monthly_cost_so_far p + cost_of response);
  request_cost_spent = some (cost_of response);
  allow_downgrade = some false;
  falls_short = p.falls_short;
}

-- The request that the spend controls let through.
abbrev pub permitted_request : SpendControlParams → LlmRequest
permitted_request params = record {
  model = (enforce_spend_controls params).routing.model;
  messages = params.messages;
  tools = params.tools;
  max_tokens = (enforce_spend_controls params).max_tokens;
}

abbrev pub sent : LlmRequest → Traffic → Traffic
sent request traffic = record traffic { requests = traffic.requests ++ (request ∷ []) }

abbrev pub received : LlmResponse → Traffic → Traffic
received response traffic = record traffic { responses = traffic.responses ++ (response ∷ []) }

abbrev pub call_outcome : Outcome LlmResponse → AttemptOutcome
call_outcome (returned response) = responded response
call_outcome (thrown message) = failed message

abbrev pub with_answer : Outcome LlmResponse → Traffic → Traffic
with_answer (returned response) traffic = received response traffic
with_answer (thrown message) traffic = traffic

module _ (complete : List LlmRequest → LlmRequest → Outcome LlmResponse) where
  -- One call under the spend controls: with a reply of theirs it is not made.
  unfoldable pub checked_attempt : SpendControlParams → Traffic → Option String → Attempt
  checked_attempt params traffic (some reply) = record {
    routing = (enforce_spend_controls params).routing;
    warnings = (enforce_spend_controls params).warnings;
    traffic = traffic;
    outcome = blocked reply (enforce_spend_controls params).estimated_cost;
  }
  checked_attempt params traffic none =
      let request = permitted_request params in
      let answer = complete traffic.requests request in
      record {
        routing = (enforce_spend_controls params).routing;
        warnings = (enforce_spend_controls params).warnings;
        traffic = with_answer answer (sent request traffic);
        outcome = call_outcome answer;
      }

  unfoldable pub attempt : SpendControlParams → Traffic → Attempt
  attempt params traffic =
      checked_attempt params traffic (enforce_spend_controls params).blocked_reply

  -- The call of the stronger model, if there is one.
  unfoldable pub escalate_to : Prepared → Attempt → Option RoutingDecision → Attempt
  escalate_to p first none = first
  escalate_to p first (some escalated) =
      let second = attempt (initial_params p escalated) first.traffic in
      record second {
        warnings =
            first.warnings
            ++ (("Primary model failed, escalated to " ⧺ escalated.model) ∷ second.warnings);
      }

  -- The escalation of a call that failed.
  unfoldable pub escalate : Prepared → Attempt → Attempt
  escalate p first = escalate_to p first (escalate_model first.routing p.event p.tools p.settings)

  abbrev pub retry : Prepared → AttemptOutcome → Attempt → Attempt
  retry p (failed message) first = escalate p first
  retry p (blocked reply cost) first = first
  retry p (responded response) first = first

  -- The call for an event, with its one escalation.
  unfoldable pub primary : Prepared → Attempt
  primary p =
      let first =
        attempt (initial_params p (route_model p.event p.tools none p.settings))
          (record { requests = []; responses = [] }) in
      retry p first.outcome first
