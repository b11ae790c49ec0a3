-- ===== src/Orchestration/Stages.antt =====
-- The stages of `executeEvent` of apps/api/src/orchestration/orchestrator.ts after the answer of the
-- provider: the tools, the follow-up, the result. The execution of tools, the extraction of memories
-- and the writes are arguments, like the provider: each acts on a state of its own and may fail. The
-- metadata of messages and the events for the administration pages are left out.
use psychic_octo_invention.Prelude.{
  ℕ, ◌+◌, String, Bool, true, false, not, Option, none, some, List, [], ◌∷◌, ◌++◌, map, filter,
  Text, codes, or_else,
}
use psychic_octo_invention.Routing.Types.{
  InboundEvent, RoutingDecision, RoutingSettings, ToolDefinition, ToolCall,
}
use psychic_octo_invention.Orchestration.Types.{
  ToolDispatch, ToolResult, SubAgentDispatch, LlmUsage, LlmRequest, LlmResponse, ExecutionResult,
}
use psychic_octo_invention.Orchestration.Prompt.{
  MemorySnippet, RecentMessage, join_texts, blank_line,
}
use psychic_octo_invention.Orchestration.PostProcessing.{PostServices}
use psychic_octo_invention.Orchestration.Tools.Settings.{is_sub_agent_tool_call}
use psychic_octo_invention.Orchestration.Tools.Executor.{Outcome}
use psychic_octo_invention.Orchestration.Attempts.{
  Prepared, AttemptOutcome, blocked, failed, responded, Traffic, attempt, follow_up_params,
}

-- The answers to the calls of one kind of tool.
pub record ToolAnswers : Type 0 where
  pub tool_dispatches : List ToolDispatch
  pub sub_agent_dispatches : List SubAgentDispatch
  pub tool_results : List ToolResult

pub record UsageRow : Type 0 where
  pub message_id : ℕ
  pub provider : String
  pub model : String
  pub with_tools : Bool
  pub usage : LlmUsage
  pub cost : ℕ
  pub latency : ℕ

-- What the orchestrator looks up before it calls the provider.
pub record Lookups (S : Type 0) : Type 0 where
  pub resolve_conversation : InboundEvent → S → Outcome (ℕ × ℕ) × S
  pub persist_inbound : InboundEvent → ℕ → ℕ → S → Outcome ℕ × S
  pub retrieve_memories : InboundEvent → ℕ → S → Outcome (List MemorySnippet) × S
  pub resolve_tool_catalog : S → Outcome (List ToolDefinition) × S
  pub get_routing_settings : S → Outcome RoutingSettings × S
  pub load_recent_messages : ℕ → ℕ → ℕ → S → Outcome (List RecentMessage) × S
  pub sum_cost_current_month : S → Outcome ℕ × S
  pub falls_short : ℕ → ℕ → ℕ → Bool

-- What the orchestrator calls; `none` and `false` stand for an exception.
pub record Collaborators (S Fact : Type 0) : Type 0 where
  pub complete : List LlmRequest → LlmRequest → Outcome LlmResponse
  pub execute_external : List ToolCall → S → Option ToolAnswers × S
  pub process_sub_agents : List ToolCall → S → Option ToolAnswers × S
  pub store_reply : Text → S → Option ℕ × S
  pub extract_facts : LlmResponse → S → Option (List Fact) × S
  pub log_usage : UsageRow → S → Bool × S
  pub merge_metadata : ℕ → S → Bool × S
  pub lookups : Lookups S
  pub post : PostServices S

-- The answers of both kinds of tools, and the warnings so far.
pub record ToolRound : Type 0 where
  pub answers : ToolAnswers
  pub warnings : List String

-- The reply with the response that is accounted for.
pub record Synthesis : Type 0 where
  pub reply : Text
  pub response : LlmResponse
  pub warnings : List String
  pub traffic : Traffic

abbrev pub add_cost : Option ℕ → Option ℕ → Option ℕ
add_cost (some a) (some b) = some (a + b)
add_cost (some a) none = some a
add_cost none b = none

-- The usage of the answer with that of the follow-up added to it.
abbrev pub add_usage : LlmResponse → LlmResponse → LlmResponse
add_usage response next = record response {
  usage = record {
    prompt_tokens = response.usage.prompt_tokens + next.usage.prompt_tokens;
    completion_tokens = response.usage.completion_tokens + next.usage.completion_tokens;
    total_tokens = response.usage.total_tokens + next.usage.total_tokens;
    estimated_cost = add_cost response.usage.estimated_cost next.usage.estimated_cost;
  };
  latency = response.latency + next.latency;
}

abbrev pub no_answers : ToolAnswers
no_answers = record { tool_dispatches = []; sub_agent_dispatches = []; tool_results = [] }

-- `push` of the answers of one kind, or of the warning that they are missing.
abbrev pub add_answers : String → Option ToolAnswers → ToolRound → ToolRound
add_answers warning none round = record round { warnings = round.warnings ++ (warning ∷ []) }
add_answers warning (some answers) round = record round {
  answers = record {
    tool_dispatches = round.answers.tool_dispatches ++ answers.tool_dispatches;
    sub_agent_dispatches = round.answers.sub_agent_dispatches ++ answers.sub_agent_dispatches;
    tool_results = round.answers.tool_results ++ answers.tool_results;
  };
}

abbrev pub sub_agent_tool_calls : LlmResponse → List ToolCall
sub_agent_tool_calls response = filter (λ c. is_sub_agent_tool_call c.name) response.tool_calls

abbrev pub external_tool_calls : LlmResponse → List ToolCall
external_tool_calls response = filter (λ c. not (is_sub_agent_tool_call c.name)) response.tool_calls

-- The results of the tools as the reply.
abbrev pub joined_results : List ToolResult → Text
joined_results results = join_texts blank_line (map (λ r. r.result) results)

abbrev pub apology : Text
apology =
    codes
      "I'm sorry, I'm having trouble processing your request right now. Please try again in a moment."

abbrev pub no_usage : Option ℕ → LlmUsage
no_usage estimated_cost = record {
  prompt_tokens = 0;
  completion_tokens = 0;
  total_tokens = 0;
  estimated_cost = estimated_cost;
}

abbrev pub warn_unless : Bool → String → List String → List String
warn_unless true warning warnings = warnings
warn_unless false warning warnings = warnings ++ (warning ∷ [])

abbrev has_calls : List ToolCall → Bool
has_calls [] = false
has_calls (c ∷ cs) = true

module _ {S Fact : Type 0} (c : Collaborators S Fact) where
  -- A reply without an answer of the provider, for an error or for a block. If it cannot be stored, it
  -- is returned under the id of the inbound message.
  unfoldable pub plain_result :
      Prepared → RoutingDecision → Text → List String → Option ℕ → S → ExecutionResult Fact × S
  plain_result p routing reply warnings estimated_cost state =
      let (id, after) = c.store_reply reply state in
      (
        record {
          reply = reply;
          memory_writes = [];
          usage = no_usage estimated_cost;
          routing = routing;
          tool_dispatches = [];
          sub_agent_dispatches = [];
          conversation_id = p.conversation_id;
          message_id = or_else id p.inbound_message_id;
          warnings = warnings;
        },
        after,
      )

  -- The calls of one kind, if there are any.
  unfoldable pub run_calls :
      (List ToolCall → S → Option ToolAnswers × S)
      → String
      → List ToolCall
      → ToolRound × S
      → ToolRound × S
  run_calls execute warning [] (round, state) = (round, state)
  run_calls execute warning (call ∷ calls) (round, state) =
      let (answers, after) = execute (call ∷ calls) state in
      (add_answers warning answers round, after)

  -- The tools of skills first, then the sub-agents.
  unfoldable pub run_tools : LlmResponse → List String → S → ToolRound × S
  run_tools response warnings state =
      run_calls c.process_sub_agents "Sub-agent dispatch failed" (sub_agent_tool_calls response) (
        run_calls c.execute_external "External skill execution failed"
          (external_tool_calls response)
          (record { answers = no_answers; warnings = warnings }, state))

  -- How the follow-up ends: with its answer, or with the results of the tools as they are.
  unfoldable pub conclude_follow_up :
      AttemptOutcome → List ToolResult → LlmResponse → List String → Traffic → Synthesis
  conclude_follow_up (blocked reply cost) results response warnings traffic = record {
    reply = joined_results results;
    response = response;
    warnings = warnings ++ ("Follow-up LLM synthesis skipped due to spend controls" ∷ []);
    traffic = traffic;
  }
  conclude_follow_up (failed message) results response warnings traffic = record {
    reply = joined_results results;
    response = response;
    warnings = warnings ++ ("Follow-up LLM call failed, using tool results directly" ∷ []);
    traffic = traffic;
  }
  conclude_follow_up (responded next) results response warnings traffic = record {
    reply = next.content;
    response = add_usage response next;
    warnings = warnings;
    traffic = traffic;
  }

  unfoldable pub synthesize :
      Prepared → RoutingDecision → LlmResponse → List ToolResult → List String → Traffic → Synthesis
  synthesize p routing response [] warnings traffic = record {
    reply = response.content;
    response = response;
    warnings = warnings;
    traffic = traffic;
  }
  synthesize p routing response (r ∷ rs) warnings traffic =
      let follow = attempt c.complete (follow_up_params p routing response (r ∷ rs)) traffic in
      conclude_follow_up follow.outcome (r ∷ rs) response (warnings ++ follow.warnings)
        follow.traffic

  abbrev pub usage_row : RoutingDecision → LlmResponse → ℕ → UsageRow
  usage_row routing response message_id = record {
    message_id = message_id;
    provider = routing.provider;
    model = response.model;
    with_tools = has_calls response.tool_calls;
    usage = response.usage;
    cost = or_else response.usage.estimated_cost 0;
    latency = response.latency;
  }

  -- The extraction of memories and the two writes, each of which only leaves a warning if it fails.
  unfoldable pub wrap_up :
      Prepared → RoutingDecision → Synthesis → ToolAnswers → ℕ → S → ExecutionResult Fact × S
  wrap_up p routing synthesis answers message_id state =
      let (facts, state1) = c.extract_facts synthesis.response state in
      let (logged, state2) = c.log_usage (usage_row routing synthesis.response message_id) state1 in
      let (merged, state3) = c.merge_metadata message_id state2 in
      let warnings1 : List String = elim facts [
        | some fs ↦ synthesis.warnings
        | none ↦ synthesis.warnings ++ ("Memory extraction failed" ∷ [])
      ] in
      let warnings2 = warn_unless logged "Usage logging failed" warnings1 in
      (
        record {
          reply = synthesis.reply;
          memory_writes = or_else facts [];
          usage = synthesis.response.usage;
          routing = routing;
          tool_dispatches = answers.tool_dispatches;
          sub_agent_dispatches = answers.sub_agent_dispatches;
          conversation_id = p.conversation_id;
          message_id = message_id;
          warnings = warn_unless merged "Message metadata update failed" warnings2;
        },
        state3,
      )
