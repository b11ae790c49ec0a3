-- ===== src/Orchestration/Execution.antt =====
-- `executeEvent` of apps/api/src/orchestration/orchestrator.ts: what is looked up for an event, and
-- everything from its routing to the result. A default provider is taken to be registered.
pub mod Laws
pub mod Caps
pub mod Tools
use psychic_octo_invention.Prelude.{
  ℕ, String, Option, none, some, List, [], ◌∷◌, ◌++◌, Text, codes, ◌⧺◌,
}
use psychic_octo_invention.Routing.Types.{InboundEvent, RoutingDecision}
use psychic_octo_invention.Orchestration.Types.{LlmRequest, LlmResponse, ExecutionResult}
use psychic_octo_invention.Orchestration.PostProcessing.{post_process}
use psychic_octo_invention.Orchestration.Tools.Executor.{Outcome, returned, thrown}
use psychic_octo_invention.Orchestration.Attempts.{
  Prepared, AttemptOutcome, blocked, failed, responded, Traffic, Attempt, primary,
}
use psychic_octo_invention.Orchestration.Stages.{
  Lookups, Collaborators, ToolAnswers, Synthesis, apology, plain_result, run_tools, synthesize,
  wrap_up,
}

-- The result, or the exception that leaves the orchestrator, and the state. The traffic is that of the
-- requests for a reply; a request for a title follows it.
pub record Execution (S Fact : Type 0) : Type 0 where
  pub result : Outcome (ExecutionResult Fact)
  pub state : S
  pub traffic : Traffic
  pub title_requests : List LlmRequest

-- What is known when the reply to an answer of the provider is to be stored.
pub record Drafted (S : Type 0) : Type 0 where
  pub answers : ToolAnswers
  pub synthesis : Synthesis
  pub state : S

abbrev pub no_traffic : Traffic
no_traffic = record { requests = []; responses = [] }

-- `await`: an exception ends the rest.
unfoldable pub and_then : {S A B : Type 0} → Outcome A × S → (A → S → Outcome B × S) → Outcome B × S
and_then (thrown message, state) rest = (thrown message, state)
and_then (returned value, state) rest = rest value state

abbrev pub month_cost_of : {S : Type 0} → Lookups S → Option ℕ → S → Outcome ℕ × S
month_cost_of l none state = (returned 0, state)
month_cost_of l (some budget) state = l.sum_cost_current_month state

module _ {S Fact : Type 0} (c : Collaborators S Fact) where
  -- The look-ups before the first call, in their order.
  unfoldable pub prepare : InboundEvent → S → Outcome Prepared × S
  prepare event state =
      let l = c.lookups in
      and_then (l.resolve_conversation event state) (λ ids state1.
        and_then (l.persist_inbound event ids.0 ids.1 state1) (λ message_id state2.
          and_then (l.retrieve_memories event ids.0 state2) (λ memories state3.
            and_then (l.resolve_tool_catalog state3) (λ tools state4.
              and_then (l.get_routing_settings state4) (λ settings state5.
                and_then (l.load_recent_messages ids.0 20 message_id state5) (λ recent state6.
                  and_then (month_cost_of l settings.max_monthly_budget state6) (λ cost state7. (
                    returned (record {
                      event = event;
                      conversation_id = ids.0;
                      inbound_message_id = message_id;
                      memories = memories;
                      recent_messages = recent;
                      tools = tools;
                      settings = settings;
                      month_cost = cost;
                      falls_short = l.falls_short;
                    }),
                    state7,
                  ))))))))

  unfoldable pub deliver_stored :
      Prepared → RoutingDecision → Drafted S → Option ℕ → S → Execution S Fact
  deliver_stored p routing draft none state = record {
    result = thrown "the reply was not stored";
    state = state;
    traffic = draft.synthesis.traffic;
    title_requests = [];
  }
  deliver_stored p routing draft (some id) state =
      let (result, after) = wrap_up c p routing draft.synthesis draft.answers id state in
      let (titles, last) =
        post_process c.complete c.post draft.synthesis.traffic.requests p.conversation_id
          (codes p.event.text) draft.synthesis.reply after in
      record {
        result = returned result;
        state = last;
        traffic = draft.synthesis.traffic;
        title_requests = titles;
      }

  -- The tools and the follow-up after an answer of the provider.
  unfoldable pub draft_reply : Prepared → Attempt → LlmResponse → S → Drafted S
  draft_reply p attempt response state =
      let (round, after) = run_tools c response attempt.warnings state in
      record {
        answers = round.answers;
        synthesis =
            synthesize c p attempt.routing response round.answers.tool_results round.warnings
              attempt.traffic;
        state = after;
      }

  -- Everything that follows an answer of the provider.
  unfoldable pub deliver : Prepared → Attempt → LlmResponse → S → Execution S Fact
  deliver p attempt response state =
      let draft = draft_reply p attempt response state in
      let (id, after) = c.store_reply draft.synthesis.reply draft.state in
      deliver_stored p attempt.routing draft id after

  abbrev plain : Prepared → Attempt → Text → List String → Option ℕ → S → Execution S Fact
  plain p attempt reply warnings estimated_cost state =
      let (result, after) = plain_result c p attempt.routing reply warnings estimated_cost state in
      record {
        result = returned result;
        state = after;
        traffic = attempt.traffic;
        title_requests = [];
      }

  unfoldable pub conclude : Prepared → Attempt → AttemptOutcome → S → Execution S Fact
  conclude p attempt (blocked reply estimated_cost) state =
      plain p attempt (codes reply) attempt.warnings estimated_cost state
  conclude p attempt (failed message) state =
      plain p attempt apology (("Provider error: " ⧺ message) ∷ []) none state
  conclude p attempt (responded response) state = deliver p attempt response state

  -- From the routing on.
  unfoldable pub execute_prepared : Prepared → S → Execution S Fact
  execute_prepared p state =
      let attempt = primary c.complete p in conclude p attempt attempt.outcome state

  -- An exception of a look-up leaves the orchestrator.
  unfoldable pub start_prepared : Outcome Prepared × S → Execution S Fact
  start_prepared (thrown message, state) = record {
    result = thrown message;
    state = state;
    traffic = no_traffic;
    title_requests = [];
  }
  start_prepared (returned p, state) = execute_prepared p state

  unfoldable pub execute_event : InboundEvent → S → Execution S Fact
  execute_event event state = start_prepared (prepare event state)
