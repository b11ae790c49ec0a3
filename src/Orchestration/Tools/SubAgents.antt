-- ===== src/Orchestration/Tools/SubAgents.antt =====
-- apps/api/src/orchestration/sub-agent-dispatcher.ts: the calls of the first-party tools. The three
-- services that do the work are arguments, and so is `JSON.parse`. The tasks are the rows of
-- apps/api/src/repositories/sub-agent-task.repository.ts, the newest first.
pub mod Laws
pub mod Calls
pub mod Runs
use psychic_octo_invention.Prelude.{
  ℕ, ◌+◌, suc, String, Bool, true, false, not, Option, none, some, List, [], ◌∷◌, ◌++◌, Text, codes,
  eqb, is_some, or_else, if◌then◌else◌, ◌==◌, ◌⧺◌,
}
use psychic_octo_invention.Json.{
  Json, null, bool, num, str, obj, Fields, end, field, get_member, as_string, is_truthy,
}
use psychic_octo_invention.Routing.Types.{ToolCall}
use psychic_octo_invention.Orchestration.Types.{
  DispatchStatus, ToolDispatch, ToolResult, SubAgentDispatch,
}
use psychic_octo_invention.Orchestration.Tools.Settings.{
  FirstPartyToolSettings, default_first_party_tools, is_first_party_tool_enabled,
  is_sub_agent_tool_call,
}
use psychic_octo_invention.Routing.Signals.{
  ghl_crm_tool_name, bookkeeping_tool_name, followup_tool_name,
}
use psychic_octo_invention.Orchestration.Tools.Arguments.{
  Source, first_string, number, anything, first_string_arg, read_source, read_fields, add_field,
  choose_action, valid_ghl_actions, valid_bookkeeping_actions, valid_followup_actions, ghl_fields,
}
use psychic_octo_invention.Orchestration.Tools.Inputs.{
  SubAgentCallContext, bookkeeping_input, followup_input,
}
use psychic_octo_invention.Orchestration.Tools.Tasks.{
  SubAgentTask, update_task, set_running, set_result, new_task,
}

-- The services `processGhlDispatch`, `processBookkeepingDispatch` and `processFollowUpDispatch`.
pub record SubAgentServices : Type 0 where
  pub process_ghl : SubAgentDispatch → SubAgentDispatch
  pub process_bookkeeping : SubAgentDispatch → SubAgentDispatch
  pub process_followup : SubAgentDispatch → SubAgentDispatch

-- The tasks, the answers so far, and the dispatches that were handed to a service, oldest first.
pub record Progress : Type 0 where
  pub tasks : List SubAgentTask
  pub next_task_id : ℕ
  pub tool_dispatches : List ToolDispatch
  pub sub_agent_dispatches : List SubAgentDispatch
  pub tool_results : List ToolResult
  pub processed : List SubAgentDispatch

-- What a call comes to: the answers go on, or a `TypeError` ends all of them.
pub data Step : Type 0 where
  continued : Progress → Step
  type_error : Progress → Step

-- A task is stored, set to running, and settled with the result of the service.
unfoldable pub run_task :
    (SubAgentDispatch → SubAgentDispatch)
    → String
    → String
    → Json
    → Progress
    → SubAgentDispatch × Progress
run_task process agent_name task_type input progress =
    let id = progress.next_task_id in
    let stored =
      update_task id set_running (new_task id agent_name task_type input ∷ progress.tasks) in
    let dispatch : SubAgentDispatch = record {
      agent_name = agent_name;
      task_type = task_type;
      input = input;
      status = DispatchStatus.queued;
      output = none;
      error = none;
    } in
    let result = process dispatch in
    (
      result,
      record progress {
        tasks = update_task id (set_result result) stored;
        next_task_id = suc id;
        processed = progress.processed ++ (dispatch ∷ []);
      },
    )

-- `typeof output.summary === 'string'`, and not empty.
abbrev filled_string : Option String → Option String
filled_string none = none
filled_string (some s) = if s == "" then none else some s

abbrev is_true : Option Json → Bool
is_true (some (bool b)) = b
is_true _ = false

abbrev output_field : String → Option Json → Option Json
output_field key none = none
output_field key (some output) = get_member key output

abbrev with_question : String → Bool → Option String → String
with_question summary true (some question) = summary ⧺ "\n\n" ⧺ question
with_question summary true none = summary
with_question summary false question = summary

abbrev is_completed : DispatchStatus → Bool
is_completed DispatchStatus.completed = true
is_completed DispatchStatus.queued = false
is_completed DispatchStatus.failed = false

unfoldable pub build_tool_result_text : SubAgentDispatch → String
build_tool_result_text dispatch =
    elim (filled_string (as_string (output_field "summary" dispatch.output))) [
      | none ↦
          if is_completed dispatch.status
          then "Operation completed."
          else "Error: " ⧺ or_else dispatch.error "undefined"
      | some summary ↦
          with_question summary (is_true (output_field "needsClarification" dispatch.output))
            (filled_string (as_string (output_field "clarificationQuestion" dispatch.output)))
    ]

unfoldable pub build_disabled_dispatch : String → Json → SubAgentDispatch
build_disabled_dispatch tool_name input =
    let message = tool_name ⧺ " is currently disabled in admin settings." in
    record {
      agent_name = tool_name;
      task_type = or_else (as_string (get_member "action" input)) "disabled";
      input = input;
      status = DispatchStatus.failed;
      output = some (obj (field "summary" (str message) end));
      error = some message;
    }

abbrev pub with_raw : String → Option Json → Json
with_raw raw none = obj (field "raw" (str raw) end)
with_raw raw (some value) = value

abbrev pub is_null : Json → Bool
is_null null = true
is_null _ = false

abbrev pub answer : ToolCall → Json → SubAgentDispatch → Progress → Progress
answer call args dispatch progress =
    let text = codes (build_tool_result_text dispatch) in
    record progress {
      sub_agent_dispatches = progress.sub_agent_dispatches ++ (dispatch ∷ []);
      tool_dispatches =
          progress.tool_dispatches
          ++ (record {
            tool_name = call.name;
            arguments = args;
            status =
                if is_completed dispatch.status
                then DispatchStatus.completed
                else DispatchStatus.failed;
            result = text;
            error = dispatch.error;
          }
              ∷ []);
      tool_results =
          progress.tool_results ++ (record { tool_call_id = call.id; result = text } ∷ []);
    }

abbrev pub finish_call :
    ToolCall → Json → Option (SubAgentDispatch × Progress) → Progress → Progress
finish_call call args none progress = progress
finish_call call args (some (dispatch, after)) progress = answer call args dispatch after

module _ (services : SubAgentServices) (context : SubAgentCallContext) where
  unfoldable pub execute_ghl_sub_agent : Json → Progress → SubAgentDispatch × Progress
  execute_ghl_sub_agent args progress =
      let action = choose_action valid_ghl_actions "search_contact" (get_member "action" args) in
      run_task services.process_ghl ghl_crm_tool_name action
        (obj (field "action" (str action) (read_fields args ghl_fields))) progress

  unfoldable pub execute_bookkeeping_sub_agent : Json → Progress → SubAgentDispatch × Progress
  execute_bookkeeping_sub_agent args progress =
      let action =
        choose_action valid_bookkeeping_actions "process_receipt" (get_member "action" args) in
      run_task services.process_bookkeeping bookkeeping_tool_name action
        (obj (bookkeeping_input context args action)) progress

  unfoldable pub execute_followup_sub_agent : Json → Progress → SubAgentDispatch × Progress
  execute_followup_sub_agent args progress =
      let action = choose_action valid_followup_actions "find_stale" (get_member "action" args) in
      run_task services.process_followup followup_tool_name action
        (obj (followup_input context args action)) progress

  -- The sub-agent of a name; `none` for any other name.
  unfoldable pub execute_sub_agent : String → Json → Progress → Option (SubAgentDispatch × Progress)
  execute_sub_agent name args progress =
      if name == ghl_crm_tool_name
      then some (execute_ghl_sub_agent args progress)
      else if name == bookkeeping_tool_name
      then some (execute_bookkeeping_sub_agent args progress)
      else if name == followup_tool_name
      then some (execute_followup_sub_agent args progress)
      else none

  -- One round of the loop. Reading the action of `null` throws.
  unfoldable pub dispatch_call : FirstPartyToolSettings → ToolCall → Json → Progress → Step
  dispatch_call settings call args progress =
      if not (is_sub_agent_tool_call call.name)
      then continued progress
      else if is_null args
      then type_error progress
      else if not (is_first_party_tool_enabled call.name settings)
      then continued (answer call args (build_disabled_dispatch call.name args) progress)
      else continued (finish_call call args (execute_sub_agent call.name args progress) progress)

  module _ (parse : String → Option Json) where
    unfoldable pub process_calls : FirstPartyToolSettings → List ToolCall → Progress → Step
    process_calls settings [] progress = continued progress
    process_calls settings (call ∷ calls) progress =
        elim (dispatch_call settings call (with_raw call.arguments (parse call.arguments))
          progress) [
            | type_error after ↦ type_error after
            | continued after ↦ process_calls settings calls after
          ]

    -- Settings that cannot be read count as all switched on.
    abbrev pub process_sub_agent_calls :
        Option FirstPartyToolSettings → List ToolCall → List SubAgentTask → ℕ → Step
    process_sub_agent_calls settings calls tasks next_task_id =
        process_calls (or_else settings default_first_party_tools) calls (record {
          tasks = tasks;
          next_task_id = next_task_id;
          tool_dispatches = [];
          sub_agent_dispatches = [];
          tool_results = [];
          processed = [];
        })
