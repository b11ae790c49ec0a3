-- ===== src/Orchestration/Tools/Executor.antt =====
-- apps/api/src/orchestration/external-tool-executor.ts: the calls of the tools of skills. What a script
-- exports, what a call of an exported function returns, and `JSON.parse`, are those of the JavaScript
-- engine: parameters. Log lines are left out.
pub mod Vetting
pub mod Answers
pub mod Laws
pub mod Runs
use psychic_octo_invention.Prelude.{
  ℕ, ◌-◌, true, String, Bool, Option, none, some, List, [], ◌∷◌, ◌++◌, Text, codes, length, take,
  leb, or_else, if◌then◌else◌, ◌⧺◌,
}
use psychic_octo_invention.Json.{Json, str, arr, obj, end, field, stringify}
use psychic_octo_invention.Routing.Types.{ToolCall, Channel}
use psychic_octo_invention.Skills.Types.{Store}
use psychic_octo_invention.Skills.Store.{log}
use psychic_octo_invention.Skills.Guard.{can_execute, GuardResult}
use psychic_octo_invention.Orchestration.Types.{ToolDispatch, ToolResult, completed, failed}
use psychic_octo_invention.Orchestration.Tools.Catalog.{ExternalSkillToolRuntime, get_runtime}

abbrev pub max_tool_result_chars : ℕ
max_tool_result_chars = 4000

-- The context of a call; the time stamp that a tool is given too is left out.
pub record ExternalToolExecutionContext : Type 0 where
  pub conversation_id : ℕ
  pub external_user_id : String
  pub source_channel : Channel
  pub source_message_id : ℕ

-- A value that a script exports: a function, an object with its properties, or
-- another, such as the `undefined` of a property that is missing.
pub data Export (F : Type 0) : Type 0 where
  function : F → Export F
  object : (String → Export F) → Export F
  primitive : Export F

-- What a script leaves behind: `module.exports`, `exports` and the global object.
pub record Script (F : Type 0) : Type 0 where
  pub module_exports : Export F
  pub named_exports : Export F
  pub sandbox : Export F

-- What a tool returns: a string, `null` or `undefined`, a value that `JSON.stringify` prints, or the
-- `String(value)` of another.
pub data ToolValue : Type 0 where
  text : String → ToolValue
  absent : ToolValue
  json : Json → ToolValue
  unprintable : String → ToolValue

-- A result or the message of the exception that is thrown.
pub data Outcome (A : Type 0) : Type 0 where
  returned : A → Outcome A
  thrown : String → Outcome A

abbrev as_function : {F : Type 0} → Export F → Option F
as_function (function f) = some f
as_function _ = none

-- `a ?? b` on candidates.
abbrev first_of : {F : Type 0} → Option F → Option F → Option F
first_of (some f) g = some f
first_of none g = g

unfoldable pub extract_runner_from_candidate : {F : Type 0} → Export F → String → Option F
extract_runner_from_candidate (function f) tool_name = some f
extract_runner_from_candidate (object members) tool_name =
    first_of (as_function (members tool_name)) (as_function (members "run"))
extract_runner_from_candidate primitive tool_name = none

unfoldable pub resolve_runner : {F : Type 0} → String → Script F → Option F
resolve_runner tool_name script =
    first_of (extract_runner_from_candidate script.module_exports tool_name) (
      first_of (extract_runner_from_candidate script.named_exports tool_name)
        (extract_runner_from_candidate script.sandbox tool_name))

unfoldable pub truncate : Text → Text
truncate value =
    if leb (length value) max_tool_result_chars
    then value
    else take (max_tool_result_chars - 3) value ++ codes "..."

unfoldable pub format_tool_result : ToolValue → Text
format_tool_result (text value) = truncate (codes value)
format_tool_result absent = codes "Tool completed successfully."
format_tool_result (json value) = truncate (stringify value)
format_tool_result (unprintable value) = truncate (codes value)

-- The arguments of a call as an object.
unfoldable pub as_arguments : String → Option Json → Json
as_arguments raw none = obj (field "raw" (str raw) end)
as_arguments raw (some (obj fs)) = obj fs
as_arguments raw (some value) = obj (field "value" value end)

-- The tables, the results so far, and the runtimes whose source was run, oldest first.
pub record Progress : Type 0 where
  pub store : Store
  pub tool_dispatches : List ToolDispatch
  pub tool_results : List ToolResult
  pub runs : List ExternalSkillToolRuntime

-- `toolDispatches.push` and `toolResults.push`
abbrev pub answer : ToolCall → ToolDispatch → Progress → Progress
answer call dispatch progress = record progress {
  tool_dispatches = progress.tool_dispatches ++ (dispatch ∷ []);
  tool_results =
      progress.tool_results ++ (record { tool_call_id = call.id; result = dispatch.result } ∷ []);
}

abbrev pub failed_dispatch : ToolCall → Json → String → String → ToolDispatch
failed_dispatch call args result error = record {
  tool_name = call.name;
  arguments = args;
  status = failed;
  result = codes result;
  error = some error;
}

-- `auditExecutionFailure`
abbrev audit_execution_failure : ExternalSkillToolRuntime → String → Store → Store
audit_execution_failure runtime reason store =
    log
      (record {
        actor_id = none;
        action = "skill.execution_failed";
        target_id = runtime.skill_id;
        detail = reason;
      })
      store

-- The dispatch of a tool that was run, and the audit entry of a failure.
unfoldable pub settle_run :
    ToolCall → ExternalSkillToolRuntime → Json → Outcome ToolValue → Progress → Progress
settle_run call runtime args (returned value) progress =
    answer call
      (record {
        tool_name = call.name;
        arguments = args;
        status = completed;
        result = format_tool_result value;
        error = none;
      })
      progress
settle_run call runtime args (thrown message) progress =
    answer call (failed_dispatch call args ("Tool execution failed: " ⧺ message) message)
      (record progress { store = audit_execution_failure runtime message progress.store })

abbrev pub safe_parse_json : (String → Option Json) → String → Json
safe_parse_json parse raw = as_arguments raw (parse raw)

abbrev missing_result : ToolCall → String
missing_result call = "Tool \"" ⧺ call.name ⧺ "\" is unavailable or not executable."

-- A call of a name that has no runtime.
abbrev pub missing_dispatch : ToolCall → Json → ToolDispatch
missing_dispatch call args = failed_dispatch call args (missing_result call) (missing_result call)

module _ {F : Type 0} (compute_code_hash : String → String) (parse : String → Option Json)
    (evaluate : ExternalSkillToolRuntime → Outcome (Script F))
    (call_function : F → Json → ExternalToolExecutionContext → Outcome ToolValue)
    (context : ExternalToolExecutionContext) where
  unfoldable pub run_script : ExternalSkillToolRuntime → Json → Script F → Outcome ToolValue
  run_script runtime args script = elim (resolve_runner runtime.tool_name script) [
    | some runner ↦ call_function runner args context
    | none ↦ thrown (
        "Skill \"" ⧺ runtime.skill_slug ⧺ "\" must export a function named \"" ⧺ runtime.tool_name
        ⧺ "\" or \"run\".")
  ]

  unfoldable pub run_external_tool : ExternalSkillToolRuntime → Json → Outcome ToolValue
  run_external_tool runtime args = elim (evaluate runtime) [
    | thrown message ↦ thrown message
    | returned script ↦ run_script runtime args script
  ]

  -- A call whose runtime the guard was asked about.
  unfoldable pub run_approved : ToolCall → ExternalSkillToolRuntime → Json → Progress → Progress
  run_approved call runtime args progress =
      settle_run call runtime args (run_external_tool runtime args)
        (record progress { runs = progress.runs ++ (runtime ∷ []) })

  unfoldable pub guard_call : ToolCall → ExternalSkillToolRuntime → Json → Progress → Progress
  guard_call call runtime args progress =
      let (guard, store) =
        can_execute compute_code_hash runtime.skill_slug
          (record { source = some runtime.source; require_source_hash = true }) progress.store in
      let asked = record progress { store = store } in
      if guard.approved
      then run_approved call runtime args asked
      else answer call
          (failed_dispatch call args ("Tool execution blocked: " ⧺ guard.reason ⧺ ".") guard.reason)
          asked

  unfoldable pub call_runtime : Option ExternalSkillToolRuntime → ToolCall → Progress → Progress
  call_runtime none call progress =
      answer call (missing_dispatch call (safe_parse_json parse call.arguments)) progress
  call_runtime (some runtime) call progress =
      guard_call call runtime (safe_parse_json parse call.arguments) progress

  -- One round of the loop.
  unfoldable pub execute_call :
      List (String × ExternalSkillToolRuntime) → ToolCall → Progress → Progress
  execute_call runtimes call progress = call_runtime (get_runtime call.name runtimes) call progress

  unfoldable pub execute_calls :
      List (String × ExternalSkillToolRuntime) → List ToolCall → Progress → Progress
  execute_calls runtimes [] progress = progress
  execute_calls runtimes (call ∷ calls) progress =
      execute_calls runtimes calls (execute_call runtimes call progress)

  abbrev pub execute_external_tool_calls :
      List ToolCall → List (String × ExternalSkillToolRuntime) → Store → Progress
  execute_external_tool_calls calls runtimes store =
      execute_calls runtimes calls
        (record { store = store; tool_dispatches = []; tool_results = []; runs = [] })
