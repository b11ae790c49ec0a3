-- ===== src/Orchestration/Tools/Executor/Laws.antt =====
-- One call of an external tool: what is run and what is answered.
use psychic_octo_invention.Prelude.{
  ◌≡◌, refl, ap, ◌∙◌, ◌⊎◌, inl, inr, String, Bool, true, false, Option, none, some, List, [], ◌∷◌,
  ◌++◌, In, Option-cases, Bool-cases, ◌⧺◌, if◌then◌else◌,
}
use psychic_octo_invention.Json.{Json}
use psychic_octo_invention.Routing.Types.{ToolCall}
use psychic_octo_invention.Skills.Types.{Store}
use psychic_octo_invention.Skills.Guard.{can_execute, GuardResult}
use psychic_octo_invention.Skills.Guard.Laws.{can_execute-tables}
use psychic_octo_invention.Orchestration.Types.{ToolDispatch}
use psychic_octo_invention.Orchestration.Tools.Catalog.{ExternalSkillToolRuntime, get_runtime}
use psychic_octo_invention.Orchestration.Tools.Executor.{
  failed_dispatch, missing_dispatch, call_runtime, safe_parse_json, ExternalToolExecutionContext,
  Script, ToolValue, Outcome, Progress, answer, run_external_tool, settle_run, run_approved,
  guard_call, execute_call, execute_calls,
}
use psychic_octo_invention.Orchestration.Tools.Executor.Vetting.{IsVettedSource, given}
use psychic_octo_invention.Orchestration.Tools.Executor.Answers.{
  Answered, settle_run-Answered, settle_run-runs,
}

module _ {F : Type 0} (compute_code_hash : String → String) (parse : String → Option Json)
    (evaluate : ExternalSkillToolRuntime → Outcome (Script F))
    (call_function : F → Json → ExternalToolExecutionContext → Outcome ToolValue)
    (context : ExternalToolExecutionContext)
    (runtimes : List (String × ExternalSkillToolRuntime)) where
  abbrev pub step : ToolCall → Progress → Progress
  step call progress =
      execute_call compute_code_hash parse evaluate call_function context runtimes call progress

  -- The source is run only if the guard approved it for this very call.
  abbrev pub RunsApproved : ToolCall → Progress → Progress → Type 0
  RunsApproved call before after =
      (after.runs ≡ before.runs)
      ⊎ ((runtime : ExternalSkillToolRuntime) × (after.runs ≡ before.runs ++ (runtime ∷ []))
          × (get_runtime call.name runtimes ≡ some runtime)
          × ((can_execute compute_code_hash runtime.skill_slug (given runtime.source)
                before.store).0.approved
              ≡ true))

  abbrev pub asked : ExternalSkillToolRuntime → Progress → GuardResult × Store
  asked runtime before =
      can_execute compute_code_hash runtime.skill_slug (given runtime.source) before.store

  abbrev started : ExternalSkillToolRuntime → Progress → Progress
  started runtime before = record before {
    store = (asked runtime before).1;
    runs = before.runs ++ (runtime ∷ []);
  }

  abbrev guarded : ToolCall → ExternalSkillToolRuntime → Json → Progress → Progress
  guarded call runtime args before =
      guard_call compute_code_hash parse evaluate call_function context call runtime args before

  guard_call-approved :
      (call : ToolCall) (runtime : ExternalSkillToolRuntime) (args : Json) (before : Progress)
      → (asked runtime before).0.approved ≡ true
      → guarded call runtime args before
        ≡ settle_run call runtime args
            (run_external_tool compute_code_hash parse evaluate call_function context runtime args)
            (started runtime before)
  unfolding guard_call run_approved
  guard_call-approved call runtime args before ok = rw ok refl

  abbrev refusal : ToolCall → ExternalSkillToolRuntime → Json → Progress → ToolDispatch
  refusal call runtime args before =
      let reason = (asked runtime before).0.reason in
      failed_dispatch call args ("Tool execution blocked: " ⧺ reason ⧺ ".") reason

  guard_call-refused :
      (call : ToolCall) (runtime : ExternalSkillToolRuntime) (args : Json) (before : Progress)
      → (asked runtime before).0.approved ≡ false
      → guarded call runtime args before
        ≡ answer call
            (refusal call runtime args before)
            (record before { store = (asked runtime before).1 })
  unfolding guard_call
  guard_call-refused call runtime args before blocked = rw blocked refl

  guard_call-steps :
      (call : ToolCall) (runtime : ExternalSkillToolRuntime) (args : Json) (before : Progress)
      → get_runtime call.name runtimes ≡ some runtime
      → Answered call before (guarded call runtime args before)
        × RunsApproved call before (guarded call runtime args before)
  guard_call-steps call runtime args before e =
      let same =
        (can_execute-tables compute_code_hash (given runtime.source) before.store
          runtime.skill_slug).0 in
      elim (Bool-cases (asked runtime before).0.approved) [
        | inl ok ↦
            let o =
              run_external_tool compute_code_hash parse evaluate call_function context runtime
                args in
            let a = settle_run-Answered call runtime args o (started runtime before) in
            rw (guard_call-approved call runtime args before ok) (
              record {
                dispatch = a.dispatch;
                named = a.named;
                dispatches = a.dispatches;
                results = a.results;
                bounded = a.bounded;
                skills = a.skills ∙ same;
              },
              inr (runtime, settle_run-runs call runtime args o (started runtime before), e, ok),
            )
        | inr blocked ↦ rw (guard_call-refused call runtime args before blocked) (
          record {
            dispatch = refusal call runtime args before;
            named = refl;
            dispatches = refl;
            results = refl;
            bounded = λ h. cc;
            skills = same;
          },
          inl refl,
        )
      ]

  abbrev called : Option ExternalSkillToolRuntime → ToolCall → Progress → Progress
  called o call before =
      call_runtime compute_code_hash parse evaluate call_function context o call before

  abbrev unknown : ToolCall → ToolDispatch
  unknown call = missing_dispatch call (safe_parse_json parse call.arguments)

  execute_call-missing :
      (call : ToolCall) (before : Progress)
      → get_runtime call.name runtimes ≡ none
      → step call before ≡ answer call (unknown call) before
  unfolding execute_call call_runtime
  execute_call-missing call before e = ap (λ o. called o call before) e

  execute_call-found :
      (call : ToolCall) (before : Progress) (runtime : ExternalSkillToolRuntime)
      → get_runtime call.name runtimes ≡ some runtime
      → step call before ≡ guarded call runtime (safe_parse_json parse call.arguments) before
  unfolding execute_call call_runtime
  execute_call-found call before runtime e = ap (λ o. called o call before) e

  pub execute_call-steps :
      (call : ToolCall) (before : Progress)
      → Answered call before (step call before) × RunsApproved call before (step call before)
  execute_call-steps call before = elim (Option-cases (get_runtime call.name runtimes)) [
    | inl missing ↦ rw (execute_call-missing call before missing) (
      record {
        dispatch = unknown call;
        named = refl;
        dispatches = refl;
        results = refl;
        bounded = λ h. cc;
        skills = refl;
      },
      inl refl,
    )
    | inr (runtime, e) ↦
        rw (execute_call-found call before runtime e)
          (guard_call-steps call runtime (safe_parse_json parse call.arguments) before e)
  ]

  -- Whether the tool of a call is run is the guard's answer.
  pub execute_call-runs :
      (call : ToolCall) (before : Progress) (runtime : ExternalSkillToolRuntime)
      → get_runtime call.name runtimes ≡ some runtime
      → (approvable : Bool) → (asked runtime before).0.approved ≡ approvable
      → (step call before).runs
        ≡ (if approvable then before.runs ++ (runtime ∷ []) else before.runs)
  execute_call-runs call before runtime e true ok =
      let args = safe_parse_json parse call.arguments in
      rw (execute_call-found call before runtime e, guard_call-approved call runtime args before ok)
        (settle_run-runs call runtime args
          (run_external_tool compute_code_hash parse evaluate call_function context runtime args)
          (started runtime before))
  execute_call-runs call before runtime e false blocked =
      rw
        (
          execute_call-found call before runtime e,
          guard_call-refused call runtime (safe_parse_json parse call.arguments) before blocked,
        )
        refl

  abbrev pub steps : List ToolCall → Progress → Progress
  steps calls progress =
      execute_calls compute_code_hash parse evaluate call_function context runtimes calls progress

  -- What holds of every round holds of the loop, which goes on with the rest of the calls.
  pub execute_calls-cons :
      (call : ToolCall) (calls : List ToolCall) (before : Progress)
      → steps (call ∷ calls) before ≡ steps calls (step call before)
  unfolding execute_calls
  execute_calls-cons call calls before = refl

  pub execute_calls-nil : (before : Progress) → steps [] before ≡ before
  unfolding execute_calls
  execute_calls-nil before = refl

  -- A source that may be run: its tool was called by its name, and it is the vetted one.
  abbrev pub MayRun : List ToolCall → Store → ExternalSkillToolRuntime → Type 0
  MayRun calls store runtime =
      ((call : ToolCall) × In call calls × (get_runtime call.name runtimes ≡ some runtime))
      × IsVettedSource compute_code_hash store runtime.skill_slug runtime.source

  pub widen :
      (call : ToolCall) (calls : List ToolCall) (store : Store) (runtime : ExternalSkillToolRuntime)
      → MayRun calls store runtime
      → MayRun (call ∷ calls) store runtime
  widen call calls store runtime ((c, m, e), v) = ((c, inr m, e), v)
