-- ===== src/Orchestration/Tools/Executor/Answers.antt =====
-- What the end of one call adds to the answers.
use psychic_octo_invention.Prelude.{
  ◌≤◌, ◌≡◌, refl, inl, inr, [], ◌∷◌, ◌++◌, arith, Text, codes, length, take, Bool-cases,
  length-append, length-take_le, leb, leb→le, ◌-◌,
}
use psychic_octo_invention.Json.{Json, stringify}
use psychic_octo_invention.Routing.Types.{ToolCall}
use psychic_octo_invention.Orchestration.Types.{ToolDispatch, completed}
use psychic_octo_invention.Orchestration.Tools.Catalog.{ExternalSkillToolRuntime}
use psychic_octo_invention.Orchestration.Tools.Executor.{
  text, absent, json, unprintable, ToolValue, Outcome, returned, thrown, Progress, settle_run,
  truncate, format_tool_result, max_tool_result_chars,
}

-- A result is cut at 4000 code units.
truncate-length : (value : Text) → length (truncate value) ≤ max_tool_result_chars
unfolding truncate
truncate-length value = elim (Bool-cases (leb (length value) max_tool_result_chars)) [
  | inl short ↦ rw short (leb→le _ _ short)
  | inr long ↦ rw long (
      omega (
        arith,
        length-append (take (max_tool_result_chars - 3) value) (codes "..."),
        length-take_le (max_tool_result_chars - 3) value,
      ))
]

format_tool_result-length :
    (value : ToolValue) → length (format_tool_result value) ≤ max_tool_result_chars
unfolding format_tool_result
format_tool_result-length (text value) = truncate-length (codes value)
format_tool_result-length absent = omega arith
format_tool_result-length (json value) = truncate-length (stringify value)
format_tool_result-length (unprintable value) = truncate-length (codes value)

-- What a round adds: one dispatch and one result for the call; nothing to the tables but audit
-- entries.
pub record Answered (call : ToolCall) (before after : Progress) : Type 0 where
  pub dispatch : ToolDispatch
  pub named : dispatch.tool_name ≡ call.name
  pub dispatches : after.tool_dispatches ≡ before.tool_dispatches ++ (dispatch ∷ [])
  pub results :
      after.tool_results
      ≡ before.tool_results ++ (record { tool_call_id = call.id; result = dispatch.result } ∷ [])
  pub bounded : dispatch.status ≡ completed → length dispatch.result ≤ max_tool_result_chars
  pub skills : after.store.skills ≡ before.store.skills

pub settle_run-Answered :
    (call : ToolCall) (runtime : ExternalSkillToolRuntime) (args : Json) (o : Outcome ToolValue)
    (progress : Progress)
    → Answered call progress (settle_run call runtime args o progress)
unfolding settle_run
settle_run-Answered call runtime args (returned value) progress = record {
  dispatch = _;
  named = refl;
  dispatches = refl;
  results = refl;
  bounded = λ h. format_tool_result-length value;
  skills = refl;
}
settle_run-Answered call runtime args (thrown message) progress = record {
  dispatch = _;
  named = refl;
  dispatches = refl;
  results = refl;
  bounded = λ h. cc;
  skills = refl;
}

pub settle_run-runs :
    (call : ToolCall) (runtime : ExternalSkillToolRuntime) (args : Json) (o : Outcome ToolValue)
    (progress : Progress)
    → (settle_run call runtime args o progress).runs ≡ progress.runs
unfolding settle_run
settle_run-runs call runtime args (returned value) progress = refl
settle_run-runs call runtime args (thrown message) progress = refl
