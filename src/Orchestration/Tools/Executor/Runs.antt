-- ===== src/Orchestration/Tools/Executor/Runs.antt =====
-- What a whole round of tool calls runs, and that it answers every call.
use mathlib.Core.List.{append-nil, append_assoc}
use psychic_octo_invention.Prelude.{
  ◌≤◌, ◌≡◌, refl, sym, ap, subst, ◌∙◌, inl, inr, String, Option, some, List, [], ◌∷◌, ◌++◌, map,
  All, All-append, map-append, In, length,
}
use psychic_octo_invention.Json.{Json}
use psychic_octo_invention.Routing.Types.{ToolCall}
use psychic_octo_invention.Skills.Types.{Store}
use psychic_octo_invention.Orchestration.Types.{ToolDispatch, completed}
use psychic_octo_invention.Orchestration.Tools.Catalog.{ExternalSkillToolRuntime, get_runtime}
use psychic_octo_invention.Orchestration.Tools.Executor.{
  ExternalToolExecutionContext, Script, ToolValue, Outcome, Progress, execute_external_tool_calls,
  max_tool_result_chars,
}
use psychic_octo_invention.Orchestration.Tools.Executor.Vetting.{
  can_execute-vetted, IsVettedSource, vetted_in,
}
use psychic_octo_invention.Orchestration.Tools.Executor.Answers.{Answered}
use psychic_octo_invention.Orchestration.Tools.Executor.Laws.{
  MayRun, execute_call-steps, execute_calls-cons, execute_calls-nil, step, steps, widen,
}

module _ {F : Type 0} (compute_code_hash : String → String) (parse : String → Option Json)
    (evaluate : ExternalSkillToolRuntime → Outcome (Script F))
    (call_function : F → Json → ExternalToolExecutionContext → Outcome ToolValue)
    (context : ExternalToolExecutionContext)
    (runtimes : List (String × ExternalSkillToolRuntime)) where
  abbrev round : ToolCall → Progress → Progress
  round call before =
      step compute_code_hash parse evaluate call_function context runtimes call before

  abbrev rounds : List ToolCall → Progress → Progress
  rounds calls before =
      steps compute_code_hash parse evaluate call_function context runtimes calls before

  abbrev Allowed : List ToolCall → Store → ExternalSkillToolRuntime → Type 0
  Allowed calls store runtime =
      MayRun compute_code_hash parse evaluate call_function context runtimes calls store runtime

  round-runs :
      (Q : ExternalSkillToolRuntime → Type 0) (call : ToolCall) (before : Progress) (store : Store)
      → before.store.skills ≡ store.skills
      → ((r : ExternalSkillToolRuntime) → Allowed (call ∷ []) store r → Q r)
      → All Q before.runs
      → All Q (round call before).runs
  round-runs Q call before store same allowed h =
      elim (execute_call-steps compute_code_hash parse evaluate call_function context runtimes call
        before).1 [
          | inl kept ↦ subst (All Q) (sym kept) h
          | inr (runtime, more, e, ok) ↦
              let v =
                vetted_in compute_code_hash before.store store runtime.skill_slug runtime.source
                  same
                  (can_execute-vetted compute_code_hash before.store runtime.skill_slug
                    runtime.source ok) in
              subst (All Q) (sym more) (
                All-append Q before.runs (runtime ∷ []) h
                  (allowed runtime ((call, inl refl, e), v), tt))
        ]

  rounds-runs :
      (Q : ExternalSkillToolRuntime → Type 0) (calls : List ToolCall) (before : Progress)
      (store : Store)
      → before.store.skills ≡ store.skills
      → ((r : ExternalSkillToolRuntime) → Allowed calls store r → Q r)
      → All Q before.runs
      → All Q (rounds calls before).runs
  rounds-runs Q [] before store same allowed h =
      rw (execute_calls-nil compute_code_hash parse evaluate call_function context runtimes before)
        h
  rounds-runs Q (call ∷ calls) before store same allowed h =
      let a =
        (execute_call-steps compute_code_hash parse evaluate call_function context runtimes call
          before).0 in
      rw
        (execute_calls-cons compute_code_hash parse evaluate call_function context runtimes call
          calls before)
        (rounds-runs Q calls (round call before) store (a.skills ∙ same)
          (λ r m. allowed r (
            widen compute_code_hash parse evaluate call_function context runtimes call calls store r
              m))
          (round-runs Q call before store same (λ r m. allowed r (first r m)) h))
    where
      first :
          (r : ExternalSkillToolRuntime)
          → Allowed (call ∷ []) store r
          → Allowed (call ∷ calls) store r
      first r ((c, inl e, q), v) = ((c, inl e, q), v)
      first r ((c, inr m, q), v) = absurd m

  abbrev IsBounded : ToolDispatch → Type 0
  IsBounded d = d.status ≡ completed → length d.result ≤ max_tool_result_chars

  -- How the answers grow: a dispatch and a result for each call, which carry the same text.
  record AreAnswered (calls : List ToolCall) (before after : Progress) : Type 0 where
    named :
        map (λ d. d.tool_name) after.tool_dispatches
        ≡ map (λ d. d.tool_name) before.tool_dispatches ++ map (λ c. c.name) calls
    identified :
        map (λ r. r.tool_call_id) after.tool_results
        ≡ map (λ r. r.tool_call_id) before.tool_results ++ map (λ c. c.id) calls
    same_texts :
        map (λ r. r.result) before.tool_results ≡ map (λ d. d.result) before.tool_dispatches
        → map (λ r. r.result) after.tool_results ≡ map (λ d. d.result) after.tool_dispatches
    bounded : All IsBounded before.tool_dispatches → All IsBounded after.tool_dispatches

  round-answers :
      (call : ToolCall) (before after : Progress)
      → Answered call before after
      → AreAnswered (call ∷ []) before after
  round-answers call before after a = record {
    named = rw a.dispatches (
        map-append (λ d. d.tool_name) before.tool_dispatches _
        ∙ ap (λ n. map (λ d. d.tool_name) before.tool_dispatches ++ (n ∷ [])) a.named);
    identified = rw a.results (map-append (λ r. r.tool_call_id) before.tool_results _);
    same_texts = λ h.
        rw (a.results, a.dispatches)
          (map-append (λ r. r.result) before.tool_results _
            ∙ ap (λ ts. ts ++ (a.dispatch.result ∷ [])) h
            ∙ sym (map-append (λ d. d.result) before.tool_dispatches _));
    bounded =
        λ h. rw a.dispatches (All-append IsBounded before.tool_dispatches _ h (a.bounded, tt));
  }

  chain :
      (call : ToolCall) (calls : List ToolCall) (a b c : Progress)
      → AreAnswered (call ∷ []) a b
      → AreAnswered calls b c
      → AreAnswered (call ∷ calls) a c
  chain call calls a b c p q = record {
    named =
        q.named
        ∙ ap (λ ts. ts ++ map (λ c. c.name) calls) p.named
        ∙ append_assoc _ (call.name ∷ []) _;
    identified =
        q.identified
        ∙ ap (λ ts. ts ++ map (λ c. c.id) calls) p.identified
        ∙ append_assoc _ (call.id ∷ []) _;
    same_texts = λ h. q.same_texts (p.same_texts h);
    bounded = λ h. q.bounded (p.bounded h);
  }

  rounds-answers :
      (calls : List ToolCall) (before : Progress) → AreAnswered calls before (rounds calls before)
  rounds-answers [] before =
      rw (execute_calls-nil compute_code_hash parse evaluate call_function context runtimes before)
        (record {
          named = sym (append-nil _);
          identified = sym (append-nil _);
          same_texts = λ h. h;
          bounded = λ h. h;
        })
  rounds-answers (call ∷ calls) before =
      rw
        (execute_calls-cons compute_code_hash parse evaluate call_function context runtimes call
          calls before)
        (chain call calls before (round call before) (rounds calls (round call before))
          (round-answers call before (round call before)
            (execute_call-steps compute_code_hash parse evaluate call_function context runtimes call
              before).0)
          (rounds-answers calls (round call before)))

  -- Of the tools of skills, the executor runs only those that a call names, each with the source of the
  -- current version of an enabled skill that passed its vetting: the hash of the source that runs is
  -- that of the vetted version. This holds for any calls and any catalog.
  pub execute_external_tool_calls-runs :
      (calls : List ToolCall) (store : Store)
      → All
          (λ r.
            ((call : ToolCall) × In call calls × (get_runtime call.name runtimes ≡ some r))
            × IsVettedSource compute_code_hash store r.skill_slug r.source)
          (execute_external_tool_calls compute_code_hash parse evaluate call_function context calls
            runtimes store).runs
  execute_external_tool_calls-runs calls store = rounds-runs _ calls _ store refl (λ r m. m) tt

  -- Every call of a tool of a skill is answered once and in its order: one dispatch under the name of
  -- the call, one result under its id, with the text of the dispatch; and the text of a completed
  -- dispatch is at most 4000 code units long.
  pub execute_external_tool_calls-answers :
      (calls : List ToolCall) (store : Store)
      → let after =
          execute_external_tool_calls compute_code_hash parse evaluate call_function context calls
            runtimes store in
        (map (λ d. d.tool_name) after.tool_dispatches ≡ map (λ c. c.name) calls)
        × (map (λ r. r.tool_call_id) after.tool_results ≡ map (λ c. c.id) calls)
        × (map (λ r. r.result) after.tool_results ≡ map (λ d. d.result) after.tool_dispatches)
        × All
            (λ d. d.status ≡ completed → length d.result ≤ max_tool_result_chars)
            after.tool_dispatches
  execute_external_tool_calls-answers calls store =
      let a = rounds-answers calls _ in (a.named, a.identified, a.same_texts refl, a.bounded tt)
