-- ===== src/Orchestration/Tools/SubAgents/Runs.antt =====
-- All the calls of first-party tools in one response.
use mathlib.Core.List.{append-nil, append_assoc}
use psychic_octo_invention.Prelude.{
  ℕ, ◌≡◌, refl, sym, ap, subst, ◌∙◌, ◌⊎◌, inl, inr, String, Bool, true, false, Option, List, [],
  ◌∷◌, ◌++◌, map, any, filter, All,
}
use psychic_octo_invention.Json.{Json}
use psychic_octo_invention.Routing.Types.{ToolCall}
use psychic_octo_invention.Orchestration.Types.{SubAgentDispatch}
use psychic_octo_invention.Orchestration.Tools.Settings.{
  FirstPartyToolSettings, is_sub_agent_tool_call,
}
use psychic_octo_invention.Orchestration.Tools.Inputs.{SubAgentCallContext}
use psychic_octo_invention.Orchestration.Tools.Tasks.{SubAgentTask}
use psychic_octo_invention.Orchestration.Tools.SubAgents.{
  SubAgentServices, Progress, Step, continued, type_error, dispatch_call, is_null, with_raw,
  process_calls,
}
use psychic_octo_invention.Orchestration.Tools.SubAgents.Laws.{IsSettled}
use psychic_octo_invention.Orchestration.Tools.SubAgents.Calls.{
  progress_of, IsHanded, IsSafe, Answers, dispatch_call-cases,
}

module _ (services : SubAgentServices) (context : SubAgentCallContext)
    (settings : FirstPartyToolSettings) (parse : String → Option Json) where
  abbrev Handed : SubAgentDispatch → Type 0
  Handed d = IsHanded services context settings d

  abbrev Safe : Progress → Progress → Type 0
  Safe before after = IsSafe services context settings before after

  abbrev result_ids : Progress → List String
  result_ids p = map (λ r. r.tool_call_id) p.tool_results

  abbrev args_of : ToolCall → Json
  args_of call = with_raw call.arguments (parse call.arguments)

  abbrev pub own_calls : List ToolCall → List ToolCall
  own_calls calls = filter (λ c. is_sub_agent_tool_call c.name) calls

  -- Some call of a first-party tool has the arguments `null`.
  abbrev pub has_null : List ToolCall → Bool
  has_null calls = any (λ c. is_null (args_of c)) (own_calls calls)

  abbrev loop : List ToolCall → Progress → Step
  loop calls before = process_calls services context parse settings calls before

  -- The loop ends with all answers, or it stops at arguments that are `null`.
  abbrev Ends : List ToolCall → Progress → Step → Type 0
  Ends calls before (continued after) =
      (has_null calls ≡ false)
      × Safe before after
      × (result_ids after ≡ result_ids before ++ map (λ c. c.id) (own_calls calls))
  Ends calls before (type_error after) = (has_null calls ≡ true) × Safe before after

  IsSafe-chain : (a b c : Progress) → Safe a b → Safe b c → Safe a c
  IsSafe-chain a b c p q = record {
    handed = λ h. q.handed (p.handed h);
    settled = λ h. q.settled (p.settled h);
  }

  Ends-cons :
      (call : ToolCall) (calls : List ToolCall) (before middle : Progress) (s : Step)
      → is_sub_agent_tool_call call.name ≡ true
      → is_null (args_of call) ≡ false
      → Answers services context settings call before middle
      → Ends calls middle s
      → Ends (call ∷ calls) before s
  Ends-cons call calls before middle (continued after) own filled a (clean, safe, ids) =
      rw (own, filled)
        (
          clean,
          IsSafe-chain before middle after a.0 safe,
          ids
              ∙ ap (λ xs. xs ++ map (λ c. c.id) (own_calls calls)) a.1
              ∙ append_assoc (result_ids before) (call.id ∷ []) (map (λ c. c.id) (own_calls calls)),
        )
  Ends-cons call calls before middle (type_error after) own filled a (null, safe) =
      rw (own, filled) (null, IsSafe-chain before middle after a.0 safe)

  Ends-skip :
      (call : ToolCall) (calls : List ToolCall) (before : Progress) (s : Step)
      → is_sub_agent_tool_call call.name ≡ false
      → Ends calls before s
      → Ends (call ∷ calls) before s
  Ends-skip call calls before (continued after) other h = rw other h
  Ends-skip call calls before (type_error after) other h = rw other h

  abbrev next : List ToolCall → Step → Step
  next calls (continued after) = loop calls after
  next calls (type_error after) = type_error after

  resume :
      (call : ToolCall) (calls : List ToolCall) (before : Progress) (s : Step)
      → dispatch_call services context settings call (args_of call) before ≡ s
      → Ends (call ∷ calls) before (next calls s)
      → Ends (call ∷ calls) before (loop (call ∷ calls) before)
  unfolding process_calls
  resume call calls before s e h = subst (λ x. Ends (call ∷ calls) before (next calls x)) (sym e) h

  Ends-concludes :
      (calls : List ToolCall) (before : Progress) (s : Step)
      → All Handed before.processed
      → All (IsSettled before.next_task_id) before.tasks
      → before.tool_results ≡ []
      → Ends calls before s
      → All Handed (progress_of s).processed
        × All (IsSettled (progress_of s).next_task_id) (progress_of s).tasks
        × (((has_null calls ≡ false)
              × (s ≡ continued (progress_of s))
              × (map (λ r. r.tool_call_id) (progress_of s).tool_results
                  ≡ map (λ c. c.id) (own_calls calls)))
            ⊎ ((has_null calls ≡ true) × (s ≡ type_error (progress_of s))))
  Ends-concludes calls before (continued after) p t e (clean, safe, ids) = (
    safe.handed p,
    safe.settled t,
    inl (
      clean,
      refl,
      ids ∙ ap (λ rs. map (λ r. r.tool_call_id) rs ++ map (λ c. c.id) (own_calls calls)) e,
    ),
  )
  Ends-concludes calls before (type_error after) p t e (null, safe) =
      (safe.handed p, safe.settled t, inr (null, refl))

  process_calls-Ends :
      (calls : List ToolCall) (before : Progress) → Ends calls before (loop calls before)
  unfolding process_calls
  process_calls-Ends [] before =
      (refl, record { handed = λ h. h; settled = λ h. h }, sym (append-nil (result_ids before)))
  process_calls-Ends (call ∷ calls) before =
      elim (dispatch_call-cases services context settings call (args_of call) before) [
        | inl (other, e) ↦
            resume call calls before _ e
              (Ends-skip call calls before _ other (process_calls-Ends calls before))
        | inr (inl (own, null, e)) ↦
            resume call calls before _ e
              (rw (own, null) (refl, record { handed = λ h. h; settled = λ h. h }))
        | inr (inr (own, filled, after, e, a)) ↦
            resume call calls before _ e
              (Ends-cons call calls before after _ own filled a (process_calls-Ends calls after))
      ]

  -- Of the calls of first-party tools in one response, a service is handed only those of tools that
  -- are switched on, each with an action that its sub-agent knows. No task is left queued or
  -- running. If no call has the arguments `null`, every call is answered once and in its order;
  -- otherwise all answers are lost.
  pub process_calls-ends :
      (calls : List ToolCall) (tasks : List SubAgentTask) (n : ℕ)
      → All (IsSettled n) tasks
      → let start : Progress = record {
        tasks = tasks;
        next_task_id = n;
        tool_dispatches = [];
        sub_agent_dispatches = [];
        tool_results = [];
        processed = [];
      } in
        let p = progress_of (loop calls start) in
        All Handed p.processed
        × All (IsSettled p.next_task_id) p.tasks
        × (((has_null calls ≡ false)
              × (loop calls start ≡ continued p)
              × (map (λ r. r.tool_call_id) p.tool_results ≡ map (λ c. c.id) (own_calls calls)))
            ⊎ ((has_null calls ≡ true) × (loop calls start ≡ type_error p)))
  process_calls-ends calls tasks n h =
      Ends-concludes calls _ _ tt h refl (process_calls-Ends calls _)
