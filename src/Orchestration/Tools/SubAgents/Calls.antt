-- ===== src/Orchestration/Tools/SubAgents/Calls.antt =====
-- How the call of a first-party tool ends.
use psychic_octo_invention.Prelude.{
  ◌≡◌, refl, sym, ap, subst, ◌∙◌, ◌⊎◌, inl, inr, String, true, false, some, List, [], ◌∷◌, ◌++◌,
  map, All, All-append, map-append, includes, eq_iff, arith, Bool-cases,
}
use psychic_octo_invention.Json.{Json}
use psychic_octo_invention.Routing.Types.{ToolCall}
use psychic_octo_invention.Orchestration.Types.{SubAgentDispatch}
use psychic_octo_invention.Orchestration.Tools.Settings.{
  FirstPartyToolSettings, is_first_party_tool_enabled, is_sub_agent_tool_call,
}
use psychic_octo_invention.Routing.Signals.{
  ghl_crm_tool_name, bookkeeping_tool_name, followup_tool_name,
}
use psychic_octo_invention.Orchestration.Tools.Arguments.{
  valid_ghl_actions, valid_bookkeeping_actions, valid_followup_actions,
}
use psychic_octo_invention.Orchestration.Tools.Inputs.{SubAgentCallContext}
use psychic_octo_invention.Orchestration.Tools.SubAgents.{
  SubAgentServices, Progress, Step, continued, type_error, execute_sub_agent, execute_ghl_sub_agent,
  execute_bookkeeping_sub_agent, execute_followup_sub_agent, finish_call, answer, dispatch_call,
  build_disabled_dispatch, is_null,
}
use psychic_octo_invention.Orchestration.Tools.SubAgents.Laws.{
  Ran, run_task-Ran, choose_action-valid, IsKnown, IsSettled, valid_actions,
}

-- The three names.
sub_agent-cases :
    (name : String)
    → is_sub_agent_tool_call name ≡ true
    → (name ≡ ghl_crm_tool_name) ⊎ ((name ≡ bookkeeping_tool_name) ⊎ (name ≡ followup_tool_name))
unfolding is_sub_agent_tool_call
sub_agent-cases name h = ground (
  arith,
  eq_iff ghl_crm_tool_name name,
  eq_iff bookkeeping_tool_name name,
  eq_iff followup_tool_name name,
)

abbrev pub progress_of : Step → Progress
progress_of (continued p) = p
progress_of (type_error p) = p

module _ (services : SubAgentServices) (context : SubAgentCallContext) where
  -- A sub-agent is run under its own name, with an action that it knows.
  execute_sub_agent-runs :
      (name : String) (args : Json) (before : Progress)
      → is_sub_agent_tool_call name ≡ true
      → (r : SubAgentDispatch × Progress) × (execute_sub_agent services context name args before
          ≡ some r)
        × (process : SubAgentDispatch → SubAgentDispatch) × (action : String) × Ran process name
            action before r
        × (includes (valid_actions name) action ≡ true)
  unfolding execute_sub_agent execute_ghl_sub_agent execute_bookkeeping_sub_agent
      execute_followup_sub_agent
  execute_sub_agent-runs name args before h = elim (sub_agent-cases name h) [
    | inl e ↦ rw e (
      _,
      refl,
      _,
      _,
      run_task-Ran _ _ _ _ before,
      choose_action-valid valid_ghl_actions "search_contact" _ refl,
    )
    | inr (inl e) ↦ rw e (
      _,
      refl,
      _,
      _,
      run_task-Ran _ _ _ _ before,
      choose_action-valid valid_bookkeeping_actions "process_receipt" _ refl,
    )
    | inr (inr e) ↦ rw e (
      _,
      refl,
      _,
      _,
      run_task-Ran _ _ _ _ before,
      choose_action-valid valid_followup_actions "find_stale" _ refl,
    )
  ]

  module _ (settings : FirstPartyToolSettings) where
    -- A dispatch that a service may be handed.
    abbrev pub IsHanded : SubAgentDispatch → Type 0
    IsHanded d = (is_first_party_tool_enabled d.agent_name settings ≡ true) × IsKnown d

    pub record IsSafe (before after : Progress) : Type 0 where
      pub handed : All IsHanded before.processed → All IsHanded after.processed
      pub settled :
          All (IsSettled before.next_task_id) before.tasks
          → All (IsSettled after.next_task_id) after.tasks

    abbrev pub result_ids : Progress → List String
    result_ids p = map (λ r. r.tool_call_id) p.tool_results

    -- A call that ends with an answer.
    abbrev pub Answers : ToolCall → Progress → Progress → Type 0
    Answers call before after =
        IsSafe before after × (result_ids after ≡ result_ids before ++ (call.id ∷ []))

    abbrev pub handle : ToolCall → Json → Progress → Step
    handle call args before = dispatch_call services context settings call args before

    answer-ids :
        (call : ToolCall) (args : Json) (d : SubAgentDispatch) (p : Progress)
        → result_ids (answer call args d p) ≡ result_ids p ++ (call.id ∷ [])
    answer-ids call args d p = map-append (λ r. r.tool_call_id) p.tool_results _

    disabled-Answers :
        (call : ToolCall) (args : Json) (before : Progress)
        → Answers call before (answer call args (build_disabled_dispatch call.name args) before)
    disabled-Answers call args before =
        (record { handed = λ h. h; settled = λ h. h }, answer-ids call args _ before)

    enabled-Answers :
        (call : ToolCall) (args : Json) (before : Progress)
        → is_sub_agent_tool_call call.name ≡ true
        → is_first_party_tool_enabled call.name settings ≡ true
        → Answers call before (
            finish_call call args (execute_sub_agent services context call.name args before) before)
    enabled-Answers call args before h on =
        let (r, e, process, action, ran, known) = execute_sub_agent-runs call.name args before h in
        let handed : IsHanded ran.dispatch = (
          subst (λ n. is_first_party_tool_enabled n settings ≡ true) (sym ran.agent) on,
          subst (λ n. includes (valid_actions n) ran.dispatch.task_type ≡ true) (sym ran.agent)
              (subst (λ a. includes (valid_actions call.name) a ≡ true) (sym ran.action) known),
        ) in
        subst (λ o. Answers call before (finish_call call args o before)) (sym e)
          (
            record {
              handed = λ all.
                  subst (All IsHanded) (sym ran.processed)
                    (All-append IsHanded before.processed _ all (handed, tt));
              settled = ran.settled;
            },
            answer-ids call args r.0 r.1
                ∙ ap (λ rs. map (λ x. x.tool_call_id) rs ++ (call.id ∷ [])) ran.tool_results,
          )

    -- The four ways in which a call ends.
    pub dispatch_call-cases :
        (call : ToolCall) (args : Json) (before : Progress)
        → ((is_sub_agent_tool_call call.name ≡ false)
            × (handle call args before ≡ continued before))
          ⊎ (((is_sub_agent_tool_call call.name ≡ true)
                × (is_null args ≡ true)
                × (handle call args before ≡ type_error before))
              ⊎ ((is_sub_agent_tool_call call.name ≡ true)
                  × (is_null args ≡ false)
                  × (after : Progress) × (handle call args before ≡ continued after)
                  × Answers call before after))
    unfolding dispatch_call
    dispatch_call-cases call args before = elim (Bool-cases (is_sub_agent_tool_call call.name)) [
      | inr other ↦ inl (other, rw other refl)
      | inl own ↦ elim (Bool-cases (is_null args)) [
        | inl null ↦ inr (inl (own, null, rw (own, null) refl))
        | inr filled ↦ elim (Bool-cases (is_first_party_tool_enabled call.name settings)) [
          | inr off ↦
              inr (
                inr (own, filled, _, rw (own, filled, off) refl, disabled-Answers call args before))
          | inl on ↦ inr (
              inr (
                own,
                filled,
                _,
                rw (own, filled, on) refl,
                enabled-Answers call args before own on,
              ))
        ]
      ]
    ]
