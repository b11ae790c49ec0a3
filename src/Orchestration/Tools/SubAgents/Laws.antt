-- ===== src/Orchestration/Tools/SubAgents/Laws.antt =====
-- One call of a first-party tool: what it hands to a service, what it stores and what it answers.
use psychic_octo_invention.Prelude.{
  ℕ, suc, ◌≡◌, ◌<◌, refl, ap, ◌⊎◌, inl, inr, String, true, false, Option, none, some, List, [], ◌∷◌,
  ◌++◌, All, includes, ◌==◌, eqb, arith, Bool-cases, if◌then◌else◌,
}
use psychic_octo_invention.Json.{Json, str, null, bool, num, arr, obj}
use psychic_octo_invention.Orchestration.Types.{
  DispatchStatus, queued, completed, failed, SubAgentDispatch,
}
use psychic_octo_invention.Routing.Signals.{ghl_crm_tool_name, bookkeeping_tool_name}
use psychic_octo_invention.Orchestration.Tools.Arguments.{
  choose_action, valid_ghl_actions, valid_bookkeeping_actions, valid_followup_actions,
}
use psychic_octo_invention.Orchestration.Tools.Tasks.{
  TaskStatus, SubAgentTask, update_task, set_running, set_result, new_task, final_status,
}
use psychic_octo_invention.Orchestration.Tools.SubAgents.{Progress, run_task}

-- The actions that the sub-agent of a name knows.
abbrev pub valid_actions : String → List String
valid_actions name =
    if name == ghl_crm_tool_name
    then valid_ghl_actions
    else if name == bookkeeping_tool_name
    then valid_bookkeeping_actions
    else valid_followup_actions

abbrev pub IsKnown : SubAgentDispatch → Type 0
IsKnown d = includes (valid_actions d.agent_name) d.task_type ≡ true

abbrev pub IsFinal : TaskStatus → Type 0
IsFinal s = (s ≡ TaskStatus.completed) ⊎ (s ≡ TaskStatus.failed)

-- A stored task has an id below the next one, and it is settled.
abbrev pub IsSettled : ℕ → SubAgentTask → Type 0
IsSettled n t = (t.id < n) × IsFinal t.status

pub choose_action-valid :
    (valid : List String) (fallback : String) (asked : Option Json)
    → includes valid fallback ≡ true
    → includes valid (choose_action valid fallback asked) ≡ true
unfolding choose_action
choose_action-valid valid fallback none h = h
choose_action-valid valid fallback (some (str action)) h =
    elim (Bool-cases (includes valid action)) [ inl e ↦ rw e e | inr e ↦ rw e h ]
choose_action-valid valid fallback (some null) h = h
choose_action-valid valid fallback (some (bool b)) h = h
choose_action-valid valid fallback (some (num n)) h = h
choose_action-valid valid fallback (some (arr xs)) h = h
choose_action-valid valid fallback (some (obj fs)) h = h

update_task-others :
    (n : ℕ) (f : SubAgentTask → SubAgentTask) (ts : List SubAgentTask)
    → All (IsSettled n) ts
    → update_task n f ts ≡ ts
unfolding update_task
update_task-others n f [] h = refl
update_task-others n f (t ∷ ts) h =
    let other : eqb t.id n ≡ false = (let le = h.0.0 in ground arith) in
    rw other (ap (λ rest. t ∷ rest) (update_task-others n f ts h.1))

update_task-head :
    (n : ℕ) (f : SubAgentTask → SubAgentTask) (t : SubAgentTask) (ts : List SubAgentTask)
    → t.id ≡ n
    → All (IsSettled n) ts
    → update_task n f (t ∷ ts) ≡ f t ∷ ts
unfolding update_task
update_task-head n f t ts e h =
    let own : eqb t.id n ≡ true = ground arith in
    rw own (ap (λ rest. f t ∷ rest) (update_task-others n f ts h))

later : (n : ℕ) (ts : List SubAgentTask) → All (IsSettled n) ts → All (IsSettled (suc n)) ts
later n [] h = tt
later n (t ∷ ts) h = (((let le = h.0.0 in omega arith), h.0.1), later n ts h.1)

final_status-IsFinal : (s : DispatchStatus) → IsFinal (final_status s)
final_status-IsFinal queued = inr refl
final_status-IsFinal completed = inl refl
final_status-IsFinal failed = inr refl

-- What a task adds: one dispatch for the service, and one settled row; no answer yet.
pub record Ran (process : SubAgentDispatch → SubAgentDispatch) (agent_name task_type : String)
    (before : Progress) (r : SubAgentDispatch × Progress) : Type 0 where
  pub dispatch : SubAgentDispatch
  pub agent : dispatch.agent_name ≡ agent_name
  pub action : dispatch.task_type ≡ task_type
  pub processed : r.1.processed ≡ before.processed ++ (dispatch ∷ [])
  pub result : r.0 ≡ process dispatch
  pub settled :
      All (IsSettled before.next_task_id) before.tasks → All (IsSettled r.1.next_task_id) r.1.tasks
  pub tool_dispatches : r.1.tool_dispatches ≡ before.tool_dispatches
  pub sub_agent_dispatches : r.1.sub_agent_dispatches ≡ before.sub_agent_dispatches
  pub tool_results : r.1.tool_results ≡ before.tool_results

pub run_task-Ran :
    (process : SubAgentDispatch → SubAgentDispatch) (agent_name task_type : String) (input : Json)
    (before : Progress)
    → Ran process agent_name task_type before (run_task process agent_name task_type input before)
unfolding run_task
run_task-Ran process agent_name task_type input before = record {
  dispatch = record {
    agent_name = agent_name;
    task_type = task_type;
    input = input;
    status = queued;
    output = none;
    error = none;
  };
  agent = refl;
  action = refl;
  processed = refl;
  result = refl;
  settled = λ h.
      let n = before.next_task_id in
      let t = new_task n agent_name task_type input in
      rw
        (
          update_task-head n set_running t before.tasks refl h,
          update_task-head n
              (set_result (
                process (record {
                  agent_name = agent_name;
                  task_type = task_type;
                  input = input;
                  status = queued;
                  output = none;
                  error = none;
                })))
              (set_running t) before.tasks refl h,
        )
        ((omega arith, final_status-IsFinal _), later n before.tasks h);
  tool_dispatches = refl;
  sub_agent_dispatches = refl;
  tool_results = refl;
}
