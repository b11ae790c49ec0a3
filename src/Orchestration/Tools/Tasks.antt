-- ===== src/Orchestration/Tools/Tasks.antt =====
-- The tasks of the sub-agents, apps/api/src/repositories/sub-agent-task.repository.ts: rows with the
-- newest first. Time stamps are left out.
use psychic_octo_invention.Prelude.{
  ℕ, ◌+◌, String, Option, none, some, List, [], ◌∷◌, eqb, if◌then◌else◌, ◌==◌,
}
use psychic_octo_invention.Json.{Json, is_truthy}
use psychic_octo_invention.Orchestration.Types.{DispatchStatus, SubAgentDispatch}

pub data TaskStatus : Type 0 where
  queued running completed failed : TaskStatus

pub record SubAgentTask : Type 0 where
  pub id : ℕ
  pub agent_name : String
  pub task_type : String
  pub input : Json
  pub status : TaskStatus
  pub output : Option Json
  pub error_details : Option String
  pub attempts : ℕ

-- `update` of a row by its id.
unfoldable pub update_task :
    ℕ → (SubAgentTask → SubAgentTask) → List SubAgentTask → List SubAgentTask
update_task id f [] = []
update_task id f (t ∷ ts) = (if eqb t.id id then f t else t) ∷ update_task id f ts

abbrev pub set_running : SubAgentTask → SubAgentTask
set_running t = record t { status = running; attempts = t.attempts + 1 }

abbrev truthy_only : Option Json → Option Json → Option Json
truthy_only none old = old
truthy_only (some value) old = if is_truthy value then some value else old

abbrev filled_only : Option String → Option String → Option String
filled_only none old = old
filled_only (some message) old = if message == "" then old else some message

abbrev pub final_status : DispatchStatus → TaskStatus
final_status DispatchStatus.completed = TaskStatus.completed
final_status DispatchStatus.queued = TaskStatus.failed
final_status DispatchStatus.failed = TaskStatus.failed

abbrev pub set_result : SubAgentDispatch → SubAgentTask → SubAgentTask
set_result result t = record t {
  status = final_status result.status;
  output = truthy_only result.output t.output;
  error_details = filled_only result.error t.error_details;
}

abbrev pub new_task : ℕ → String → String → Json → SubAgentTask
new_task id agent_name task_type input = record {
  id = id;
  agent_name = agent_name;
  task_type = task_type;
  input = input;
  status = TaskStatus.queued;
  output = none;
  error_details = none;
  attempts = 0;
}
