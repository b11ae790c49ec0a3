-- ===== src/Orchestration/Types.antt =====
-- The values that the orchestration passes on (packages/shared/src/types/orchestration.ts). A result of
-- a tool is cut at a number of code units, so it is kept as a text; latencies are in milliseconds.
use psychic_octo_invention.Prelude.{ℕ, String, Option, List, Text}
use psychic_octo_invention.Json.{Json}
use psychic_octo_invention.Routing.Types.{RoutingDecision, ToolDefinition, Message, ToolCall}

pub data DispatchStatus : Type 0 where
  queued completed failed : DispatchStatus

pub record ToolDispatch : Type 0 where
  pub tool_name : String
  pub arguments : Json
  pub status : DispatchStatus
  pub result : Text
  pub error : Option String

pub record ToolResult : Type 0 where
  pub tool_call_id : String
  pub result : Text

pub record SubAgentDispatch : Type 0 where
  pub agent_name : String
  pub task_type : String
  pub input : Json
  pub status : DispatchStatus
  pub output : Option Json
  pub error : Option String

pub record LlmUsage : Type 0 where
  pub prompt_tokens : ℕ
  pub completion_tokens : ℕ
  pub total_tokens : ℕ
  pub estimated_cost : Option ℕ

pub record LlmRequest : Type 0 where
  pub model : String
  pub messages : List Message
  pub tools : List ToolDefinition
  pub max_tokens : Option ℕ

pub record LlmResponse : Type 0 where
  pub content : Text
  pub tool_calls : List ToolCall
  pub usage : LlmUsage
  pub model : String
  pub latency : ℕ

-- The facts that were written are of the type that the extraction returns.
pub record ExecutionResult (Fact : Type 0) : Type 0 where
  pub reply : Text
  pub memory_writes : List Fact
  pub usage : LlmUsage
  pub routing : RoutingDecision
  pub tool_dispatches : List ToolDispatch
  pub sub_agent_dispatches : List SubAgentDispatch
  pub conversation_id : ℕ
  pub message_id : ℕ
  pub warnings : List String
