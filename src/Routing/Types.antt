-- ===== src/Routing/Types.antt =====
-- The routing types of packages/shared/src/types/orchestration.ts and of the routing settings.
-- An amount of money is a whole number of 1e-8 USD, the unit to which the code rounds its costs.
use psychic_octo_invention.Prelude.{ℕ, String, Bool, Option, List, Text}
use psychic_octo_invention.Json.{Json, Fields}

pub data ModelTier : Type 0 where
  cheap standard strong : ModelTier

pub data Complexity : Type 0 where
  low medium high : Complexity

pub data Channel : Type 0 where
  telegram email admin_portal : Channel

pub data AttachmentType : Type 0 where
  image document audio video unknown : AttachmentType

pub record Attachment : Type 0 where
  pub kind : AttachmentType
  pub mime_type : Option String
  pub url : Option String
  pub base64 : Option String

-- An inbound event, without its time stamp.
pub record InboundEvent : Type 0 where
  pub channel : Channel
  pub external_user_id : String
  pub external_user_name : Option String
  pub external_thread_id : String
  pub conversation_id : Option ℕ
  pub text : String
  pub attachments : List Attachment
  pub metadata : Fields

pub record RoutingSignals : Type 0 where
  pub message_length : ℕ
  pub has_attachments : Bool
  pub requires_vision : Bool
  pub requires_tool_use : Bool
  pub estimated_complexity : Complexity
  pub has_follow_up_need : Bool

pub record RoutingDecision : Type 0 where
  pub model : String
  pub tier : ModelTier
  pub provider : String
  pub reason : String
  pub signals : RoutingSignals
  pub escalated_from : Option String

pub record RoutingRule : Type 0 where
  pub pattern : String
  pub model : String
  pub priority : ℕ

pub record RoutingSettings : Type 0 where
  pub primary_model : String
  pub fallback_model : Option String
  pub max_cost_per_request : Option ℕ
  pub max_monthly_budget : Option ℕ
  pub routing_rules : List RoutingRule

pub record ToolDefinition : Type 0 where
  pub name : String
  pub description : String
  pub parameters : Json

pub record ToolCall : Type 0 where
  pub id : String
  pub name : String
  pub arguments : String

pub data Role : Type 0 where
  system user assistant tool : Role

-- A message to the provider; of its images only their number counts.
pub record Message : Type 0 where
  pub role : Role
  pub content : Text
  pub images : ℕ
  pub tool_calls : List ToolCall
  pub tool_call_id : Option String
