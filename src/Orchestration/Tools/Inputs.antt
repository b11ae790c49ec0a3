-- ===== src/Orchestration/Tools/Inputs.antt =====
-- The inputs of the bookkeeping and the follow-up sub-agents, as apps/api/src/orchestration/
-- sub-agent-dispatcher.ts builds them of the arguments of a call.
use psychic_octo_invention.Prelude.{ℕ, String, Option, none, some, List, [], ◌∷◌}
use psychic_octo_invention.Json.{Json, num, str, obj, Fields, end, field, get_member}
use psychic_octo_invention.Routing.Types.{Channel, telegram, email, admin_portal}
use psychic_octo_invention.Orchestration.Tools.Arguments.{
  first_string, number, anything, first_string_arg, read_fields, add_field,
}

pub record SubAgentCallContext : Type 0 where
  pub conversation_id : ℕ
  pub external_user_id : String
  pub source_channel : Channel
  pub source_message_id : ℕ
  pub source_image_url : Option String

abbrev channel_name : Channel → String
channel_name telegram = "telegram"
channel_name email = "email"
channel_name admin_portal = "admin_portal"

abbrev as_json : Option String → Option Json
as_json none = none
as_json (some s) = some (str s)

abbrev pub context_json : SubAgentCallContext → Json
context_json context = obj (
    field "conversationId" (num context.conversation_id) (
      field "externalUserId" (str context.external_user_id) (
        field "sourceChannel" (str (channel_name context.source_channel)) (
          field "sourceMessageId" (num context.source_message_id)
            (add_field "sourceImageUrl" (as_json context.source_image_url) end)))))

abbrev first_given : Option Json → Option Json → Option Json
first_given (some value) other = some value
first_given none other = other

abbrev string_only : Option Json → Option Json
string_only (some (str s)) = some (str s)
string_only _ = none

-- The image of the message comes before the one that the model names.
abbrev image_url : SubAgentCallContext → Json → Option Json
image_url context args = elim context.source_image_url [
  | some url ↦ some (str url)
  | none ↦
      first_string_arg args
        ("imageUrl" ∷ "image_url" ∷ "attachmentUrl" ∷ "attachment_url" ∷ "url" ∷ [])
]

-- The action and the context, which the code lists last.
abbrev pub with_context : SubAgentCallContext → String → Fields → Fields
with_context context action rest =
    field "action" (str action) (field "_context" (context_json context) rest)

unfoldable pub bookkeeping_input : SubAgentCallContext → Json → String → Fields
bookkeeping_input context args action =
    let read : List String → Option Json = first_string_arg args in
    with_context context action (
      add_field "imageUrl" (image_url context args) (
        add_field "receiptTaskId"
          (read
            ("receiptTaskId" ∷ "receiptTaskID" ∷ "receipt_task_id" ∷ "receipt_id" ∷ "taskId" ∷ []))
          (add_field "category"
            (first_given (read ("category" ∷ "expenseCategory" ∷ "expense_category" ∷ []))
              (string_only (get_member "value" args)))
            (read_fields args (
              ("notes", first_string ("notes" ∷ "note" ∷ []))
              ∷ (
                "vendor",
                first_string (
                    "vendor" ∷ "vendorName" ∷ "vendor_name" ∷ "store" ∷ "storeName" ∷ "store_name"
                    ∷ "merchant" ∷ "merchantName" ∷ "merchant_name" ∷ []),
              )
              ∷ ("amount", number "amount")
              ∷ (
                "transactionDate",
                first_string ("transactionDate" ∷ "transaction_date" ∷ "date" ∷ []),
              )
              ∷ ("currency", first_string ("currency" ∷ "currencyCode" ∷ []))
              ∷ [])))))

unfoldable pub followup_input : SubAgentCallContext → Json → String → Fields
followup_input context args action = with_context context action (
    read_fields args (
      ("contactQuery", anything "contactQuery")
      ∷ ("staleDays", anything "staleDays")
      ∷ ("context", anything "context")
      ∷ ("recommendationId", anything "recommendationId")
      ∷ ("sendChannel", anything "sendChannel")
      ∷ []))
