-- ===== src/Orchestration/Tools/Definitions.antt =====
-- The definitions of the first-party tools in apps/api/src/orchestration/tool-resolver.ts, as the model
-- is shown them, with the editable fields and the categories of packages/shared/src/types written in.
pub mod Ghl
use psychic_octo_invention.Prelude.{String, List, [], ◌∷◌, ◌++◌, join}
use psychic_octo_invention.Json.{Json, str, arr, obj, Items, nil, cons, Fields, end, field}
use psychic_octo_invention.Routing.Types.{ToolDefinition}
use psychic_octo_invention.Routing.Signals.{
  ghl_crm_tool_name, bookkeeping_tool_name, followup_tool_name,
}

abbrev pub strings : List String → Items
strings [] = nil
strings (s ∷ ss) = cons (str s) (strings ss)

abbrev pub fields : List (String × Json) → Fields
fields [] = end
fields ((k, v) ∷ kvs) = field k v (fields kvs)

abbrev pub described : String → String → Json
described type description =
    obj (fields (("type", str type) ∷ ("description", str description) ∷ []))

-- The schema of the arguments: an action, which is required, and the other properties.
abbrev pub parameters : List String → String → List (String × Json) → Json
parameters actions description properties = obj (
    fields (
      ("type", str "object")
      ∷ (
        "properties",
        obj (
            fields (
              (
                "action",
                obj (
                    fields (
                      ("type", str "string")
                      ∷ ("enum", arr (strings actions))
                      ∷ ("description", str description)
                      ∷ [])),
              )
              ∷ properties)),
      )
      ∷ ("required", arr (strings ("action" ∷ [])))
      ∷ []))

abbrev pub bookkeeping_actions : List String
bookkeeping_actions = "process_receipt" ∷ "set_category" ∷ "get_pending" ∷ "manual_entry" ∷ []

unfoldable pub bookkeeping_description : String
bookkeeping_description = join "\n" (
    "Bookkeeping receipt and expense processor. You MUST call this tool to record any expense — you cannot record expenses by generating text alone. Only this tool can persist data to the database and Google Sheets."
    ∷ "" ∷ "Supported actions:"
    ∷ "- process_receipt: Extract data from a receipt image (requires imageUrl). The system will pass the image automatically from the user's attachment."
    ∷ "- set_category: Set the category for a pending receipt that needs categorization"
    ∷ "- get_pending: Check if there is a pending receipt awaiting categorization in this conversation"
    ∷ "- manual_entry: Log an expense manually without a receipt image (requires vendor, amount, category)"
    ∷ ""
    ∷ "Common categories: Office Supplies, Travel, Client Meals, Team Meals, Software & Subscriptions, Marketing, Utilities, Professional Services, Equipment, Shipping, Miscellaneous"
    ∷ "" ∷ "CRITICAL RULES — you must follow these exactly:"
    ∷ "1. When the user sends a receipt/invoice image, IMMEDIATELY call process_receipt. Do NOT try to read the image yourself and respond with text — only this tool can save the data."
    ∷ "2. When the user provides a category for a pending receipt, call set_category. Do NOT respond with \"Expense Recorded\" unless this tool returns success."
    ∷ "3. When the user describes an expense in text (e.g. \"$18.50 at Starbucks for client lunch\"), call manual_entry with vendor, amount, and category."
    ∷ "4. NEVER generate an \"Expense Recorded\" or confirmation message without first getting a success result from this tool. If you respond without calling the tool, the expense will NOT be saved."
    ∷ "5. If you already asked the user for clarification (e.g. category) and they respond, call set_category or manual_entry — do not just reply with text."
    ∷ "6. If confidence is low, mention that the user should verify the details." ∷ [])

unfoldable pub bookkeeping_tool : ToolDefinition
bookkeeping_tool = record {
  name = bookkeeping_tool_name;
  description = bookkeeping_description;
  parameters = parameters bookkeeping_actions "The bookkeeping action to perform" (
      ("imageUrl", described "string" "URL of the receipt image — used with process_receipt")
      ∷ (
        "receiptTaskId",
        described "string" "Receipt task ID — used with set_category to target a specific receipt",
      )
      ∷ (
        "category",
        described "string" "Expense category — used with set_category and manual_entry",
      )
      ∷ ("vendor", described "string" "Vendor/store name — used with manual_entry")
      ∷ ("amount", described "number" "Expense amount — used with manual_entry")
      ∷ (
        "transactionDate",
        described "string"
            "Transaction date (YYYY-MM-DD) — used with manual_entry. Defaults to today.",
      )
      ∷ (
        "currency",
        described "string" "Currency code (e.g. USD) — used with manual_entry. Defaults to USD.",
      )
      ∷ ("notes", described "string" "Optional notes about the receipt or expense")
      ∷ []);
}

abbrev pub followup_actions : List String
followup_actions =
    "find_stale" ∷ "draft_followup" ∷ "list_pending" ∷ "approve_send" ∷ "dismiss" ∷ []

unfoldable pub followup_description : String
followup_description = join "\n" (
    "Lead follow-up and appointment recovery agent. Use this tool to help recover lost leads, draft follow-up messages, and manage follow-up recommendations."
    ∷ "" ∷ "Supported actions:"
    ∷ "- find_stale: Find leads/conversations with no reply in a given number of days"
    ∷ "- draft_followup: Generate a follow-up message for a specific contact"
    ∷ "- list_pending: List pending follow-up recommendations"
    ∷ "- approve_send: Approve a follow-up for sending (requires explicit user approval)"
    ∷ "- dismiss: Dismiss a follow-up recommendation" ∷ "" ∷ "IMPORTANT:"
    ∷ "- Never auto-send messages. Always show the draft and ask for approval first."
    ∷ "- When finding stale leads, ask the user which ones they want to follow up on."
    ∷ "- Keep the tone friendly and professional — not pushy or aggressive."
    ∷ "- If the user says \"follow up with X\" or \"check on stale leads\", use this tool." ∷ [])

unfoldable pub followup_tool : ToolDefinition
followup_tool = record {
  name = followup_tool_name;
  description = followup_description;
  parameters = parameters followup_actions "The follow-up action to perform" (
      (
        "contactQuery",
        described "string" "Contact name, email, or phone — used with draft_followup",
      )
      ∷ (
        "staleDays",
        described "number"
            "Number of days to consider a lead \"stale\" (default: 5) — used with find_stale",
      )
      ∷ (
        "context",
        described "string" "Custom context or reason for the follow-up — used with draft_followup",
      )
      ∷ (
        "recommendationId",
        described "string" "Follow-up recommendation ID — used with approve_send and dismiss",
      )
      ∷ (
        "sendChannel",
        described "string"
            "Preferred channel to send via (telegram, email) — used with approve_send",
      )
      ∷ []);
}
