-- ===== src/Orchestration/Tools/Arguments.antt =====
-- The arguments that apps/api/src/orchestration/sub-agent-dispatcher.ts reads of a tool call, and the
-- input that it builds of them for a sub-agent.
use psychic_octo_invention.Prelude.{
  String, Option, none, some, List, [], ◌∷◌, includes, if◌then◌else◌,
}
use psychic_octo_invention.Json.{Json, bool, num, str, arr, obj, Fields, end, field, get_member}
use psychic_octo_invention.Skills.Guard.{is_present}

-- Where a field of an input comes from.
pub data Source : Type 0 where
  first_string : List String → Source
  number : String → Source
  array : String → Source
  whole_record : String → Source
  boolean : List String → Source
  updates : Source
  anything : String → Source

abbrev present_string : Option Json → Option Json
present_string (some (str s)) = if is_present s then some (str s) else none
present_string _ = none

-- `firstStringArg`
unfoldable pub first_string_arg : Json → List String → Option Json
first_string_arg args [] = none
first_string_arg args (key ∷ keys) = elim (present_string (get_member key args)) [
  | some value ↦ some value
  | none ↦ first_string_arg args keys
]

abbrev first_boolean : Json → List String → Option Json
first_boolean args [] = none
first_boolean args (key ∷ keys) = elim (get_member key args) [
  | some (bool b) ↦ some (bool b)
  | _ ↦ first_boolean args keys
]

abbrev only_number : Option Json → Option Json
only_number (some (num n)) = some (num n)
only_number _ = none

abbrev only_array : Option Json → Option Json
only_array (some (arr xs)) = some (arr xs)
only_array _ = none

abbrev only_record : Option Json → Option Json
only_record (some (obj fs)) = some (obj fs)
only_record _ = none

-- `{ [field]: value }`
abbrev single_update : Option Json → Option Json → Option Json
single_update (some (str name)) (some value) = some (obj (field name value end))
single_update _ _ = none

abbrev read_updates : Json → Option Json
read_updates args = elim (only_record (get_member "updates" args)) [
  | some fs ↦ some fs
  | none ↦ single_update (get_member "field" args) (get_member "value" args)
]

unfoldable pub read_source : Json → Source → Option Json
read_source args (first_string keys) = first_string_arg args keys
read_source args (number key) = only_number (get_member key args)
read_source args (array key) = only_array (get_member key args)
read_source args (whole_record key) = only_record (get_member key args)
read_source args (boolean keys) = first_boolean args keys
read_source args updates = read_updates args
read_source args (anything key) = get_member key args

-- A field that is `undefined` is left out.
abbrev pub add_field : String → Option Json → Fields → Fields
add_field name none rest = rest
add_field name (some value) rest = field name value rest

unfoldable pub read_fields : Json → List (String × Source) → Fields
read_fields args [] = end
read_fields args ((name, source) ∷ rest) =
    add_field name (read_source args source) (read_fields args rest)

-- `VALID_GHL_ACTIONS`
abbrev pub valid_ghl_actions : List String
valid_ghl_actions =
    "search_contact" ∷ "update_contact" ∷ "get_contact" ∷ "create_contact" ∷ "create_opportunity"
    ∷ "get_opportunity" ∷ "update_opportunity" ∷ "search_opportunities" ∷ "delete_opportunity"
    ∷ "get_pipelines" ∷ "add_note" ∷ "list_notes" ∷ "get_note" ∷ "update_note" ∷ "delete_note"
    ∷ "send_sms" ∷ "send_email" ∷ "list_conversations" ∷ "get_conversation" ∷ "update_conversation"
    ∷ "list_conversation_messages" ∷ "create_task" ∷ "list_tasks" ∷ "update_task" ∷ "delete_task"
    ∷ "list_calendars" ∷ "get_free_slots" ∷ "create_appointment" ∷ "update_calendar_event"
    ∷ "delete_calendar_event" ∷ "list_contact_appointments" ∷ "list_users" ∷ "get_location"
    ∷ "update_location" ∷ "list_reviews" ∷ "create_invoice" ∷ "get_invoice" ∷ "list_invoices"
    ∷ "send_invoice" ∷ "list_orders" ∷ "get_order" ∷ "list_campaigns" ∷ "list_workflows"
    ∷ "trigger_workflow" ∷ "list_forms" ∷ "get_form_submissions" ∷ "list_surveys"
    ∷ "get_survey_submissions" ∷ []

abbrev pub valid_bookkeeping_actions : List String
valid_bookkeeping_actions = "process_receipt" ∷ "set_category" ∷ "get_pending" ∷ "manual_entry" ∷ []

abbrev pub valid_followup_actions : List String
valid_followup_actions =
    "find_stale" ∷ "draft_followup" ∷ "approve_send" ∷ "list_pending" ∷ "dismiss" ∷ []

-- The action that is asked for, if it is valid, or else the fallback.
unfoldable pub choose_action : List String → String → Option Json → String
choose_action valid fallback (some (str action)) =
    if includes valid action then action else fallback
choose_action valid fallback _ = fallback

-- The fields of `GhlSubAgentInput`.
unfoldable pub ghl_fields : List (String × Source)
ghl_fields =
    ("query", first_string ("query" ∷ "contactQuery" ∷ "contactName" ∷ "name" ∷ []))
    ∷ ("contactId", first_string ("contactId" ∷ "id" ∷ []))
    ∷ ("updates", updates)
    ∷ ("noteBody", first_string ("noteBody" ∷ "note_body" ∷ "note" ∷ "body" ∷ []))
    ∷ ("message", first_string ("message" ∷ "smsMessage" ∷ "sms_message" ∷ "text" ∷ []))
    ∷ (
      "opportunityName",
      first_string ("opportunityName" ∷ "opportunity_name" ∷ "dealName" ∷ "deal_name" ∷ []),
    )
    ∷ ("pipelineId", first_string ("pipelineId" ∷ "pipeline_id" ∷ []))
    ∷ (
      "pipelineStageId",
      first_string ("pipelineStageId" ∷ "pipeline_stage_id" ∷ "stageId" ∷ "stage_id" ∷ []),
    )
    ∷ ("monetaryValue", number "monetaryValue")
    ∷ ("calendarId", first_string ("calendarId" ∷ "calendar_id" ∷ []))
    ∷ ("startTime", first_string ("startTime" ∷ "start_time" ∷ "startDate" ∷ "start_date" ∷ []))
    ∷ ("endTime", first_string ("endTime" ∷ "end_time" ∷ "endDate" ∷ "end_date" ∷ []))
    ∷ ("title", first_string ("title" ∷ "appointmentTitle" ∷ "appointment_title" ∷ []))
    ∷ ("appointmentNotes", first_string ("appointmentNotes" ∷ "appointment_notes" ∷ []))
    ∷ ("eventId", first_string ("eventId" ∷ "event_id" ∷ "appointmentId" ∷ "appointment_id" ∷ []))
    ∷ ("invoiceId", first_string ("invoiceId" ∷ "invoice_id" ∷ []))
    ∷ (
      "invoiceName",
      first_string ("invoiceName" ∷ "invoice_name" ∷ "invoiceTitle" ∷ "invoice_title" ∷ []),
    )
    ∷ ("invoiceItems", array "invoiceItems")
    ∷ ("dueDate", first_string ("dueDate" ∷ "due_date" ∷ []))
    ∷ ("currency", first_string ("currency" ∷ "currencyCode" ∷ "currency_code" ∷ []))
    ∷ ("orderId", first_string ("orderId" ∷ "order_id" ∷ []))
    ∷ ("locationUpdates", whole_record "locationUpdates")
    ∷ ("workflowId", first_string ("workflowId" ∷ "workflow_id" ∷ []))
    ∷ ("formId", first_string ("formId" ∷ "form_id" ∷ []))
    ∷ ("surveyId", first_string ("surveyId" ∷ "survey_id" ∷ []))
    ∷ ("emailSubject", first_string ("emailSubject" ∷ "email_subject" ∷ "subject" ∷ []))
    ∷ ("emailBody", first_string ("emailBody" ∷ "email_body" ∷ "body" ∷ []))
    ∷ ("emailHtml", first_string ("emailHtml" ∷ "email_html" ∷ "html" ∷ []))
    ∷ ("conversationId", first_string ("conversationId" ∷ "conversation_id" ∷ []))
    ∷ ("conversationStatus", first_string ("conversationStatus" ∷ "conversation_status" ∷ []))
    ∷ (
      "assignedTo",
      first_string ("assignedTo" ∷ "assigned_to" ∷ "assignedUserId" ∷ "assigned_user_id" ∷ []),
    )
    ∷ (
      "opportunityId",
      first_string ("opportunityId" ∷ "opportunity_id" ∷ "dealId" ∷ "deal_id" ∷ []),
    )
    ∷ (
      "opportunityStatus",
      first_string ("opportunityStatus" ∷ "opportunity_status" ∷ "dealStatus" ∷ "deal_status" ∷ []),
    )
    ∷ ("noteId", first_string ("noteId" ∷ "note_id" ∷ []))
    ∷ ("taskId", first_string ("taskId" ∷ "task_id" ∷ []))
    ∷ ("taskTitle", first_string ("taskTitle" ∷ "task_title" ∷ "taskName" ∷ "task_name" ∷ []))
    ∷ (
      "taskBody",
      first_string ("taskBody" ∷ "task_body" ∷ "taskDescription" ∷ "task_description" ∷ []),
    )
    ∷ ("taskDueDate", first_string ("taskDueDate" ∷ "task_due_date" ∷ "taskDue" ∷ "task_due" ∷ []))
    ∷ ("taskStatus", first_string ("taskStatus" ∷ "task_status" ∷ []))
    ∷ ("taskCompleted", boolean ("taskCompleted" ∷ "task_completed" ∷ []))
    ∷ []
