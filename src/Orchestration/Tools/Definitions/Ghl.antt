-- ===== src/Orchestration/Tools/Definitions/Ghl.antt =====
-- `GHL_CRM_TOOL` of apps/api/src/orchestration/tool-resolver.ts.
use psychic_octo_invention.Prelude.{String, List, [], ◌∷◌, join}
use psychic_octo_invention.Json.{str, arr, obj}
use psychic_octo_invention.Routing.Types.{ToolDefinition}
use psychic_octo_invention.Routing.Signals.{ghl_crm_tool_name}
use psychic_octo_invention.Orchestration.Tools.Definitions.{strings, fields, described, parameters}

abbrev pub ghl_crm_actions : List String
ghl_crm_actions =
    "search_contact" ∷ "get_contact" ∷ "update_contact" ∷ "create_contact" ∷ "get_pipelines"
    ∷ "create_opportunity" ∷ "get_opportunity" ∷ "update_opportunity" ∷ "search_opportunities"
    ∷ "delete_opportunity" ∷ "add_note" ∷ "list_notes" ∷ "get_note" ∷ "update_note" ∷ "delete_note"
    ∷ "send_sms" ∷ "send_email" ∷ "list_conversations" ∷ "get_conversation" ∷ "update_conversation"
    ∷ "list_conversation_messages" ∷ "create_task" ∷ "list_tasks" ∷ "get_task" ∷ "update_task"
    ∷ "delete_task" ∷ "list_calendars" ∷ "get_free_slots" ∷ "create_appointment" ∷ "get_appointment"
    ∷ "update_calendar_event" ∷ "delete_calendar_event" ∷ "list_contact_appointments" ∷ "list_users"
    ∷ "get_location" ∷ "update_location" ∷ "list_reviews" ∷ "create_invoice" ∷ "get_invoice"
    ∷ "list_invoices" ∷ "update_invoice" ∷ "send_invoice" ∷ "list_orders" ∷ "get_order"
    ∷ "list_campaigns" ∷ "list_workflows" ∷ "trigger_workflow" ∷ "list_forms"
    ∷ "get_form_submissions" ∷ "list_surveys" ∷ "get_survey_submissions" ∷ []

unfoldable pub ghl_crm_description : String
ghl_crm_description = join "\n" (
    "GoHighLevel CRM and business management operations. Use this tool for contacts, opportunities, notes, SMS, appointments, users, locations, reviews, invoices, and orders."
    ∷ "" ∷ "Supported actions:" ∷ "CONTACTS:"
    ∷ "- search_contact: Search for a contact by name, email, or phone"
    ∷ "- get_contact: Get detailed info for a specific contact by ID"
    ∷ "- update_contact: Update one or more fields on a contact"
    ∷ "- create_contact: Create a new contact (provide fields via updates)" ∷ ""
    ∷ "OPPORTUNITIES / PIPELINES:" ∷ "- get_pipelines: List available pipelines and their stages"
    ∷ "- create_opportunity: Create a deal in a pipeline for a contact"
    ∷ "- get_opportunity: Get opportunity details by ID"
    ∷ "- update_opportunity: Update a deal (move stage, change status/value)"
    ∷ "- search_opportunities: Search/list opportunities (filter by pipeline, status, contact)"
    ∷ "- delete_opportunity: Delete an opportunity by ID" ∷ "" ∷ "NOTES:"
    ∷ "- add_note: Add a note to a contact" ∷ "- list_notes: List all notes for a contact"
    ∷ "- get_note: Get a specific note by ID" ∷ "- update_note: Update a note's body text"
    ∷ "- delete_note: Delete a note" ∷ "" ∷ "SMS & EMAIL:"
    ∷ "- send_sms: Send an SMS message to a contact"
    ∷ "- send_email: Send an email to a contact (requires subject and body)" ∷ ""
    ∷ "CONVERSATIONS (Unified Inbox):"
    ∷ "- list_conversations: List/search conversations (filter by status, query)"
    ∷ "- get_conversation: Get conversation details by ID"
    ∷ "- update_conversation: Update a conversation (mark read, assign, change status)"
    ∷ "- list_conversation_messages: Get messages for a conversation (includes calls, SMS, emails)"
    ∷ "" ∷ "TASKS:" ∷ "- create_task: Create a task linked to a contact"
    ∷ "- list_tasks: List all tasks for a contact" ∷ "- get_task: Get a specific task by ID"
    ∷ "- update_task: Update a task (title, body, dueDate, status, completed)"
    ∷ "- delete_task: Delete a task" ∷ "" ∷ "CALENDARS & APPOINTMENTS:"
    ∷ "- list_calendars: List available calendars"
    ∷ "- get_free_slots: Get available time slots for a calendar"
    ∷ "- create_appointment: Book an appointment for a contact"
    ∷ "- get_appointment: Get appointment details by ID"
    ∷ "- update_calendar_event: Update an existing calendar event/appointment"
    ∷ "- delete_calendar_event: Delete a calendar event/appointment"
    ∷ "- list_contact_appointments: List all appointments for a contact" ∷ ""
    ∷ "BUSINESS MANAGEMENT:" ∷ "- list_users: List all users for the business location"
    ∷ "- get_location: Get business location details"
    ∷ "- update_location: Update business location info"
    ∷ "- list_reviews: Fetch Google/Facebook reviews for the location"
    ∷ "- create_invoice: Create an invoice for a contact"
    ∷ "- get_invoice: Get invoice details by ID"
    ∷ "- list_invoices: List all invoices (optionally filtered by contact)"
    ∷ "- update_invoice: Update an invoice (name, dueDate, currency, items)"
    ∷ "- send_invoice: Send an invoice to the contact"
    ∷ "- list_orders: List payment orders and transactions" ∷ "- get_order: Get order details by ID"
    ∷ "" ∷ "CAMPAIGNS & WORKFLOWS:" ∷ "- list_campaigns: List email/SMS campaigns"
    ∷ "- list_workflows: List available workflows"
    ∷ "- trigger_workflow: Add a contact to a workflow" ∷ "" ∷ "FORMS & SURVEYS:"
    ∷ "- list_forms: List available forms" ∷ "- get_form_submissions: Get submissions for a form"
    ∷ "- list_surveys: List available surveys"
    ∷ "- get_survey_submissions: Get submissions for a survey" ∷ ""
    ∷ "Editable contact fields: firstName, lastName, email, phone, address1, city, state, postalCode, website, tags"
    ∷ "" ∷ "IMPORTANT:"
    ∷ "- Always search for the contact first before updating, adding notes, sending SMS, or booking"
    ∷ "- If multiple contacts match, ask the user to clarify"
    ∷ "- For create_opportunity, use get_pipelines first to get valid pipeline/stage IDs"
    ∷ "- For update_opportunity, use search_opportunities or get_opportunity to find the deal first"
    ∷ "- For appointments, use list_calendars then get_free_slots before booking"
    ∷ "- For invoices, use list_invoices or get_invoice to check status before sending"
    ∷ "- For workflows, use list_workflows first to get valid workflow IDs before triggering"
    ∷ "- For form/survey submissions, use list_forms or list_surveys first to get IDs"
    ∷ "- For send_email, always provide a subject and body"
    ∷ "- For conversations, use list_conversations to find conversations before reading messages"
    ∷ "- For tasks, use list_tasks to find task IDs before updating or deleting"
    ∷ "- For notes, use list_notes to find note IDs before updating or deleting"
    ∷ "- Confirm what was done in your response"
    ∷ "- Do not proceed if the contact match is ambiguous" ∷ [])

unfoldable pub ghl_crm_tool : ToolDefinition
ghl_crm_tool = record {
  name = ghl_crm_tool_name;
  description = ghl_crm_description;
  parameters = parameters ghl_crm_actions "The CRM / business management action to perform" (
      (
        "query",
        described "string"
            "Search query (name, email, or phone) — used to resolve a contact for any contact-linked action",
      )
      ∷ (
        "contactId",
        described "string"
            "Contact ID — used with get_contact, update_contact, add_note, send_sms, create_opportunity, create_appointment",
      )
      ∷ (
        "updates",
        described "object"
            "Fields to set — used with update_contact and create_contact. Keys must be from the editable fields list.",
      )
      ∷ ("noteBody", described "string" "Note text — used with add_note")
      ∷ ("message", described "string" "SMS message text — used with send_sms")
      ∷ (
        "opportunityName",
        described "string" "Deal/opportunity name — used with create_opportunity",
      )
      ∷ (
        "pipelineId",
        described "string" "Pipeline ID — used with create_opportunity (get from get_pipelines)",
      )
      ∷ (
        "pipelineStageId",
        described "string"
            "Pipeline stage ID — used with create_opportunity (get from get_pipelines)",
      )
      ∷ (
        "monetaryValue",
        described "number" "Monetary value of the deal — used with create_opportunity",
      )
      ∷ (
        "calendarId",
        described "string"
            "Calendar ID — used with get_free_slots and create_appointment (get from list_calendars)",
      )
      ∷ (
        "startTime",
        described "string"
            "Start time (ISO 8601) — used with get_free_slots (as date range start) and create_appointment",
      )
      ∷ (
        "endTime",
        described "string"
            "End time (ISO 8601) — used with get_free_slots (as date range end) and create_appointment",
      )
      ∷ ("title", described "string" "Appointment title — used with create_appointment")
      ∷ ("appointmentNotes", described "string" "Appointment notes — used with create_appointment")
      ∷ (
        "eventId",
        described "string"
            "Calendar event/appointment ID — used with update_calendar_event and delete_calendar_event",
      )
      ∷ ("invoiceId", described "string" "Invoice ID — used with get_invoice and send_invoice")
      ∷ ("invoiceName", described "string" "Invoice name/title — used with create_invoice")
      ∷ (
        "invoiceItems",
        obj (
            fields (
              ("type", str "array")
              ∷ (
                "items",
                obj (
                    fields (
                      ("type", str "object")
                      ∷ (
                        "properties",
                        obj (
                            fields (
                              ("name", described "string" "Item name")
                              ∷ ("description", described "string" "Item description")
                              ∷ ("quantity", described "number" "Item quantity")
                              ∷ ("unitPrice", described "number" "Unit price")
                              ∷ [])),
                      )
                      ∷ ("required", arr (strings ("name" ∷ "quantity" ∷ "unitPrice" ∷ [])))
                      ∷ [])),
              )
              ∷ ("description", str "Line items — used with create_invoice")
              ∷ [])),
      )
      ∷ ("dueDate", described "string" "Due date (YYYY-MM-DD) — used with create_invoice")
      ∷ ("currency", described "string" "Currency code (e.g. USD) — used with create_invoice")
      ∷ ("orderId", described "string" "Order ID — used with get_order")
      ∷ (
        "locationUpdates",
        described "object"
            "Fields to update on the location — used with update_location (e.g. name, address, phone, email, website)",
      )
      ∷ (
        "workflowId",
        described "string" "Workflow ID — used with trigger_workflow (get from list_workflows)",
      )
      ∷ ("formId", described "string" "Form ID — used with get_form_submissions to filter by form")
      ∷ (
        "surveyId",
        described "string" "Survey ID — used with get_survey_submissions to filter by survey",
      )
      ∷ ("emailSubject", described "string" "Email subject line — used with send_email")
      ∷ ("emailBody", described "string" "Email body text — used with send_email")
      ∷ (
        "emailHtml",
        described "string" "Email HTML body — used with send_email (optional, overrides emailBody)",
      )
      ∷ (
        "conversationId",
        described "string"
            "Conversation ID — used with get_conversation, update_conversation, list_conversation_messages",
      )
      ∷ (
        "conversationStatus",
        described "string"
            "Conversation status filter or update value — used with list_conversations and update_conversation (e.g. \"read\", \"unread\", \"open\", \"closed\")",
      )
      ∷ (
        "assignedTo",
        described "string"
            "User ID to assign to — used with update_conversation, create_task, update_task, update_opportunity",
      )
      ∷ (
        "opportunityId",
        described "string"
            "Opportunity/deal ID — used with get_opportunity, update_opportunity, delete_opportunity",
      )
      ∷ (
        "opportunityStatus",
        described "string"
            "Opportunity status — used with update_opportunity and search_opportunities (e.g. \"open\", \"won\", \"lost\", \"abandoned\")",
      )
      ∷ (
        "noteId",
        described "string"
            "Note ID — used with get_note, update_note, delete_note (get from list_notes)",
      )
      ∷ (
        "taskId",
        described "string" "Task ID — used with update_task, delete_task (get from list_tasks)",
      )
      ∷ ("taskTitle", described "string" "Task title — used with create_task and update_task")
      ∷ (
        "taskBody",
        described "string" "Task description/body — used with create_task and update_task",
      )
      ∷ (
        "taskDueDate",
        described "string" "Task due date (ISO 8601) — used with create_task and update_task",
      )
      ∷ ("taskStatus", described "string" "Task status — used with update_task")
      ∷ (
        "taskCompleted",
        described "boolean" "Whether the task is completed — used with create_task and update_task",
      )
      ∷ []);
}
