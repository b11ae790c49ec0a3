-- ===== src/Orchestration/Tests.antt =====
-- A skill with a tool, and a message that makes the model call it.
use psychic_octo_invention.Prelude.{
  ℕ, ◌≤◌, ◌<◌, ◌+◌, ◌≡◌, ◌≢◌, ◌⊎◌, refl, inl, String, Bool, true, false, Option, none, some, List,
  [], ◌∷◌, ◌++◌, map, All, length, codes, Text, string_trim, string_trim_start, string_trim_end,
}
use psychic_octo_invention.Json.{Json, str, obj, field, end}
use psychic_octo_invention.Security.Types.{Regex}
use psychic_octo_invention.Security.Scanner.{
  scan_source, raw_risks, risks_at, risk_at, sort_risks, insert_risk,
}
use psychic_octo_invention.Security.Policy.{
  with_defaults, get_rule_category, is_suppressed, meets_threshold, place, sort_into, decide,
  evaluate_policy,
}
use psychic_octo_invention.Routing.Types.{
  telegram, InboundEvent, RoutingSettings, ToolCall, Message, user, system,
}
use psychic_octo_invention.Skills.Types.{uploaded, Skill, Version, Store, IngestInput, empty_store}
use psychic_octo_invention.Skills.Store.{
  find_by_slug, find_by_id, find_version, update_skill, current_version,
}
use psychic_octo_invention.Skills.Ingestion.{ingest_skill, evaluation, finish}
use psychic_octo_invention.Skills.Management.{toggle_skill, vetting_refusal}
use psychic_octo_invention.Skills.Guard.{
  can_execute, block, allow, verify_source, check_source, check_vetting, check_version, check_skill,
  extract_source,
}
use psychic_octo_invention.Skills.Runs.{ingest, toggle, apply, Reachable, start, step}
use psychic_octo_invention.Orchestration.Types.{
  SubAgentDispatch, LlmRequest, LlmResponse, completed,
}
use psychic_octo_invention.Orchestration.Tools.Settings.{
  default_first_party_tools, is_sub_agent_tool_call, FirstPartyToolSettings,
}
use psychic_octo_invention.Orchestration.Tools.Catalog.{
  ExternalSkillToolRuntime, get_runtime, resolve_tool_catalog, resolve_skills, resolve_skill,
  is_candidate, offered_built_ins, bind_tool, add_runtime, tool_definition,
  extract_source_from_skill_config, resolve_external_tool_timeout,
}
use psychic_octo_invention.Orchestration.Tools.Catalog.Laws.{IsResolved}
use psychic_octo_invention.Orchestration.Tools.Catalog.Resolution.{resolve_tool_catalog-IsResolved}
use psychic_octo_invention.Orchestration.Tools.Executor
use psychic_octo_invention.Orchestration.Tools.Executor.{
  ExternalToolExecutionContext, Script, function, primitive, ToolValue, text, Outcome, returned,
  execute_external_tool_calls,
}
use psychic_octo_invention.Orchestration.Tools.Executor.Vetting.{IsVettedSource}
use psychic_octo_invention.Orchestration.Tools.Executor.Runs.{execute_external_tool_calls-answers}
use psychic_octo_invention.Orchestration.Tools.Calls.{execute_external_tool_calls-catalog_iff}
use psychic_octo_invention.Orchestration.Tools.Inputs.{SubAgentCallContext}
use psychic_octo_invention.Orchestration.Tools.SubAgents
use psychic_octo_invention.Orchestration.Tools.SubAgents.{
  SubAgentServices, Step, process_calls, continued, type_error,
}
use psychic_octo_invention.Orchestration.Tools.SubAgents.Laws.{IsSettled}
use psychic_octo_invention.Orchestration.Tools.SubAgents.Calls.{progress_of, IsHanded}
use psychic_octo_invention.Orchestration.Tools.SubAgents.Runs.{
  process_calls-ends, has_null, own_calls,
}
use psychic_octo_invention.Orchestration.Prompt.{
  MemorySnippet, RecentMessage, compose_prompt, context_to_messages, to_message, build_user_message,
  last_messages,
}
use psychic_octo_invention.Orchestration.Prompt.Texts.{base_system_prompt, compliance_instructions}
use psychic_octo_invention.Orchestration.Prompt.Laws.{compose_prompt-system_prompt}
use psychic_octo_invention.Orchestration.Prompt.History.{compose_prompt-history, total_chars}
use psychic_octo_invention.Orchestration.Attempts.{Prepared}
use psychic_octo_invention.Orchestration.Stages.{Lookups, Collaborators}
use psychic_octo_invention.Orchestration.PostProcessing.{PostServices}
use psychic_octo_invention.Orchestration.Execution.{Execution, and_then, prepare, execute_event}
use psychic_octo_invention.Orchestration.Execution.Laws.{
  execute_event-permits, execute_event-returns, ArePermitted, IsEnded,
}
use psychic_octo_invention.Orchestration.Execution.Caps.{
  execute_event-IsWithin_caps, IsWithin, IsSmall,
}
use psychic_octo_invention.Orchestration.Execution.Tools.{Site, on_site, execute_event-runs_vetted}

abbrev plain_hash : String → String
plain_hash source = source

abbrev no_match : Regex → Text → List ℕ
no_match rule source = []

abbrev metadata : Json
metadata = obj (
    field "toolDefinition"
      (obj (
        field "name" (str "read_pdf")
          (field "description" (str "Reads a PDF.") (field "parameters" (obj end) end))))
      end)

abbrev upload : IngestInput
upload = record {
  slug = "pdf";
  display_name = "PDF";
  description = none;
  source_type = uploaded;
  source_url = none;
  source_ref = none;
  metadata = some metadata;
  version = "1";
  source = "read()\n";
}

abbrev first : Store
first = apply plain_hash no_match (ingest upload "ann") empty_store

abbrev live : Store
live = apply plain_hash no_match (toggle 0 true "ann") first

abbrev live-Reachable : Reachable plain_hash no_match live
live-Reachable =
    step (toggle 0 true "ann") first live
      (step (ingest upload "ann") empty_store first (start empty_store refl) refl) refl

abbrev runtime : ExternalSkillToolRuntime
runtime = record {
  tool_name = "read_pdf";
  skill_slug = "pdf";
  skill_id = 0;
  source = "read()";
  timeout = 8000;
}

abbrev entries : List (String × ExternalSkillToolRuntime)
entries = (resolve_tool_catalog plain_hash none live).0.external_tools_by_name

bound : get_runtime "read_pdf" entries ≡ some runtime
unfolding resolve_tool_catalog resolve_skills resolve_skill is_candidate offered_built_ins bind_tool
    add_runtime tool_definition extract_source_from_skill_config resolve_external_tool_timeout
    can_execute block allow verify_source check_source check_vetting check_version check_skill
    extract_source evaluation evaluate_policy scan_source raw_risks risks_at risk_at with_defaults
    sort_into place is_suppressed meets_threshold get_rule_category decide sort_risks insert_risk
    apply ingest_skill finish find_by_slug find_by_id find_version update_skill toggle_skill
    vetting_refusal string_trim string_trim_start string_trim_end
bound = refl

abbrev call : String → String → ToolCall
call id name = record { id = id; name = name; arguments = "{}" }

-- An engine whose scripts all export one function.
abbrev evaluate : ExternalSkillToolRuntime → Outcome (Script Bool)
evaluate r =
    returned
      (record { module_exports = function true; named_exports = primitive; sandbox = primitive })

abbrev call_function : Bool → Json → ExternalToolExecutionContext → Outcome ToolValue
call_function f args context = returned (text "3 pages")

abbrev no_json : String → Option Json
no_json raw = none

abbrev context : ExternalToolExecutionContext
context = record {
  conversation_id = 1;
  external_user_id = "7";
  source_channel = telegram;
  source_message_id = 2;
}

-- The stored source ends in a line feed, so that its trimmed form has another hash: the tool is in the
-- catalog, and it is never run.
execute_external_tool_calls-catalog_iff_example :
    let runs =
      (execute_external_tool_calls plain_hash no_json evaluate call_function context
        (call "c1" "read_pdf" ∷ [])
        entries
        (resolve_tool_catalog plain_hash none live).1).runs in
    (skill : Skill) × (version : Version) × (source : String) × (find_by_slug "pdf" live
      ≡ some skill)
    × (current_version skill ≡ some version)
    × (version.config_source ≡ some source)
    × (((string_trim source ≡ source) × (runs ≡ runtime ∷ []))
        ⊎ ((string_trim source ≢ source) × (runs ≡ [])))
execute_external_tool_calls-catalog_iff_example =
    execute_external_tool_calls-catalog_iff plain_hash no_match live live-Reachable none no_json
      evaluate call_function context (call "c1" "read_pdf") runtime bound

resolve_tool_catalog-IsResolved_example :
    IsResolved plain_hash live
      (offered_built_ins none)
      (resolve_tool_catalog plain_hash none live).0
    × ((resolve_tool_catalog plain_hash none live).1.skills ≡ live.skills)
resolve_tool_catalog-IsResolved_example =
    resolve_tool_catalog-IsResolved plain_hash no_match live live-Reachable none

abbrev answered : Executor.Progress
answered =
    execute_external_tool_calls plain_hash no_json evaluate call_function context
      (call "c1" "read_pdf" ∷ call "c2" "unknown" ∷ []) entries live

execute_external_tool_calls-answers_example :
    (map (λ d. d.tool_name) answered.tool_dispatches ≡ "read_pdf" ∷ "unknown" ∷ [])
    × (map (λ r. r.tool_call_id) answered.tool_results ≡ "c1" ∷ "c2" ∷ [])
    × (map (λ r. r.result) answered.tool_results ≡ map (λ d. d.result) answered.tool_dispatches)
    × All (λ d. d.status ≡ completed → length d.result ≤ 4000) answered.tool_dispatches
execute_external_tool_calls-answers_example =
    execute_external_tool_calls-answers plain_hash no_json evaluate call_function context entries
      (call "c1" "read_pdf" ∷ call "c2" "unknown" ∷ []) live

-- Services that complete every dispatch.
abbrev complete_it : SubAgentDispatch → SubAgentDispatch
complete_it d = record d { status = completed }

abbrev services : SubAgentServices
services = record {
  process_ghl = complete_it;
  process_bookkeeping = complete_it;
  process_followup = complete_it;
}

abbrev call_context : SubAgentCallContext
call_context = record {
  conversation_id = 1;
  external_user_id = "7";
  source_channel = telegram;
  source_message_id = 2;
  source_image_url = none;
}

abbrev no_bookkeeping : FirstPartyToolSettings
no_bookkeeping = record default_first_party_tools { bookkeeping_receipt_enabled = false }

abbrev sub_agent_calls : List ToolCall
sub_agent_calls = call "c1" "ghl_crm" ∷ call "c2" "bookkeeping_receipt" ∷ []

abbrev sub_agent_steps : Step
sub_agent_steps =
    process_calls services call_context no_json no_bookkeeping sub_agent_calls (record {
      tasks = [];
      next_task_id = 5;
      tool_dispatches = [];
      sub_agent_dispatches = [];
      tool_results = [];
      processed = [];
    })

abbrev processed : SubAgents.Progress
processed = progress_of sub_agent_steps

process_calls-ends_example :
    All (IsHanded services call_context no_bookkeeping) processed.processed
    × All (IsSettled processed.next_task_id) processed.tasks
    × (((has_null services call_context no_bookkeeping no_json sub_agent_calls ≡ false)
          × (sub_agent_steps ≡ continued processed)
          × (map (λ r. r.tool_call_id) processed.tool_results
              ≡ map
                  (λ c. c.id)
                  (own_calls services call_context no_bookkeeping no_json sub_agent_calls)))
        ⊎ ((has_null services call_context no_bookkeeping no_json sub_agent_calls ≡ true)
            × (sub_agent_steps ≡ type_error processed)))
process_calls-ends_example =
    process_calls-ends services call_context no_bookkeeping no_json sub_agent_calls [] 5 tt

abbrev event : InboundEvent
event = record {
  channel = telegram;
  external_user_id = "7";
  external_user_name = none;
  external_thread_id = "7";
  conversation_id = none;
  text = "How long is the report?";
  attachments = [];
  metadata = end;
}

abbrev memory : MemorySnippet
memory = record { summary = "Prefers short answers"; score = 9 }

abbrev earlier_message : RecentMessage
earlier_message = record { role = user; content = codes "Hello" }

compose_prompt-system_prompt_example :
    let prompt = (compose_prompt event (memory ∷ []) (earlier_message ∷ []) []).system_prompt in
    ((between : Text) × (prompt
        ≡ codes base_system_prompt ++ (between ++ codes compliance_instructions)))
    × (length prompt ≤ 4800)
compose_prompt-system_prompt_example =
    compose_prompt-system_prompt event (memory ∷ []) (earlier_message ∷ []) []

compose_prompt-history_example :
    let context = compose_prompt event (memory ∷ []) (earlier_message ∷ []) [] in
    (first : Message) × (first.role ≡ system)
    × (first.content ≡ context.system_prompt)
    × (earlier kept : List RecentMessage) × (context_to_messages context
        ≡ first ∷ (map to_message kept ++ (build_user_message event ∷ [])))
    × (earlier_message ∷ [] ≡ earlier ++ kept)
    × (length kept ≤ 20)
    × (total_chars kept ≤ 12000)
    × ((kept ≡ last_messages 20 (earlier_message ∷ []))
        ⊎ ((older : List RecentMessage) × (m : RecentMessage) × (earlier ≡ older ++ (m ∷ []))
            × (12000 < total_chars kept + length m.content)))
compose_prompt-history_example =
    compose_prompt-history (earlier_message ∷ []) event (memory ∷ []) []

abbrev settings : RoutingSettings
settings = record {
  primary_model = "anthropic/claude-sonnet-4";
  fallback_model = none;
  max_cost_per_request = some 5000000;
  max_monthly_budget = some 100000000;
  routing_rules = [];
}

-- A provider that asks for the tool at first, and answers when it has the result.
abbrev complete : List LlmRequest → LlmRequest → Outcome LlmResponse
complete earlier request = returned (record {
  content = codes "It has 3 pages.";
  tool_calls = first_calls earlier;
  usage = record {
    prompt_tokens = 900;
    completion_tokens = 20;
    total_tokens = 920;
    estimated_cost = some 30000;
  };
  model = request.model;
  latency = 700;
})
  where
    first_calls : List LlmRequest → List ToolCall
    first_calls [] = call "c1" "read_pdf" ∷ []
    first_calls (r ∷ rs) = []

-- The look-ups for the event.
abbrev lookups : Lookups ℕ
lookups = record {
  resolve_conversation = λ event n. (returned (1, 4), n);
  persist_inbound = λ event id participant n. (returned 2, n);
  retrieve_memories = λ event id n. (returned (memory ∷ []), n);
  resolve_tool_catalog = λ n. (returned [], n);
  get_routing_settings = λ n. (returned settings, n);
  load_recent_messages = λ id limit excluded n. (returned (earlier_message ∷ []), n);
  sum_cost_current_month = λ n. (returned 90000000, n);
  falls_short = λ cap prompt price. false;
}

abbrev prepared : Prepared
prepared = record {
  event = event;
  conversation_id = 1;
  inbound_message_id = 2;
  memories = memory ∷ [];
  recent_messages = earlier_message ∷ [];
  tools = [];
  settings = settings;
  month_cost = 90000000;
  falls_short = λ cap prompt price. false;
}

-- A conversation without a title.
abbrev post : PostServices ℕ
post = record {
  find_conversation =
      λ id n. (some (some (record { title = none; is_closed = false; messages = 2 })), n);
  set_title = λ id title n. (true, n + 100);
  set_closed = λ id n. (true, n);
  test = λ pattern reply. false;
}

-- A store of replies that counts them.
abbrev others : Collaborators ℕ String
others = record {
  complete = complete;
  execute_external = λ calls n. (none, n);
  process_sub_agents = λ calls n. (none, n);
  store_reply = λ reply n. (some n, n + 1);
  extract_facts = λ response n. (some [], n);
  log_usage = λ row n. (true, n);
  merge_metadata = λ id n. (false, n);
  lookups = lookups;
  post = post;
}

-- A skill whose source has no white space at its ends.
abbrev trimmed : Store
trimmed =
    apply plain_hash no_match (toggle 0 true "ann")
      (apply plain_hash no_match (ingest (record upload { source = "read()" }) "ann") empty_store)

abbrev with_tools : Collaborators (Site × ℕ) String
with_tools =
    on_site plain_hash no_json evaluate call_function context (("read_pdf", runtime) ∷ []) others

abbrev site : Site × ℕ
site = (record { store = trimmed; runs = [] }, 3)

abbrev executed : Execution (Site × ℕ) String
executed = execute_event with_tools event site

prepared_test : (prepare with_tools event site).0 ≡ returned prepared
unfolding prepare and_then
prepared_test = refl

execute_event-runs_vetted_example :
    All
      (λ r.
        ((name : String) × (is_sub_agent_tool_call name ≡ false)
          × (get_runtime name (("read_pdf", runtime) ∷ []) ≡ some r))
        × IsVettedSource plain_hash trimmed r.skill_slug r.source)
      executed.state.0.runs
execute_event-runs_vetted_example =
    execute_event-runs_vetted plain_hash no_json evaluate call_function context
      (("read_pdf", runtime) ∷ []) others event trimmed 3

execute_event-permits_example : ArePermitted with_tools (prepare with_tools event site).0 executed
execute_event-permits_example = execute_event-permits with_tools event site

execute_event-IsWithin_caps_example :
    All (IsWithin 5000000) executed.traffic.requests × All IsSmall executed.title_requests
execute_event-IsWithin_caps_example =
    execute_event-IsWithin_caps with_tools event site prepared 5000000 prepared_test (inl refl)

execute_event-returns_example : IsEnded with_tools (prepare with_tools event site) executed
execute_event-returns_example = execute_event-returns with_tools event site
