-- ===== src/Orchestration/Tools/Settings.antt =====
-- The switches of the first-party tools in apps/api/src/services/settings.service.ts, and the names that
-- `isSubAgentToolCall` of apps/api/src/orchestration/sub-agent-dispatcher.ts tests.
use psychic_octo_invention.Prelude.{
  String, Bool, true, Option, none, some, List, [], ◌∷◌, includes, if◌then◌else◌, ◌==◌,
}
use psychic_octo_invention.Json.{Json, null, obj, get_field, is_truthy}
use psychic_octo_invention.Routing.Signals.{
  ghl_crm_tool_name, bookkeeping_tool_name, followup_tool_name,
}

abbrev pub sub_agent_tools : List String
sub_agent_tools = ghl_crm_tool_name ∷ bookkeeping_tool_name ∷ followup_tool_name ∷ []

unfoldable pub is_sub_agent_tool_call : String → Bool
is_sub_agent_tool_call tool_name = includes sub_agent_tools tool_name

pub record FirstPartyToolSettings : Type 0 where
  pub ghl_crm_enabled : Bool
  pub bookkeeping_receipt_enabled : Bool
  pub lead_followup_enabled : Bool

abbrev pub default_first_party_tools : FirstPartyToolSettings
default_first_party_tools = record {
  ghl_crm_enabled = true;
  bookkeeping_receipt_enabled = true;
  lead_followup_enabled = true;
}

-- `value ?? true`, read as a condition.
abbrev switch : Option Json → Bool
switch none = true
switch (some null) = true
switch (some value) = is_truthy value

-- `normalizeFirstPartyToolSettings`
unfoldable pub normalize_first_party_tool_settings : Json → FirstPartyToolSettings
normalize_first_party_tool_settings (obj raw) = record {
  ghl_crm_enabled = switch (get_field "ghlCrmEnabled" raw);
  bookkeeping_receipt_enabled = switch (get_field "bookkeepingReceiptEnabled" raw);
  lead_followup_enabled = switch (get_field "leadFollowupEnabled" raw);
}
normalize_first_party_tool_settings _ = default_first_party_tools

-- `getFirstPartyToolSettings`, of the stored row.
unfoldable pub get_first_party_tool_settings : Option Json → FirstPartyToolSettings
get_first_party_tool_settings none = default_first_party_tools
get_first_party_tool_settings (some value) = normalize_first_party_tool_settings value

unfoldable pub is_first_party_tool_enabled : String → FirstPartyToolSettings → Bool
is_first_party_tool_enabled tool_name settings =
    if tool_name == ghl_crm_tool_name
    then settings.ghl_crm_enabled
    else if tool_name == bookkeeping_tool_name
    then settings.bookkeeping_receipt_enabled
    else if tool_name == followup_tool_name
    then settings.lead_followup_enabled
    else true
