-- ===== src/Orchestration/Tools/Catalog.antt =====
-- `resolveToolCatalog` of apps/api/src/orchestration/tool-resolver.ts, on the skill tables. The map
-- from a name to its runtime is a list with the oldest entry first. A tool definition in the metadata
-- of a skill counts if its name and its description are strings.
pub mod Laws
pub mod Resolution
use psychic_octo_invention.Prelude.{
  ℕ, String, Bool, true, false, not, ◌&&◌, Option, none, some, List, [], ◌∷◌, ◌++◌, any, filter,
  is_some, find, ltb, if◌then◌else◌, ◌==◌, string_trim,
}
use psychic_octo_invention.Json.{
  Json, num, str, obj, Fields, get_field, get_member, as_string, is_truthy,
}
use psychic_octo_invention.Routing.Types.{ToolDefinition}
use psychic_octo_invention.Skills.Types.{
  VettingResult, passed, failed, warning, pending, Version, Skill, Store,
}
use psychic_octo_invention.Skills.Store.{current_version}
use psychic_octo_invention.Skills.Guard.{can_execute, is_builtin, GuardResult}
use psychic_octo_invention.Orchestration.Tools.Settings.{
  FirstPartyToolSettings, is_first_party_tool_enabled,
}
use psychic_octo_invention.Orchestration.Tools.Definitions.{bookkeeping_tool, followup_tool}
use psychic_octo_invention.Orchestration.Tools.Definitions.Ghl.{ghl_crm_tool}

pub record ExternalSkillToolRuntime : Type 0 where
  pub tool_name : String
  pub skill_slug : String
  pub skill_id : ℕ
  pub source : String
  pub timeout : ℕ

pub record ResolvedToolCatalog : Type 0 where
  pub tools : List ToolDefinition
  pub external_tools_by_name : List (String × ExternalSkillToolRuntime)

abbrev pub built_in_tools : List ToolDefinition
built_in_tools = ghl_crm_tool ∷ bookkeeping_tool ∷ followup_tool ∷ []

-- `map.get(name)`
abbrev pub get_runtime :
    String → List (String × ExternalSkillToolRuntime) → Option ExternalSkillToolRuntime
get_runtime name [] = none
get_runtime name ((key, runtime) ∷ entries) =
    if key == name then some runtime else get_runtime name entries

-- `extractSourceFromSkillConfig`, which trims the source.
unfoldable pub extract_source_from_skill_config : Option String → Option String
extract_source_from_skill_config none = none
extract_source_from_skill_config (some source) =
    let trimmed = string_trim source in if trimmed == "" then none else some trimmed

abbrev bound_timeout : ℕ → ℕ
bound_timeout raw = if ltb raw 500 then 500 else if ltb 20000 raw then 20000 else raw

-- `resolveExternalToolTimeout`, in milliseconds.
unfoldable pub resolve_external_tool_timeout : Option Json → ℕ
resolve_external_tool_timeout none = 8000
resolve_external_tool_timeout (some metadata) = elim (get_member "executionTimeoutMs" metadata) [
  | some (num raw) ↦ bound_timeout raw
  | _ ↦ 8000
]

abbrev whole_definition : Option String → Option String → Option Json → Option ToolDefinition
whole_definition (some name) (some description) (some parameters) =
    if not (name == "") && (not (description == "") && is_truthy parameters)
    then some (record { name = name; description = description; parameters = parameters })
    else none
whole_definition _ _ _ = none

abbrev definition_in : Json → Option ToolDefinition
definition_in value =
    whole_definition (as_string (get_member "name" value))
      (as_string (get_member "description" value)) (get_member "parameters" value)

-- `metadata.toolDefinition`, where it is complete.
unfoldable pub tool_definition : Option Json → Option ToolDefinition
tool_definition none = none
tool_definition (some metadata) = elim (get_member "toolDefinition" metadata) [
  | none ↦ none
  | some value ↦ definition_in value
]

abbrev is_approving : VettingResult → Bool
is_approving passed = true
is_approving warning = true
is_approving failed = false
is_approving pending = false

abbrev has_approval : Option Version → Bool
has_approval none = false
has_approval (some version) = any (λ t. is_approving t.result) version.vettings

-- The query for the enabled skills whose current version passed a vetting at some time.
unfoldable pub is_candidate : Skill → Bool
is_candidate skill = skill.enabled && has_approval (current_version skill)

abbrev pub config_in : Option Version → Option String
config_in none = none
config_in (some v) = v.config_source

-- `skill.currentVersion?.config`
abbrev pub config_of : Skill → Option String
config_of skill = config_in (current_version skill)

-- A runtime is added under its tool's name, unless the name is taken.
unfoldable pub add_runtime :
    Skill → ToolDefinition → ExternalSkillToolRuntime → ResolvedToolCatalog → ResolvedToolCatalog
add_runtime skill tool runtime catalog =
    if is_some (get_runtime tool.name catalog.external_tools_by_name) then catalog else record {
      tools = catalog.tools ++ (tool ∷ []);
      external_tools_by_name = catalog.external_tools_by_name ++ ((tool.name, runtime) ∷ []);
    }

unfoldable pub bind_tool :
    Skill
    → Option ToolDefinition
    → Option String
    → Option ℕ
    → ResolvedToolCatalog
    → ResolvedToolCatalog
bind_tool skill (some tool) (some source) (some skill_id) catalog =
    add_runtime skill tool
      (record {
        tool_name = tool.name;
        skill_slug = skill.slug;
        skill_id = skill_id;
        source = source;
        timeout = resolve_external_tool_timeout skill.metadata;
      })
      catalog
bind_tool skill _ _ _ catalog = catalog

-- The first-party tools that are switched on; all of them where the settings cannot be read.
unfoldable pub offered_built_ins : Option FirstPartyToolSettings → List ToolDefinition
offered_built_ins none = built_in_tools
offered_built_ins (some settings) =
    filter (λ t. is_first_party_tool_enabled t.name settings) built_in_tools

module _ (compute_code_hash : String → String) where
  -- One round of the loop over the skills.
  unfoldable pub resolve_skill : Skill → ResolvedToolCatalog × Store → ResolvedToolCatalog × Store
  resolve_skill skill (catalog, store) =
      let (guard, store') =
        can_execute compute_code_hash skill.slug
          (record { source = none; require_source_hash = not (is_builtin skill.source_type) })
          store in
      (
        if guard.approved
            then bind_tool skill (tool_definition skill.metadata)
                (extract_source_from_skill_config (config_of skill)) guard.skill_id catalog
            else catalog,
        store',
      )

  unfoldable pub resolve_skills :
      List Skill → ResolvedToolCatalog × Store → ResolvedToolCatalog × Store
  resolve_skills [] state = state
  resolve_skills (skill ∷ skills) state = resolve_skills skills (resolve_skill skill state)

  unfoldable pub resolve_tool_catalog :
      Option FirstPartyToolSettings → Store → ResolvedToolCatalog × Store
  resolve_tool_catalog settings store =
      resolve_skills (filter is_candidate store.skills)
        (record { tools = offered_built_ins settings; external_tools_by_name = [] }, store)
