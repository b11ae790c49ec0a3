-- ===== src/Orchestration/Tools/Catalog/Laws.antt =====
-- What the resolved catalog holds.
use mathlib.Core.List.{append_assoc}
use psychic_octo_invention.Prelude.{
  ℕ, ◌≡◌, ◌≢◌, refl, sym, ap, subst, ◌∙◌, ◌⊎◌, inl, inr, String, true, Option, none, some, some_inj,
  List, [], ◌∷◌, ◌++◌, map, All, All-append, In, map-append, ◌==◌, eq_iff, eq_refl, Option-cases,
  Bool-cases, string_trim,
}
use psychic_octo_invention.Routing.Types.{ToolDefinition}
use psychic_octo_invention.Skills.Types.{Skill, Version, Store}
use psychic_octo_invention.Skills.Store.{find_by_slug, current_version}
use psychic_octo_invention.Skills.Validity.Rows.{IsApproved}
use psychic_octo_invention.Orchestration.Tools.Catalog.{
  ExternalSkillToolRuntime, ResolvedToolCatalog, get_runtime, extract_source_from_skill_config,
  resolve_external_tool_timeout, add_runtime, bind_tool,
}

abbrev pub Entries : Type 0
Entries = List (String × ExternalSkillToolRuntime)

get_runtime-append :
    (name : String) (xs ys : Entries) (r : ExternalSkillToolRuntime)
    → get_runtime name xs ≡ some r
    → get_runtime name (xs ++ ys) ≡ some r
get_runtime-append name [] ys r e = cc
get_runtime-append name ((key, x) ∷ xs) ys r e = elim (Bool-cases (key == name)) [
  | inl here ↦ rw here (rw here at e)
  | inr there ↦ rw there (get_runtime-append name xs ys r (rw there at e))
]

get_runtime-last :
    (name : String) (xs : Entries) (r : ExternalSkillToolRuntime)
    → get_runtime name xs ≡ none
    → get_runtime name (xs ++ ((name, r) ∷ [])) ≡ some r
get_runtime-last name [] r e = rw (eq_refl name) refl
get_runtime-last name ((key, x) ∷ xs) r e = elim (Bool-cases (key == name)) [
  | inl here ↦ let impossible = rw here at e in cc
  | inr there ↦ rw there (get_runtime-last name xs r (rw there at e))
]

-- The runtime that a skill's tool gets.
abbrev pub runtime_of : Skill → ToolDefinition → String → ℕ → ExternalSkillToolRuntime
runtime_of skill tool source id = record {
  tool_name = tool.name;
  skill_slug = skill.slug;
  skill_id = id;
  source = source;
  timeout = resolve_external_tool_timeout skill.metadata;
}

-- A tool that is added to a catalog.
pub record Adds (skill : Skill) (tool : Option ToolDefinition) (source : Option String)
    (before after : ResolvedToolCatalog) : Type 0 where
  pub definition : ToolDefinition
  pub text : String
  pub id : ℕ
  pub defined : tool ≡ some definition
  pub stored : source ≡ some text
  pub fresh : get_runtime definition.name before.external_tools_by_name ≡ none
  pub tools : after.tools ≡ before.tools ++ (definition ∷ [])
  pub entries :
      after.external_tools_by_name
      ≡ before.external_tools_by_name
        ++ ((definition.name, runtime_of skill definition text id) ∷ [])

pub bind_tool-cases :
    (skill : Skill) (tool : Option ToolDefinition) (source : Option String) (id : Option ℕ)
    (catalog : ResolvedToolCatalog)
    → (bind_tool skill tool source id catalog ≡ catalog)
      ⊎ Adds skill tool source catalog (bind_tool skill tool source id catalog)
unfolding bind_tool add_runtime
bind_tool-cases skill (some tool) (some source) (some id) catalog =
    elim (Option-cases (get_runtime tool.name catalog.external_tools_by_name)) [
      | inl free ↦ rw free (
          inr (record {
            definition = tool;
            text = source;
            id = id;
            defined = refl;
            stored = refl;
            fresh = free;
            tools = refl;
            entries = refl;
          }))
      | inr (r, taken) ↦ rw taken (inl refl)
    ]
bind_tool-cases skill (some tool) (some source) none catalog = inl refl
bind_tool-cases skill (some tool) none id catalog = inl refl
bind_tool-cases skill none source id catalog = inl refl

pub extract_source_from_skill_config-trims :
    (config : Option String) (text : String)
    → extract_source_from_skill_config config ≡ some text
    → (source : String) × (config ≡ some source) × (text ≡ string_trim source) × (text ≢ "")
unfolding extract_source_from_skill_config
extract_source_from_skill_config-trims none text e = cc
extract_source_from_skill_config-trims (some source) text e =
    elim (Bool-cases (string_trim source == "")) [
      | inl blank ↦ let impossible = rw blank at e in cc
      | inr full ↦
          let same : string_trim source ≡ text = some_inj _ _ (rw full at e) in
          (
            source,
            refl,
            sym same,
            λ q. let blank = (eq_iff (string_trim source) "").1 (same ∙ q) in cc,
          )
    ]

module _ (compute_code_hash : String → String) (store : Store) where
  -- A tool of the catalog belongs to an enabled skill whose current version passed its vetting, and its
  -- source is the stored one without the white space around it.
  pub record IsBound (name : String) (runtime : ExternalSkillToolRuntime) : Type 0 where
    pub skill : Skill
    pub version : Version
    pub source : String
    pub named : runtime.tool_name ≡ name
    pub listed : In skill store.skills
    pub found : find_by_slug runtime.skill_slug store ≡ some skill
    pub enabled : skill.enabled ≡ true
    pub current : current_version skill ≡ some version
    pub approved : IsApproved version
    pub stored : version.config_source ≡ some source
    pub trimmed : runtime.source ≡ string_trim source
    pub filled : runtime.source ≢ ""

  -- Every tool that is listed beside the first-party ones has a runtime under its name, each name has
  -- one runtime, and each runtime is bound to a skill.
  pub record IsResolved (built_ins : List ToolDefinition) (catalog : ResolvedToolCatalog)
      : Type 0 where
    pub externals : List ToolDefinition
    pub tools : catalog.tools ≡ built_ins ++ externals
    pub named : map (λ t. t.name) externals ≡ map (λ e. e.0) catalog.external_tools_by_name
    pub unique :
        (name : String) (runtime : ExternalSkillToolRuntime)
        → In (name, runtime) catalog.external_tools_by_name
        → get_runtime name catalog.external_tools_by_name ≡ some runtime
    pub bound : All (λ e. IsBound e.0 e.1) catalog.external_tools_by_name

  In-append :
      (e : String × ExternalSkillToolRuntime) (xs : Entries) (y : String × ExternalSkillToolRuntime)
      → In e (xs ++ (y ∷ []))
      → In e xs ⊎ (e ≡ y)
  In-append e [] y (inl same) = inr same
  In-append e [] y (inr m) = absurd m
  In-append e (x ∷ xs) y (inl same) = inl (inl same)
  In-append e (x ∷ xs) y (inr m) = elim (In-append e xs y m) [
    | inl here ↦ inl (inr here)
    | inr last ↦ inr last
  ]

  entry_unique :
      (xs : Entries) (n : String) (r : ExternalSkillToolRuntime)
      → get_runtime n xs ≡ none
      → ((name : String) (runtime : ExternalSkillToolRuntime)
          → In (name, runtime) xs
          → get_runtime name xs ≡ some runtime)
      → (name : String) (runtime : ExternalSkillToolRuntime)
      → In (name, runtime) (xs ++ ((n, r) ∷ []))
      → get_runtime name (xs ++ ((n, r) ∷ [])) ≡ some runtime
  entry_unique xs n r free unique name runtime m = elim (In-append (name, runtime) xs (n, r) m) [
    | inl old ↦ get_runtime-append name xs ((n, r) ∷ []) runtime (unique name runtime old)
    | inr new ↦
        subst (λ e. get_runtime e.0 (xs ++ ((n, r) ∷ [])) ≡ some e.1) (sym new)
          (get_runtime-last n xs r free)
  ]

  pub Adds-IsResolved :
      (built_ins : List ToolDefinition) (skill : Skill) (tool : Option ToolDefinition)
      (source : Option String) (before after : ResolvedToolCatalog)
      → IsResolved built_ins before
      → (a : Adds skill tool source before after)
      → IsBound a.definition.name (runtime_of skill a.definition a.text a.id)
      → IsResolved built_ins after
  Adds-IsResolved built_ins skill tool source before after h a b = record {
    externals = h.externals ++ (a.definition ∷ []);
    tools =
        a.tools
        ∙ ap (λ ts. ts ++ (a.definition ∷ [])) h.tools
        ∙ append_assoc built_ins h.externals (a.definition ∷ []);
    named =
        map-append (λ t. t.name) h.externals (a.definition ∷ [])
        ∙ ap (λ ns. ns ++ (a.definition.name ∷ [])) h.named
        ∙ sym (map-append (λ e. e.0) before.external_tools_by_name _)
        ∙ ap (map (λ e. e.0)) (sym a.entries);
    unique = λ name runtime m.
        subst (λ es. get_runtime name es ≡ some runtime) (sym a.entries)
          (entry_unique before.external_tools_by_name a.definition.name
            (runtime_of skill a.definition a.text a.id) a.fresh h.unique name runtime
            (subst (In (name, runtime)) a.entries m));
    bound =
        subst (All (λ e. IsBound e.0 e.1)) (sym a.entries)
          (All-append (λ e. IsBound e.0 e.1) before.external_tools_by_name _ h.bound (b, tt));
  }
