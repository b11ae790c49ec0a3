-- ===== src/Orchestration/Tools/Calls.antt =====
-- The catalog and the executor together: which tools of the catalog can be run.
use psychic_octo_invention.Prelude.{
  ℕ, ◌≡◌, ◌≢◌, ◌↔◌, refl, sym, ap, subst, ◌⊎◌, ◌∙◌, inl, inr, String, Bool, true, false, Option,
  some, some_inj, List, [], ◌∷◌, All-In, In, ◌==◌, Text, has_ink, string_trim, string_trim-has_ink,
  Bool-cases, if◌then◌else◌,
}
use psychic_octo_invention.Json.{Json}
use psychic_octo_invention.Security.Types.{Regex}
use psychic_octo_invention.Routing.Types.{ToolCall}
use psychic_octo_invention.Skills.Types.{Skill, Version, Store}
use psychic_octo_invention.Skills.Store.{find_by_slug, current_version}
use psychic_octo_invention.Skills.Guard.{can_execute, is_present, non_empty}
use psychic_octo_invention.Skills.Guard.Laws.{can_execute-approved_iff}
use psychic_octo_invention.Skills.Validity.Rows.{IsIntact}
use psychic_octo_invention.Skills.Runs.{Reachable}
use psychic_octo_invention.Skills.Runs.Laws.{enabled-current, valid-skill}
use psychic_octo_invention.Orchestration.Tools.Settings.{FirstPartyToolSettings}
use psychic_octo_invention.Orchestration.Tools.Catalog.{
  ExternalSkillToolRuntime, get_runtime, resolve_tool_catalog,
}
use psychic_octo_invention.Orchestration.Tools.Catalog.Laws.{IsBound, Entries}
use psychic_octo_invention.Orchestration.Tools.Catalog.Resolution.{resolve_tool_catalog-IsResolved}
use psychic_octo_invention.Orchestration.Tools.Executor.{
  ExternalToolExecutionContext, Script, ToolValue, Outcome, execute_external_tool_calls,
}
use psychic_octo_invention.Orchestration.Tools.Executor.Vetting.{given, find_by_slug-skills}
use psychic_octo_invention.Orchestration.Tools.Executor.Laws.{
  execute_call-runs, execute_calls-cons, execute_calls-nil,
}

ink-non_empty : (t : Text) → has_ink t ≡ true → non_empty t ≡ true
ink-non_empty [] h = cc
ink-non_empty (c ∷ t) h = refl

get_runtime-In :
    (name : String) (entries : Entries) (runtime : ExternalSkillToolRuntime)
    → get_runtime name entries ≡ some runtime
    → (key : String) × In (key, runtime) entries
get_runtime-In name [] runtime e = cc
get_runtime-In name ((key, x) ∷ entries) runtime e = elim (Bool-cases (key == name)) [
  | inl here ↦ (key, inl (ap (λ r. (key, r)) (some_inj _ _ (sym (rw here at e)))))
  | inr there ↦ let (k, m) = get_runtime-In name entries runtime (rw there at e) in (k, inr m)
]

trimmed-present :
    (trimmed source : String)
    → trimmed ≡ string_trim source
    → trimmed ≢ ""
    → is_present trimmed ≡ true
trimmed-present trimmed source e filled =
    subst (λ t. is_present t ≡ true) (sym e)
      (ink-non_empty _ (string_trim-has_ink source (λ blank. filled (e ∙ blank))))

-- One call of a known tool.
single-runs :
    {F : Type 0} (compute_code_hash : String → String) (parse : String → Option Json)
    (evaluate : ExternalSkillToolRuntime → Outcome (Script F))
    (call_function : F → Json → ExternalToolExecutionContext → Outcome ToolValue)
    (context : ExternalToolExecutionContext) (entries : Entries) (call : ToolCall)
    (runtime : ExternalSkillToolRuntime) (state : Store)
    → get_runtime call.name entries ≡ some runtime
    → (approvable : Bool)
    → (can_execute compute_code_hash runtime.skill_slug (given runtime.source) state).0.approved
      ≡ approvable
    → (execute_external_tool_calls compute_code_hash parse evaluate call_function context
        (call ∷ [])
        entries
        state).runs
      ≡ (if approvable then runtime ∷ [] else [])
single-runs compute_code_hash parse evaluate call_function context entries call runtime state e ok
      g =
    ap (λ p. p.runs)
      (execute_calls-cons compute_code_hash parse evaluate call_function context entries call [] _
        ∙ execute_calls-nil compute_code_hash parse evaluate call_function context entries _)
    ∙ execute_call-runs compute_code_hash parse evaluate call_function context entries call _
        runtime e ok g

module _ (compute_code_hash : String → String) (exec_all : Regex → Text → List ℕ) (store : Store)
    (reached : Reachable compute_code_hash exec_all store) where
  abbrev Verifies : String → Type 0
  Verifies source = compute_code_hash (string_trim source) ≡ compute_code_hash source

  bound-hashed :
      (name : String) (runtime : ExternalSkillToolRuntime)
      → (b : IsBound compute_code_hash store name runtime)
      → b.version.code_hash ≡ compute_code_hash b.source
  bound-hashed name runtime b =
      let valid =
        valid-skill compute_code_hash exec_all store reached runtime.skill_slug b.skill b.found in
      let (v, current, _, intact) =
        enabled-current compute_code_hash store.next_id b.skill valid b.enabled in
      let q : v ≡ b.version = some_inj _ _ (sym current ∙ b.current) in
      let i = subst (IsIntact compute_code_hash) q intact in
      i.hashed ∙ ap compute_code_hash (some_inj _ _ (sym i.stored ∙ b.stored))

  -- The guard lets the source of a bound tool pass exactly if its trimming keeps the hash.
  bound-approved_iff :
      (name : String) (runtime : ExternalSkillToolRuntime) (state : Store)
      → state.skills ≡ store.skills
      → (b : IsBound compute_code_hash store name runtime)
      → ((can_execute compute_code_hash runtime.skill_slug (given runtime.source) state).0.approved
          ≡ true)
        ↔ Verifies b.source
  bound-approved_iff name runtime state same b =
      let iff =
        can_execute-approved_iff compute_code_hash (given runtime.source) state
          runtime.skill_slug in
      let hashed = bound-hashed name runtime b in
      let found = find_by_slug-skills runtime.skill_slug state store same ∙ b.found in
      (
        (λ h.
            let (s, w, f, c) = iff.0 h in
            let p : s ≡ b.skill = some_inj _ _ (sym f ∙ found) in
            let current = subst (λ x. current_version x ≡ some w) p c.current in
            let q : w ≡ b.version = some_inj _ _ (sym current ∙ b.current) in
            let (source, given, _, hash) = c.verified refl in
            ap compute_code_hash (sym b.trimmed ∙ some_inj _ _ given)
            ∙ hash
            ∙ ap (λ x. x.code_hash) q
            ∙ hashed),
        (λ h. iff.1 (
          b.skill,
          b.version,
          found,
          record {
            enabled = b.enabled;
            current = b.current;
            vetted = b.approved;
            verified = λ must. (
              runtime.source,
              refl,
              trimmed-present runtime.source b.source b.trimmed b.filled,
              ap compute_code_hash b.trimmed ∙ h ∙ sym hashed,
            );
          },
        )),
      )

  -- In a reachable store a call of a tool of the catalog, for the source that is stored with the
  -- current version of its skill, runs the tool exactly if the hash of the trimmed source is that of
  -- the stored one; otherwise nothing is run.
  pub execute_external_tool_calls-catalog_iff :
      {F : Type 0} (settings : Option FirstPartyToolSettings) (parse : String → Option Json)
      (evaluate : ExternalSkillToolRuntime → Outcome (Script F))
      (call_function : F → Json → ExternalToolExecutionContext → Outcome ToolValue)
      (context : ExternalToolExecutionContext) (call : ToolCall)
      (runtime : ExternalSkillToolRuntime)
      → let (catalog, state) = resolve_tool_catalog compute_code_hash settings store in
        let runs =
          (execute_external_tool_calls compute_code_hash parse evaluate call_function context
            (call ∷ [])
            catalog.external_tools_by_name
            state).runs in
        get_runtime call.name catalog.external_tools_by_name ≡ some runtime
        → (skill : Skill) × (version : Version) × (source : String) × (find_by_slug
              runtime.skill_slug store
            ≡ some skill)
          × (current_version skill ≡ some version)
          × (version.config_source ≡ some source)
          × (((compute_code_hash (string_trim source) ≡ compute_code_hash source)
                × (runs ≡ runtime ∷ []))
              ⊎ ((compute_code_hash (string_trim source) ≢ compute_code_hash source) × (runs ≡ [])))
  execute_external_tool_calls-catalog_iff settings parse evaluate call_function context call runtime
        e =
      let (resolved, same) =
        resolve_tool_catalog-IsResolved compute_code_hash exec_all store reached settings in
      let (catalog, state) = resolve_tool_catalog compute_code_hash settings store in
      let entries = catalog.external_tools_by_name in
      let (name, m) = get_runtime-In call.name entries runtime e in
      let b =
        All-In (λ e. IsBound compute_code_hash store e.0 e.1) (name, runtime) entries resolved.bound
          m in
      let iff = bound-approved_iff name runtime state same b in
      let one =
        single-runs compute_code_hash parse evaluate call_function context entries call runtime
          state e in
      (
        b.skill,
        b.version,
        b.source,
        b.found,
        b.current,
        b.stored,
        elim (Bool-cases
            (can_execute compute_code_hash runtime.skill_slug (given runtime.source)
              state).0.approved) [
                | inl ok ↦ inl (iff.0 ok, one true ok)
                | inr blocked ↦ inr ((λ h. let ok = iff.1 h in cc), one false blocked)
              ],
      )
