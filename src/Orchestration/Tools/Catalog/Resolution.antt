-- ===== src/Orchestration/Tools/Catalog/Resolution.antt =====
-- The loop over the skills keeps the catalog well formed.
use psychic_octo_invention.Prelude.{
  ℕ, ◌≡◌, refl, sym, ap, subst, ◌∙◌, inl, inr, String, Bool, true, not, Option, none, some,
  some_inj, List, [], ◌∷◌, filter, All, In, find, Text, Bool-cases, ◌==◌,
}
use mathlib.Core.List.{append-nil}
use psychic_octo_invention.Security.Types.{Regex}
use psychic_octo_invention.Routing.Types.{ToolDefinition}
use psychic_octo_invention.Skills.Types.{Skill, Version, Store}
use psychic_octo_invention.Skills.Store.{find_by_slug, current_version}
use psychic_octo_invention.Skills.Guard.{can_execute, GuardOptions, is_builtin}
use psychic_octo_invention.Skills.Guard.Laws.{can_execute-approved_iff, can_execute-tables}
use psychic_octo_invention.Skills.Runs.{Reachable}
use psychic_octo_invention.Skills.Runs.Slugs.{
  HaveDistinctSlugs, find_by_slug-In, Reachable-HaveDistinctSlugs,
}
use psychic_octo_invention.Orchestration.Tools.Settings.{FirstPartyToolSettings}
use psychic_octo_invention.Orchestration.Tools.Catalog.{
  ResolvedToolCatalog, extract_source_from_skill_config, tool_definition, is_candidate, config_in,
  config_of, bind_tool, offered_built_ins, resolve_skill, resolve_skills, resolve_tool_catalog,
}
use psychic_octo_invention.Orchestration.Tools.Catalog.Laws.{
  Adds, Adds-IsResolved, bind_tool-cases, extract_source_from_skill_config-trims, IsBound,
  IsResolved, runtime_of,
}

module _ (compute_code_hash : String → String) (store : Store)
    (distinct : HaveDistinctSlugs store.skills) (built_ins : List ToolDefinition) where
  abbrev options : Skill → GuardOptions
  options skill = record { source = none; require_source_hash = not (is_builtin skill.source_type) }

  abbrev Holds : ResolvedToolCatalog × Store → Type 0
  Holds state =
      IsResolved compute_code_hash store built_ins state.0 × (state.1.skills ≡ store.skills)

  find-same :
      (slug : String) (s : Store)
      → s.skills ≡ store.skills
      → find_by_slug slug s ≡ find_by_slug slug store
  unfolding find_by_slug
  find-same slug s e = ap (λ xs. find (λ x. x.slug == slug) xs) e

  find-own : (skill : Skill) → In skill store.skills → find_by_slug skill.slug store ≡ some skill
  unfolding find_by_slug
  find-own skill m = find_by_slug-In skill store.skills distinct m

  config-current :
      (skill : Skill) (version : Version)
      → current_version skill ≡ some version
      → config_of skill ≡ version.config_source
  config-current skill version e = ap config_in e

  -- A tool that is added for an approved skill is bound to it.
  Adds-IsBound :
      (skill : Skill) (state : Store) (before after : ResolvedToolCatalog)
      → In skill store.skills
      → state.skills ≡ store.skills
      → (can_execute compute_code_hash skill.slug (options skill) state).0.approved ≡ true
      → (a : Adds skill
          (tool_definition skill.metadata)
          (extract_source_from_skill_config (config_of skill))
          before
          after)
      → IsBound compute_code_hash store a.definition.name
          (runtime_of skill a.definition a.text a.id)
  Adds-IsBound skill state before after m same ok a =
      let (s, version, f, c) =
        (can_execute-approved_iff compute_code_hash (options skill) state skill.slug).0 ok in
      let own = find-own skill m in
      let q : s ≡ skill = some_inj _ _ (sym f ∙ find-same skill.slug state same ∙ own) in
      let current = subst (λ x. current_version x ≡ some version) q c.current in
      let (source, stored, trimmed, filled) =
        extract_source_from_skill_config-trims (config_of skill) a.text a.stored in
      record {
        skill = skill;
        version = version;
        source = source;
        named = refl;
        listed = m;
        found = own;
        enabled = subst (λ x. x.enabled ≡ true) q c.enabled;
        current = current;
        approved = c.vetted;
        stored = sym (config-current skill version current) ∙ stored;
        trimmed = trimmed;
        filled = filled;
      }

  resolve_skill-Holds :
      (skill : Skill) (catalog : ResolvedToolCatalog) (state : Store)
      → In skill store.skills
      → Holds (catalog, state)
      → Holds (resolve_skill compute_code_hash skill (catalog, state))
  unfolding resolve_skill
  resolve_skill-Holds skill catalog state m (h, same) =
      let guard = can_execute compute_code_hash skill.slug (options skill) state in
      let kept = (can_execute-tables compute_code_hash (options skill) state skill.slug).0 ∙ same in
      elim (Bool-cases guard.0.approved) [
        | inr refused ↦ (rw refused h, kept)
        | inl ok ↦
            let next =
              bind_tool skill (tool_definition skill.metadata)
                (extract_source_from_skill_config (config_of skill)) guard.0.skill_id catalog in
            (
              rw ok
                  (elim (bind_tool-cases skill (tool_definition skill.metadata)
                    (extract_source_from_skill_config (config_of skill)) guard.0.skill_id catalog) [
                      | inl none_added ↦
                          subst (IsResolved compute_code_hash store built_ins) (sym none_added) h
                      | inr a ↦
                          Adds-IsResolved compute_code_hash store built_ins skill _ _ catalog next h
                            a (Adds-IsBound skill state catalog next m same ok a)
                    ]),
              kept,
            )
      ]

  resolve_skills-Holds :
      (skills : List Skill) (catalog : ResolvedToolCatalog) (state : Store)
      → All (λ s. In s store.skills) skills
      → Holds (catalog, state)
      → Holds (resolve_skills compute_code_hash skills (catalog, state))
  unfolding resolve_skills
  resolve_skills-Holds [] catalog state m h = h
  resolve_skills-Holds (skill ∷ skills) catalog state m h =
      resolve_skills-Holds skills _ _ m.1 (resolve_skill-Holds skill catalog state m.0 h)

filter-listed :
    (p : Skill → Bool) (xs ys : List Skill)
    → ((s : Skill) → In s xs → In s ys)
    → All (λ s. In s ys) (filter p xs)
filter-listed p [] ys h = tt
filter-listed p (x ∷ xs) ys h =
    let rest = filter-listed p xs ys (λ s m. h s (inr m)) in
    elim (Bool-cases (p x)) [ inl e ↦ rw e (h x (inl refl), rest) | inr e ↦ rw e rest ]

module _ (compute_code_hash : String → String) (exec_all : Regex → Text → List ℕ) (store : Store)
    (reached : Reachable compute_code_hash exec_all store)
    (settings : Option FirstPartyToolSettings) where
  -- The catalog that is resolved from a reachable store: beside the first-party tools that are switched
  -- on it lists exactly the tools of its map, in their order; a name has one runtime there; and each
  -- runtime belongs to an enabled skill whose current version passed its vetting, with the stored
  -- source, trimmed. The skills are left as they are.
  pub resolve_tool_catalog-IsResolved :
      IsResolved compute_code_hash store
        (offered_built_ins settings)
        (resolve_tool_catalog compute_code_hash settings store).0
      × ((resolve_tool_catalog compute_code_hash settings store).1.skills ≡ store.skills)
  unfolding resolve_tool_catalog
  resolve_tool_catalog-IsResolved =
      resolve_skills-Holds compute_code_hash store
        (Reachable-HaveDistinctSlugs compute_code_hash exec_all store reached)
        (offered_built_ins settings) (filter is_candidate store.skills) _ store
        (filter-listed is_candidate store.skills store.skills (λ s m. m))
        (
          record {
            externals = [];
            tools = sym (append-nil _);
            named = refl;
            unique = λ name runtime m. absurd m;
            bound = tt;
          },
          refl,
        )
