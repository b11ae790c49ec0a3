-- ===== src/Skills/Management/Laws.antt =====
-- The ways in which a toggle and an override end: with the store as it was, or with one row changed.
use psychic_octo_invention.Prelude.{
  ℕ, ◌≡◌, ◌⊎◌, inl, inr, String, Bool, true, none, some, List, ◌∷◌, arith, Option-cases, Bool-cases,
}
use psychic_octo_invention.Skills.Types.{Skill, Version, Store, AuditEntry}
use psychic_octo_invention.Skills.Store.{find_by_id, update_skill, display_version}
use psychic_octo_invention.Skills.Management.{
  toggle_skill, set_enabled, manual_override, overridden, OverrideResult, vetting_refusal,
  version_vetting,
}

pub toggle_skill-cases :
    (id : ℕ) (enabled : Bool) (actor : String) (store : Store)
    → ((toggle_skill id enabled actor store).1 ≡ store)
      ⊎ ((skill : Skill) × (audits : List AuditEntry) × (find_by_id id store ≡ some skill)
          × (enabled ≡ true → vetting_refusal (version_vetting (display_version skill)) ≡ none)
          × ((toggle_skill id enabled actor store).1 ≡ record {
            skills = update_skill id (set_enabled enabled) store.skills;
            audits = audits;
            next_id = store.next_id;
          }))
unfolding toggle_skill
toggle_skill-cases id enabled actor store = elim (Option-cases (find_by_id id store)) [
  | inl absent ↦ inl (ground arith)
  | inr (skill, found) ↦ elim (Bool-cases enabled) [
    | inr off ↦ inr (
      skill,
      (record {
        actor_id = some actor;
        action = "skill.disabled";
        target_id = id;
        detail = skill.slug;
      }
          ∷ store.audits),
      found,
      (λ on. cc),
      ground arith,
    )
    | inl on ↦ elim (Option-cases (vetting_refusal (version_vetting (display_version skill)))) [
      | inr (e, refused) ↦ inl (ground arith)
      | inl accepted ↦ inr (
        skill,
        (record {
          actor_id = some actor;
          action = "skill.enabled";
          target_id = id;
          detail = skill.slug;
        }
            ∷ store.audits),
        found,
        (λ _. accepted),
        ground arith,
      )
    ]
  ]
]

pub manual_override-cases :
    (id : ℕ) (result : OverrideResult) (reason actor : String) (store : Store)
    → ((manual_override id result reason actor store).1 ≡ store)
      ⊎ ((skill : Skill) × (target : Version) × (audits : List AuditEntry) × (find_by_id id store
            ≡ some skill)
          × (display_version skill ≡ some target)
          × ((manual_override id result reason actor store).1 ≡ record {
            skills = update_skill id (overridden result reason target) store.skills;
            audits = audits;
            next_id = store.next_id;
          }))
unfolding manual_override
manual_override-cases id result reason actor store = elim (Option-cases (find_by_id id store)) [
  | inl absent ↦ inl (ground arith)
  | inr (skill, found) ↦ elim (Option-cases (display_version skill)) [
    | inl absent ↦ inl (ground arith)
    | inr (target, shown) ↦ inr (
      skill,
      target,
      (record {
        actor_id = some actor;
        action = "skill.manual_override";
        target_id = id;
        detail = reason;
      }
          ∷ store.audits),
      found,
      shown,
      ground arith,
    )
  ]
]
