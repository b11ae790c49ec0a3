-- ===== src/Skills/Management.antt =====
-- `toggleSkill` of apps/api/src/services/skills/skill.service.ts and `manualOverride` of
-- apps/api/src/services/skills/override.service.ts.
pub mod Laws
use psychic_octo_invention.Prelude.{
  ℕ, String, Bool, Option, none, some, [], ◌∷◌, if◌then◌else◌, ◌⧺◌,
}
use psychic_octo_invention.Errors.{AppError, Result, ok, err}
use psychic_octo_invention.Skills.Types.{
  SourceType, VettingResult, failed, pending, manual, Vetting, Version, Skill, Store,
  latest_vetting,
}
use psychic_octo_invention.Skills.Store.{
  find_by_id, display_version, update_skill, add_vetting, log,
}

pub record SkillSummary : Type 0 where
  pub id : ℕ
  pub slug : String
  pub display_name : String
  pub description : Option String
  pub source_type : SourceType
  pub enabled : Bool
  pub current_version : Option String
  pub latest_vetting : Option VettingResult

abbrev not_found : AppError
not_found = record { status_code = 404; code = "NOT_FOUND"; message = "Skill not found" }

abbrev refusal : String → String → AppError
refusal code message = record { status_code = 422; code = code; message = message }

abbrev pub version_vetting : Option Version → Option VettingResult
version_vetting none = none
version_vetting (some v) = elim (latest_vetting v) [ none ↦ none | some t ↦ some t.result ]

abbrev version_name : Option Version → Option String
version_name none = none
version_name (some v) = some v.version

-- Why a skill may not be enabled: `none` if it may.
unfoldable pub vetting_refusal : Option VettingResult → Option AppError
vetting_refusal none =
    some (refusal "VETTING_REQUIRED" "Cannot enable a skill that has not been vetted")
vetting_refusal (some failed) =
    some (refusal "VETTING_FAILED" "Cannot enable a skill that failed vetting")
vetting_refusal (some pending) =
    some (refusal "VETTING_PENDING" "Cannot enable a skill while vetting is still pending")
vetting_refusal (some VettingResult.passed) = none
vetting_refusal (some VettingResult.warning) = none

abbrev pub summary : Skill → SkillSummary
summary s = record {
  id = s.id;
  slug = s.slug;
  display_name = s.display_name;
  description = s.description;
  source_type = s.source_type;
  enabled = s.enabled;
  current_version = version_name (display_version s);
  latest_vetting = version_vetting (display_version s);
}

abbrev pub set_enabled : Bool → Skill → Skill
set_enabled enabled s = record s { enabled = enabled }

unfoldable pub toggle_skill : ℕ → Bool → String → Store → Result SkillSummary × Store
toggle_skill skill_id enabled actor store = elim (find_by_id skill_id store) [
  | none ↦ (err not_found, store)
  | some skill ↦
      let change : Result SkillSummary × Store = (
        ok (summary (set_enabled enabled skill)),
        log
            (record {
              actor_id = some actor;
              action = if enabled then "skill.enabled" else "skill.disabled";
              target_id = skill_id;
              detail = skill.slug;
            })
            (record store { skills = update_skill skill_id (set_enabled enabled) store.skills }),
      ) in
      if enabled
      then elim (vetting_refusal (version_vetting (display_version skill))) [
        | some e ↦ (err e, store)
        | none ↦ change
      ]
      else change
]

-- The results that an override can set.
pub data OverrideResult : Type 0 where
  passed warning : OverrideResult

abbrev pub to_vetting : OverrideResult → VettingResult
to_vetting OverrideResult.passed = VettingResult.passed
to_vetting OverrideResult.warning = VettingResult.warning

abbrev pub manual_vetting : OverrideResult → String → Version → Vetting
manual_vetting result reason v = record {
  result = to_vetting result;
  reviewer_type = manual;
  reasons = ("Manual override by admin: " ⧺ reason) ∷ [];
  detected_risks = [];
  code_hash = v.code_hash;
  reviewer_note = some reason;
}

-- The new vetting of the target version, which becomes the current one if there is none.
abbrev pub overridden : OverrideResult → String → Version → Skill → Skill
overridden result reason target s = record s {
  versions = add_vetting target.id (manual_vetting result reason target) s.versions;
  current_version_id = elim s.current_version_id [ none ↦ some target.id | some id ↦ some id ];
}

pub manual_override : ℕ → OverrideResult → String → String → Store → Result Vetting × Store
manual_override skill_id result reason actor store = elim (find_by_id skill_id store) [
  | none ↦ (err not_found, store)
  | some skill ↦ elim (display_version skill) [
    | none ↦ (err (refusal "NO_VERSION" "Skill has no versions to override"), store)
    | some target ↦ (
      ok (manual_vetting result reason target),
      log
          (record {
            actor_id = some actor;
            action = "skill.manual_override";
            target_id = skill_id;
            detail = reason;
          })
          (record store {
            skills = update_skill skill_id (overridden result reason target) store.skills;
          }),
    )
  ]
]
