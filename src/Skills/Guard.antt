-- ===== src/Skills/Guard.antt =====
-- `SkillExecutionGuard.canExecute` of apps/api/src/security/execution-guard.ts. Writing the audit
-- entry of a block is taken to succeed; a failure is only logged by the code.
pub mod Laws
use psychic_octo_invention.Prelude.{
  ℕ, String, Bool, true, false, not, ◌||◌, Option, none, some, [], ◌∷◌, Text, codes, trim,
  if◌then◌else◌, ◌==◌,
}
use psychic_octo_invention.Skills.Types.{
  SourceType, builtin, uploaded, git_repo, marketplace, passed, failed, warning, pending, Vetting,
  Version, Skill, Store, latest_vetting,
}
use psychic_octo_invention.Skills.Store.{find_by_slug, current_version, log}

pub record GuardOptions : Type 0 where
  pub source : Option String
  pub require_source_hash : Bool

pub record GuardResult : Type 0 where
  pub approved : Bool
  pub reason : String
  pub skill_id : Option ℕ

abbrev pub non_empty : Text → Bool
non_empty [] = false
non_empty (c ∷ s) = true

-- `s.trim().length > 0`
abbrev pub is_present : String → Bool
is_present s = non_empty (trim (codes s))

unfoldable pub extract_source : Option String → Option String
extract_source none = none
extract_source (some value) = if is_present value then some value else none

abbrev pub is_builtin : SourceType → Bool
is_builtin builtin = true
is_builtin uploaded = false
is_builtin git_repo = false
is_builtin marketplace = false

abbrev pub must_verify : Skill → GuardOptions → Bool
must_verify skill options = options.require_source_hash || not (is_builtin skill.source_type)

-- The source that is given, or else the one stored with the version.
abbrev pub checked_source : Version → GuardOptions → Option String
checked_source version options = elim options.source [
  | some s ↦ some s
  | none ↦ extract_source version.config_source
]

-- A block: the audit entry and the answer.
unfoldable pub block : Skill → String → String → Store → GuardResult × Store
block skill audit_reason reason store = (
  record { approved = false; reason = reason; skill_id = some skill.id },
  log
      (record {
        actor_id = none;
        action = "skill.execution_blocked";
        target_id = skill.id;
        detail = audit_reason;
      })
      store,
)

module _ (compute_code_hash : String → String) where
  -- `verifyCodeHash` of apps/api/src/security/hash.ts.
  abbrev pub verify_code_hash : String → String → Bool
  verify_code_hash source expected = compute_code_hash source == expected

  unfoldable pub allow : Skill → Store → GuardResult × Store
  allow skill store =
      (record { approved = true; reason = "Approved"; skill_id = some skill.id }, store)

  -- A source that has to match the vetted one.
  unfoldable pub verify_source : Skill → Version → Option String → Store → GuardResult × Store
  verify_source skill version none store =
      block skill "missing_source_snapshot"
        "Skill source snapshot is missing for integrity verification" store
  verify_source skill version (some source) store =
      if not (is_present source)
      then block skill "missing_source_snapshot"
          "Skill source snapshot is missing for integrity verification" store
      else if verify_code_hash source version.code_hash
      then allow skill store
      else block skill "hash_mismatch"
          "Skill source has been modified since vetting (hash mismatch)" store

  -- The checks of the source of a version that passed its vetting.
  unfoldable pub check_source : Skill → Version → GuardOptions → Store → GuardResult × Store
  check_source skill version options store =
      if must_verify skill options
      then verify_source skill version (checked_source version options) store
      else allow skill store

  unfoldable pub check_vetting :
      Skill → Version → Option Vetting → GuardOptions → Store → GuardResult × Store
  check_vetting skill version none options store =
      block skill "unvetted" "Skill version has not been vetted" store
  check_vetting skill version (some vetting) options store = elim vetting.result [
    | failed ↦ block skill "vetting_failed" "Skill vetting status is 'failed'" store
    | pending ↦ block skill "vetting_pending" "Skill vetting status is 'pending'" store
    | passed ↦ check_source skill version options store
    | warning ↦ check_source skill version options store
  ]

  unfoldable pub check_version : Skill → Option Version → GuardOptions → Store → GuardResult × Store
  check_version skill none options store =
      block skill "no_version" "Skill has no current version" store
  check_version skill (some version) options store =
      check_vetting skill version (latest_vetting version) options store

  unfoldable pub check_skill : Skill → GuardOptions → Store → GuardResult × Store
  check_skill skill options store =
      if not skill.enabled
      then block skill "skill_disabled" "Skill is disabled" store
      else check_version skill (current_version skill) options store

  unfoldable pub can_execute : String → GuardOptions → Store → GuardResult × Store
  can_execute skill_slug options store = elim (find_by_slug skill_slug store) [
    | none ↦ (record { approved = false; reason = "Skill not found"; skill_id = none }, store)
    | some skill ↦ check_skill skill options store
  ]
