-- ===== src/Skills/Ingestion.antt =====
-- `ingestSkill` of apps/api/src/services/skills/ingestion.service.ts. Parameters are the hash of
-- node:crypto and the regular expression engine. A thrown error rolls the transaction back.
pub mod Laws
use psychic_octo_invention.Prelude.{
  ℕ, ◌+◌, String, Bool, true, false, Option, none, some, List, [], ◌∷◌, ◌++◌, Text, codes, find,
  ◌==◌, ◌⧺◌,
}
use psychic_octo_invention.Errors.{AppError, Result, ok, err}
use psychic_octo_invention.Security.Types.{Regex, DetectedRisk}
use psychic_octo_invention.Security.Scanner.{scan_source}
use psychic_octo_invention.Security.Policy.{
  Decision, approved, blocked, warning, PolicyEvaluation, evaluate_policy,
}
use psychic_octo_invention.Skills.Types.{
  VettingResult, passed, failed, warning as warned, pending, system, Version, Skill, Store,
  IngestInput,
}
use psychic_octo_invention.Skills.Store.{find_by_slug, update_skill, log}

pub record IngestionResult : Type 0 where
  pub skill_id : ℕ
  pub version_id : ℕ
  pub code_hash : String
  pub vetting_result : VettingResult
  pub detected_risks : List DetectedRisk
  pub reasons : List String

abbrev pub vetting_of : Decision → VettingResult
vetting_of blocked = failed
vetting_of warning = warned
vetting_of approved = passed

-- The new version becomes the current one only if it passed.
abbrev pub next_current : VettingResult → ℕ → Option ℕ → Option ℕ
next_current passed new old = some new
next_current warned new old = some new
next_current failed new old = old
next_current pending new old = old

abbrev version_exists : String → AppError
version_exists version = record {
  status_code = 409;
  code = "VERSION_EXISTS";
  message = "Version " ⧺ version ⧺ " already exists with identical content";
}

abbrev version_hash_mismatch : String → AppError
version_hash_mismatch version = record {
  status_code = 409;
  code = "VERSION_HASH_MISMATCH";
  message =
      "Version " ⧺ version ⧺ " already exists with different content. Bump the version number.";
}

-- The conflict of a version that exists, with the same content or another.
pub version_conflict : Bool → String → AppError
version_conflict true version = version_exists version
version_conflict false version = version_hash_mismatch version

-- A field that the input leaves undefined is left alone by the update.
abbrev or_kept : Option String → Option String → Option String
or_kept none old = old
or_kept (some new) old = some new

-- `skill.update` with the input, and `skillVersion.create`.
abbrev pub with_version : IngestInput → Version → VettingResult → Skill → Skill
with_version input version result skill = record skill {
  display_name = input.display_name;
  description = or_kept input.description skill.description;
  source_type = input.source_type;
  source_url = or_kept input.source_url skill.source_url;
  source_ref = or_kept input.source_ref skill.source_ref;
  metadata = input.metadata;
  versions = version ∷ skill.versions;
  current_version_id = next_current result version.id skill.current_version_id;
}

abbrev pub new_skill : IngestInput → ℕ → Version → VettingResult → Skill
new_skill input id version result = record {
  id = id;
  slug = input.slug;
  display_name = input.display_name;
  description = input.description;
  source_type = input.source_type;
  source_url = input.source_url;
  source_ref = input.source_ref;
  metadata = input.metadata;
  enabled = false;
  current_version_id = next_current result version.id none;
  versions = version ∷ [];
}

abbrev ingest_action : VettingResult → String
ingest_action failed = "skill.ingestion_blocked"
ingest_action passed = "skill.ingested"
ingest_action warned = "skill.ingested"
ingest_action pending = "skill.ingested"

module _ (compute_code_hash : String → String) (exec_all : Regex → Text → List ℕ) where
  -- The static analysis and its verdict.
  unfoldable pub evaluation : IngestInput → PolicyEvaluation
  evaluation input = evaluate_policy (scan_source exec_all (codes input.source) none) none

  abbrev pub vetting_result : IngestInput → VettingResult
  vetting_result input = vetting_of (evaluation input).decision

  abbrev pub new_version : IngestInput → ℕ → Version
  new_version input id =
      let e = evaluation input in
      let code_hash = compute_code_hash input.source in
      record {
        id = id;
        version = input.version;
        code_hash = code_hash;
        config_source = some input.source;
        vettings =
            record {
              result = vetting_result input;
              reviewer_type = system;
              reasons = e.reasons;
              detected_risks = e.blocking_risks ++ e.warning_risks;
              code_hash = code_hash;
              reviewer_note = none;
            }
            ∷ [];
      }

  -- The result of a transaction that went through, and its audit entry.
  unfoldable pub finish : IngestInput → String → ℕ → ℕ → Store → Result IngestionResult × Store
  finish input actor skill_id version_id store =
      let e = evaluation input in
      (
        ok (record {
          skill_id = skill_id;
          version_id = version_id;
          code_hash = compute_code_hash input.source;
          vetting_result = vetting_result input;
          detected_risks = e.blocking_risks ++ e.warning_risks;
          reasons = e.reasons;
        }),
        log
            (record {
              actor_id = some actor;
              action = ingest_action (vetting_result input);
              target_id = skill_id;
              detail = compute_code_hash input.source;
            })
            store,
      )

  unfoldable pub ingest_skill : IngestInput → String → Store → Result IngestionResult × Store
  ingest_skill input actor store = elim (find_by_slug input.slug store) [
    | none ↦
        let n = store.next_id in
        finish input actor n (n + 1) (record store {
          skills =
              new_skill input n (new_version input (n + 1)) (vetting_result input) ∷ store.skills;
          next_id = n + 2;
        })
    | some skill ↦ elim (find (λ v. v.version == input.version) skill.versions) [
      | some existing ↦ (
        err (version_conflict (existing.code_hash == compute_code_hash input.source) input.version),
        store,
      )
      | none ↦
          let n = store.next_id in
          finish input actor skill.id n (record store {
            skills =
                update_skill skill.id
                  (with_version input (new_version input n) (vetting_result input)) store.skills;
            next_id = n + 1;
          })
    ]
  ]
