-- ===== src/Skills/Tests.antt =====
-- A skill that is uploaded, enabled, checked and attacked.
use psychic_octo_invention.Prelude.{
  ℕ, ◌≡◌, ◌≢◌, refl, sym, ap, subst, ◌∙◌, some_inj, ◌⊎◌, ◌↔◌, String, true, none, some, List, [],
  ◌∷◌, codes, Text, starts_with, if◌then◌else◌,
}
use psychic_octo_invention.Security.Types.{Regex}
use psychic_octo_invention.Security.Scanner.{
  scan_source, raw_risks, risks_at, risk_at, sort_risks, insert_risk,
}
use psychic_octo_invention.Security.Policy.{
  with_defaults, get_rule_category, is_suppressed, meets_threshold, place, sort_into, decide,
  evaluate_policy,
}
use psychic_octo_invention.Skills.Types.{
  uploaded, Skill, Version, Store, IngestInput, empty_store, failed, passed, warning, Vetting,
  latest_vetting,
}
use psychic_octo_invention.Skills.Store.{
  find_by_slug, find_by_id, find_version, update_skill, current_version,
}
use psychic_octo_invention.Skills.Ingestion.{
  ingest_skill, evaluation, finish, vetting_result, new_skill, new_version,
}
use psychic_octo_invention.Skills.Guard.Laws.{can_execute-approved_iff, IsCleared}
use psychic_octo_invention.Skills.Validity.Rows.{IsValid}
use psychic_octo_invention.Skills.Management.{toggle_skill, vetting_refusal, set_enabled}
use psychic_octo_invention.Skills.Guard.{can_execute, is_present, must_verify}
use psychic_octo_invention.Skills.Runs.{ingest, toggle, apply, Reachable, start, step}
use psychic_octo_invention.Skills.Runs.Laws.{
  Reachable-IsValid, can_execute-enabled, can_execute-integrity, ingest_skill-failed_keeps,
}

-- A source is its own hash, and an engine that finds each pattern in a source that starts with eval.
abbrev plain_hash : String → String
plain_hash source = source

abbrev eval_only : Regex → Text → List ℕ
eval_only rule text = if starts_with text (codes "eval") then 0 ∷ [] else []

abbrev upload : String → String → IngestInput
upload version source = record {
  slug = "pdf";
  display_name = "PDF";
  description = none;
  source_type = uploaded;
  source_url = none;
  source_ref = none;
  metadata = none;
  version = version;
  source = source;
}

abbrev first : Store
first = apply plain_hash eval_only (ingest (upload "1" "read()") "ann") empty_store

abbrev live : Store
live = apply plain_hash eval_only (toggle 0 true "ann") first

abbrev live-Reachable : Reachable plain_hash eval_only live
live-Reachable =
    step (toggle 0 true "ann") first live
      (step (ingest (upload "1" "read()") "ann") empty_store first (start empty_store refl) refl)
      refl

decided : vetting_result plain_hash eval_only (upload "2" "eval(x)") ≡ failed
unfolding evaluation evaluate_policy scan_source raw_risks risks_at risk_at with_defaults sort_into
    place is_suppressed meets_threshold get_rule_category decide sort_risks insert_risk
decided = refl

abbrev first_version : Version
first_version = new_version plain_hash eval_only (upload "1" "read()") 1

abbrev live_skill : Skill
live_skill = set_enabled true (
    new_skill (upload "1" "read()") 0 first_version
      (vetting_result plain_hash eval_only (upload "1" "read()")))

live_found : find_by_slug "pdf" live ≡ some live_skill
unfolding evaluation evaluate_policy scan_source raw_risks risks_at risk_at with_defaults sort_into
    place is_suppressed meets_threshold get_rule_category decide sort_risks insert_risk apply
    ingest_skill finish find_by_slug find_by_id find_version update_skill toggle_skill
    vetting_refusal
live_found = refl

shown : current_version live_skill ≡ some first_version
unfolding evaluation evaluate_policy scan_source raw_risks risks_at risk_at with_defaults sort_into
    place is_suppressed meets_threshold get_rule_category decide sort_risks insert_risk find_version
shown = refl

live_present :
    (v : Version) (source : String)
    → current_version live_skill ≡ some v
    → v.config_source ≡ some source
    → is_present source ≡ true
live_present v source current stored =
    let same : first_version ≡ v = some_inj _ _ (sym shown ∙ current) in
    let read : "read()" ≡ source = some_inj _ _ (ap (λ x. x.config_source) same ∙ stored) in
    subst (λ x. is_present x ≡ true) read refl

Reachable-IsValid_example : IsValid plain_hash live
Reachable-IsValid_example = Reachable-IsValid plain_hash eval_only live live-Reachable

can_execute-enabled_example :
    (can_execute plain_hash "pdf"
      (record { source = none; require_source_hash = true })
      live).0.approved
    ≡ true
can_execute-enabled_example =
    can_execute-enabled plain_hash eval_only live live-Reachable "pdf" live_skill live_found true
      live_present

can_execute-integrity_example :
    (v : Version) × (t : Vetting) × (source : String) × (current_version live_skill ≡ some v)
    × (latest_vetting v ≡ some t)
    × ((t.result ≡ passed) ⊎ (t.result ≡ warning))
    × (v.config_source ≡ some source)
    × (t.code_hash ≡ source)
    × ((given : String)
        → must_verify live_skill (record { source = none; require_source_hash = true }) ≡ true
        → none ≡ some given
        → given ≡ source)
can_execute-integrity_example =
    can_execute-integrity plain_hash eval_only live live-Reachable "pdf" live_skill live_found
      (record { source = none; require_source_hash = true }) can_execute-enabled_example

ingest_skill-failed_keeps_example :
    (after : Skill) × (find_by_slug "pdf"
        (ingest_skill plain_hash eval_only (upload "2" "eval(x)") "eve" live).1
      ≡ some after)
    × (after.enabled ≡ true)
    × (current_version live_skill ≢ none → current_version after ≡ current_version live_skill)
ingest_skill-failed_keeps_example =
    ingest_skill-failed_keeps plain_hash eval_only live live-Reachable "pdf" live_skill live_found
      (upload "2" "eval(x)") "eve" refl decided

can_execute-approved_iff_example :
    ((can_execute plain_hash "pdf"
        (record { source = none; require_source_hash = true })
        live).0.approved
      ≡ true)
    ↔ ((skill : Skill) × (version : Version) × (find_by_slug "pdf" live ≡ some skill)
        × IsCleared plain_hash
            (record { source = none; require_source_hash = true })
            live
            skill
            version)
can_execute-approved_iff_example =
    can_execute-approved_iff plain_hash (record { source = none; require_source_hash = true }) live
      "pdf"
