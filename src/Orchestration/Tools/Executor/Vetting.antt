-- ===== src/Orchestration/Tools/Executor/Vetting.antt =====
-- The sources that the executor may run.
use psychic_octo_invention.Prelude.{
  ◌≡◌, refl, sym, ap, ◌∙◌, String, true, some, some_inj, find, ◌==◌,
}
use psychic_octo_invention.Skills.Types.{Skill, Version, Store}
use psychic_octo_invention.Skills.Store.{find_by_slug, current_version}
use psychic_octo_invention.Skills.Guard.{can_execute, GuardOptions}
use psychic_octo_invention.Skills.Guard.Laws.{can_execute-approved_iff}
use psychic_octo_invention.Skills.Validity.Rows.{IsApproved}

pub find_by_slug-skills :
    (slug : String) (s t : Store) → s.skills ≡ t.skills → find_by_slug slug s ≡ find_by_slug slug t
unfolding find_by_slug
find_by_slug-skills slug s t e = ap (λ xs. find (λ x. x.slug == slug) xs) e

abbrev pub given : String → GuardOptions
given source = record { source = some source; require_source_hash = true }

module _ (compute_code_hash : String → String) where
  -- The source is that of the current version of an enabled skill, which passed its vetting.
  pub record IsVettedSource (store : Store) (slug source : String) : Type 0 where
    pub skill : Skill
    pub version : Version
    pub found : find_by_slug slug store ≡ some skill
    pub enabled : skill.enabled ≡ true
    pub current : current_version skill ≡ some version
    pub approved : IsApproved version
    pub hashed : compute_code_hash source ≡ version.code_hash

  -- The guard approves a given source only if it is the vetted one.
  pub can_execute-vetted :
      (store : Store) (slug source : String)
      → (can_execute compute_code_hash slug (given source) store).0.approved ≡ true
      → IsVettedSource store slug source
  can_execute-vetted store slug source h =
      let (skill, version, found, c) =
        (can_execute-approved_iff compute_code_hash (given source) store slug).0 h in
      let (s, e, _, hashed) = c.verified refl in
      record {
        skill = skill;
        version = version;
        found = found;
        enabled = c.enabled;
        current = c.current;
        approved = c.vetted;
        hashed = ap compute_code_hash (some_inj _ _ e) ∙ hashed;
      }

  -- The tables change only in their audit entries, which the condition does not read.
  pub vetted_in :
      (s t : Store) (slug source : String)
      → s.skills ≡ t.skills
      → IsVettedSource s slug source
      → IsVettedSource t slug source
  vetted_in s t slug source e v = record {
    skill = v.skill;
    version = v.version;
    found = sym (find_by_slug-skills slug s t e) ∙ v.found;
    enabled = v.enabled;
    current = v.current;
    approved = v.approved;
    hashed = v.hashed;
  }
