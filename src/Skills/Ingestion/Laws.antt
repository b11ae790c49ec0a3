-- ===== src/Skills/Ingestion/Laws.antt =====
-- The three ways an ingestion ends.
use psychic_octo_invention.Prelude.{
  Bool-cases, inl, inr, ℕ, ◌+◌, ◌≡◌, ◌≢◌, refl, String, none, some, List, ◌∷◌, arith, Text, find,
  ◌==◌, eq_iff, ap,
}
use psychic_octo_invention.Errors.{err, AppError}
use psychic_octo_invention.Security.Types.{Regex}
use psychic_octo_invention.Skills.Types.{Skill, Version, Store, IngestInput, AuditEntry}
use psychic_octo_invention.Skills.Store.{find_by_slug, update_skill}
use psychic_octo_invention.Skills.Ingestion.{
  ingest_skill, finish, with_version, new_skill, new_version, vetting_result, ingest_action,
  version_conflict,
}

module _ (compute_code_hash : String → String) (exec_all : Regex → Text → List ℕ)
    (input : IngestInput) (actor : String) (store : Store) where
  abbrev outcome : Store
  outcome = (ingest_skill compute_code_hash exec_all input actor store).1

  abbrev ingested : ℕ → AuditEntry
  ingested id = record {
    actor_id = some actor;
    action = ingest_action (vetting_result compute_code_hash exec_all input);
    target_id = id;
    detail = compute_code_hash input.source;
  }

  pub ingest_skill-creates :
      find_by_slug input.slug store ≡ none
      → outcome ≡ record {
        skills =
            new_skill input store.next_id
              (new_version compute_code_hash exec_all input (store.next_id + 1))
              (vetting_result compute_code_hash exec_all input)
            ∷ store.skills;
        audits = ingested store.next_id ∷ store.audits;
        next_id = store.next_id + 2;
      }
  unfolding ingest_skill finish
  ingest_skill-creates absent = ground arith

  pub ingest_skill-extends :
      (skill : Skill)
      → find_by_slug input.slug store ≡ some skill
      → find (λ v. v.version == input.version) skill.versions ≡ none
      → outcome ≡ record {
        skills =
            update_skill skill.id
              (with_version input
                (new_version compute_code_hash exec_all input store.next_id)
                (vetting_result compute_code_hash exec_all input))
              store.skills;
        audits = ingested skill.id ∷ store.audits;
        next_id = store.next_id + 1;
      }
  unfolding ingest_skill finish
  ingest_skill-extends skill found unused = ground arith

  refusal-eq :
      (skill : Skill) (existing : Version)
      → find_by_slug input.slug store ≡ some skill
      → find (λ v. v.version == input.version) skill.versions ≡ some existing
      → ingest_skill compute_code_hash exec_all input actor store ≡ (
        err (version_conflict (existing.code_hash == compute_code_hash input.source) input.version),
        store,
      )
  unfolding ingest_skill
  refusal-eq skill existing found taken = ground arith

  -- A version that a skill already has is refused with a conflict, which tells equal from changed
  -- content by the hash, and nothing is stored or logged.
  pub ingest_skill-refuses :
      (skill : Skill) (existing : Version)
      → find_by_slug input.slug store ≡ some skill
      → find (λ v. v.version == input.version) skill.versions ≡ some existing
      → (outcome ≡ store)
        × (e : AppError) × ((ingest_skill compute_code_hash exec_all input actor store).0 ≡ err e)
        × (e.status_code ≡ 409)
        × (existing.code_hash ≡ compute_code_hash input.source → e.code ≡ "VERSION_EXISTS")
        × (existing.code_hash ≢ compute_code_hash input.source → e.code ≡ "VERSION_HASH_MISMATCH")
  unfolding version_conflict
  ingest_skill-refuses skill existing found taken =
      let eq = refusal-eq skill existing found taken in
      let same = eq_iff existing.code_hash (compute_code_hash input.source) in
      (
        ap (λ r. r.1) eq,
        version_conflict (existing.code_hash == compute_code_hash input.source) input.version,
        ap (λ r. r.0) eq,
        ground arith,
        (λ e. rw (same.1 e) refl),
        (λ ne. elim (Bool-cases (existing.code_hash == compute_code_hash input.source)) [
          | inl e ↦ absurd (ne (same.0 e))
          | inr e ↦ rw e refl
        ]),
      )
