-- ===== src/Skills/Validity/Operations.antt =====
-- Every operation of the services keeps the store valid.
use psychic_octo_invention.Prelude.{
  ℕ, ◌≤◌, ◌+◌, ◌≡◌, ◌≢◌, refl, sym, subst, ◌∙◌, String, Bool, true, none, some, List, [], ◌∷◌,
  arith, All, In, find, find-satisfies, eqb, Option-cases, ◌==◌, inl, inr,
}
use psychic_octo_invention.Security.Types.{Regex}
use psychic_octo_invention.Prelude.{Text}
use psychic_octo_invention.Skills.Types.{Skill, Store, IngestInput, AuditEntry}
use psychic_octo_invention.Skills.Store.{find_by_id, find_by_slug, update_skill, display_version}
use psychic_octo_invention.Skills.Ingestion.{
  ingest_skill, with_version, new_version, vetting_result,
}
use psychic_octo_invention.Skills.Ingestion.Laws.{
  ingest_skill-creates, ingest_skill-extends, ingest_skill-refuses,
}
use psychic_octo_invention.Skills.Management.Laws.{toggle_skill-cases, manual_override-cases}
use psychic_octo_invention.Skills.Management.{
  toggle_skill, set_enabled, manual_override, overridden, OverrideResult, vetting_refusal,
  version_vetting,
}
use psychic_octo_invention.Skills.Guard.{can_execute, GuardOptions}
use psychic_octo_invention.Skills.Guard.Laws.{can_execute-tables}
use psychic_octo_invention.Skills.Validity.Rows.{
  IsValidSkill, IsValid, AreDistinct-eq, AreDistinct-update_skill, All-update_skill,
}
use psychic_octo_invention.Skills.Validity.Steps.{
  IsValidSkill-weaken, with_version-IsValidSkill, new_skill-IsValidSkill, set_enabled-IsValidSkill,
  overridden-IsValidSkill,
}

module _ (compute_code_hash : String → String) where
  find_by_id-In :
      (id : ℕ) (store : Store) (s : Skill)
      → find_by_id id store ≡ some s
      → In s store.skills × (s.id ≡ id)
  unfolding find_by_id
  find_by_id-In id store s e =
      let (m, p) = find-satisfies (λ x. eqb x.id id) store.skills e in (m, ground arith)

  -- A change of one row by a function that keeps its id and its validity.
  update-IsValid :
      (id : ℕ) (f : Skill → Skill) (n : ℕ) (store : Store)
      → store.next_id ≤ n
      → ((s : Skill) → (f s).id ≡ s.id)
      → ((s : Skill)
          → In s store.skills
          → s.id ≡ id
          → IsValidSkill compute_code_hash store.next_id s
          → IsValidSkill compute_code_hash n (f s))
      → IsValid compute_code_hash store
      → (audits : List AuditEntry)
      → IsValid compute_code_hash
          (record { skills = update_skill id f store.skills; audits = audits; next_id = n })
  update-IsValid id f n store le same step h audits = record {
    skills =
        All-update_skill (IsValidSkill compute_code_hash store.next_id)
          (IsValidSkill compute_code_hash n) id f store.skills
          (λ s v. IsValidSkill-weaken compute_code_hash store.next_id n s le v) step h.skills;
    distinct = AreDistinct-update_skill id f store.skills same h.distinct;
  }

  weaken-All :
      (n m : ℕ) (ss : List Skill)
      → n ≤ m
      → All (IsValidSkill compute_code_hash n) ss
      → All (IsValidSkill compute_code_hash m) ss
  weaken-All n m [] le h = tt
  weaken-All n m (s ∷ ss) le h =
      (IsValidSkill-weaken compute_code_hash n m s le h.0, weaken-All n m ss le h.1)

  fresh-All :
      (n : ℕ) (ss : List Skill) → All (IsValidSkill compute_code_hash n) ss → All (λ t. t.id ≢ n) ss
  fresh-All n [] h = tt
  fresh-All n (s ∷ ss) h = ((let p = h.0.id_lt in omega arith), fresh-All n ss h.1)

  module _ (exec_all : Regex → Text → List ℕ) where
    -- An ingestion keeps the store valid, whether it creates, extends or refuses.
    pub ingest_skill-IsValid :
        (input : IngestInput) (actor : String) (store : Store)
        → IsValid compute_code_hash store
        → IsValid compute_code_hash (ingest_skill compute_code_hash exec_all input actor store).1
    ingest_skill-IsValid input actor store h = elim (Option-cases (find_by_slug input.slug store)) [
      | inl absent ↦
          subst (IsValid compute_code_hash)
            (sym (ingest_skill-creates compute_code_hash exec_all input actor store absent))
            (record {
              skills = (
                new_skill-IsValidSkill compute_code_hash exec_all input store.next_id,
                weaken-All store.next_id (store.next_id + 2) store.skills (omega arith) h.skills,
              );
              distinct = (fresh-All store.next_id store.skills h.skills, h.distinct);
            })
      | inr (skill, found) ↦
          elim (Option-cases (find (λ v. v.version == input.version) skill.versions)) [
            | inl unused ↦
                subst (IsValid compute_code_hash)
                  (sym (
                    ingest_skill-extends compute_code_hash exec_all input actor store skill found
                      unused))
                  (update-IsValid skill.id
                    (with_version input (new_version compute_code_hash exec_all input store.next_id)
                      (vetting_result compute_code_hash exec_all input))
                    (store.next_id + 1) store (omega arith) (λ s. refl)
                    (λ s m e v.
                      with_version-IsValidSkill compute_code_hash exec_all input store.next_id s v)
                    h _)
            | inr (existing, taken) ↦
                subst (IsValid compute_code_hash)
                  (let r =
                      ingest_skill-refuses compute_code_hash exec_all input actor store skill
                        existing found taken in
                    sym r.0)
                  h
          ]
    ]

  module _ (store : Store) (h : IsValid compute_code_hash store) where
    -- The row of an id is the one that a query of the id returned.
    same-row :
        (id : ℕ) (skill s : Skill)
        → find_by_id id store ≡ some skill
        → In s store.skills
        → s.id ≡ id
        → s ≡ skill
    same-row id skill s found m e =
        let (k, q) = find_by_id-In id store skill found in
        AreDistinct-eq s skill store.skills h.distinct m k (e ∙ sym q)

    pub toggle_skill-IsValid :
        (id : ℕ) (enabled : Bool) (actor : String)
        → IsValid compute_code_hash (toggle_skill id enabled actor store).1
    toggle_skill-IsValid id enabled actor = elim (toggle_skill-cases id enabled actor store) [
      | inl kept ↦ subst (IsValid compute_code_hash) (sym kept) h
      | inr (skill, audits, found, accepted, changed) ↦
          subst (IsValid compute_code_hash) (sym changed) (
            update-IsValid id (set_enabled enabled) store.next_id store (omega arith) (λ s. refl)
              (λ s m e v. set_enabled-IsValidSkill compute_code_hash store.next_id s v enabled (
                subst
                  (λ t.
                    enabled ≡ true → vetting_refusal (version_vetting (display_version t)) ≡ none)
                  (sym (same-row id skill s found m e)) accepted))
              h audits)
    ]

    pub manual_override-IsValid :
        (id : ℕ) (result : OverrideResult) (reason actor : String)
        → IsValid compute_code_hash (manual_override id result reason actor store).1
    manual_override-IsValid id result reason actor =
        elim (manual_override-cases id result reason actor store) [
          | inl kept ↦ subst (IsValid compute_code_hash) (sym kept) h
          | inr (skill, target, audits, found, shown, changed) ↦
              subst (IsValid compute_code_hash) (sym changed) (
                update-IsValid id (overridden result reason target) store.next_id store
                  (omega arith) (λ s. refl)
                  (λ s m e v.
                    overridden-IsValidSkill compute_code_hash store.next_id s v result reason target
                      (subst (λ t. display_version t ≡ some target)
                        (sym (same-row id skill s found m e)) shown))
                  h audits)
        ]

    pub can_execute-IsValid :
        (slug : String) (options : GuardOptions)
        → IsValid compute_code_hash (can_execute compute_code_hash slug options store).1
    can_execute-IsValid slug options =
        let (skills, next_id) = can_execute-tables compute_code_hash options store slug in
        record { skills = rw (skills, next_id) h.skills; distinct = rw skills h.distinct }
