-- ===== src/Skills/Guard/Laws.antt =====
-- What an answer of the execution guard means.
use psychic_octo_invention.Prelude.{
  ◌≡◌, ◌↔◌, ◌⊎◌, inl, inr, refl, sym, ap, ◌∙◌, String, Bool, true, false, Option, none, some, ◌∷◌,
  arith, Option-cases, Bool-cases, eq_iff,
}
use psychic_octo_invention.Skills.Types.{
  VettingResult, passed, failed, warning, pending, Vetting, Version, Skill, Store, AuditEntry,
  latest_vetting,
}
use psychic_octo_invention.Skills.Store.{find_by_slug, current_version}
use psychic_octo_invention.Skills.Validity.Rows.{IsApproved}
use psychic_octo_invention.Skills.Guard.{
  check_version, check_skill, must_verify, checked_source, verify_source, GuardOptions, GuardResult,
  is_present, block, allow, check_source, check_vetting, can_execute, verify_code_hash,
}

not_both : {b : Bool} → b ≡ false → b ≡ true → ⊥
not_both e f = cc

-- A vetting allows an execution or stands against it.
result_cases : (r : VettingResult) → ((r ≡ passed) ⊎ (r ≡ warning)) ⊎ ((r ≡ failed) ⊎ (r ≡ pending))
result_cases passed = inl (inl refl)
result_cases warning = inl (inr refl)
result_cases failed = inr (inl refl)
result_cases pending = inr (inr refl)

module _ (compute_code_hash : String → String) (options : GuardOptions) (store : Store) where
  -- The answers that a check of one skill can give: an approval that leaves the store alone, or a
  -- block with one new audit entry.
  abbrev pub Answers : Skill → GuardResult × Store → Type 0
  Answers skill (r, after) =
      ((r.approved ≡ true) × (after ≡ store))
      ⊎ ((r.approved ≡ false)
          × (e : AuditEntry) × (after ≡ record store { audits = e ∷ store.audits })
          × (e.action ≡ "skill.execution_blocked")
          × (e.target_id ≡ skill.id))

  block-Answers :
      (skill : Skill) (audit_reason reason : String)
      → Answers skill (block skill audit_reason reason store)
  unfolding block
  block-Answers skill audit_reason reason = inr (refl, _, refl, refl, refl)

  allow-Answers : (skill : Skill) → Answers skill (allow compute_code_hash skill store)
  unfolding allow
  allow-Answers skill = inl (refl, refl)

  verify_source-Answers :
      (skill : Skill) (version : Version) (source : Option String)
      → Answers skill (verify_source compute_code_hash skill version source store)
  unfolding verify_source
  verify_source-Answers skill version none = block-Answers skill _ _
  verify_source-Answers skill version (some source) = elim (Bool-cases (is_present source)) [
    | inr blank ↦ rw blank (block-Answers skill _ _)
    | inl present ↦
        elim (Bool-cases (verify_code_hash compute_code_hash source version.code_hash)) [
          | inl same ↦ rw (present, same) (allow-Answers skill)
          | inr other ↦ rw (present, other) (block-Answers skill _ _)
        ]
  ]

  check_source-Answers :
      (skill : Skill) (version : Version)
      → Answers skill (check_source compute_code_hash skill version options store)
  unfolding check_source
  check_source-Answers skill version = elim (Bool-cases (must_verify skill options)) [
    | inl must ↦ rw must (verify_source-Answers skill version (checked_source version options))
    | inr free ↦ rw free (allow-Answers skill)
  ]

  check_vetting-Answers :
      (skill : Skill) (version : Version) (vetting : Option Vetting)
      → Answers skill (check_vetting compute_code_hash skill version vetting options store)
  unfolding check_vetting
  check_vetting-Answers skill version none = block-Answers skill _ _
  check_vetting-Answers skill version (some t) =
      elim t.result
        as (λ r. Answers skill (
          check_vetting compute_code_hash skill version (some (record t { result = r })) options
            store)) [
              | failed ↦ block-Answers skill _ _
              | pending ↦ block-Answers skill _ _
              | passed ↦ check_source-Answers skill version
              | warning ↦ check_source-Answers skill version
            ]

  check_version-Answers :
      (skill : Skill) (version : Option Version)
      → Answers skill (check_version compute_code_hash skill version options store)
  unfolding check_version
  check_version-Answers skill none = block-Answers skill _ _
  check_version-Answers skill (some version) = check_vetting-Answers skill version _

  check_skill-Answers :
      (skill : Skill) → Answers skill (check_skill compute_code_hash skill options store)
  unfolding check_skill
  check_skill-Answers skill = elim (Bool-cases skill.enabled) [
    | inl on ↦ simp on (check_version-Answers skill (current_version skill))
    | inr off ↦ simp off (block-Answers skill _ _)
  ]

  can_execute-found :
      (slug : String) (skill : Skill)
      → find_by_slug slug store ≡ some skill
      → can_execute compute_code_hash slug options store
        ≡ check_skill compute_code_hash skill options store
  unfolding can_execute
  can_execute-found slug skill found = ground arith

  can_execute-absent :
      (slug : String)
      → find_by_slug slug store ≡ none
      → ((can_execute compute_code_hash slug options store).0.approved ≡ false)
        × ((can_execute compute_code_hash slug options store).1 ≡ store)
  unfolding can_execute
  can_execute-absent slug absent = ground arith

  -- The guard answers for the skill of the slug: it approves and leaves the store alone, or blocks with
  -- exactly one new entry of the audit log for that skill. An unknown slug is refused with no trace.
  pub can_execute-Answers :
      (slug : String)
      → ((find_by_slug slug store ≡ none)
          × ((can_execute compute_code_hash slug options store).0.approved ≡ false)
          × ((can_execute compute_code_hash slug options store).1 ≡ store))
        ⊎ ((skill : Skill) × (find_by_slug slug store ≡ some skill)
            × Answers skill (can_execute compute_code_hash slug options store))
  can_execute-Answers slug = elim (Option-cases (find_by_slug slug store)) [
    | inl absent ↦
        let (refused, same) = can_execute-absent slug absent in inl (absent, refused, same)
    | inr (skill, found) ↦
        inr (skill, found, rw (can_execute-found slug skill found) (check_skill-Answers skill))
  ]

  -- No answer of the guard changes the tables.
  pub can_execute-tables :
      (slug : String)
      → ((can_execute compute_code_hash slug options store).1.skills ≡ store.skills)
        × ((can_execute compute_code_hash slug options store).1.next_id ≡ store.next_id)
  can_execute-tables slug = elim (can_execute-Answers slug) [
    | inl (absent, refused, same) ↦ (ap (λ s. s.skills) same, ap (λ s. s.next_id) same)
    | inr (skill, found, inl (ok, same)) ↦ (ap (λ s. s.skills) same, ap (λ s. s.next_id) same)
    | inr (skill, found, inr (refused, e, same, action, target)) ↦
        (ap (λ s. s.skills) same, ap (λ s. s.next_id) same)
  ]

  -- What an approval checks.
  pub record IsCleared (skill : Skill) (version : Version) : Type 0 where
    pub enabled : skill.enabled ≡ true
    pub current : current_version skill ≡ some version
    pub vetted : IsApproved version
    pub verified :
        must_verify skill options ≡ true
        → (source : String) × (checked_source version options ≡ some source)
          × (is_present source ≡ true)
          × (compute_code_hash source ≡ version.code_hash)

  abbrev IsVerified : Skill → Version → Type 0
  IsVerified skill version =
      must_verify skill options ≡ true
      → (source : String) × (checked_source version options ≡ some source)
        × (is_present source ≡ true)
        × (compute_code_hash source ≡ version.code_hash)

  verify_source-approved :
      (skill : Skill) (version : Version) (o : Option String)
      → (verify_source compute_code_hash skill version o store).0.approved ≡ true
      → (source : String) × (o ≡ some source)
        × (is_present source ≡ true)
        × (compute_code_hash source ≡ version.code_hash)
  unfolding verify_source block
  verify_source-approved skill version none h = cc
  verify_source-approved skill version (some source) h = (
    source,
    refl,
    ground arith,
    ground (arith, eq_iff (compute_code_hash source) version.code_hash),
  )

  check_source-approved :
      (skill : Skill) (version : Version)
      → (check_source compute_code_hash skill version options store).0.approved ≡ true
      → IsVerified skill version
  unfolding check_source
  check_source-approved skill version h must =
      verify_source-approved skill version (checked_source version options) (ground arith)

  check_source-accepts :
      (skill : Skill) (version : Version)
      → IsVerified skill version
      → (check_source compute_code_hash skill version options store).0.approved ≡ true
  unfolding check_source verify_source allow
  check_source-accepts skill version h = elim (Bool-cases (must_verify skill options)) [
    | inr free ↦ rw free refl
    | inl must ↦
        let (source, given, present, same) = h must in
        let ok : verify_code_hash compute_code_hash source version.code_hash ≡ true =
          (eq_iff (compute_code_hash source) version.code_hash).1 same in
        rw (must, given, present, ok) refl
  ]

  check_vetting-approved :
      (skill : Skill) (version : Version) (o : Option Vetting)
      → latest_vetting version ≡ o
      → (check_vetting compute_code_hash skill version o options store).0.approved ≡ true
      → IsApproved version × IsVerified skill version
  unfolding check_vetting block
  check_vetting-approved skill version none e h = cc
  check_vetting-approved skill version (some t) e h = elim (result_cases t.result) [
    | inl (inl r) ↦ (inl (t, e, r), check_source-approved skill version (ground arith))
    | inl (inr r) ↦ (inr (t, e, r), check_source-approved skill version (ground arith))
    | inr bad ↦ absurd (ground arith)
  ]

  check_skill-approved :
      (skill : Skill)
      → (check_skill compute_code_hash skill options store).0.approved ≡ true
      → (version : Version) × IsCleared skill version
  unfolding check_skill check_version block
  check_skill-approved skill h = elim (Bool-cases skill.enabled) [
    | inr off ↦ absurd (ground arith)
    | inl on ↦ elim (Option-cases (current_version skill)) [
      | inl absent ↦ absurd (ground arith)
      | inr (version, current) ↦
          let (vetted, verified) =
            check_vetting-approved skill version (latest_vetting version) refl (ground arith) in
          (
            version,
            record { enabled = on; current = current; vetted = vetted; verified = verified },
          )
    ]
  ]

  check_vetting-accepts :
      (skill : Skill) (version : Version)
      → IsApproved version
      → IsVerified skill version
      → (check_vetting compute_code_hash skill version
          (latest_vetting version)
          options
          store).0.approved
        ≡ true
  unfolding check_vetting
  check_vetting-accepts skill version (inl (t, e, r)) h =
      let ok = check_source-accepts skill version h in ground arith
  check_vetting-accepts skill version (inr (t, e, r)) h =
      let ok = check_source-accepts skill version h in ground arith

  check_skill-accepts :
      (skill : Skill) (version : Version)
      → IsCleared skill version
      → (check_skill compute_code_hash skill options store).0.approved ≡ true
  unfolding check_skill check_version
  check_skill-accepts skill version c =
      let ok = check_vetting-accepts skill version c.vetted c.verified in
      let on = c.enabled in let current = c.current in ground arith

  -- A skill may execute exactly if it is enabled, its current version's latest vetting passed or gave a
  -- warning, and, unless it is built in and no check was asked for, the source at hand is not blank and
  -- has the hash of the version.
  pub can_execute-approved_iff :
      (slug : String)
      → ((can_execute compute_code_hash slug options store).0.approved ≡ true) ↔ (
          (skill : Skill) × (version : Version) × (find_by_slug slug store ≡ some skill)
          × IsCleared skill version)
  can_execute-approved_iff slug = (
    (λ h. elim (Option-cases (find_by_slug slug store)) [
      | inl absent ↦ absurd (not_both (can_execute-absent slug absent).0 h)
      | inr (skill, found) ↦
          let (version, c) =
            check_skill-approved skill
              (sym (ap (λ r. r.0.approved) (can_execute-found slug skill found)) ∙ h) in
          (skill, version, found, c)
    ]),
    (λ (skill, version, found, c).
        ap (λ r. r.0.approved) (can_execute-found slug skill found)
        ∙ check_skill-accepts skill version c),
  )
