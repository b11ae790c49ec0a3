-- ===== src/Skills/Runs/Laws.antt =====
-- What holds after any sequence of requests.
use psychic_octo_invention.Prelude.{
  ℕ, ◌≡◌, ◌≢◌, refl, sym, ap, subst, ◌∙◌, ◌⊎◌, inl, inr, String, Bool, true, Option, none, some,
  some_inj, head?, List, [], ◌∷◌, arith, All, All-In, find, find-satisfies, eqb, ◌==◌, Text,
  Option-cases, Bool-cases,
}
use psychic_octo_invention.Security.Types.{Regex}
use psychic_octo_invention.Skills.Types.{
  Skill, Version, Vetting, failed, passed, warning, Store, IngestInput, latest_vetting,
}
use psychic_octo_invention.Skills.Store.{find_by_slug, find_version, current_version, update_skill}
use psychic_octo_invention.Skills.Ingestion.{
  next_current, ingest_skill, vetting_result, new_version, with_version,
}
use psychic_octo_invention.Skills.Ingestion.Laws.{ingest_skill-extends, ingest_skill-refuses}
use psychic_octo_invention.Skills.Guard.{
  can_execute, GuardOptions, is_present, must_verify, checked_source, extract_source,
}
use psychic_octo_invention.Skills.Guard.Laws.{can_execute-approved_iff, IsCleared}
use psychic_octo_invention.Skills.Validity.Rows.{
  IsValid, IsValidSkill, IsIntact, IsPointed, IsApproved,
}
use psychic_octo_invention.Skills.Validity.Steps.{find_version-fresh, find_version-id}
use psychic_octo_invention.Skills.Validity.Operations.{
  ingest_skill-IsValid, toggle_skill-IsValid, manual_override-IsValid, can_execute-IsValid,
}
use psychic_octo_invention.Skills.Runs.{
  Operation, ingest, toggle, override, check, apply, Reachable, start, step,
}

module _ (compute_code_hash : String → String) (exec_all : Regex → Text → List ℕ) where
  apply-IsValid :
      (op : Operation) (store : Store)
      → IsValid compute_code_hash store
      → IsValid compute_code_hash (apply compute_code_hash exec_all op store)
  unfolding apply
  apply-IsValid (ingest input actor) store h =
      ingest_skill-IsValid compute_code_hash exec_all input actor store h
  apply-IsValid (toggle id enabled actor) store h =
      toggle_skill-IsValid compute_code_hash store h id enabled actor
  apply-IsValid (override id result reason actor) store h =
      manual_override-IsValid compute_code_hash store h id result reason actor
  apply-IsValid (check slug options) store h =
      can_execute-IsValid compute_code_hash store h slug options

  -- After any sequence of ingestions, toggles, overrides and execution checks, ids are fresh and
  -- distinct, every version has the hash of its stored source and every vetting of it is of that hash,
  -- and a skill without an approved current version is off.
  pub Reachable-IsValid :
      (store : Store) → Reachable compute_code_hash exec_all store → IsValid compute_code_hash store
  Reachable-IsValid store (start _ e) =
      subst (IsValid compute_code_hash) (sym e) (record { skills = tt; distinct = tt })
  Reachable-IsValid store (step op before _ r e) =
      subst (IsValid compute_code_hash) (sym e)
        (apply-IsValid op before (Reachable-IsValid before r))

-- A change of the row of a slug is found by the slug.
find-update_skill :
    (slug : String) (f : Skill → Skill) (ss : List Skill) (skill : Skill)
    → ((s : Skill) → (f s).slug ≡ s.slug)
    → find (λ s. s.slug == slug) ss ≡ some skill
    → find (λ s. s.slug == slug) (update_skill skill.id f ss) ≡ some (f skill)
unfolding update_skill
find-update_skill slug f [] skill same e = cc
find-update_skill slug f (x ∷ xs) skill same e = elim (Bool-cases (x.slug == slug)) [
  | inl here ↦
      let q : x ≡ skill = ground arith in
      let k : eqb x.id skill.id ≡ true = ground arith in simp (k, same x, here) (ap some (ap f q))
  | inr there ↦
      let rest = find-update_skill slug f xs skill same (ground arith) in
      elim (Bool-cases (eqb x.id skill.id)) [
        | inl k ↦ simp (k, same x, there) rest
        | inr k ↦ simp (k, there) rest
      ]
]

latest-All :
    (P : Vetting → Type 0) (ts : List Vetting) (t : Vetting) → head? ts ≡ some t → All P ts → P t
latest-All P [] t e h = cc
latest-All P (x ∷ xs) t e h = subst P (some_inj _ _ e) h.0

current-found :
    (skill : Skill) (id : ℕ) (v : Version)
    → skill.current_version_id ≡ some id
    → find_version id skill.versions ≡ some v
    → current_version skill ≡ some v
current-found skill id v e found = ground arith

module _ (compute_code_hash : String → String) (n : ℕ) (skill : Skill)
    (h : IsValidSkill compute_code_hash n skill) where
  -- An enabled valid skill has an approved current version.
  pointed-cases :
      (o : Option ℕ) (enabled : Bool)
      → IsPointed o enabled skill.versions
      → enabled ≡ true
      → (id : ℕ) × (v : Version) × (o ≡ some id)
        × (find_version id skill.versions ≡ some v)
        × IsApproved v
  pointed-cases none enabled p on = cc
  pointed-cases (some id) enabled (v, found, ok) on = (id, v, refl, found, ok)

  pub enabled-current :
      skill.enabled ≡ true
      → (v : Version) × (current_version skill ≡ some v)
        × IsApproved v
        × IsIntact compute_code_hash v
  enabled-current on =
      let (id, v, e, found, ok) =
        pointed-cases skill.current_version_id skill.enabled h.pointed on in
      let (m, q) = find_version-id id skill.versions found in
      (
        v,
        current-found skill id v e found,
        ok,
        All-In (IsIntact compute_code_hash) v skill.versions h.intact m,
      )

module _ (compute_code_hash : String → String) (exec_all : Regex → Text → List ℕ) (store : Store)
    (reached : Reachable compute_code_hash exec_all store) (slug : String) (skill : Skill)
    (found : find_by_slug slug store ≡ some skill) where
  pub valid-skill : IsValidSkill compute_code_hash store.next_id skill
  unfolding find_by_slug
  valid-skill =
      let (m, q) = find-satisfies (λ s. s.slug == slug) store.skills found in
      All-In (IsValidSkill compute_code_hash store.next_id) skill store.skills
        (Reachable-IsValid compute_code_hash exec_all store reached).skills m

  approved-vetting :
      (v : Version)
      → IsApproved v
      → (t : Vetting) × (latest_vetting v ≡ some t) × ((t.result ≡ passed) ⊎ (t.result ≡ warning))
  approved-vetting v (inl (t, e, r)) = (t, e, inl r)
  approved-vetting v (inr (t, e, r)) = (t, e, inr r)

  abbrev stored_options : Bool → GuardOptions
  stored_options require_source_hash = record {
    source = none;
    require_source_hash = require_source_hash;
  }

  stored-checked :
      (v : Version) (source : String) (require_source_hash : Bool)
      → v.config_source ≡ some source
      → is_present source ≡ true
      → checked_source v (stored_options require_source_hash) ≡ some source
  unfolding extract_source
  stored-checked v source require_source_hash e p = rw (e, p) refl

  -- Called with no source, the guard approves a skill of a reachable store exactly if it is enabled,
  -- given that the stored source of its current version is not blank.
  pub can_execute-enabled :
      (require_source_hash : Bool)
      → ((v : Version) (source : String)
          → current_version skill ≡ some v
          → v.config_source ≡ some source
          → is_present source ≡ true)
      → (can_execute compute_code_hash slug (stored_options require_source_hash) store).0.approved
        ≡ skill.enabled
  can_execute-enabled require_source_hash present =
      let iff =
        can_execute-approved_iff compute_code_hash (stored_options require_source_hash) store
          slug in
      elim (Bool-cases skill.enabled) [
        | inl on ↦
            let (v, current, ok, i) =
              enabled-current compute_code_hash store.next_id skill valid-skill on in
            let p = present v i.source current i.stored in
            iff.1 (
              skill,
              v,
              found,
              record {
                enabled = on;
                current = current;
                vetted = ok;
                verified = λ must. (
                  i.source,
                  stored-checked v i.source require_source_hash i.stored p,
                  p,
                  sym i.hashed,
                );
              },
            )
            ∙ sym on
        | inr off ↦
            elim (Bool-cases
              (can_execute compute_code_hash slug (stored_options require_source_hash)
                store).0.approved) [
                  | inr refused ↦ refused ∙ sym off
                  | inl approved ↦
                      let (s, v, f, c) = iff.0 approved in
                      let same : s ≡ skill = some_inj _ _ (sym f ∙ found) in
                      let on = c.enabled in cc
                ]
      ]

  given-checked :
      (options : GuardOptions) (v : Version) (given : String)
      → options.source ≡ some given
      → checked_source v options ≡ some given
  given-checked options v given e = rw e refl

  cleared-integrity :
      (options : GuardOptions) (v : Version)
      → IsCleared compute_code_hash options store skill v
      → (w : Version) × (t : Vetting) × (source : String) × (current_version skill ≡ some w)
        × (latest_vetting w ≡ some t)
        × ((t.result ≡ passed) ⊎ (t.result ≡ warning))
        × (w.config_source ≡ some source)
        × (t.code_hash ≡ compute_code_hash source)
        × ((given : String)
            → must_verify skill options ≡ true
            → options.source ≡ some given
            → compute_code_hash given ≡ compute_code_hash source)
  cleared-integrity options v c =
      let (w, current, ok, i) =
        enabled-current compute_code_hash store.next_id skill valid-skill c.enabled in
      let same : v ≡ w = some_inj _ _ (sym c.current ∙ current) in
      let (t, latest, result) = approved-vetting w ok in
      (
        w,
        t,
        i.source,
        current,
        latest,
        result,
        i.stored,
        latest-All (λ x. x.code_hash ≡ w.code_hash) w.vettings t latest i.vetted ∙ i.hashed,
        λ given must e.
            let (source, checked, present, hashed) = c.verified must in
            let q : given ≡ source =
              some_inj _ _ (sym (given-checked options v given e) ∙ checked) in
            ap compute_code_hash q ∙ hashed ∙ ap (λ x. x.code_hash) same ∙ i.hashed,
      )

  -- If the guard approves a skill of a reachable store, then its current version's latest vetting
  -- passed or gave a warning and was of the hash of the stored source, and a source that is given for
  -- a skill that has to be verified has that hash too.
  pub can_execute-integrity :
      (options : GuardOptions)
      → (can_execute compute_code_hash slug options store).0.approved ≡ true
      → (v : Version) × (t : Vetting) × (source : String) × (current_version skill ≡ some v)
        × (latest_vetting v ≡ some t)
        × ((t.result ≡ passed) ⊎ (t.result ≡ warning))
        × (v.config_source ≡ some source)
        × (t.code_hash ≡ compute_code_hash source)
        × ((given : String)
            → must_verify skill options ≡ true
            → options.source ≡ some given
            → compute_code_hash given ≡ compute_code_hash source)
  can_execute-integrity options approved =
      let (s, v, f, c) =
        (can_execute-approved_iff compute_code_hash options store slug).0 approved in
      let same : s ≡ skill = some_inj _ _ (sym f ∙ found) in
      cleared-integrity options v
        (subst (λ x. IsCleared compute_code_hash options store x v) same c)

  kept-current :
      (input : IngestInput) (o : Option ℕ)
      → vetting_result compute_code_hash exec_all input ≡ failed
      → skill.current_version_id ≡ o
      → current_version skill ≢ none
      → current_version (
          with_version input
            (new_version compute_code_hash exec_all input store.next_id)
            (vetting_result compute_code_hash exec_all input)
            skill)
        ≡ current_version skill
  kept-current input none bad e ne = absurd (ne (ground arith))
  kept-current input (some id) bad e ne = elim (Option-cases (find_version id skill.versions)) [
    | inl absent ↦ absurd (ne (ground arith))
    | inr (v, found) ↦
        let fresh =
          find_version-fresh store.next_id id
            (new_version compute_code_hash exec_all input store.next_id) v skill.versions refl
            valid-skill.version_ids found in
        let kept : current_version skill ≡ some v = ground arith in
        let pointer : next_current (vetting_result compute_code_hash exec_all input) store.next_id
              skill.current_version_id
            ≡ some id =
          rw (bad, e) refl in
        current-found
          (with_version input (new_version compute_code_hash exec_all input store.next_id)
            (vetting_result compute_code_hash exec_all input) skill)
          id v pointer fresh
        ∙ sym kept
  ]

  -- An ingestion whose vetting fails leaves a skill that exists with its switch and its current
  -- version: what was approved before stays the version that runs.
  pub ingest_skill-failed_keeps :
      (input : IngestInput) (actor : String)
      → input.slug ≡ slug
      → vetting_result compute_code_hash exec_all input ≡ failed
      → (after : Skill) × (find_by_slug slug
            (ingest_skill compute_code_hash exec_all input actor store).1
          ≡ some after)
        × (after.enabled ≡ skill.enabled)
        × (current_version skill ≢ none → current_version after ≡ current_version skill)
  unfolding find_by_slug
  ingest_skill-failed_keeps input actor e bad =
      elim (Option-cases (find (λ v. v.version == input.version) skill.versions)) [
        | inr (existing, taken) ↦ (
          skill,
          ap (find_by_slug slug) (
                let r =
                  ingest_skill-refuses compute_code_hash exec_all input actor store skill existing
                    (ap (λ x. find_by_slug x store) e ∙ found) taken in
                r.0)
              ∙ found,
          refl,
          λ ne. refl,
        )
        | inl unused ↦ (
          with_version input (new_version compute_code_hash exec_all input store.next_id)
              (vetting_result compute_code_hash exec_all input) skill,
          ap (find_by_slug slug) (
                ingest_skill-extends compute_code_hash exec_all input actor store skill
                  (ap (λ x. find_by_slug x store) e ∙ found) unused)
              ∙ find-update_skill slug
                  (with_version input (new_version compute_code_hash exec_all input store.next_id)
                    (vetting_result compute_code_hash exec_all input))
                  store.skills skill (λ s. refl) found,
          refl,
          λ ne. kept-current input skill.current_version_id bad refl ne,
        )
      ]
