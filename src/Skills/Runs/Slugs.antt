-- ===== src/Skills/Runs/Slugs.antt =====
-- Slugs tell the skills of a reachable store apart.
use psychic_octo_invention.Prelude.{
  ℕ, ◌≡◌, ◌≢◌, refl, sym, ap, subst, ◌∙◌, inl, inr, String, true, false, some, List, [], ◌∷◌, All,
  All-In, In, find, find-none, eqb, eq_iff, ◌==◌, Text, Option-cases, Bool-cases,
}
use psychic_octo_invention.Security.Types.{Regex}
use psychic_octo_invention.Skills.Types.{Skill, Store, IngestInput}
use psychic_octo_invention.Skills.Store.{find_by_slug, update_skill}
use psychic_octo_invention.Skills.Ingestion.{ingest_skill}
use psychic_octo_invention.Skills.Ingestion.Laws.{
  ingest_skill-creates, ingest_skill-extends, ingest_skill-refuses,
}
use psychic_octo_invention.Skills.Management.Laws.{toggle_skill-cases, manual_override-cases}
use psychic_octo_invention.Skills.Guard.Laws.{can_execute-tables}
use psychic_octo_invention.Skills.Runs.{
  Operation, ingest, toggle, override, check, apply, Reachable, start, step,
}

abbrev pub HaveDistinctSlugs : List Skill → Type 0
HaveDistinctSlugs [] = Unit
HaveDistinctSlugs (s ∷ ss) = All (λ t. t.slug ≢ s.slug) ss × HaveDistinctSlugs ss

update_skill-slug :
    (id : ℕ) (f : Skill → Skill) (slug : String) (ss : List Skill)
    → ((s : Skill) → (f s).slug ≡ s.slug)
    → All (λ t. t.slug ≢ slug) ss
    → All (λ t. t.slug ≢ slug) (update_skill id f ss)
unfolding update_skill
update_skill-slug id f slug [] same h = tt
update_skill-slug id f slug (s ∷ ss) same h =
    let rest = update_skill-slug id f slug ss same h.1 in
    elim (Bool-cases (eqb s.id id)) [
      | inl k ↦ simp k ((λ e. h.0 (sym (same s) ∙ e)), rest)
      | inr k ↦ simp k (h.0, rest)
    ]

update_skill-HaveDistinctSlugs :
    (id : ℕ) (f : Skill → Skill) (ss : List Skill)
    → ((s : Skill) → (f s).slug ≡ s.slug)
    → HaveDistinctSlugs ss
    → HaveDistinctSlugs (update_skill id f ss)
unfolding update_skill
update_skill-HaveDistinctSlugs id f [] same h = tt
update_skill-HaveDistinctSlugs id f (s ∷ ss) same h =
    let rest = update_skill-HaveDistinctSlugs id f ss same h.1 in
    let others = update_skill-slug id f s.slug ss same h.0 in
    elim (Bool-cases (eqb s.id id)) [
      | inl k ↦
          simp k
            (subst (λ n. All (λ t. t.slug ≢ n) (update_skill id f ss)) (sym (same s)) others, rest)
      | inr k ↦ simp k (others, rest)
    ]

absent-All :
    (slug : String) (ss : List Skill)
    → All (λ s. (s.slug == slug) ≡ false) ss
    → All (λ t. t.slug ≢ slug) ss
absent-All slug [] h = tt
absent-All slug (s ∷ ss) h =
    ((λ e. let same = (eq_iff s.slug slug).1 e in let no_match = h.0 in cc), absent-All slug ss h.1)

-- With distinct slugs a query by the slug of a row finds this row.
pub find_by_slug-In :
    (skill : Skill) (ss : List Skill)
    → HaveDistinctSlugs ss
    → In skill ss
    → find (λ s. s.slug == skill.slug) ss ≡ some skill
find_by_slug-In skill [] h m = absurd m
find_by_slug-In skill (s ∷ ss) h (inl e) =
    let here : s.slug == skill.slug ≡ true =
      (eq_iff s.slug skill.slug).1 (ap (λ x. x.slug) (sym e)) in
    rw here (ap some (sym e))
find_by_slug-In skill (s ∷ ss) h (inr m) = elim (Bool-cases (s.slug == skill.slug)) [
  | inl here ↦
      absurd
        (All-In (λ t. t.slug ≢ s.slug) skill ss h.0 m (sym ((eq_iff s.slug skill.slug).0 here)))
  | inr there ↦ rw there (find_by_slug-In skill ss h.1 m)
]

module _ (compute_code_hash : String → String) (exec_all : Regex → Text → List ℕ) where
  ingest_skill-HaveDistinctSlugs :
      (input : IngestInput) (actor : String) (store : Store)
      → HaveDistinctSlugs store.skills
      → HaveDistinctSlugs (ingest_skill compute_code_hash exec_all input actor store).1.skills
  unfolding find_by_slug
  ingest_skill-HaveDistinctSlugs input actor store h =
      elim (Option-cases (find_by_slug input.slug store)) [
        | inl absent ↦
            rw (ingest_skill-creates compute_code_hash exec_all input actor store absent)
              (absent-All input.slug store.skills (find-none _ store.skills absent), h)
        | inr (skill, found) ↦
            elim (Option-cases (find (λ v. v.version == input.version) skill.versions)) [
              | inl unused ↦
                  rw
                    (ingest_skill-extends compute_code_hash exec_all input actor store skill found
                      unused)
                    (update_skill-HaveDistinctSlugs skill.id _ store.skills (λ s. refl) h)
              | inr (existing, taken) ↦
                  rw
                    (ingest_skill-refuses compute_code_hash exec_all input actor store skill
                      existing found taken).0
                    h
            ]
      ]

  apply-HaveDistinctSlugs :
      (op : Operation) (store : Store)
      → HaveDistinctSlugs store.skills
      → HaveDistinctSlugs (apply compute_code_hash exec_all op store).skills
  unfolding apply
  apply-HaveDistinctSlugs (ingest input actor) store h =
      ingest_skill-HaveDistinctSlugs input actor store h
  apply-HaveDistinctSlugs (toggle id enabled actor) store h =
      elim (toggle_skill-cases id enabled actor store) [
        | inl kept ↦ rw kept h
        | inr (skill, audits, found, accepted, changed) ↦
            rw changed (update_skill-HaveDistinctSlugs id _ store.skills (λ s. refl) h)
      ]
  apply-HaveDistinctSlugs (override id result reason actor) store h =
      elim (manual_override-cases id result reason actor store) [
        | inl kept ↦ rw kept h
        | inr (skill, target, audits, found, shown, changed) ↦
            rw changed (update_skill-HaveDistinctSlugs id _ store.skills (λ s. refl) h)
      ]
  apply-HaveDistinctSlugs (check slug options) store h =
      rw (can_execute-tables compute_code_hash options store slug).0 h

  -- After any sequence of requests the slugs of the skills are distinct.
  pub Reachable-HaveDistinctSlugs :
      (store : Store) → Reachable compute_code_hash exec_all store → HaveDistinctSlugs store.skills
  Reachable-HaveDistinctSlugs store (start _ e) = rw e tt
  Reachable-HaveDistinctSlugs store (step op before _ r e) =
      rw e (apply-HaveDistinctSlugs op before (Reachable-HaveDistinctSlugs before r))
