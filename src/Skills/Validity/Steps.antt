-- ===== src/Skills/Validity/Steps.antt =====
-- Each operation on one skill keeps it valid.
use psychic_octo_invention.Prelude.{
  ℕ, ◌≤◌, ◌<◌, ◌+◌, ◌≡◌, ◌≢◌, refl, sym, ap, subst, ◌∙◌, ◌⊎◌, inl, inr, String, Bool, true, false,
  Option, none, some, List, [], ◌∷◌, arith, All, In, All-In, Text, find-satisfies, eqb, head?,
  Bool-cases,
}
use psychic_octo_invention.Prelude.{some_inj}
use psychic_octo_invention.Security.Types.{Regex}
use psychic_octo_invention.Security.Policy.{Decision, approved, blocked, warning}
use psychic_octo_invention.Skills.Types.{
  VettingResult, passed, failed, warning as warned, pending, Vetting, Version, Skill, IngestInput,
}
use psychic_octo_invention.Skills.Store.{find_version, add_vetting, display_version}
use psychic_octo_invention.Skills.Ingestion.{
  vetting_of, next_current, with_version, new_skill, vetting_result, new_version,
}
use psychic_octo_invention.Skills.Management.{
  vetting_refusal, version_vetting, set_enabled, OverrideResult, manual_vetting, overridden,
}
use psychic_octo_invention.Skills.Validity.Rows.{
  HasLatest, IsApproved, IsPointed, IsIntact, IsValidSkill,
}

pub find_version-id :
    (id : ℕ) (vs : List Version) {v : Version} → find_version id vs ≡ some v → In v vs × (v.id ≡ id)
unfolding find_version
find_version-id id vs e = let (m, p) = find-satisfies (λ v. eqb v.id id) vs e in (m, ground arith)

-- A version with a fresh id in front hides no other.
pub find_version-fresh :
    (n id : ℕ) (new v : Version) (vs : List Version)
    → new.id ≡ n
    → All (λ x. x.id < n) vs
    → find_version id vs ≡ some v
    → find_version id (new ∷ vs) ≡ some v
unfolding find_version
find_version-fresh n id new v vs e h found =
    let (m, same) = find_version-id id vs found in
    let below = All-In (λ x. x.id < n) v vs h m in ground arith

find_version-head : (new : Version) (vs : List Version) → find_version new.id (new ∷ vs) ≡ some new
unfolding find_version
find_version-head new vs = ground arith

-- What a new version does to the pointer, by its vetting.
IsPointed-cons :
    (result : VettingResult) (n : ℕ) (o : Option ℕ) (enabled : Bool) (new : Version)
    (vs : List Version)
    → new.id ≡ n
    → HasLatest result new
    → result ≢ pending
    → All (λ x. x.id < n) vs
    → IsPointed o enabled vs
    → IsPointed (next_current result n o) enabled (new ∷ vs)
IsPointed-cons passed n o enabled new vs e h _ ids p =
    (new, subst (λ k. find_version k (new ∷ vs) ≡ some new) e (find_version-head new vs), inl h)
IsPointed-cons warned n o enabled new vs e h _ ids p =
    (new, subst (λ k. find_version k (new ∷ vs) ≡ some new) e (find_version-head new vs), inr h)
IsPointed-cons pending n o enabled new vs e h q ids p = absurd (q refl)
IsPointed-cons failed n none enabled new vs e h _ ids p = (p.0, (h, p.1))
IsPointed-cons failed n (some id) enabled new vs e h _ ids (v, found, ok) =
    (v, find_version-fresh n id new v vs e ids found, ok)

All-weaken : (n m : ℕ) (vs : List Version) → n ≤ m → All (λ v. v.id < n) vs → All (λ v. v.id < m) vs
All-weaken n m [] le h = tt
All-weaken n m (v ∷ vs) le h = (omega arith, All-weaken n m vs le h.1)

vetting_of-ne-pending : (d : Decision) → vetting_of d ≢ pending
vetting_of-ne-pending approved = cc
vetting_of-ne-pending blocked = cc
vetting_of-ne-pending warning = cc

module _ (compute_code_hash : String → String) where
  pub IsValidSkill-weaken :
      (n m : ℕ) (s : Skill)
      → n ≤ m
      → IsValidSkill compute_code_hash n s
      → IsValidSkill compute_code_hash m s
  IsValidSkill-weaken n m s le h = record {
    id_lt = (let p = h.id_lt in omega arith);
    version_ids = All-weaken n m s.versions le h.version_ids;
    intact = h.intact;
    pointed = h.pointed;
  }

  module _ (exec_all : Regex → Text → List ℕ) (input : IngestInput) where
    new_version-IsIntact :
        (id : ℕ) → IsIntact compute_code_hash (new_version compute_code_hash exec_all input id)
    new_version-IsIntact id = record {
      source = input.source;
      stored = refl;
      hashed = refl;
      vetted = (refl, tt);
    }

    pub with_version-IsValidSkill :
        (n : ℕ) (s : Skill)
        → IsValidSkill compute_code_hash n s
        → IsValidSkill compute_code_hash (n + 1) (
            with_version input
              (new_version compute_code_hash exec_all input n)
              (vetting_result compute_code_hash exec_all input)
              s)
    with_version-IsValidSkill n s h = record {
      id_lt = (let p = h.id_lt in omega arith);
      version_ids = (omega arith, All-weaken n (n + 1) s.versions (omega arith) h.version_ids);
      intact = (new_version-IsIntact n, h.intact);
      pointed =
          IsPointed-cons (vetting_result compute_code_hash exec_all input) n s.current_version_id
            s.enabled (new_version compute_code_hash exec_all input n) s.versions refl
            (_, refl, refl) (vetting_of-ne-pending _) h.version_ids h.pointed;
    }

    pub new_skill-IsValidSkill :
        (n : ℕ)
        → IsValidSkill compute_code_hash (n + 2) (
            new_skill input n
              (new_version compute_code_hash exec_all input (n + 1))
              (vetting_result compute_code_hash exec_all input))
    new_skill-IsValidSkill n = record {
      id_lt = omega arith;
      version_ids = (omega arith, tt);
      intact = (new_version-IsIntact (n + 1), tt);
      pointed =
          IsPointed-cons (vetting_result compute_code_hash exec_all input) (n + 1) none false
            (new_version compute_code_hash exec_all input (n + 1)) [] refl (_, refl, refl)
            (vetting_of-ne-pending _) tt (refl, tt);
    }

-- A skill may only be switched on where it has a current version.
IsPointed-enable :
    (o : Option ℕ) (old new : Bool) (vs : List Version)
    → (new ≡ true → o ≢ none)
    → IsPointed o old vs
    → IsPointed o new vs
IsPointed-enable none old true vs h p = absurd (h refl refl)
IsPointed-enable none old false vs h p = (refl, p.1)
IsPointed-enable (some id) old new vs h p = p

failed_head-refused :
    (vs : List Version)
    → All (HasLatest failed) vs
    → vetting_refusal (version_vetting (head? vs)) ≢ none
unfolding vetting_refusal
failed_head-refused [] h = cc
failed_head-refused (v ∷ vs) ((t, e, r), h) = ground arith

display_version-none :
    (s : Skill) → s.current_version_id ≡ none → display_version s ≡ head? s.versions
display_version-none s e = ground arith

-- Where the refusal is waived, a valid skill has a current version.
accepted-current :
    (s : Skill) (o : Option ℕ)
    → s.current_version_id ≡ o
    → IsPointed o s.enabled s.versions
    → vetting_refusal (version_vetting (display_version s)) ≡ none
    → o ≢ none
accepted-current s (some id) e p h = cc
accepted-current s none e p h =
    absurd (failed_head-refused s.versions p.1 (rw (display_version-none s e) at h))

find_version-add_vetting :
    (id : ℕ) (t : Vetting) (vs : List Version) (v : Version)
    → find_version id vs ≡ some v
    → find_version id (add_vetting id t vs) ≡ some (record v { vettings = t ∷ v.vettings })
unfolding find_version add_vetting
find_version-add_vetting id t [] v e = cc
find_version-add_vetting id t (x ∷ xs) v e = ground (arith, find_version-add_vetting id t xs v)

All-add_vetting :
    (P : Version → Type 0) (id : ℕ) (t : Vetting) (vs : List Version) (v : Version)
    → find_version id vs ≡ some v
    → (P v → P (record v { vettings = t ∷ v.vettings }))
    → All P vs
    → All P (add_vetting id t vs)
unfolding find_version add_vetting
All-add_vetting P id t [] v e f h = tt
All-add_vetting P id t (x ∷ xs) v e f h = elim (Bool-cases (eqb x.id id)) [
  | inl same ↦
      let q : x ≡ v = ground arith in
      rw same
        (subst (λ y. P (record y { vettings = t ∷ y.vettings })) (sym q) (f (subst P q h.0)), h.1)
  | inr other ↦ rw other (h.0, All-add_vetting P id t xs v (ground arith) f h.1)
]

display_version-some :
    (s : Skill) (id : ℕ) (v : Version)
    → s.current_version_id ≡ some id
    → find_version id s.versions ≡ some v
    → display_version s ≡ some v
display_version-some s id v e f = ground arith

head-found : (vs : List Version) (v : Version) → head? vs ≡ some v → find_version v.id vs ≡ some v
unfolding find_version
head-found [] v e = cc
head-found (x ∷ xs) v e = ground arith

-- The target of an override is found by its own id.
display_version-found :
    (s : Skill) (o : Option ℕ) (target : Version)
    → s.current_version_id ≡ o
    → IsPointed o s.enabled s.versions
    → display_version s ≡ some target
    → (find_version target.id s.versions ≡ some target) × ((o ≡ none) ⊎ (o ≡ some target.id))
display_version-found s none target e p d =
    (head-found s.versions target (sym (display_version-none s e) ∙ d), inl refl)
display_version-found s (some id) target e (v, found, ok) d =
    let same : v ≡ target = some_inj _ _ (sym (display_version-some s id v e found) ∙ d) in
    let (m, q) = find_version-id id s.versions found in
    let at_id : target.id ≡ id = sym (ap (λ x. x.id) same) ∙ q in
    (
      subst (λ k. find_version k s.versions ≡ some target) (sym at_id) (found ∙ ap some same),
      inr (ap some (sym at_id)),
    )

module _ (result : OverrideResult) (reason : String) (target : Version) where
  abbrev added : Version
  added = record target { vettings = manual_vetting result reason target ∷ target.vettings }

  added-IsApproved : IsApproved added
  added-IsApproved =
      elim result
        as (λ r.
          IsApproved
            (record target { vettings = manual_vetting r reason target ∷ target.vettings })) [
              | OverrideResult.passed ↦ inl (_, refl, refl)
              | OverrideResult.warning ↦ inr (_, refl, refl)
            ]

  overridden-IsPointed :
      (o : Option ℕ) (enabled : Bool) (vs : List Version)
      → find_version target.id vs ≡ some target
      → ((o ≡ none) ⊎ (o ≡ some target.id))
      → IsPointed
          (elim o [ none ↦ some target.id | some id ↦ some id ])
          enabled
          (add_vetting target.id (manual_vetting result reason target) vs)
  overridden-IsPointed none enabled vs found c =
      (added, find_version-add_vetting target.id _ vs target found, added-IsApproved)
  overridden-IsPointed (some id) enabled vs found (inl e) = cc
  overridden-IsPointed (some id) enabled vs found (inr e) =
      let same : target.id ≡ id = cc in
      (
        added,
        subst
            (λ k.
              find_version k (add_vetting target.id (manual_vetting result reason target) vs)
              ≡ some added)
            same (find_version-add_vetting target.id _ vs target found),
        added-IsApproved,
      )

module _ (compute_code_hash : String → String) (n : ℕ) (s : Skill)
    (h : IsValidSkill compute_code_hash n s) where
  pub set_enabled-IsValidSkill :
      (enabled : Bool)
      → (enabled ≡ true → vetting_refusal (version_vetting (display_version s)) ≡ none)
      → IsValidSkill compute_code_hash n (set_enabled enabled s)
  set_enabled-IsValidSkill enabled accepted = record {
    id_lt = h.id_lt;
    version_ids = h.version_ids;
    intact = h.intact;
    pointed =
        IsPointed-enable s.current_version_id s.enabled enabled s.versions
          (λ e. accepted-current s s.current_version_id refl h.pointed (accepted e)) h.pointed;
  }

  pub overridden-IsValidSkill :
      (result : OverrideResult) (reason : String) (target : Version)
      → display_version s ≡ some target
      → IsValidSkill compute_code_hash n (overridden result reason target s)
  overridden-IsValidSkill result reason target d =
      let (found, c) = display_version-found s s.current_version_id target refl h.pointed d in
      record {
        id_lt = h.id_lt;
        version_ids =
            All-add_vetting (λ v. v.id < n) target.id _ s.versions target found (λ p. p)
              h.version_ids;
        intact =
            All-add_vetting (IsIntact compute_code_hash) target.id
              (manual_vetting result reason target) s.versions target found
              (λ p. record {
                source = p.source;
                stored = p.stored;
                hashed = p.hashed;
                vetted = (refl, p.vetted);
              })
              h.intact;
        pointed =
            overridden-IsPointed result reason target s.current_version_id s.enabled s.versions
              found c;
      }
