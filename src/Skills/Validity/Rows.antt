-- ===== src/Skills/Validity/Rows.antt =====
-- The invariant, of a version, of a skill and of the store.
use psychic_octo_invention.Prelude.{
  ℕ, ◌<◌, ◌≡◌, ◌≢◌, refl, sym, ap, ◌∙◌, ◌⊎◌, inl, inr, String, Bool, false, Option, none, some,
  List, [], ◌∷◌, arith, All, In, All-In, eqb, Bool-cases,
}
use psychic_octo_invention.Skills.Types.{
  VettingResult, passed, failed, warning, Vetting, Version, Skill, Store, latest_vetting,
}
use psychic_octo_invention.Skills.Store.{find_version, update_skill}

-- The latest vetting of a version has this result.
abbrev pub HasLatest : VettingResult → Version → Type 0
HasLatest result v = (t : Vetting) × (latest_vetting v ≡ some t) × (t.result ≡ result)

abbrev pub IsApproved : Version → Type 0
IsApproved v = HasLatest passed v ⊎ HasLatest warning v

-- The current version is an approved one; without one no version is approved, and the skill is off.
abbrev pub IsPointed : Option ℕ → Bool → List Version → Type 0
IsPointed none enabled versions = (enabled ≡ false) × All (HasLatest failed) versions
IsPointed (some id) enabled versions =
    (v : Version) × (find_version id versions ≡ some v) × IsApproved v

abbrev pub AreDistinct : List Skill → Type 0
AreDistinct [] = Unit
AreDistinct (s ∷ ss) = All (λ t. t.id ≢ s.id) ss × AreDistinct ss

module _ (compute_code_hash : String → String) where
  -- The hash of a version is that of its stored source, and every vetting was of that hash.
  pub record IsIntact (v : Version) : Type 0 where
    pub source : String
    pub stored : v.config_source ≡ some source
    pub hashed : v.code_hash ≡ compute_code_hash source
    pub vetted : All (λ t. t.code_hash ≡ v.code_hash) v.vettings

  pub record IsValidSkill (n : ℕ) (s : Skill) : Type 0 where
    pub id_lt : s.id < n
    pub version_ids : All (λ v. v.id < n) s.versions
    pub intact : All IsIntact s.versions
    pub pointed : IsPointed s.current_version_id s.enabled s.versions

  pub record IsValid (store : Store) : Type 0 where
    pub skills : All (IsValidSkill store.next_id) store.skills
    pub distinct : AreDistinct store.skills

-- The update of a row keeps what holds of every row, if it holds of the new row.
pub All-update_skill :
    (P Q : Skill → Type 0) (id : ℕ) (f : Skill → Skill) (ss : List Skill)
    → ((s : Skill) → P s → Q s)
    → ((s : Skill) → In s ss → s.id ≡ id → P s → Q (f s))
    → All P ss
    → All Q (update_skill id f ss)
unfolding update_skill
All-update_skill P Q id f [] keep step h = tt
All-update_skill P Q id f (s ∷ ss) keep step h = (
  elim (Bool-cases (eqb s.id id)) [
    | inl e ↦ rw e (step s (inl refl) (ground arith) h.0)
    | inr e ↦ rw e (keep s h.0)
  ],
  All-update_skill P Q id f ss keep (λ t m. step t (inr m)) h.1,
)

-- Rows of one id are one row.
pub AreDistinct-eq :
    (s t : Skill) (ss : List Skill) → AreDistinct ss → In s ss → In t ss → s.id ≡ t.id → s ≡ t
AreDistinct-eq s t [] d m k e = absurd m
AreDistinct-eq s t (x ∷ xs) d (inl p) (inl q) e = p ∙ sym q
AreDistinct-eq s t (x ∷ xs) d (inl p) (inr q) e =
    absurd (All-In (λ y. y.id ≢ x.id) t xs d.0 q (sym e ∙ ap (λ y. y.id) p))
AreDistinct-eq s t (x ∷ xs) d (inr p) (inl q) e =
    absurd (All-In (λ y. y.id ≢ x.id) s xs d.0 p (e ∙ ap (λ y. y.id) q))
AreDistinct-eq s t (x ∷ xs) d (inr p) (inr q) e = AreDistinct-eq s t xs d.1 p q e

others-update_skill :
    (k id : ℕ) (f : Skill → Skill) (ss : List Skill)
    → ((s : Skill) → (f s).id ≡ s.id)
    → All (λ t. t.id ≢ k) ss
    → All (λ t. t.id ≢ k) (update_skill id f ss)
others-update_skill k id f ss same h =
    All-update_skill (λ t. t.id ≢ k) (λ t. t.id ≢ k) id f ss (λ t ne. ne)
      (λ t m e ne q. ne (sym (same t) ∙ q)) h

pub AreDistinct-update_skill :
    (id : ℕ) (f : Skill → Skill) (ss : List Skill)
    → ((s : Skill) → (f s).id ≡ s.id)
    → AreDistinct ss
    → AreDistinct (update_skill id f ss)
unfolding update_skill
AreDistinct-update_skill id f [] same d = tt
AreDistinct-update_skill id f (s ∷ ss) same d = (
  elim (Bool-cases (eqb s.id id)) [
    | inl e ↦ rw (e, same s) (others-update_skill s.id id f ss same d.0)
    | inr e ↦ rw e (others-update_skill s.id id f ss same d.0)
  ],
  AreDistinct-update_skill id f ss same d.1,
)
