-- ===== src/Security/Scanner/Laws.antt =====
-- What a scan returns: the matches in the order of their severity, and whether the source passes.
use mathlib.Core.List.{Perm}
use mathlib.Core.List.Perm
use psychic_octo_invention.Prelude.{
  ℕ, ◌≤◌, ◌≡◌, refl, ◌↔◌, ◌||◌, inl, inr, Bool, true, false, Option, List, [], ◌∷◌, arith, All, any,
  Text, leb, Bool-cases, or_else,
}
use psychic_octo_invention.Security.Types.{Regex, ScanRule, DetectedRisk}
use psychic_octo_invention.Security.Rules.{scan_rules}
use psychic_octo_invention.Security.Scanner.{
  severity_order, insert_risk, sort_risks, is_critical, is_high, raw_risks, scan_source,
}

-- Each risk is at least as severe as those behind it.
abbrev pub AreSorted : List DetectedRisk → Type 0
AreSorted [] = Unit
AreSorted (r ∷ rs) =
    All (λ x. severity_order r.severity ≤ severity_order x.severity) rs × AreSorted rs

module _ (P : DetectedRisk → Type 0) where
  All-insert_risk :
      (r : DetectedRisk) (rs : List DetectedRisk) → P r → All P rs → All P (insert_risk r rs)
  unfolding insert_risk
  All-insert_risk r [] p h = (p, tt)
  All-insert_risk r (x ∷ xs) p h =
      elim (Bool-cases (leb (severity_order r.severity) (severity_order x.severity))) [
        | inl e ↦ rw e (p, h)
        | inr e ↦ rw e (h.0, All-insert_risk r xs p h.1)
      ]

All-le :
    (j k : ℕ) (rs : List DetectedRisk)
    → j ≤ k
    → All (λ x. k ≤ severity_order x.severity) rs
    → All (λ x. j ≤ severity_order x.severity) rs
All-le j k [] le h = tt
All-le j k (x ∷ xs) le h = (omega arith, All-le j k xs le h.1)

insert_risk-AreSorted :
    (r : DetectedRisk) (rs : List DetectedRisk) → AreSorted rs → AreSorted (insert_risk r rs)
unfolding insert_risk
insert_risk-AreSorted r [] h = (tt, tt)
insert_risk-AreSorted r (x ∷ xs) h =
    elim (Bool-cases (leb (severity_order r.severity) (severity_order x.severity))) [
      | inl e ↦ rw e (
        (
          ground arith,
          All-le (severity_order r.severity) (severity_order x.severity) xs (ground arith) h.0,
        ),
        h,
      )
      | inr e ↦ rw e (
        All-insert_risk (λ y. severity_order x.severity ≤ severity_order y.severity) r xs
            (ground arith) h.0,
        insert_risk-AreSorted r xs h.1,
      )
    ]

sort_risks-AreSorted : (rs : List DetectedRisk) → AreSorted (sort_risks rs)
unfolding sort_risks
sort_risks-AreSorted [] = tt
sort_risks-AreSorted (r ∷ rs) = insert_risk-AreSorted r (sort_risks rs) (sort_risks-AreSorted rs)

insert_risk-perm : (r : DetectedRisk) (rs : List DetectedRisk) → Perm (insert_risk r rs) (r ∷ rs)
unfolding insert_risk
insert_risk-perm r [] = Perm.refl (r ∷ [])
insert_risk-perm r (x ∷ xs) =
    elim (Bool-cases (leb (severity_order r.severity) (severity_order x.severity))) [
      | inl e ↦ rw e (Perm.refl (r ∷ x ∷ xs))
      | inr e ↦ rw e (Perm.trans (Perm.cons x (insert_risk-perm r xs)) (Perm.swap r x xs))
    ]

sort_risks-perm : (rs : List DetectedRisk) → Perm (sort_risks rs) rs
unfolding sort_risks
sort_risks-perm [] = Perm.refl []
sort_risks-perm (r ∷ rs) =
    Perm.trans (insert_risk-perm r (sort_risks rs)) (Perm.cons r (sort_risks-perm rs))

module _ (p : DetectedRisk → Bool) where
  any-insert_risk :
      (r : DetectedRisk) (rs : List DetectedRisk) → any p (insert_risk r rs) ≡ (p r || any p rs)
  unfolding insert_risk
  any-insert_risk r [] = refl
  any-insert_risk r (x ∷ xs) = ground (arith, any-insert_risk r xs)

  any-sort_risks : (rs : List DetectedRisk) → any p (sort_risks rs) ≡ any p rs
  unfolding sort_risks
  any-sort_risks [] = refl
  any-sort_risks (r ∷ rs) = ground (arith, any-insert_risk r (sort_risks rs), any-sort_risks rs)

  any-false_iff : (rs : List DetectedRisk) → (any p rs ≡ false) ↔ All (λ r. p r ≡ false) rs
  any-false_iff [] = ground arith
  any-false_iff (r ∷ rs) = ground (arith, any-false_iff rs)

-- Neither critical nor high.
abbrev pub IsMild : DetectedRisk → Type 0
IsMild r = (is_critical r.severity ≡ false) × (is_high r.severity ≡ false)

All-both :
    (rs : List DetectedRisk)
    → All (λ r. is_critical r.severity ≡ false) rs
    → All (λ r. is_high r.severity ≡ false) rs
    → All IsMild rs
All-both [] h k = tt
All-both (r ∷ rs) h k = ((h.0, k.0), All-both rs h.1 k.1)

All-critical :
    (rs : List DetectedRisk) → All IsMild rs → All (λ r. is_critical r.severity ≡ false) rs
All-critical [] h = tt
All-critical (r ∷ rs) h = (h.0.0, All-critical rs h.1)

All-high : (rs : List DetectedRisk) → All IsMild rs → All (λ r. is_high r.severity ≡ false) rs
All-high [] h = tt
All-high (r ∷ rs) h = (h.0.1, All-high rs h.1)

pub All-sort_risks :
    (P : DetectedRisk → Type 0) (rs : List DetectedRisk) → All P rs → All P (sort_risks rs)
unfolding sort_risks
All-sort_risks P [] h = tt
All-sort_risks P (r ∷ rs) h = All-insert_risk P r (sort_risks rs) h.0 (All-sort_risks P rs h.1)

module _ (exec_all : Regex → Text → List ℕ) (source : Text) where
  -- The risks are the matches of the rules, each as often as it occurs, the most severe first.
  scan_source-sorts :
      (rules : Option (List ScanRule))
      → AreSorted (scan_source exec_all source rules).risks
        × Perm
            (scan_source exec_all source rules).risks
            (raw_risks exec_all source (or_else rules scan_rules))
  unfolding scan_source
  scan_source-sorts rules = (sort_risks-AreSorted _, sort_risks-perm _)

  -- A source passes exactly if no match of an active rule is critical or high.
  pub scan_source-passed_iff :
      (rules : Option (List ScanRule))
      → ((scan_source exec_all source rules).passed ≡ true)
        ↔ All IsMild (raw_risks exec_all source (or_else rules scan_rules))
  unfolding scan_source
  scan_source-passed_iff rules =
      let raw = raw_risks exec_all source (or_else rules scan_rules) in
      let critical = any-sort_risks (λ r. is_critical r.severity) raw in
      let high = any-sort_risks (λ r. is_high r.severity) raw in
      let critical_iff = any-false_iff (λ r. is_critical r.severity) raw in
      let high_iff = any-false_iff (λ r. is_high r.severity) raw in
      (
        (λ h. All-both raw (critical_iff.0 (ground arith)) (high_iff.0 (ground arith))),
        (λ h. ground (arith, critical_iff.1 (All-critical raw h), high_iff.1 (All-high raw h))),
      )
