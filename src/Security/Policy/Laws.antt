-- ===== src/Security/Policy/Laws.antt =====
-- What a verdict means: where each risk goes, when a skill is blocked, and how the verdict of the
-- default policy and the effective rules agree with the scanner.
use mathlib.Core.List.{Perm, perm_middle, append-nil, append_assoc}
use mathlib.Core.List.Perm
use psychic_octo_invention.Prelude.{
  ◌≡◌, refl, sym, ◌↔◌, ◌⊎◌, inl, inr, Bool, true, false, not, ◌&&◌, Option, List, [], ◌∷◌, ◌++◌,
  arith, any, filter, Bool-cases,
}
use psychic_octo_invention.Security.Types.{DetectedRisk, ScanResult}
use psychic_octo_invention.Security.Policy.{
  PolicyConfig, PartialConfig, with_defaults, blocked, is_suppressed, meets_threshold, Buckets,
  place, sort_into, no_buckets, non_empty, decide, evaluate_policy,
}

-- Appending what is selected, first of one and then of the others.
grow :
    (p : DetectedRisk → Bool) (xs : List DetectedRisk) (r : DetectedRisk) (rs : List DetectedRisk)
    {ys zs : List DetectedRisk}
    → ys ≡ xs ++ filter p (r ∷ [])
    → zs ≡ ys ++ filter p rs
    → zs ≡ xs ++ filter p (r ∷ rs)
grow p xs r rs e f = elim (Bool-cases (p r)) [
  | inl h ↦ rw (f, e, h) (append_assoc xs (r ∷ []) (filter p rs))
  | inr h ↦ rw (f, e, h, append-nil)
]

append_last :
    (r : DetectedRisk) (xs ys zs rs : List DetectedRisk)
    → Perm (xs ++ (ys ++ zs)) rs
    → Perm (xs ++ (ys ++ (r ∷ zs))) (r ∷ rs)
append_last r xs ys zs rs h =
    rw (← append_assoc xs ys (r ∷ zs))
      (Perm.trans (perm_middle {a = r} (xs ++ ys) zs) (Perm.cons r (rw (append_assoc xs ys zs) h)))

module _ (policy : PolicyConfig) where
  abbrev pub is_blocking : DetectedRisk → Bool
  is_blocking r = not (is_suppressed policy r) && meets_threshold policy r

  abbrev pub is_warning : DetectedRisk → Bool
  is_warning r = not (is_suppressed policy r) && not (meets_threshold policy r)

  -- The loop appends to each array what a filter selects.
  abbrev Filled : Buckets → List DetectedRisk → Buckets → Type 0
  Filled b risks b' =
      (b'.suppressed ≡ b.suppressed ++ filter (is_suppressed policy) risks)
      × (b'.blocking ≡ b.blocking ++ filter is_blocking risks)
      × (b'.warnings ≡ b.warnings ++ filter is_warning risks)

  place-Filled : (b : Buckets) (r : DetectedRisk) → Filled b (r ∷ []) (place policy b r)
  unfolding place
  place-Filled b r =
      ground
        (arith, append-nil {0} b.suppressed, append-nil {0} b.blocking, append-nil {0} b.warnings)

  sort_into-Filled :
      (b : Buckets) (risks : List DetectedRisk) → Filled b risks (sort_into policy b risks)
  unfolding sort_into
  sort_into-Filled b [] = (sym (append-nil _), sym (append-nil _), sym (append-nil _))
  sort_into-Filled b (r ∷ risks) =
      let (p, q, w) = place-Filled b r in
      let (ps, qs, ws) = sort_into-Filled (place policy b r) risks in
      (
        grow _ b.suppressed r risks p ps,
        grow _ b.blocking r risks q qs,
        grow _ b.warnings r risks w ws,
      )

  -- Three filters of which each element passes exactly one.
  filters-perm :
      (rs : List DetectedRisk)
      → Perm
          (filter is_blocking rs ++ (filter (is_suppressed policy) rs ++ filter is_warning rs))
          rs
  filters-perm [] = Perm.refl []
  filters-perm (r ∷ rs) = elim (Bool-cases (is_suppressed policy r)) [
    | inl s ↦ rw s (
        Perm.trans
          (perm_middle {a = r} (filter is_blocking rs)
            (filter (is_suppressed policy) rs ++ filter is_warning rs))
          (Perm.cons r (filters-perm rs)))
    | inr s ↦ elim (Bool-cases (meets_threshold policy r)) [
      | inl t ↦ rw (s, t) (Perm.cons r (filters-perm rs))
      | inr t ↦
          rw (s, t)
            (append_last r (filter is_blocking rs) (filter (is_suppressed policy) rs)
              (filter is_warning rs) rs (filters-perm rs))
    ]
  ]

-- Every risk of the scan is in exactly one of the three arrays, as often as it was found.
pub evaluate_policy-partitions :
    (scan_result : ScanResult) (config : Option PartialConfig)
    → let e = evaluate_policy scan_result config in
      Perm (e.blocking_risks ++ (e.suppressed_risks ++ e.warning_risks)) scan_result.risks
unfolding evaluate_policy
evaluate_policy-partitions scan_result config =
    let policy = with_defaults config in
    let (p, q, w) = sort_into-Filled policy no_buckets scan_result.risks in
    rw (p, q, w) (filters-perm policy scan_result.risks)

any-filter : (p : DetectedRisk → Bool) (rs : List DetectedRisk) → non_empty (filter p rs) ≡ any p rs
any-filter p [] = refl
any-filter p (r ∷ rs) = ground (arith, any-filter p rs)

-- A skill is blocked exactly if a risk that is not suppressed meets the threshold, or if warnings are
-- not allowed and a risk that is not suppressed is below it.
pub evaluate_policy-blocked_iff :
    (scan_result : ScanResult) (config : Option PartialConfig)
    → ((evaluate_policy scan_result config).decision ≡ blocked) ↔ (
        (any (is_blocking (with_defaults config)) scan_result.risks ≡ true)
        ⊎ ((any (is_warning (with_defaults config)) scan_result.risks ≡ true)
            × ((with_defaults config).allow_warnings ≡ false)))
unfolding evaluate_policy decide
evaluate_policy-blocked_iff scan_result config =
    let policy = with_defaults config in
    let risks = scan_result.risks in
    let (p, q, w) = sort_into-Filled policy no_buckets risks in
    let b = any-filter (is_blocking policy) risks in
    let v = any-filter (is_warning policy) risks in rw (q, w, b, v) ground arith
