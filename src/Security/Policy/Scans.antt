-- ===== src/Security/Policy/Scans.antt =====
-- How a policy and the scanner fit together: the verdict of the default policy, and the scan with
-- the effective rules of a policy.
use mathlib.Core.List.{append_assoc}
use psychic_octo_invention.Prelude.{
  ℕ, ◌≡◌, refl, ◌↔◌, if◌then◌else◌, inl, inr, ◌||◌, Bool, false, not, ◌&&◌, Option, none, some,
  List, [], ◌∷◌, ◌++◌, arith, All, any, filter, filter-append, includes, Bool-cases, Text,
}
use psychic_octo_invention.Security.Types.{Regex, ScanRule, DetectedRisk}
use psychic_octo_invention.Security.Rules.{scan_rules}
use psychic_octo_invention.Security.Scanner.{
  is_critical, is_high, risk_at, risks_at, raw_risks, scan_source,
}
use psychic_octo_invention.Security.Policy.{
  PolicyConfig, PartialConfig, default_policy, with_defaults, blocked, is_suppressed,
  meets_threshold, evaluate_policy, get_rule_category, category_name, get_effective_rules,
}
use psychic_octo_invention.Security.Policy.Laws.{is_blocking, evaluate_policy-blocked_iff}

default-is_blocking :
    (r : DetectedRisk)
    → is_blocking default_policy r ≡ (is_critical r.severity || is_high r.severity)
unfolding is_suppressed meets_threshold
default-is_blocking r = ground arith

any-is_blocking :
    (rs : List DetectedRisk)
    → any (is_blocking default_policy) rs
      ≡ (any (λ r. is_critical r.severity) rs || any (λ r. is_high r.severity) rs)
any-is_blocking [] = refl
any-is_blocking (r ∷ rs) = ground (arith, default-is_blocking r, any-is_blocking rs)

module _ (exec_all : Regex → Text → List ℕ) (source : Text) where
  -- The default policy blocks exactly what the scanner does not pass.
  pub evaluate_policy-scan_source :
      (rules : Option (List ScanRule))
      → ((evaluate_policy (scan_source exec_all source rules) none).decision ≡ blocked)
        ↔ ((scan_source exec_all source rules).passed ≡ false)
  unfolding scan_source with_defaults
  evaluate_policy-scan_source rules =
      let result = scan_source exec_all source rules in
      let verdict = evaluate_policy-blocked_iff result none in
      let found = any-is_blocking result.risks in ground arith

-- The category that the allowlist check looks up is that of the rule which found the risk.
abbrev IsListed : ScanRule → Type 0
IsListed rule = get_rule_category rule.id ≡ some rule.category

scan_rules-AreListed : All IsListed scan_rules
unfolding get_rule_category
scan_rules-AreListed = (
  refl,
  (
    refl,
    (
      refl,
      (
        refl,
        (
          refl,
          (
            refl,
            (
              refl,
              (
                refl,
                (
                  refl,
                  (
                    refl,
                    (
                      refl,
                      (
                        refl,
                        (
                          refl,
                          (
                            refl,
                            (
                              refl,
                              (
                                refl,
                                (
                                  refl,
                                  (
                                    refl,
                                    (
                                      refl,
                                      (
                                        refl,
                                        (
                                          refl,
                                          (
                                            refl,
                                            (
                                              refl,
                                              (refl, (refl, (refl, (refl, (refl, (refl, tt)))))),
                                            ),
                                          ),
                                        ),
                                      ),
                                    ),
                                  ),
                                ),
                              ),
                            ),
                          ),
                        ),
                      ),
                    ),
                  ),
                ),
              ),
            ),
          ),
        ),
      ),
    ),
  ),
)

module _ (policy : PolicyConfig) where
  -- The filter of `getEffectiveRules`, and that of the risks which a policy does not suppress.
  abbrev is_kept : ScanRule → Bool
  is_kept r =
      not (includes policy.allowed_rule_ids r.id)
      && not (includes policy.allowed_categories (category_name r.category))

  abbrev pub is_unsuppressed : DetectedRisk → Bool
  is_unsuppressed r = not (is_suppressed policy r)

  is_unsuppressed-risk_at :
      (source : Text) (rule : ScanRule) (index : ℕ)
      → IsListed rule
      → is_unsuppressed (risk_at source rule index) ≡ is_kept rule
  unfolding is_suppressed risk_at
  is_unsuppressed-risk_at source rule index h = ground arith

  module _ (exec_all : Regex → Text → List ℕ) (source : Text) where
    filter-risks_at :
        (rule : ScanRule) (is : List ℕ)
        → IsListed rule
        → filter is_unsuppressed (risks_at exec_all source rule is)
          ≡ (if is_kept rule then risks_at exec_all source rule is else [])
    unfolding risks_at
    filter-risks_at rule [] h = ground arith
    filter-risks_at rule (i ∷ is) h =
        ground (arith, is_unsuppressed-risk_at source rule i h, filter-risks_at rule is h)

    filter-raw_risks :
        (rules : List ScanRule)
        → All IsListed rules
        → raw_risks exec_all source (filter is_kept rules)
          ≡ filter is_unsuppressed (raw_risks exec_all source rules)
    unfolding raw_risks
    filter-raw_risks [] h = refl
    filter-raw_risks (rule ∷ rules) h = elim (Bool-cases (is_kept rule)) [
      | inl k ↦ rw (k, filter-append, filter-risks_at rule _ h.0, k, filter-raw_risks rules h.1)
      | inr k ↦ rw (k, filter-append, filter-risks_at rule _ h.0, k) (filter-raw_risks rules h.1)
    ]

    raw_risks-append :
        (xs ys : List ScanRule)
        → raw_risks exec_all source (xs ++ ys)
          ≡ raw_risks exec_all source xs ++ raw_risks exec_all source ys
    unfolding raw_risks
    raw_risks-append [] ys = refl
    raw_risks-append (x ∷ xs) ys = rw (raw_risks-append xs ys, append_assoc)

-- A scan with the effective rules of a policy finds what a scan with all built-in rules finds and the
-- policy does not suppress, and then what the policy's own rules find.
pub raw_risks-get_effective_rules :
    (exec_all : Regex → Text → List ℕ) (source : Text) (config : Option PartialConfig)
    → raw_risks exec_all source (get_effective_rules config)
      ≡ filter (is_unsuppressed (with_defaults config)) (raw_risks exec_all source scan_rules)
        ++ raw_risks exec_all source (with_defaults config).custom_deny_rules
unfolding get_effective_rules
raw_risks-get_effective_rules exec_all source config =
    let policy = with_defaults config in
    rw (
      raw_risks-append policy exec_all source (filter (is_kept policy) scan_rules)
          policy.custom_deny_rules,
      filter-raw_risks policy exec_all source scan_rules scan_rules-AreListed,
    )
