-- ===== src/Security/Policy/Tests.antt =====
-- Verdicts on a concrete scan.
use mathlib.Core.List.{Perm}
use psychic_octo_invention.Prelude.{
  ℕ, ◌≡◌, refl, ◌↔◌, ◌⊎◌, true, false, Option, none, some, List, [], ◌∷◌, ◌++◌, String, any, filter,
  Text, codes, show,
}
use psychic_octo_invention.Security.Types.{
  DetectedRisk, ScanResult, Severity, critical, high, medium, Regex,
}
use psychic_octo_invention.Security.Rules.{scan_rules}
use psychic_octo_invention.Security.Scanner.{raw_risks}
use psychic_octo_invention.Security.Policy.{
  PartialConfig, with_defaults, blocked, warning, get_rule_category, is_suppressed, meets_threshold,
  place, sort_into, risk_line, bucket_reasons, decide, verdict_reasons, evaluate_policy,
  get_effective_rules,
}
use psychic_octo_invention.Security.Policy.Laws.{
  is_blocking, is_warning, evaluate_policy-partitions, evaluate_policy-blocked_iff,
}
use psychic_octo_invention.Security.Policy.Scans.{is_unsuppressed, raw_risks-get_effective_rules}

abbrev risk : String → Severity → DetectedRisk
risk rule severity = record {
  rule = rule;
  severity = severity;
  description = "d";
  location = some "line 1";
  line = some 1;
  snippet = none;
}

abbrev scan : ScanResult
scan = record {
  risks = risk "SEC-010" critical ∷ risk "SEC-043" high ∷ risk "SEC-070" medium ∷ [];
  scanned_rules = 29;
  passed = false;
}

abbrev lenient : Option PartialConfig
lenient = some (record {
  allowed_rule_ids = some ("SEC-010" ∷ []);
  allowed_categories = some ("filesystem" ∷ []);
  custom_deny_rules = none;
  block_threshold = none;
  allow_warnings = none;
})

verdicts :
    ((evaluate_policy scan none).decision ≡ blocked)
    × ((evaluate_policy scan none).reasons
        ≡ "Blocked: 2 risk(s) at or above high severity" ∷ "  [SEC-010] d (critical) at line 1"
          ∷ "  [SEC-043] d (high) at line 1" ∷ [])
    × ((evaluate_policy scan lenient).decision ≡ warning)
    × ((evaluate_policy scan lenient).reasons
        ≡ "2 risk(s) suppressed by policy allowlist" ∷ "1 low-severity warning(s) detected" ∷ [])
unfolding with_defaults get_rule_category is_suppressed meets_threshold place sort_into risk_line
    bucket_reasons decide verdict_reasons evaluate_policy show
verdicts = (refl, refl, refl, refl)

evaluate_policy-partitions_example :
    Perm
      ((evaluate_policy scan lenient).blocking_risks
        ++ ((evaluate_policy scan lenient).suppressed_risks
            ++ (evaluate_policy scan lenient).warning_risks))
      scan.risks
evaluate_policy-partitions_example = evaluate_policy-partitions scan lenient

evaluate_policy-blocked_iff_example : ((evaluate_policy scan lenient).decision ≡ blocked) ↔ (
    (any (is_blocking (with_defaults lenient)) scan.risks ≡ true)
    ⊎ ((any (is_warning (with_defaults lenient)) scan.risks ≡ true)
        × ((with_defaults lenient).allow_warnings ≡ false)))
evaluate_policy-blocked_iff_example = evaluate_policy-blocked_iff scan lenient

-- An engine that finds each pattern at the start of each source.
abbrev everywhere : Regex → Text → List ℕ
everywhere r s = 0 ∷ []

raw_risks-get_effective_rules_example :
    raw_risks everywhere (codes "x") (get_effective_rules lenient)
    ≡ filter (is_unsuppressed (with_defaults lenient)) (raw_risks everywhere (codes "x") scan_rules)
      ++ raw_risks everywhere (codes "x") (with_defaults lenient).custom_deny_rules
raw_risks-get_effective_rules_example = raw_risks-get_effective_rules everywhere (codes "x") lenient
