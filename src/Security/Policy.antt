-- ===== src/Security/Policy.antt =====
-- apps/api/src/security/policy-engine.ts: the verdict on a scan under a configurable policy.
pub mod Laws
pub mod Scans
mod Tests
use psychic_octo_invention.Prelude.{
  ℕ, ◌-◌, String, Bool, true, false, not, ◌&&◌, ◌||◌, Option, none, some, List, [], ◌∷◌, ◌++◌, take,
  head?, or_else, leb, ltb, any, find, filter, includes, length, if◌then◌else◌, ◌==◌, ◌⧺◌, show,
  map,
}
use psychic_octo_invention.Security.Types.{
  Severity, critical, high, medium, low, Category, os_command, shell_exec, filesystem, network,
  dynamic_code, env_access, subprocess, import_risk, ScanRule, DetectedRisk, ScanResult,
}
use psychic_octo_invention.Security.Rules.{scan_rules}

pub record PolicyConfig : Type 0 where
  pub allowed_rule_ids : List String
  pub allowed_categories : List String
  pub custom_deny_rules : List ScanRule
  pub block_threshold : Severity
  pub allow_warnings : Bool

-- `Partial<PolicyConfig>`
pub record PartialConfig : Type 0 where
  pub allowed_rule_ids : Option (List String)
  pub allowed_categories : Option (List String)
  pub custom_deny_rules : Option (List ScanRule)
  pub block_threshold : Option Severity
  pub allow_warnings : Option Bool

abbrev pub default_policy : PolicyConfig
default_policy = record {
  allowed_rule_ids = [];
  allowed_categories = [];
  custom_deny_rules = [];
  block_threshold = high;
  allow_warnings = true;
}

-- `{ ...DEFAULT_POLICY, ...config }`
unfoldable pub with_defaults : Option PartialConfig → PolicyConfig
with_defaults none = default_policy
with_defaults (some c) = record {
  allowed_rule_ids = or_else c.allowed_rule_ids default_policy.allowed_rule_ids;
  allowed_categories = or_else c.allowed_categories default_policy.allowed_categories;
  custom_deny_rules = or_else c.custom_deny_rules default_policy.custom_deny_rules;
  block_threshold = or_else c.block_threshold default_policy.block_threshold;
  allow_warnings = or_else c.allow_warnings default_policy.allow_warnings;
}

pub data Decision : Type 0 where
  approved blocked warning : Decision

pub record PolicyEvaluation : Type 0 where
  pub decision : Decision
  pub blocking_risks : List DetectedRisk
  pub suppressed_risks : List DetectedRisk
  pub warning_risks : List DetectedRisk
  pub reasons : List String

-- `SEVERITY_LEVELS`
abbrev pub severity_level : Severity → ℕ
severity_level critical = 4
severity_level high = 3
severity_level medium = 2
severity_level low = 1

abbrev severity_name : Severity → String
severity_name critical = "critical"
severity_name high = "high"
severity_name medium = "medium"
severity_name low = "low"

abbrev category_name : Category → String
category_name os_command = "os_command"
category_name shell_exec = "shell_exec"
category_name filesystem = "filesystem"
category_name network = "network"
category_name dynamic_code = "dynamic_code"
category_name env_access = "env_access"
category_name subprocess = "subprocess"
category_name import_risk = "import_risk"

unfoldable pub get_rule_category : String → Option Category
get_rule_category rule_id = elim (find (λ r. r.id == rule_id) scan_rules) [
  | none ↦ none
  | some rule ↦ some rule.category
]

-- The two allowlist checks of the loop.
unfoldable pub is_suppressed : PolicyConfig → DetectedRisk → Bool
is_suppressed policy risk =
    if includes policy.allowed_rule_ids risk.rule
    then true
    else elim (get_rule_category risk.rule) [
      | none ↦ false
      | some category ↦ includes policy.allowed_categories (category_name category)
    ]

unfoldable pub meets_threshold : PolicyConfig → DetectedRisk → Bool
meets_threshold policy risk =
    leb (severity_level policy.block_threshold) (severity_level risk.severity)

-- The three arrays that the loop fills.
pub record Buckets : Type 0 where
  pub suppressed : List DetectedRisk
  pub blocking : List DetectedRisk
  pub warnings : List DetectedRisk

-- One round of the loop.
unfoldable pub place : PolicyConfig → Buckets → DetectedRisk → Buckets
place policy b risk =
    if is_suppressed policy risk
    then record b { suppressed = b.suppressed ++ (risk ∷ []) }
    else if meets_threshold policy risk
    then record b { blocking = b.blocking ++ (risk ∷ []) }
    else record b { warnings = b.warnings ++ (risk ∷ []) }

unfoldable pub sort_into : PolicyConfig → Buckets → List DetectedRisk → Buckets
sort_into policy b [] = b
sort_into policy b (risk ∷ risks) = sort_into policy (place policy b risk) risks

abbrev pub non_empty {ℓ} : {A : Type ℓ} → List A → Bool
non_empty [] = false
non_empty (x ∷ xs) = true

abbrev when : Bool → List String → List String
when true parts = parts
when false parts = []

pub risk_line : DetectedRisk → String
risk_line r =
    "  ["
    ⧺ r.rule
    ⧺ "] "
    ⧺ r.description
    ⧺ " ("
    ⧺ severity_name r.severity
    ⧺ ") at "
    ⧺ or_else r.location "unknown"

-- The reasons that are given before the verdict.
pub bucket_reasons : PolicyConfig → Buckets → List String
bucket_reasons policy b =
    when (non_empty b.blocking) (
      ("Blocked: "
        ⧺ show (length b.blocking)
        ⧺ " risk(s) at or above "
        ⧺ severity_name policy.block_threshold
        ⧺ " severity")
      ∷ (map risk_line (take 5 b.blocking)
          ++ when (ltb 5 (length b.blocking))
              (("  ...and " ⧺ show (length b.blocking - 5) ⧺ " more") ∷ [])))
    ++ (when (non_empty b.suppressed)
          ((show (length b.suppressed) ⧺ " risk(s) suppressed by policy allowlist") ∷ [])
        ++ when (non_empty b.warnings && not (non_empty b.blocking))
            ((show (length b.warnings) ⧺ " low-severity warning(s) detected") ∷ []))

unfoldable pub decide : PolicyConfig → Buckets → Decision
decide policy b =
    if non_empty b.blocking
    then blocked
    else if non_empty b.warnings && not policy.allow_warnings
    then blocked
    else if non_empty b.warnings
    then warning
    else approved

pub verdict_reasons : PolicyConfig → Buckets → List DetectedRisk → List String
verdict_reasons policy b risks =
    if non_empty b.blocking
    then []
    else if non_empty b.warnings && not policy.allow_warnings
    then "Policy does not allow warnings" ∷ []
    else if non_empty b.warnings
    then []
    else if non_empty risks
    then []
    else "No risks detected" ∷ []

abbrev pub no_buckets : Buckets
no_buckets = record { suppressed = []; blocking = []; warnings = [] }

unfoldable pub evaluate_policy : ScanResult → Option PartialConfig → PolicyEvaluation
evaluate_policy scan_result config =
    let policy = with_defaults config in
    let b = sort_into policy no_buckets scan_result.risks in
    record {
      decision = decide policy b;
      blocking_risks = b.blocking;
      suppressed_risks = b.suppressed;
      warning_risks = b.warnings;
      reasons = bucket_reasons policy b ++ verdict_reasons policy b scan_result.risks;
    }

pub get_effective_rules : Option PartialConfig → List ScanRule
get_effective_rules config =
    let policy = with_defaults config in
    filter
      (λ r.
        not (includes policy.allowed_rule_ids r.id)
        && not (includes policy.allowed_categories (category_name r.category)))
      scan_rules
    ++ policy.custom_deny_rules
