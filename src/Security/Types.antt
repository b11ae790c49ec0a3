-- ===== src/Security/Types.antt =====
-- The types of apps/api/src/security/scanner.ts and `DetectedRisk` of packages/shared.
use psychic_octo_invention.Prelude.{ℕ, String, Bool, Option, List, Text}

pub data Severity : Type 0 where
  critical high medium low : Severity

pub data Category : Type 0 where
  os_command shell_exec filesystem network dynamic_code env_access subprocess import_risk : Category

-- A regular expression literal. Its matching is the engine's.
pub record Regex : Type 0 where
  pub source : String
  pub flags : String

pub record ScanRule : Type 0 where
  pub id : String
  pub severity : Severity
  pub description : String
  pub pattern : Regex
  pub category : Category

pub record DetectedRisk : Type 0 where
  pub rule : String
  pub severity : Severity
  pub description : String
  pub location : Option String
  pub line : Option ℕ
  pub snippet : Option Text

pub record ScanResult : Type 0 where
  pub risks : List DetectedRisk
  pub scanned_rules : ℕ
  pub passed : Bool
