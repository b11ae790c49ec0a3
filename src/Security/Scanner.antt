-- ===== src/Security/Scanner.antt =====
-- `scanSource` of apps/api/src/security/scanner.ts. The regular expression engine is the parameter
-- `exec_all`: the start indices of the successive matches of a global pattern in a source.
pub mod Laws
pub mod Lines
mod Tests
use psychic_octo_invention.Prelude.{
  ℕ, suc, ◌+◌, ◌-◌, String, Bool, true, false, not, ◌&&◌, ◌||◌, Option, none, some, List, [], ◌∷◌,
  ◌++◌, Text, trim, take, drop, head?, or_else, leb, eqb, any, length, if◌then◌else◌, ◌⧺◌, show,
}
use psychic_octo_invention.Security.Types.{
  Severity, critical, high, medium, low, Regex, ScanRule, DetectedRisk, ScanResult,
}
use psychic_octo_invention.Security.Rules.{scan_rules}

-- `text.split('\n')`
unfoldable pub split_lines : Text → List Text
split_lines [] = [] ∷ []
split_lines (c ∷ s) = elim (split_lines s) [
  | [] ↦ (c ∷ []) ∷ []
  | l ∷ ls ↦ if eqb c 10 then [] ∷ l ∷ ls else (c ∷ l) ∷ ls
]

unfoldable pub line_of : Text → ℕ → ℕ
unfolding split_lines
line_of source index = length (split_lines (take index source))

unfoldable pub risk_at : Text → ScanRule → ℕ → DetectedRisk
risk_at source rule index =
    let line_number = line_of source index in
    record {
      rule = rule.id;
      severity = rule.severity;
      description = rule.description;
      location = some ("line " ⧺ show line_number);
      line = some line_number;
      snippet =
          some (take 200 (trim (or_else (head? (drop (line_number - 1) (split_lines source))) [])));
    }

-- `severityOrder`
abbrev pub severity_order : Severity → ℕ
severity_order critical = 0
severity_order high = 1
severity_order medium = 2
severity_order low = 3

-- `risks.sort((a, b) => order(a) - order(b))`, which is stable.
unfoldable pub insert_risk : DetectedRisk → List DetectedRisk → List DetectedRisk
insert_risk r [] = r ∷ []
insert_risk r (x ∷ xs) =
    if leb (severity_order r.severity) (severity_order x.severity)
    then r ∷ x ∷ xs
    else x ∷ insert_risk r xs

unfoldable pub sort_risks : List DetectedRisk → List DetectedRisk
sort_risks [] = []
sort_risks (r ∷ rs) = insert_risk r (sort_risks rs)

abbrev pub is_critical : Severity → Bool
is_critical critical = true
is_critical high = false
is_critical medium = false
is_critical low = false

abbrev pub is_high : Severity → Bool
is_high critical = false
is_high high = true
is_high medium = false
is_high low = false

module _ (exec_all : Regex → Text → List ℕ) where
  unfoldable pub risks_at : Text → ScanRule → List ℕ → List DetectedRisk
  risks_at source rule [] = []
  risks_at source rule (i ∷ is) = risk_at source rule i ∷ risks_at source rule is

  -- The loop over the rules, and over the matches of each.
  unfoldable pub raw_risks : Text → List ScanRule → List DetectedRisk
  raw_risks source [] = []
  raw_risks source (rule ∷ rules) =
      risks_at source rule (exec_all rule.pattern source) ++ raw_risks source rules

  unfoldable pub scan_source : Text → Option (List ScanRule) → ScanResult
  scan_source source rules =
      let active = or_else rules scan_rules in
      let risks = sort_risks (raw_risks source active) in
      record {
        risks = risks;
        scanned_rules = length active;
        passed =
            not (any (λ r. is_critical r.severity) risks)
            && not (any (λ r. is_high r.severity) risks);
      }
