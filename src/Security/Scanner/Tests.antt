-- ===== src/Security/Scanner/Tests.antt =====
-- A scan with an engine that takes every pattern literally.
use psychic_octo_invention.Prelude.{
  ℕ, ◌+◌, ◌≤◌, ◌≡◌, refl, inl, inr, false, arith, length, Bool-cases, none, some, List, [], ◌∷◌,
  All, Text, codes, starts_with, show, if◌then◌else◌,
}
use psychic_octo_invention.Security.Types.{Regex, critical}
use psychic_octo_invention.Security.Scanner.{
  line_of, risk_at, insert_risk, sort_risks, risks_at, raw_risks, scan_source,
}
use psychic_octo_invention.Security.Rules.{scan_rules}
use psychic_octo_invention.Security.Scanner.Lines.{IsMatch, scan_source-IsMatch}

abbrev literal_from : Text → ℕ → Text → List ℕ
literal_from pattern i [] = []
literal_from pattern i (c ∷ s) =
    let rest = literal_from pattern (i + 1) s in
    if starts_with (c ∷ s) pattern then i ∷ rest else rest

abbrev pub literal : Regex → Text → List ℕ
literal r s = literal_from (codes r.source) 0 s

abbrev source : Text
source = codes "const a = 1;\n  import 'child_process'; // child_process\n"

scan_test :
    ((scan_source literal source none).passed ≡ false)
    × ((scan_source literal source none).risks
        ≡ record {
          rule = "SEC-010";
          severity = critical;
          description = "Node.js child_process execution";
          location = some "line 2";
          line = some 2;
          snippet = some (codes "import 'child_process'; // child_process");
        }
          ∷ record {
            rule = "SEC-010";
            severity = critical;
            description = "Node.js child_process execution";
            location = some "line 2";
            line = some 2;
            snippet = some (codes "import 'child_process'; // child_process");
          }
          ∷ [])
unfolding line_of risk_at insert_risk sort_risks risks_at raw_risks scan_source show
scan_test = (refl, refl)

-- The engine's matches start within the source.
literal_from-within :
    (pattern : Text) (i n : ℕ) (s : Text)
    → i + length s ≤ n
    → All (λ j. j ≤ n) (literal_from pattern i s)
literal_from-within pattern i n [] le = tt
literal_from-within pattern i n (c ∷ s) le =
    let rest = literal_from-within pattern (i + 1) n s (omega arith) in
    elim (Bool-cases (starts_with (c ∷ s) pattern)) [
      | inl e ↦ rw e ((omega arith), rest)
      | inr e ↦ rw e rest
    ]

scan_source-IsMatch_example :
    All (IsMatch literal source scan_rules) (scan_source literal source none).risks
scan_source-IsMatch_example =
    scan_source-IsMatch literal source none
      (λ pattern. literal_from-within (codes pattern.source) 0 (length source) source (omega arith))
