-- ===== src/Security/Scanner/Lines.antt =====
-- Where a position of a source lies, and where the risks of `scanSource` of
-- apps/api/src/security/scanner.ts are.
use psychic_octo_invention.Prelude.{
  ℕ, suc, zero, ◌+◌, ◌-◌, ◌≤◌, ◌≡◌, ◌≢◌, refl, sym, ap, ◌∙◌, inl, inr, true, false, Option, some,
  List, [], ◌∷◌, ◌++◌, arith, All, All-append, In, Text, length, eqb, eqb→eq, Bool-cases, take,
  drop, head?, trim, or_else, show, ◌⧺◌, if◌then◌else◌, some_inj,
}
use psychic_octo_invention.Security.Types.{Regex, ScanRule, DetectedRisk}
use psychic_octo_invention.Security.Rules.{scan_rules}
use psychic_octo_invention.Security.Scanner.{
  split_lines, line_of, risk_at, risks_at, raw_risks, scan_source,
}
use psychic_octo_invention.Security.Scanner.Laws.{All-sort_risks}

-- The line feeds of a text.
pub newlines : Text → ℕ
newlines [] = 0
newlines (c ∷ s) = if eqb c 10 then suc (newlines s) else newlines s

-- A text that is empty or ends with a line feed, and one that is empty or starts with one.
abbrev pub EndsLine : Text → Type 0
EndsLine [] = Unit
EndsLine (c ∷ []) = c ≡ 10
EndsLine (c ∷ d ∷ s) = EndsLine (d ∷ s)

abbrev pub StartsLine : Text → Type 0
StartsLine [] = Unit
StartsLine (c ∷ s) = c ≡ 10

-- The line of a position: the text before it, the line, and the text after it.
pub record IsLine (source : Text) (index : ℕ) (before line after : Text) : Type 0 where
  pub split : source ≡ before ++ (line ++ after)
  pub from : EndsLine before
  pub whole : All (λ c. c ≢ 10) line
  pub to : StartsLine after
  pub starts : length before ≤ index
  pub ends : index ≤ length before + length line

-- The first line, and the lines behind it.
first_line :
    (s : Text)
    → (line after : Text) × (rest : List Text) × (s ≡ line ++ after)
      × All (λ c. c ≢ 10) line
      × StartsLine after
      × (split_lines s ≡ line ∷ rest)
unfolding split_lines
first_line [] = ([], [], [], refl, tt, tt, refl)
first_line (c ∷ s) =
    let (line, after, rest, e, whole, to, lines) = first_line s in
    elim (Bool-cases (eqb c 10)) [
      | inl nl ↦ ([], c ∷ s, line ∷ rest, refl, tt, eqb→eq c 10 nl, rw (lines, nl) refl)
      | inr other ↦ (
        c ∷ line,
        after,
        rest,
        ap (λ t. c ∷ t) e,
        ((λ q. (let nl : eqb c 10 ≡ true = ground arith in cc)), whole),
        to,
        rw (lines, other) refl,
      )
    ]

-- How the line is found in the list of lines, and how it is numbered.
record IsNumbered (source : Text) (index : ℕ) : Type 0 where
  before : Text
  line : Text
  after : Text
  place : IsLine source index before line after
  found : head? (drop (newlines before) (split_lines source)) ≡ some line
  number : line_of source index ≡ suc (newlines before)

lines_newline : (c : ℕ) (s : Text) → eqb c 10 ≡ true → split_lines (c ∷ s) ≡ [] ∷ split_lines s
unfolding split_lines
lines_newline c s nl =
    let (line, after, rest, e, whole, to, lines) = first_line s in rw (lines, nl) refl

lines_other :
    (c : ℕ) (s line : Text) (rest : List Text)
    → eqb c 10 ≡ false
    → split_lines s ≡ line ∷ rest
    → split_lines (c ∷ s) ≡ (c ∷ line) ∷ rest
unfolding split_lines
lines_other c s line rest other lines = rw (lines, other) refl

length-lines_other :
    (c : ℕ) (s : Text) → eqb c 10 ≡ false → length (split_lines (c ∷ s)) ≡ length (split_lines s)
length-lines_other c s other =
    let (line, after, rest, e, whole, to, lines) = first_line s in
    ap length (lines_other c s line rest other lines) ∙ ap length (sym lines)

EndsLine-newline : (c : ℕ) (before : Text) → c ≡ 10 → EndsLine before → EndsLine (c ∷ before)
EndsLine-newline c [] e h = e
EndsLine-newline c (b ∷ bs) e h = h

newlines-EndsLine : (b : ℕ) (bs : Text) → EndsLine (b ∷ bs) → (k : ℕ) × (newlines (b ∷ bs) ≡ suc k)
unfolding newlines
newlines-EndsLine b [] e = (0, rw e refl)
newlines-EndsLine b (d ∷ ds) e =
    let (k, h) = newlines-EndsLine d ds e in
    elim (Bool-cases (eqb b 10)) [
      | inl nl ↦ (suc k, rw nl (ap suc h))
      | inr other ↦ (k, rw other h)
    ]

module _ (c : ℕ) (s : Text) (i : ℕ) where
  after_newline : eqb c 10 ≡ true → IsNumbered s i → IsNumbered (c ∷ s) (suc i)
  unfolding newlines line_of
  after_newline nl n =
      let p = n.place in
      let count : newlines (c ∷ n.before) ≡ suc (newlines n.before) = rw nl refl in
      record {
        before = c ∷ n.before;
        line = n.line;
        after = n.after;
        place = record {
          split = ap (λ t. c ∷ t) p.split;
          from = EndsLine-newline c n.before (eqb→eq c 10 nl) p.from;
          whole = p.whole;
          to = p.to;
          starts = (let le = p.starts in omega arith);
          ends = (let le = p.ends in omega arith);
        };
        found = rw (count, lines_newline c s nl) n.found;
        number = ap length (lines_newline c (take i s) nl) ∙ ap suc n.number ∙ ap suc (sym count);
      }

  in_line :
      (before line after : Text)
      → eqb c 10 ≡ false
      → IsLine s i before line after
      → head? (drop (newlines before) (split_lines s)) ≡ some line
      → line_of s i ≡ suc (newlines before)
      → IsNumbered (c ∷ s) (suc i)
  unfolding newlines line_of
  in_line [] line after other p found number =
      let (first, more, rest, e, whole, to, lines) = first_line s in
      let same : first ≡ line = some_inj first line (ap (λ ls. head? ls) (sym lines) ∙ found) in
      record {
        before = [];
        line = c ∷ line;
        after = after;
        place = record {
          split = ap (λ t. c ∷ t) p.split;
          from = tt;
          whole = ((λ q. (let nl : eqb c 10 ≡ true = ground arith in cc)), p.whole);
          to = p.to;
          starts = omega arith;
          ends = (let le = p.ends in omega arith);
        };
        found =
            ap (λ ls. head? ls) (lines_other c s first rest other lines)
            ∙ ap (λ l. some (c ∷ l)) same;
        number = length-lines_other c (take i s) other ∙ number;
      }
  in_line (b ∷ bs) line after other p found number =
      let (first, more, rest, e, whole, to, lines) = first_line s in
      let (k, count) = newlines-EndsLine b bs p.from in
      let kept : newlines (c ∷ b ∷ bs) ≡ newlines (b ∷ bs) = rw other refl in
      record {
        before = c ∷ b ∷ bs;
        line = line;
        after = after;
        place = record {
          split = ap (λ t. c ∷ t) p.split;
          from = p.from;
          whole = p.whole;
          to = p.to;
          starts = (let le = p.starts in omega arith);
          ends = (let le = p.ends in omega arith);
        };
        found =
            ap (λ n. head? (drop n (split_lines (c ∷ s)))) (kept ∙ count)
            ∙ ap (λ ls. head? (drop (suc k) ls)) (lines_other c s first rest other lines)
            ∙ ap (λ ls. head? (drop (suc k) ls)) (sym lines)
            ∙ ap (λ n. head? (drop n (split_lines s))) (sym count)
            ∙ found;
        number = length-lines_other c (take i s) other ∙ number ∙ ap suc (sym kept);
      }

numbered : (source : Text) (index : ℕ) → index ≤ length source → IsNumbered source index
unfolding split_lines line_of newlines
numbered s zero le =
    let (line, after, rest, e, whole, to, lines) = first_line s in
    record {
      before = [];
      line = line;
      after = after;
      place = record {
        split = e;
        from = tt;
        whole = whole;
        to = to;
        starts = omega arith;
        ends = omega arith;
      };
      found = rw lines refl;
      number = refl;
    }
numbered [] (suc i) le = absurd (omega arith)
numbered (c ∷ s) (suc i) le =
    let n = numbered s i (omega arith) in
    elim (Bool-cases (eqb c 10)) [
      | inl nl ↦ after_newline c s i nl n
      | inr other ↦ in_line c s i n.before n.line n.after other n.place n.found n.number
    ]

module _ (exec_all : Regex → Text → List ℕ) (source : Text) where
  -- A risk is a match of a rule: it has the rule's name, severity and description, the number of the
  -- line in which the match starts, and at most 200 code units of that line without the white space
  -- around it.
  pub record IsMatch (rules : List ScanRule) (r : DetectedRisk) : Type 0 where
    pub rule : ScanRule
    pub index : ℕ
    pub listed : In rule rules
    pub matched : In index (exec_all rule.pattern source)
    pub named :
        (r.rule ≡ rule.id) × (r.severity ≡ rule.severity) × (r.description ≡ rule.description)
    pub before : Text
    pub shown : Text
    pub after : Text
    pub place : IsLine source index before shown after
    pub line : r.line ≡ some (suc (newlines before))
    pub location : r.location ≡ some ("line " ⧺ show (suc (newlines before)))
    pub snippet : r.snippet ≡ some (take 200 (trim shown))

  risk_at-IsMatch :
      (rules : List ScanRule) (rule : ScanRule) (index : ℕ)
      → In rule rules
      → In index (exec_all rule.pattern source)
      → index ≤ length source
      → IsMatch rules (risk_at source rule index)
  unfolding risk_at
  risk_at-IsMatch rules rule index listed matched le =
      let n = numbered source index le in
      let same : line_of source index - 1 ≡ newlines n.before = (let e = n.number in omega arith) in
      record {
        rule = rule;
        index = index;
        listed = listed;
        matched = matched;
        named = (refl, refl, refl);
        before = n.before;
        shown = n.line;
        after = n.after;
        place = n.place;
        line = ap some n.number;
        location = ap (λ k. some ("line " ⧺ show k)) n.number;
        snippet =
            ap (λ o. some (take 200 (trim (or_else o []))))
              (ap (λ k. head? (drop k (split_lines source))) same ∙ n.found);
      }

  risks_at-IsMatch :
      (rules : List ScanRule) (rule : ScanRule) (is : List ℕ)
      → In rule rules
      → ((i : ℕ) → In i is → In i (exec_all rule.pattern source))
      → All (λ i. i ≤ length source) is
      → All (IsMatch rules) (risks_at exec_all source rule is)
  unfolding risks_at
  risks_at-IsMatch rules rule [] listed matched le = tt
  risks_at-IsMatch rules rule (i ∷ is) listed matched le = (
    risk_at-IsMatch rules rule i listed (matched i (inl refl)) le.0,
    risks_at-IsMatch rules rule is listed (λ j m. matched j (inr m)) le.1,
  )

  raw_risks-IsMatch :
      (all_rules rules : List ScanRule)
      → ((rule : ScanRule) → In rule rules → In rule all_rules)
      → ((pattern : Regex) → All (λ i. i ≤ length source) (exec_all pattern source))
      → All (IsMatch all_rules) (raw_risks exec_all source rules)
  unfolding raw_risks
  raw_risks-IsMatch all_rules [] sub range = tt
  raw_risks-IsMatch all_rules (rule ∷ rules) sub range =
      All-append (IsMatch all_rules) _ _
        (risks_at-IsMatch all_rules rule (exec_all rule.pattern source) (sub rule (inl refl))
          (λ i m. m) (range rule.pattern))
        (raw_risks-IsMatch all_rules rules (λ r m. sub r (inr m)) range)

  -- Every risk of a scan is a match of one of the rules that are used, and it has the name, the
  -- severity and the description of the rule. Its line number is one more than the line feeds before
  -- the line in which the match starts, and its snippet is that line without the white space around
  -- it, cut to 200 code units. The engine's matches are taken to start within the source.
  pub scan_source-IsMatch :
      (rules : Option (List ScanRule))
      → ((pattern : Regex) → All (λ i. i ≤ length source) (exec_all pattern source))
      → All (IsMatch (or_else rules scan_rules)) (scan_source exec_all source rules).risks
  unfolding scan_source
  scan_source-IsMatch rules range =
      let active = or_else rules scan_rules in
      All-sort_risks (IsMatch active) _ (raw_risks-IsMatch active active (λ r m. m) range)
