-- ===== src/Runners/Frameworks.antt =====
-- internal/pipeline/runner.go: parseFrameworks and calculateComplianceSummary of the compliance runner.
-- `split` is strings.Split at commas, and `fold` ToLower followed by TrimSpace.
use devsec.Base.{
  ℕ, ◌+◌, ◌≡◌, refl, List, [], ◌∷◌, String, if◌then◌else◌, text_eq, arith, length, map, ap, ◌∙◌,
}
use devsec.Compliance.Types.{
  ControlStatus, compliant, non_compliant, partial, not_assessed, ControlAssessment,
}

-- The constants of FrameworkID.
pub data FrameworkId : Type 0 where
  soc2 iso27001 gdpr : FrameworkId

-- string(fwID)
unfoldable pub framework_text : FrameworkId → String
framework_text soc2 = "soc2"
framework_text iso27001 = "iso27001"
framework_text gdpr = "gdpr"

-- The switch of parseFrameworks, in front of the frameworks of the parts behind.
add_framework : String → List FrameworkId → List FrameworkId
add_framework part rest =
    if text_eq part "soc2"
    then soc2 ∷ rest
    else if text_eq part "iso27001"
    then iso27001 ∷ rest
    else if text_eq part "gdpr"
    then gdpr ∷ rest
    else rest

parse_parts : (fold : String → String) → List String → List FrameworkId
unfolding add_framework
parse_parts fold [] = []
parse_parts fold (part ∷ parts) =
    let rest = parse_parts fold parts in add_framework (fold part) rest

-- parseFrameworks
unfoldable pub parse_frameworks :
    (split : String → List String) → (fold : String → String) → String → List FrameworkId
unfolding parse_parts
parse_frameworks split fold config = parse_parts fold (split config)

pub record FrameworkSummary : Type 0 where
  pub total_controls : ℕ
  pub compliant : ℕ
  pub non_compliant : ℕ
  pub partial : ℕ
  pub not_assessed : ℕ
  pub total_findings : ℕ

count_status : ControlStatus → FrameworkSummary → FrameworkSummary
count_status compliant s = record s { compliant = s.compliant + 1 }
count_status non_compliant s = record s { non_compliant = s.non_compliant + 1 }
count_status partial s = record s { partial = s.partial + 1 }
count_status not_assessed s = record s { not_assessed = s.not_assessed + 1 }

count_assessments : List ControlAssessment → FrameworkSummary → FrameworkSummary
unfolding count_status
count_assessments [] s = s
count_assessments (a ∷ as') s =
    count_assessments as'
      (count_status a.status (record s { total_findings = s.total_findings + a.finding_count }))

abbrev no_statuses : ℕ → FrameworkSummary
no_statuses n = record {
  total_controls = n;
  compliant = 0;
  non_compliant = 0;
  partial = 0;
  not_assessed = 0;
  total_findings = 0;
}

-- The entry of one framework.
unfoldable pub summarize_framework : List ControlAssessment → FrameworkSummary
unfolding count_assessments
summarize_framework as' = count_assessments as' (no_statuses (length as'))

-- calculateComplianceSummary, over the entries of the map in the order of the loop.
unfoldable pub calculate_compliance_summary :
    List (FrameworkId × List ControlAssessment) → List (FrameworkId × FrameworkSummary)
unfolding summarize_framework
calculate_compliance_summary [] = []
calculate_compliance_summary ((id, as') ∷ rest) =
    (id, summarize_framework as') ∷ calculate_compliance_summary rest

-- The findings of all assessments.
abbrev pub all_findings : List ControlAssessment → ℕ
all_findings [] = 0
all_findings (a ∷ as') = a.finding_count + all_findings as'

abbrev statuses : FrameworkSummary → ℕ
statuses s = s.compliant + s.non_compliant + s.partial + s.not_assessed

count_status-statuses :
    (c : ControlStatus) (s : FrameworkSummary)
    → (statuses (count_status c s) ≡ statuses s + 1)
      × ((count_status c s).total_findings ≡ s.total_findings)
      × ((count_status c s).total_controls ≡ s.total_controls)
unfolding count_status
count_status-statuses compliant s = (omega arith, refl, refl)
count_status-statuses non_compliant s = (omega arith, refl, refl)
count_status-statuses partial s = (omega arith, refl, refl)
count_status-statuses not_assessed s = (omega arith, refl, refl)

count_assessments-statuses :
    (as' : List ControlAssessment) (s : FrameworkSummary)
    → (statuses (count_assessments as' s) ≡ statuses s + length as')
      × ((count_assessments as' s).total_findings ≡ s.total_findings + all_findings as')
      × ((count_assessments as' s).total_controls ≡ s.total_controls)
unfolding count_assessments
count_assessments-statuses [] s = (omega arith, omega arith, refl)
count_assessments-statuses (a ∷ as') s =
    let s' = record s { total_findings = s.total_findings + a.finding_count } in
    let (n, f, t) = count_status-statuses a.status s' in
    let (n', f', t') = count_assessments-statuses as' (count_status a.status s') in
    (omega (arith, n, n'), omega (arith, f, f'), omega (arith, t, t'))

-- In the summary of a framework, the four statuses add up to the controls, and the findings are those
-- of all assessments.
pub summarize_framework-statuses :
    (as' : List ControlAssessment)
    → let s = summarize_framework as' in
      (s.compliant + s.non_compliant + s.partial + s.not_assessed ≡ s.total_controls)
      × (s.total_controls ≡ length as')
      × (s.total_findings ≡ all_findings as')
unfolding summarize_framework
summarize_framework-statuses as' =
    let (n, f, t) = count_assessments-statuses as' (no_statuses (length as')) in
    (omega (arith, n, t), omega (arith, t), omega (arith, f))

-- Folding the name of a framework changes nothing.
abbrev pub Folded : (String → String) → Type 0
Folded fold = (id : FrameworkId) → fold (framework_text id) ≡ framework_text id

parse_parts-names :
    (fold : String → String) (ids : List FrameworkId)
    → Folded fold
    → parse_parts fold (map framework_text ids) ≡ ids
unfolding parse_parts framework_text add_framework
parse_parts-names fold [] h = refl
parse_parts-names fold (soc2 ∷ ids) h = rw (h soc2, parse_parts-names fold ids h) refl
parse_parts-names fold (iso27001 ∷ ids) h = rw (h iso27001, parse_parts-names fold ids h) refl
parse_parts-names fold (gdpr ∷ ids) h = rw (h gdpr, parse_parts-names fold ids h) refl

-- From a configuration that splits into names of frameworks, and where folding keeps those names,
-- parseFrameworks reads these frameworks, in their order and with their repetitions.
pub parse_frameworks-names :
    (split : String → List String) (fold : String → String) (config : String)
    (ids : List FrameworkId)
    → Folded fold
    → split config ≡ map framework_text ids
    → parse_frameworks split fold config ≡ ids
unfolding parse_frameworks
parse_frameworks-names split fold config ids folded h =
    ap (parse_parts fold) h ∙ parse_parts-names fold ids folded
