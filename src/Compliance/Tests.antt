-- ===== src/Compliance/Tests.antt =====
-- Two controls, three findings, and the theorems at them.
use mathlib.Core.List.Perm
use devsec.Base.{
  string_discrete, arith, true, inr, ◌≡◌, ◌≢◌, ◌≤◌, refl, false, some, List, [], ◌∷◌, String,
  length,
}
use devsec.Model.{Severity}
use devsec.Compliance.Types.{
  compliant, partial, Control, EnrichedFinding, ControlAssessment, Gap, max_gaps,
}
use devsec.Compliance.Assess.{assess_control, assess_framework, matches}
use devsec.Compliance.Assess.Laws.{IsAssessed, assess_control-IsAssessed}
use devsec.Compliance.Gap.{analyze}
use devsec.Compliance.Gap.Laws.{all_gaps, analyze-bound, analyze-all_gaps}
use devsec.Compliance.Generate.{generate_from_assessments}
use devsec.Compliance.Generate.Laws.{Fits, IsReportOf, generate_from_assessments-IsReportOf}
use devsec.Compliance.Book.{Book}
use devsec.Compliance.Coverage.{calculate_framework_coverage}
use devsec.Compliance.Coverage.Laws.{IsCoverage, calculate_framework_coverage-IsCoverage, flatten}

abbrev finding : String → Severity → List String → EnrichedFinding
finding id severity cwes = record {
  control_ids = [];
  cwe_ids = cwes;
  cve_ids = [];
  finding = record {
    id = id;
    title = "";
    description = "";
    rule = "r";
    scanner = "semgrep";
    severity = severity;
    location = record { file = "a.go"; start_line = 1; end_line = 1; column = 1 };
  };
}

abbrev control : String → List String → Control
control id cwes = record {
  id = id;
  framework = "soc2";
  category = "Common Criteria";
  cwe_mappings = cwes;
}

abbrev access : Control
access = control "CC6.1" ("CWE-79" ∷ "CWE-89" ∷ [])

abbrev change : Control
change = control "CC8.1" ("CWE-20" ∷ [])

abbrev findings : List EnrichedFinding
findings =
    finding "1" Severity.low ("CWE-79" ∷ [])
    ∷ finding "2" Severity.medium ("CWE-89" ∷ [])
    ∷ finding "1" Severity.low ("CWE-79" ∷ [])
    ∷ []

abbrev assessments : List (String × List ControlAssessment)
assessments = ("soc2", assess_framework (access ∷ change ∷ []) findings) ∷ []

access-partial : (assess_control access findings).status ≡ partial
unfolding assess_control matches string_discrete
access-partial = refl

access-findings : (assess_control access findings).findings ≡ "1" ∷ "2" ∷ []
unfolding assess_control matches string_discrete
access-findings = refl

change-compliant : (assess_control change findings).status ≡ compliant
unfolding assess_control matches string_discrete
change-compliant = refl

one_gap : length (all_gaps assessments) ≡ 1
unfolding assess_framework assess_control matches string_discrete
one_gap = refl

abbrev kept : List Gap → List Gap
kept gs = gs

access-not_compliant : (assess_control access findings).status ≢ compliant
access-not_compliant = λ e. cc (access-partial)

few : length (all_gaps assessments) ≤ max_gaps
few = ground (arith, one_gap)

analyzed : analyze kept (λ i. false) assessments ≡ some (all_gaps assessments)
analyzed = analyze-all_gaps kept (λ i. false) assessments (λ i. refl) few

assess_control-IsAssessed_example : IsAssessed access findings (assess_control access findings)
assess_control-IsAssessed_example = assess_control-IsAssessed access findings

analyze-all_gaps_example : analyze kept (λ i. false) assessments ≡ some (all_gaps assessments)
analyze-all_gaps_example = analyze-all_gaps kept (λ i. false) assessments (λ i. refl) few

analyze-bound_example : length (all_gaps assessments) ≤ max_gaps
analyze-bound_example =
    analyze-bound kept (λ i. false) assessments (all_gaps assessments) (λ gs. Perm.refl gs) analyzed

calculate_framework_coverage-IsCoverage_example :
    IsCoverage (calculate_framework_coverage (flatten assessments)) (flatten assessments)
calculate_framework_coverage-IsCoverage_example =
    calculate_framework_coverage-IsCoverage (flatten assessments)

abbrev unordered : List (String × List ControlAssessment) → List (String × List ControlAssessment)
unordered m = m

assessments-Fits : Fits assessments
unfolding assess_framework
assessments-Fits = ((refl, omega arith), tt)

generate_from_assessments-IsReportOf_example :
    (b : Book) × (generate_from_assessments kept unordered unordered
        (λ i. false)
        true
        false
        false
        assessments
      ≡ inr b)
    × IsReportOf kept unordered unordered (λ i. false) true assessments b
generate_from_assessments-IsReportOf_example =
    generate_from_assessments-IsReportOf kept unordered unordered (λ i. false) true assessments
      (refl, tt) assessments-Fits (λ gs. Perm.refl gs) (λ i. refl) few
