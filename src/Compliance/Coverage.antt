-- ===== src/Compliance/Coverage.antt =====
-- internal/compliance/coverage.go: CoverageCalculator. The percentage, a float, is left out.
-- `cancelled` is the test of the context at the n-th framework.
pub mod Laws
use devsec.Base.{ℕ, ◌+◌, Bool, Option, none, some, List, [], ◌∷◌, String, length, if◌then◌else◌}
use devsec.Compliance.Types.{
  ControlStatus, compliant, non_compliant, partial, not_assessed, Control, ControlAssessment,
}

pub record CoverageStats : Type 0 where
  pub total_controls : ℕ
  pub assessed_controls : ℕ
  pub compliant_controls : ℕ
  pub gap_count : ℕ

-- The switch on a status.
tally_status : ControlStatus → CoverageStats → CoverageStats
tally_status compliant s = record s {
  assessed_controls = s.assessed_controls + 1;
  compliant_controls = s.compliant_controls + 1;
}
tally_status non_compliant s = record s {
  assessed_controls = s.assessed_controls + 1;
  gap_count = s.gap_count + 1;
}
tally_status partial s = record s {
  assessed_controls = s.assessed_controls + 1;
  gap_count = s.gap_count + 1;
}
tally_status not_assessed s = s

tally_framework : List ControlAssessment → CoverageStats → CoverageStats
unfolding tally_status
tally_framework [] s = s
tally_framework (a ∷ as') s = tally_framework as' (tally_status a.status s)

abbrev pub no_coverage : ℕ → CoverageStats
no_coverage total = record {
  total_controls = total;
  assessed_controls = 0;
  compliant_controls = 0;
  gap_count = 0;
}

-- calculateFrameworkCoverage
unfoldable pub calculate_framework_coverage : List ControlAssessment → CoverageStats
unfolding tally_framework
calculate_framework_coverage as' = tally_framework as' (no_coverage (length as'))

-- Calculate
unfoldable pub calculate :
    (cancelled : ℕ → Bool)
    → ℕ
    → List (String × List ControlAssessment)
    → Option (List (String × CoverageStats))
unfolding calculate_framework_coverage
calculate cancelled n [] = some []
calculate cancelled n ((framework, as') ∷ rest) =
    let on : Option (List (String × CoverageStats)) = elim (calculate cancelled (n + 1) rest) [
      | none ↦ none
      | some stats ↦ some ((framework, calculate_framework_coverage as') ∷ stats)
    ] in
    if cancelled n then none else on

-- The loop of CalculateOverall over the assessments of a framework.
tally_overall : List ControlAssessment → CoverageStats → CoverageStats
unfolding tally_status
tally_overall [] s = s
tally_overall (a ∷ as') s =
    tally_overall as' (tally_status a.status (record s { total_controls = s.total_controls + 1 }))

overall_from :
    (cancelled : ℕ → Bool)
    → ℕ
    → List (String × List ControlAssessment)
    → CoverageStats
    → Option CoverageStats
unfolding tally_overall
overall_from cancelled n [] s = some s
overall_from cancelled n ((framework, as') ∷ rest) s =
    let on = overall_from cancelled (n + 1) rest (tally_overall as' s) in
    if cancelled n then none else on

-- CalculateOverall
unfoldable pub calculate_overall :
    (cancelled : ℕ → Bool) → List (String × List ControlAssessment) → Option CoverageStats
unfolding overall_from
calculate_overall cancelled assessments = overall_from cancelled 0 assessments (no_coverage 0)

-- GetMissingControls
unfoldable pub get_missing_controls : List ControlAssessment → List Control
get_missing_controls [] = []
get_missing_controls (a ∷ as') =
    let rest = get_missing_controls as' in
    elim a.status [ not_assessed ↦ a.control ∷ rest | _ ↦ rest ]
