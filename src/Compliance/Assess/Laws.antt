-- ===== src/Compliance/Assess/Laws.antt =====
-- What an assessment says of the findings.
use devsec.Base.{
  ◌+◌, ◌≤◌, ◌<◌, ◌≡◌, ◌≢◌, ◌↔◌, refl, List, [], String, length, has, IsDistinct, arith,
}
use devsec.Compliance.Types.{
  compliant, non_compliant, not_assessed, Control, EnrichedFinding, ControlAssessment,
}
use devsec.Compliance.Assess.{Matched, match_all, assessment_of, assess_control}
use devsec.Compliance.Assess.Matches.{
  has_match, matching, first_of_each, ids, criticals, highs, IsMatched, Keeps, match_all-has,
  match_all-IsMatched, match_all-Keeps,
}

-- What an assessment of a control says of the findings.
pub record IsAssessed (c : Control) (fs : List EnrichedFinding) (a : ControlAssessment)
    : Type 0 where
  pub same_control : a.control ≡ c
  pub found_iff : (i : String) → has i a.findings ≡ has_match c i fs
  pub distinct : IsDistinct a.findings
  pub counted : a.finding_count ≡ length a.findings
  pub listed : a.findings ≡ ids (first_of_each [] (matching c fs))
  pub critical_count : a.critical_count ≡ criticals (first_of_each [] (matching c fs))
  pub high_count : a.high_count ≡ highs (first_of_each [] (matching c fs))
  pub bounded : a.critical_count + a.high_count ≤ a.finding_count
  pub compliant_iff : (a.status ≡ compliant) ↔ (a.finding_count ≡ 0)
  pub non_compliant_iff : (a.status ≡ non_compliant) ↔ (0 < a.critical_count + a.high_count)
  pub assessed : a.status ≢ not_assessed

abbrev no_match : Matched
no_match = record { findings = []; critical_count = 0; high_count = 0 }

assessment_of-IsAssessed :
    (c : Control) (fs : List EnrichedFinding) (m : Matched)
    → ((i : String) → has i m.findings ≡ has_match c i fs)
    → IsMatched m
    → Keeps no_match m (first_of_each [] (matching c fs))
    → IsAssessed c fs (assessment_of c m)
unfolding assessment_of
assessment_of-IsAssessed c fs m found k kept = record {
  same_control = refl;
  found_iff = found;
  distinct = k.distinct;
  counted = refl;
  listed = kept.listed;
  critical_count = omega (arith, kept.criticals);
  high_count = omega (arith, kept.highs);
  bounded = k.bounded;
  compliant_iff = ground arith;
  non_compliant_iff = ground (arith, k.bounded);
  assessed = ground arith;
}

-- An assessment lists, in order and without repetition, exactly the names of the findings that match
-- the control, by its key, its name or one of its weaknesses. It counts them, and the critical and the
-- high ones among the first findings of these names. Its status follows from the counts: compliant
-- without a finding, not compliant with a critical or a high one, partial otherwise, and never
-- unassessed.
pub assess_control-IsAssessed :
    (c : Control) (fs : List EnrichedFinding) → IsAssessed c fs (assess_control c fs)
unfolding assess_control
assess_control-IsAssessed c fs =
    assessment_of-IsAssessed c fs (match_all c fs no_match) (λ i. match_all-has c fs no_match i)
      (match_all-IsMatched c fs no_match (record { distinct = tt; bounded = ground arith }))
      (match_all-Keeps c fs no_match)
