-- ===== src/Compliance/Assess.antt =====
-- internal/compliance/mapper.go: the assessment of a control and of a framework's controls.
pub mod Matches
pub mod Laws
use Prim.Native.String.{◌++◌ as text_append}
use devsec.Base.{
  ℕ, ◌+◌, Bool, true, false, ◌||◌, List, [], ◌∷◌, ◌++◌, String, length, has, if◌then◌else◌, text_eq,
  ltb, leb, ◌==◌,
}
use devsec.Model.{Severity, critical, high}
use devsec.Compliance.Types.{
  compliant, non_compliant, partial, Control, EnrichedFinding, ControlAssessment, max_controls,
}

-- The key of a control in a finding's list of controls.
abbrev pub control_key : Control → String
control_key c = text_append (text_append c.framework ":") c.id

unfoldable pub names_control : Control → List String → Bool
names_control c [] = false
names_control c (i ∷ ids) = text_eq i (control_key c) || text_eq i c.id || names_control c ids

unfoldable pub names_cwe : Control → List String → Bool
names_cwe c [] = false
names_cwe c (i ∷ ids) = has i c.cwe_mappings || names_cwe c ids

-- The test of assessControl on a finding.
unfoldable pub matches : Control → EnrichedFinding → Bool
unfolding names_control names_cwe
matches c f = names_control c f.control_ids || names_cwe c f.cwe_ids

-- What the loop of assessControl keeps: matchedFindings, whose members are the set of the matched
-- ones, and two counts.
pub record Matched : Type 0 where
  pub findings : List String
  pub critical_count : ℕ
  pub high_count : ℕ

count_severity : Severity → Matched → Matched
count_severity critical m = record m { critical_count = m.critical_count + 1 }
count_severity high m = record m { high_count = m.high_count + 1 }
count_severity _ m = m

take_match : (seen matched : Bool) → EnrichedFinding → Matched → Matched
unfolding count_severity
take_match true matched f m = m
take_match false false f m = m
take_match false true f m =
    count_severity f.finding.severity (record m { findings = m.findings ++ f.finding.id ∷ [] })

-- The body of the loop.
match_finding : Control → EnrichedFinding → Matched → Matched
unfolding matches take_match
match_finding c f m = take_match (has f.finding.id m.findings) (matches c f) f m

pub match_all : Control → List EnrichedFinding → Matched → Matched
unfolding match_finding
match_all c [] m = m
match_all c (f ∷ fs) m = match_all c fs (match_finding c f m)

assessment_of : Control → Matched → ControlAssessment
assessment_of c m = record {
  status =
      if length m.findings == 0
      then compliant
      else if ltb 0 m.critical_count || ltb 0 m.high_count
      then non_compliant
      else partial;
  control = c;
  findings = m.findings;
  finding_count = length m.findings;
  critical_count = m.critical_count;
  high_count = m.high_count;
}

-- assessControl
unfoldable pub assess_control : Control → List EnrichedFinding → ControlAssessment
unfolding match_all assessment_of
assess_control c fs =
    assessment_of c (match_all c fs (record { findings = []; critical_count = 0; high_count = 0 }))

-- The loop of assessFramework, behind the first assessments.
assess_from : ℕ → List Control → List EnrichedFinding → List ControlAssessment
unfolding assess_control
assess_from n [] fs = []
assess_from n (c ∷ cs) fs =
    let rest = assess_from (n + 1) cs fs in
    if leb max_controls n then [] else assess_control c fs ∷ rest

-- assessFramework
unfoldable pub assess_framework : List Control → List EnrichedFinding → List ControlAssessment
unfolding assess_from
assess_framework controls fs = assess_from 0 controls fs
