-- ===== src/Compliance/Gap.antt =====
-- internal/compliance/gap.go: GapAnalyzer. Texts are left out. `cancelled` is the test of the context
-- at the n-th framework, the frameworks come in the order in which the loop meets them, and `sort` is
-- sort.Slice by descending severity.
pub mod Laws
pub mod Counts
use devsec.Base.{
  ℕ, ◌+◌, Bool, true, false, Option, none, some, List, [], ◌∷◌, ◌++◌, String, length, if◌then◌else◌,
  text_eq, ltb, leb,
}
use devsec.Compliance.Types.{
  ControlStatus, non_compliant, partial, ControlAssessment, Gap, GapSeverity, critical, high,
  medium, low, max_gaps,
}

-- determineSeverity
unfoldable pub determine_severity : ControlAssessment → GapSeverity
determine_severity a =
    if ltb 0 a.critical_count
    then critical
    else if ltb 0 a.high_count
    then high
    else if ltb 0 a.finding_count
    then low
    else medium

-- createGap
unfoldable pub create_gap : ControlAssessment → Gap
unfolding determine_severity
create_gap a = record {
  severity = determine_severity a;
  control = a.control;
  finding_ids = a.findings;
  finding_count = a.finding_count;
}

abbrev pub is_gap : ControlStatus → Bool
is_gap non_compliant = true
is_gap partial = true
is_gap _ = false

-- The loop over the assessments of a framework.
collect : List ControlAssessment → List Gap → List Gap
unfolding create_gap
collect [] gaps = gaps
collect (a ∷ as') gaps =
    let on = collect as' (if is_gap a.status then gaps ++ create_gap a ∷ [] else gaps) in
    if leb max_gaps (length gaps) then gaps else on

-- The loop over the frameworks. none is the error of the context.
collect_all :
    (cancelled : ℕ → Bool)
    → ℕ
    → List (String × List ControlAssessment)
    → List Gap
    → Option (List Gap)
unfolding collect
collect_all cancelled n [] gaps = some gaps
collect_all cancelled n ((framework, as') ∷ rest) gaps =
    let on = collect_all cancelled (n + 1) rest (collect as' gaps) in
    if cancelled n then none else if leb max_gaps (length gaps) then some gaps else on

sorted_gaps : (sort : List Gap → List Gap) → Option (List Gap) → Option (List Gap)
sorted_gaps sort none = none
sorted_gaps sort (some gaps) = some (sort gaps)

-- Analyze
unfoldable pub analyze :
    (sort : List Gap → List Gap)
    → (cancelled : ℕ → Bool) → List (String × List ControlAssessment)
    → Option (List Gap)
unfolding collect_all sorted_gaps
analyze sort cancelled assessments = sorted_gaps sort (collect_all cancelled 0 assessments [])

-- severityOrder
unfoldable pub severity_order : GapSeverity → ℕ
severity_order critical = 4
severity_order high = 3
severity_order medium = 2
severity_order low = 1

-- GetCriticalGaps
unfoldable pub get_critical_gaps : List Gap → List Gap
get_critical_gaps [] = []
get_critical_gaps (g ∷ gs) =
    let rest = get_critical_gaps gs in elim g.severity [ critical ↦ g ∷ rest | _ ↦ rest ]

-- GetHighGaps
unfoldable pub get_high_gaps : List Gap → List Gap
get_high_gaps [] = []
get_high_gaps (g ∷ gs) =
    let rest = get_high_gaps gs in
    elim g.severity [ critical ↦ g ∷ rest | high ↦ g ∷ rest | _ ↦ rest ]

pub record GapSummary : Type 0 where
  pub by_framework : List (String × ℕ)
  pub total_gaps : ℕ
  pub critical_count : ℕ
  pub high_count : ℕ
  pub medium_count : ℕ
  pub low_count : ℕ

-- summary.ByFramework[framework]++
count_framework : String → List (String × ℕ) → List (String × ℕ)
count_framework f [] = (f, 1) ∷ []
count_framework f ((g, n) ∷ m) =
    if text_eq g f then (g, n + 1) ∷ m else (g, n) ∷ count_framework f m

tally_severity : GapSeverity → GapSummary → GapSummary
tally_severity critical s = record s { critical_count = s.critical_count + 1 }
tally_severity high s = record s { high_count = s.high_count + 1 }
tally_severity medium s = record s { medium_count = s.medium_count + 1 }
tally_severity low s = record s { low_count = s.low_count + 1 }

tally_gap : Gap → GapSummary → GapSummary
unfolding tally_severity count_framework
tally_gap g s =
    let s' = tally_severity g.severity s in
    record s' { by_framework = count_framework g.control.framework s.by_framework }

tally_gaps : List Gap → GapSummary → GapSummary
unfolding tally_gap
tally_gaps [] s = s
tally_gaps (g ∷ gs) s = tally_gaps gs (tally_gap g s)

-- Summarize
unfoldable pub summarize_gaps : List Gap → GapSummary
unfolding tally_gaps
summarize_gaps gaps = tally_gaps gaps (record {
  by_framework = [];
  total_gaps = length gaps;
  critical_count = 0;
  high_count = 0;
  medium_count = 0;
  low_count = 0;
})
