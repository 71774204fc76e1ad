-- ===== src/Compliance/Types.antt =====
-- internal/compliance/compliance.go: controls, findings with their compliance data, assessments and
-- gaps. Titles, rationales, evidence, scores and remediation texts are left out.
use devsec.Base.{ℕ, List, String}
use devsec.Model.{Finding}

pub data ControlStatus : Type 0 where
  compliant non_compliant partial not_assessed : ControlStatus

pub record Control : Type 0 where
  pub id : String
  pub framework : String
  pub category : String
  pub cwe_mappings : List String

pub record EnrichedFinding : Type 0 where
  pub control_ids : List String
  pub cwe_ids : List String
  pub cve_ids : List String
  pub finding : Finding

pub record ControlAssessment : Type 0 where
  pub status : ControlStatus
  pub control : Control
  pub findings : List String
  pub finding_count : ℕ
  pub critical_count : ℕ
  pub high_count : ℕ

-- The texts of a gap's severity.
pub data GapSeverity : Type 0 where
  critical high medium low : GapSeverity

pub record Gap : Type 0 where
  pub severity : GapSeverity
  pub control : Control
  pub finding_ids : List String
  pub finding_count : ℕ

abbrev pub max_controls : ℕ
max_controls = 10000

abbrev pub max_gaps : ℕ
max_gaps = 5000
