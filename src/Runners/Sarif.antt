-- ===== src/Runners/Sarif.antt =====
-- internal/pipeline/runner.go: the SARIF results of a report, before they are encoded as JSON.
use devsec.Base.{ℕ, List, [], ◌∷◌, String}
use devsec.Model.{Severity, critical, high, medium, Finding}

pub data SarifLevel : Type 0 where
  error warning note : SarifLevel

-- severityToSARIFLevel
unfoldable pub severity_to_sarif_level : Severity → SarifLevel
severity_to_sarif_level critical = error
severity_to_sarif_level high = error
severity_to_sarif_level medium = warning
severity_to_sarif_level _ = note

-- An entry of `results`.
pub record SarifResult : Type 0 where
  pub rule_id : String
  pub level : SarifLevel
  pub message : String
  pub uri : String
  pub start_line : ℕ
  pub end_line : ℕ

-- findingsToSARIFResults
unfoldable pub findings_to_sarif_results : List Finding → List SarifResult
unfolding severity_to_sarif_level
findings_to_sarif_results [] = []
findings_to_sarif_results (f ∷ fs) =
    record {
      rule_id = f.rule;
      level = severity_to_sarif_level f.severity;
      message = f.description;
      uri = f.location.file;
      start_line = f.location.start_line;
      end_line = f.location.end_line;
    }
    ∷ findings_to_sarif_results fs
