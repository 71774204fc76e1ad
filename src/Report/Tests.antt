-- ===== src/Report/Tests.antt =====
-- Findings of two scanners, and the theorems at them. The hash of a text is the text itself, and
-- folding keeps a text.
use devsec.Base.{ℕ, ◌≤◌, ◌≡◌, refl, arith, true, List, [], ◌∷◌, String, length, string_discrete}
use devsec.Model.{Finding, Severity, critical, low, high, other}
use devsec.Report.Severities.{normalize_severity, severity_text, severity_of_text}
use devsec.Report.Dedup.{deduplicate, generate_finding_key}
use devsec.Report.Dedup.Laws.{IsDeduplicated, deduplicate-IsDeduplicated}
use devsec.Report.Aggregator.{ScannerResult, new_aggregator, add_result, max_findings}
use devsec.Report.Aggregator.Laws.{IsAdded, add_result-IsAdded}

abbrev finding : String → Severity → String → Finding
finding id severity file = record {
  id = id;
  title = "";
  description = "";
  rule = "r";
  scanner = "semgrep";
  severity = severity;
  location = record { file = file; start_line = 1; end_line = 2; column = 1 };
}

abbrev findings : List Finding
findings =
    finding "1" critical "a.go" ∷ finding "2" low "b.go" ∷ finding "3" (other "error") "a.go" ∷ []

abbrev plain : String → String
plain s = s

abbrev one : ℕ → String
one n = "1"

two-left : length (deduplicate plain one findings) ≡ 2
unfolding deduplicate generate_finding_key string_discrete
two-left = refl

error-high : normalize_severity plain (other "error") ≡ high
unfolding normalize_severity severity_text severity_of_text
error-high = refl

deduplicate-IsDeduplicated_example :
    IsDeduplicated plain one findings (deduplicate plain one findings)
deduplicate-IsDeduplicated_example = deduplicate-IsDeduplicated plain one findings

abbrev semgrep : ScannerResult
semgrep = record { scanner = "semgrep"; findings = findings }

few : length (new_aggregator true).findings ≤ max_findings
few = ground arith

add_result-IsAdded_example :
    IsAdded semgrep (new_aggregator true) (add_result semgrep (new_aggregator true))
add_result-IsAdded_example = add_result-IsAdded semgrep (new_aggregator true) few
