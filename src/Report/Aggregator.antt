-- ===== src/Report/Aggregator.antt =====
-- internal/report/aggregator.go: Aggregator. The lock makes each operation one step. Times, versions
-- and durations are left out. `sort` is sort.Slice by severity and file, and `stopped` the test of the
-- context.
pub mod Laws
use Prim.Native.String.{len}
use devsec.Base.{
  ℕ, ◌+◌, Bool, true, false, Option, none, some, List, [], ◌∷◌, ◌++◌, String, length, if◌then◌else◌,
  text_eq, ltb,
}
use devsec.Model.{Finding, Summary}
use devsec.Report.Severities.{normalize_severities, calculate_summary}
use devsec.Report.Dedup.{deduplicate}

abbrev pub max_findings : ℕ
max_findings = 100000

abbrev pub max_scanner_name_length : ℕ
max_scanner_name_length = 256

pub record ScannerResult : Type 0 where
  pub scanner : String
  pub findings : List Finding

pub record Aggregator : Type 0 where
  pub scanner_results : List (String × ScannerResult)
  pub findings : List Finding
  pub dedupe_enabled : Bool

pub data AddError : Type 0 where
  empty_scanner_name scanner_name_too_long findings_limit_exceeded : AddError

-- New, with or without WithDeduplication.
abbrev pub new_aggregator : (dedupe_enabled : Bool) → Aggregator
new_aggregator dedupe_enabled = record {
  scanner_results = [];
  findings = [];
  dedupe_enabled = dedupe_enabled;
}

-- a.scannerResults[scanner] = result
store : String → ScannerResult → List (String × ScannerResult) → List (String × ScannerResult)
store n r [] = (n, r) ∷ []
store n r ((m, q) ∷ rs) = if text_eq m n then (n, r) ∷ rs else (m, q) ∷ store n r rs

-- AddResult
unfoldable pub add_result : ScannerResult → Aggregator → Option AddError × Aggregator
unfolding store
add_result r a =
    if text_eq r.scanner ""
    then (some empty_scanner_name, a)
    else if ltb max_scanner_name_length (len r.scanner)
    then (some scanner_name_too_long, a)
    else if ltb max_findings (length a.findings + length r.findings)
    then (some findings_limit_exceeded, a)
    else (
      none,
      record a {
        scanner_results = store r.scanner r a.scanner_results;
        findings = a.findings ++ r.findings;
      },
    )

-- AddFindings, which adds a result with a time.
unfoldable pub add_findings : String → List Finding → Aggregator → Option AddError × Aggregator
unfolding add_result
add_findings scanner findings a = add_result (record { scanner = scanner; findings = findings }) a

-- FindingCount
unfoldable pub finding_count : Aggregator → ℕ
finding_count a = length a.findings

pub record Aggregate : Type 0 where
  pub findings : List Finding
  pub summary : Summary

module _ (hash : String → String) (itoa : ℕ → String) (fold : String → String)
    (sort : List Finding → List Finding) where
  -- The findings of a report.
  report_findings : Aggregator → List Finding
  unfolding deduplicate normalize_severities
  report_findings a = sort (
      normalize_severities fold
        (if a.dedupe_enabled then deduplicate hash itoa a.findings else a.findings))

  -- Aggregate: none is the error of the context.
  unfoldable pub aggregate : (stopped : Bool) → Aggregator → Option Aggregate
  unfolding report_findings calculate_summary
  aggregate true a = none
  aggregate false a =
      let fs = report_findings a in some (record { findings = fs; summary = calculate_summary fs })
