-- ===== src/Runners/Report.antt =====
-- internal/pipeline/runner.go: ReportRunner.Run, which aggregates the findings and writes a report. The
-- encoders and the file system are functions on the world.
use Prim.Native.String.{◌++◌ as text_append}
use devsec.Base.{
  ℕ, ◌⊎◌, inl, inr, true, ◌||◌, List, [], ◌∷◌, String, Bool-cases, Option, none, some, text_eq,
  if◌then◌else◌,
}
use devsec.Model.{Finding}
use devsec.Pipeline.Types.{Stage}
use devsec.Pipeline.Result.{Artifact, other_artifact}
use devsec.Pipeline.Runner.{RunnerInput}
use devsec.Report.Aggregator.{
  Aggregator, AddError, Aggregate, new_aggregator, add_findings, aggregate,
}
use devsec.Runners.Common.{
  Tools, config_value, or_default, Ran, fail, cancel, succeed, IsCoherent, fail-IsCoherent,
  cancel-IsCoherent, succeed-IsCoherent,
}
use devsec.Runners.Markdown.{format_markdown}
use devsec.Runners.Sarif.{SarifResult, findings_to_sarif_results}

-- What the aggregator is given; json.MarshalIndent of a report and of SARIF results, the time of the report; ToLower; filepath.Dir and Base; safepath.New and WriteFile; and the texts of errors.
pub record Reporting (W : Type 0) : Type 0 where
  pub hash : String → String
  pub itoa : ℕ → String
  pub fold_severity : String → String
  pub sort : List Finding → List Finding
  pub add_error_text : AddError → String
  pub context_error_text : String
  pub marshal : Aggregate → String ⊎ String
  pub marshal_sarif : List SarifResult → String ⊎ String
  pub timestamp : String
  pub decimal : ℕ → String
  pub lower : String → String
  pub dir : String → String
  pub base : String → String
  pub open_dir : String → W → Option String
  pub write_file : (dir file : String) → String → W → Option String × W

module _ {W : Type 0} (tools : Tools W) (m : Reporting W) (s : Stage) where
  -- formatReport
  unfoldable pub format_report : Aggregate → String → String ⊎ String
  unfolding findings_to_sarif_results format_markdown
  format_report report format =
      let f = m.lower format in
      if text_eq f "json"
      then m.marshal report
      else if text_eq f "sarif"
      then m.marshal_sarif (findings_to_sarif_results report.findings)
      else if text_eq f "markdown" || text_eq f "md"
      then inr (format_markdown m.decimal m.timestamp report)
      else m.marshal report

  artifacts : List (String × Artifact)
  artifacts =
      ("format", other_artifact)
      ∷ ("output", other_artifact)
      ∷ ("finding_count", other_artifact)
      ∷ ("summary", other_artifact)
      ∷ ("report_data", other_artifact)
      ∷ []

  written : Option String × W → Ran W
  unfolding fail succeed artifacts
  written (some e, w) = fail tools s (text_append "failed to write report: " e) w
  written (none, w) = succeed tools s artifacts w

  write_opened : Option String → (path bytes : String) → W → Ran W
  unfolding fail written
  write_opened (some e) path bytes w =
      fail tools s (text_append "output directory not accessible: " e) w
  write_opened none path bytes w = written (m.write_file (m.dir path) (m.base path) bytes w)

  write_to : (path bytes : String) → W → Ran W
  unfolding write_opened
  write_to path bytes w = write_opened (m.open_dir (m.dir path) w) path bytes w

  formatted : (output work_dir : String) → String ⊎ String → W → Ran W
  unfolding fail succeed artifacts write_to
  formatted output work_dir (inl e) w = fail tools s (text_append "failed to format report: " e) w
  formatted output work_dir (inr bytes) w =
      if text_eq output ""
      then succeed tools s artifacts w
      else write_to (if tools.is_abs output then output else tools.join work_dir output) bytes w

  aggregated : String → Option Aggregate → W → Ran W
  unfolding fail formatted format_report config_value or_default
  aggregated work_dir none w =
      fail tools s (text_append "failed to aggregate report: " m.context_error_text) w
  aggregated work_dir (some report) w =
      formatted (config_value "output" s.config) work_dir
        (format_report report (or_default (config_value "format" s.config) "json")) w

  -- Nothing is added where there is no finding.
  add_input : List Finding → Option AddError × Aggregator
  unfolding add_findings
  add_input [] = (none, new_aggregator true)
  add_input (f ∷ fs) = add_findings "pipeline" (f ∷ fs) (new_aggregator true)

  added : String → Option AddError × Aggregator → W → Ran W
  unfolding fail aggregated aggregate
  added work_dir (some e, a) w =
      fail tools s (text_append "failed to add findings: " (m.add_error_text e)) w
  added work_dir (none, a) w =
      aggregated work_dir (aggregate m.hash m.itoa m.fold_severity m.sort (tools.done w) a) w

  -- ReportRunner.Run
  unfoldable pub run_report : RunnerInput → W → Ran W
  unfolding cancel added add_input
  run_report input w =
      if tools.done w then cancel tools s w else added input.work_dir (add_input input.findings) w

  written-IsCoherent : (o : Option String) (w : W) → IsCoherent tools s (written (o, w))
  unfolding written
  written-IsCoherent (some e) w = fail-IsCoherent tools s _ w
  written-IsCoherent none w = succeed-IsCoherent tools s artifacts w

  write_opened-IsCoherent :
      (o : Option String) (path bytes : String) (w : W)
      → IsCoherent tools s (write_opened o path bytes w)
  unfolding write_opened
  write_opened-IsCoherent (some e) path bytes w = fail-IsCoherent tools s _ w
  write_opened-IsCoherent none path bytes w =
      let o = m.write_file (m.dir path) (m.base path) bytes w in written-IsCoherent o.0 o.1

  formatted-IsCoherent :
      (output work_dir : String) (o : String ⊎ String) (w : W)
      → IsCoherent tools s (formatted output work_dir o w)
  unfolding formatted write_to
  formatted-IsCoherent output work_dir (inl e) w = fail-IsCoherent tools s _ w
  formatted-IsCoherent output work_dir (inr bytes) w = elim (Bool-cases (text_eq output "")) [
    | inl e ↦ rw e (succeed-IsCoherent tools s artifacts w)
    | inr e ↦ rw e (write_opened-IsCoherent _ _ bytes w)
  ]

  aggregated-IsCoherent :
      (work_dir : String) (o : Option Aggregate) (w : W)
      → IsCoherent tools s (aggregated work_dir o w)
  unfolding aggregated
  aggregated-IsCoherent work_dir none w = fail-IsCoherent tools s _ w
  aggregated-IsCoherent work_dir (some report) w =
      formatted-IsCoherent (config_value "output" s.config) work_dir
        (format_report report (or_default (config_value "format" s.config) "json")) w

  added-IsCoherent :
      (work_dir : String) (o : Option AddError) (a : Aggregator) (w : W)
      → IsCoherent tools s (added work_dir (o, a) w)
  unfolding added
  added-IsCoherent work_dir (some e) a w = fail-IsCoherent tools s _ w
  added-IsCoherent work_dir none a w =
      aggregated-IsCoherent work_dir
        (aggregate m.hash m.itoa m.fold_severity m.sort (tools.done w) a) w

  -- The result of a report stage is a success exactly when there is no error.
  pub run_report-IsCoherent :
      (input : RunnerInput) (w : W) → IsCoherent tools s (run_report input w)
  unfolding run_report
  run_report-IsCoherent input w = elim (Bool-cases (tools.done w)) [
    | inl e ↦ rw e (cancel-IsCoherent tools s w)
    | inr e ↦ let o = add_input input.findings in rw e (added-IsCoherent input.work_dir o.0 o.1 w)
  ]
