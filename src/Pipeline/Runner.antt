-- ===== src/Pipeline/Runner.antt =====
-- internal/pipeline/executor.go: executeStage. What the executor calls is an environment over an
-- abstract world. Times and the per-stage timeout context are left out.
use Prim.Native.String.{◌++◌ as text_append}
use devsec.Base.{Bool, Option, none, some, List, String, if◌then◌else◌}
use devsec.Model.{Finding}
use devsec.Pipeline.Types.{StageKind, StageStatus, failed, skipped, Stage, PipelineError, no_runner}
use devsec.Pipeline.Completed.{Completed, extract_findings}
use devsec.Pipeline.Result.{StageResult}

pub record RunnerInput : Type 0 where
  pub previous_results : Completed
  pub work_dir : String
  pub findings : List Finding

pub data ProgressStatus : Type 0 where
  status_success status_failed status_skipped : ProgressStatus

-- What the executor calls: the context, the runners of its registry, the reporter, and the order of
-- a map's iteration.
pub record Environment (W : Type 0) : Type 0 where
  pub done : W → Bool
  pub runner : StageKind → Option (Stage → RunnerInput → W → StageResult × Option PipelineError × W)
  pub reporter : Option ((String → W → W) × (String → ProgressStatus → W → W))
  pub iterate : Completed → Completed

pub record ExecuteOptions : Type 0 where
  pub work_dir : String
  pub dry_run : Bool

unfoldable pub plain_result : String → StageStatus → String → StageResult
plain_result name status error = record {
  name = name;
  status = status;
  error = error;
  artifacts = none;
}

-- The status that executeStage reports for a run.
unfoldable pub report_status : StageResult → Option PipelineError → ProgressStatus
report_status r (some e) = status_failed
report_status r none = elim r.status [
  | failed ↦ status_failed
  | skipped ↦ status_skipped
  | _ ↦ status_success
]

unfoldable pub kind_text : StageKind → String
kind_text k = elim k [
  | StageKind.scan ↦ "scan"
  | StageKind.policy ↦ "policy"
  | StageKind.report ↦ "report"
  | StageKind.compliance ↦ "compliance"
  | StageKind.custom ↦ "custom"
  | StageKind.unknown_kind s ↦ s
]

module _ {W : Type 0} (env : Environment W) (opts : ExecuteOptions) where
  unfoldable pub report_started : String → W → W
  report_started name w = elim env.reporter [ none ↦ w | some (started, _) ↦ started name w ]

  unfoldable pub report_completed : String → ProgressStatus → W → W
  report_completed name status w = elim env.reporter [
    | none ↦ w
    | some (_, completed) ↦ completed name status w
  ]

  unfoldable pub run_stage :
      Option (Stage → RunnerInput → W → StageResult × Option PipelineError × W)
      → Stage
      → Completed
      → W
      → StageResult × Option PipelineError × W
  unfolding report_completed plain_result report_status kind_text extract_findings
  run_stage none s completed w = (
    plain_result s.name failed (text_append "no runner for stage kind: " (kind_text s.kind)),
    some no_runner,
    report_completed s.name status_failed w,
  )
  run_stage (some run) s completed w =
      let input : RunnerInput = record {
        previous_results = completed;
        work_dir = opts.work_dir;
        findings = extract_findings (env.iterate completed);
      } in
      let (r, err, w') = run s input w in (r, err, report_completed s.name (report_status r err) w')

  unfoldable pub execute_stage : Stage → Completed → W → StageResult × Option PipelineError × W
  unfolding report_started run_stage
  execute_stage s completed w =
      let w' = report_started s.name w in
      if opts.dry_run
      then (plain_result s.name skipped "", none, report_completed s.name status_skipped w')
      else run_stage (env.runner s.kind) s completed w'
