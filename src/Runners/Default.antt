-- ===== src/Runners/Default.antt =====
-- internal/pipeline/runner.go and executor.go: the executor with the default registry of runners.
use devsec.Base.{◌≡◌, true, false, ◌∙◌, arith}
use devsec.Pipeline.Types.{
  StageKind, scan, policy, report, compliance, custom, unknown_kind, kind_is_valid, Stage,
}
use devsec.Pipeline.Completed.{Completed}
use devsec.Pipeline.Runner.{Environment, ExecuteOptions, RunnerInput, execute_stage, run_stage}
use devsec.Runners.Common.{Tools, Ran, fail, IsCoherent}
use devsec.Runners.Registry.{get, default_registry, default_registry-get}
use devsec.Runners.Scan.{Scanning, run_scan, run_scan-IsCoherent}
use devsec.Runners.Policy.{PolicyTools, run_policy, run_policy-IsCoherent}
use devsec.Runners.Report.{Reporting, run_report, run_report-IsCoherent}
use devsec.Runners.Compliance.{Mapping, run_compliance, run_compliance-IsCoherent}
use devsec.Runners.Custom.{Shell, run_custom, run_custom-IsCoherent}

-- What the runners of the default registry call.
pub record Suite (W E Command : Type 0) : Type 0 where
  pub tools : Tools W
  pub scanning : Scanning W
  pub policies : PolicyTools W E
  pub reporting : Reporting W
  pub mapping : Mapping
  pub shell : Shell W Command

module _ {W E Command : Type 0} (suite : Suite W E Command) where
  -- The runner that DefaultRegistry registers for a kind; the last clause is never registered.
  unfoldable pub default_run : StageKind → Stage → RunnerInput → W → Ran W
  unfolding run_scan run_policy run_report run_compliance run_custom fail
  default_run scan s input w = run_scan suite.tools suite.scanning s input w
  default_run policy s input w = run_policy suite.tools suite.policies s input w
  default_run report s input w = run_report suite.tools suite.reporting s input w
  default_run compliance s input w = run_compliance suite.tools suite.mapping s input w
  default_run custom s input w = run_custom suite.tools suite.shell s input w
  default_run (unknown_kind k) s input w = fail suite.tools s "no such runner" w

  default_run-IsCoherent :
      (k : StageKind) (s : Stage) (input : RunnerInput) (w : W)
      → kind_is_valid k ≡ true
      → IsCoherent suite.tools s (default_run k s input w)
  unfolding default_run kind_is_valid
  default_run-IsCoherent scan s input w h = run_scan-IsCoherent suite.tools suite.scanning s input w
  default_run-IsCoherent policy s input w h =
      run_policy-IsCoherent suite.tools suite.policies s input w
  default_run-IsCoherent report s input w h =
      run_report-IsCoherent suite.tools suite.reporting s input w
  default_run-IsCoherent compliance s input w h =
      run_compliance-IsCoherent suite.tools suite.mapping s input w
  default_run-IsCoherent custom s input w h =
      run_custom-IsCoherent suite.tools suite.shell s input w
  default_run-IsCoherent (unknown_kind k) s input w h = ground arith

  -- Coherence does not depend on the world.
  IsCoherent-world :
      (s : Stage) (ran : Ran W) (w : W)
      → IsCoherent suite.tools s ran
      → IsCoherent suite.tools s (ran.0, ran.1, w)
  IsCoherent-world s ran w c = record { named = c.named; status = c.status }

  module _ (env : Environment W) (opts : ExecuteOptions)
      (wired : (k : StageKind) → env.runner k ≡ get k (default_registry default_run)) where
    -- With the default registry, a stage of a valid kind that is not a dry run ends with a result
    -- that names the stage, and that is a success exactly when the error is nil; otherwise it has
    -- failed or was canceled.
    pub execute_stage-IsCoherent :
        (s : Stage) (completed : Completed) (w : W)
        → kind_is_valid s.kind ≡ true
        → opts.dry_run ≡ false
        → IsCoherent suite.tools s (execute_stage env opts s completed w)
    unfolding execute_stage run_stage
    execute_stage-IsCoherent s completed w valid real =
        let runs = wired s.kind ∙ default_registry-get default_run s.kind valid in
        rw (real, runs, run_stage)
          (IsCoherent-world s _ _ (default_run-IsCoherent s.kind s _ _ valid))
