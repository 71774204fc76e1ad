-- ===== src/Pipeline/Parallel/History.antt =====
-- The failures in a run of executeParallel: those of the calls of executeStage, and those that the
-- goroutines have recorded under the lock of the error, in the order of the run.
pub mod Accounts
pub mod Laws
use devsec.Base.{
  ℕ, ◌≡◌, refl, Bool, false, ◌||◌, Option, none, some, List, [], ◌∷◌, ◌++◌, String, arith,
}
use devsec.Pipeline.Types.{Stage, Pipeline, PipelineError, stage_error_of}
use devsec.Pipeline.Runner.{Environment, ExecuteOptions, execute_stage}
use devsec.Pipeline.Parallel.{
  Phase, executing, recorded, Shared, System, Step, Reach, start, later, task_moves,
}

-- A stage's name with its error, if it has one.
abbrev pub failure : String → Option PipelineError → List (String × PipelineError)
failure n none = []
failure n (some e) = (n, e) ∷ []

-- What executeParallel returns for the failures in their order: the error of the first.
abbrev pub first_failure : List (String × PipelineError) → Option PipelineError
first_failure [] = none
first_failure ((n, e) ∷ fs) = some (stage_error_of n "stage failed" e)

-- Whether a test holds of some failure.
abbrev pub some_failure : (String → PipelineError → Bool) → List (String × PipelineError) → Bool
some_failure test [] = false
some_failure test ((n, e) ∷ fs) = test n e || some_failure test fs

pub some_failure-append :
    (test : String → PipelineError → Bool) (fs gs : List (String × PipelineError))
    → some_failure test (fs ++ gs) ≡ (some_failure test fs || some_failure test gs)
some_failure-append test [] gs = refl
some_failure-append test ((n, e) ∷ fs) gs = ground (arith, some_failure-append test fs gs)

-- The failure that a goroutine records with its next step, and the one that it is still to record.
abbrev pub failure_at : Stage → Phase → List (String × PipelineError)
failure_at s (recorded err) = failure s.name err
failure_at s _ = []

module _ {W : Type 0} (env : Environment W) (opts : ExecuteOptions) (max : ℕ) (p : Pipeline) where
  -- The failure of the call of executeStage that a goroutine makes with its next step.
  abbrev pub call_at : Stage → Phase → Shared W → List (String × PipelineError)
  call_at s (executing snapshot) sh = failure s.name (execute_stage env opts s snapshot sh.world).1
  call_at s _ sh = []

  -- The failures of the calls in a step, and those that it records.
  abbrev pub calls_in : {s t : System W} → Step env opts max p s t → List (String × PipelineError)
  calls_in {s} (task_moves xs ys stage a live e adv) = call_at stage a s.shared
  calls_in _ = []

  abbrev pub failures_in :
      {s t : System W} → Step env opts max p s t → List (String × PipelineError)
  failures_in (task_moves xs ys stage a live e adv) = failure_at stage a
  failures_in _ = []

  -- The failures of the calls of executeStage in a run.
  pub failed_calls :
      {order : List String} {w : W} {s : System W}
      → Reach env opts max p order w s
      → List (String × PipelineError)
  failed_calls start = []
  failed_calls (later r step) = failed_calls r ++ calls_in step

  -- The failures that the goroutines record in a run, in their order.
  pub failures :
      {order : List String} {w : W} {s : System W}
      → Reach env opts max p order w s
      → List (String × PipelineError)
  failures start = []
  failures (later r step) = failures r ++ failures_in step
