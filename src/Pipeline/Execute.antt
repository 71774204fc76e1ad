-- ===== src/Pipeline/Execute.antt =====
-- internal/pipeline/executor.go: the execution of a pipeline, one stage after another. The context,
-- the runners and the progress reporter are an environment over an abstract world; what they do to
-- it is theirs. Times and the per-stage timeout context are left out.
pub mod Coverage
pub mod Laws
use Prim.Native.String.{◌++◌ as text_append}
use mathlib.Core.Option
use devsec.Base.{
  ◌+◌, Bool, true, false, not, ◌&&◌, Option, none, some, List, [], ◌∷◌, ◌++◌, String, if◌then◌else◌,
}
use devsec.Pipeline.Types.{
  failed, Stage, Pipeline, PipelineError, no_runner, pipeline_canceled, stage_error, stage_error_of,
  validation_error, nil_context, circular_dependency,
}
use devsec.Pipeline.Sort.{Sorted, sorted, topological_sort}
use devsec.Pipeline.Validate.{validate, or_else}
use devsec.Pipeline.Completed.{Completed, set_completed}
use devsec.Pipeline.Status.{should_continue, determine_overall_status}
use devsec.Pipeline.Result.{StageResult, PipelineResult, get_stage}
use devsec.Pipeline.Runner.{Environment, ExecuteOptions, kind_text, execute_stage}

-- What a run leaves: the results in order, the map `completed`, and the world.
pub record Run (W : Type 0) : Type 0 where
  pub results : List StageResult
  pub completed : Completed
  pub world : W

-- `panicked` is the dereference of the nil stage.
pub data Outcome : Type 0 where
  returned : Option PipelineError → Outcome
  panicked : Outcome

module _ {W : Type 0} (env : Environment W) (opts : ExecuteOptions) where
  -- How the loop goes on after a stage: none continues with the next one.
  after_stage : Bool → Stage → StageResult → Option PipelineError → Option PipelineError
  unfolding should_continue
  after_stage fail_fast s r (some e) =
      if fail_fast then some (stage_error_of s.name "stage failed" e) else none
  after_stage fail_fast s r none =
      if not (should_continue s.continue_on r.status) && fail_fast
      then some (stage_error s.name "continue condition not met")
      else none

  -- The rest of the loop's body, once the stage is found. none goes on with the next stage.
  visit_stage : Pipeline → String → Option Stage → Run W → Option Outcome × Run W
  unfolding execute_stage after_stage set_completed
  visit_stage p n none run = (some panicked, run)
  visit_stage p n (some s) run =
      let (r, err, w) = execute_stage env opts s run.completed run.world in
      (
        Option.map (λ e. returned (some e)) (after_stage p.fail_fast s r err),
        record {
          results = run.results ++ r ∷ [];
          completed = set_completed n r run.completed;
          world = w;
        },
      )

  -- The body of the loop of executeSequential.
  unfoldable pub visit : Pipeline → String → Run W → Option Outcome × Run W
  unfolding visit_stage get_stage
  visit p n run =
      if env.done run.world
      then (some (returned (some pipeline_canceled)), run)
      else visit_stage p n (get_stage p n) run

  unfoldable pub execute_sequential : Pipeline → List String → Run W → Outcome × Run W
  unfolding visit
  execute_sequential p [] run = (returned none, run)
  execute_sequential p (n ∷ order) run =
      let (o, run') = visit p n run in
      elim o [ some outcome ↦ (outcome, run') | none ↦ execute_sequential p order run' ]

  -- The loop of DefaultExecutor.Validate over the stages.
  unfoldable pub runners_known : List Stage → Option PipelineError
  unfolding kind_text
  runners_known [] = none
  runners_known (s ∷ ss) = elim (env.runner s.kind) [
    | some _ ↦ runners_known ss
    | none ↦ some (
        validation_error (text_append (text_append "stages[" s.name) "].kind")
          (text_append "no runner registered for stage kind: " (kind_text s.kind)) no_runner)
  ]

  -- DefaultExecutor.Validate
  unfoldable pub executor_validate : List String → Pipeline → Option PipelineError
  unfolding validate runners_known
  executor_validate keys p = or_else (validate keys (some p)) (runners_known p.stages)

  abbrev pub empty_run : W → Run W
  empty_run w = record { results = []; completed = []; world = w }

  -- The end of Execute: the status and the error of the result.
  finalize : Pipeline → Outcome × Run W → Outcome × Option PipelineResult × W
  unfolding determine_overall_status
  finalize p (panicked, run) = (panicked, none, run.world)
  finalize p (returned (some e), run) = (
    returned (some e),
    some (record { name = p.name; status = failed; error = some e; stages = run.results }),
    run.world,
  )
  finalize p (returned none, run) = (
    returned none,
    some (record {
      name = p.name;
      status = determine_overall_status run.results;
      error = none;
      stages = run.results;
    }),
    run.world,
  )

  -- The part of Execute behind the validation. `parallel` is executeParallel.
  run_sorted :
      (Pipeline → List String → Run W → Outcome × Run W)
      → Pipeline
      → Sorted
      → W
      → Outcome × Option PipelineResult × W
  unfolding execute_sequential finalize
  run_sorted parallel p (sorted order) w = finalize p (
      if p.is_parallel
      then parallel p order (empty_run w)
      else execute_sequential p order (empty_run w))
  run_sorted parallel p _ w = finalize p (returned (some circular_dependency), empty_run w)

  -- Execute, with the orders in which hasCycle and topologicalSort meet the keys of their maps. The
  -- empty result, which comes with an error of validation, is none.
  unfoldable pub execute :
      (Pipeline → List String → Run W → Outcome × Run W)
      → (keys sort_keys : List String) → (context_is_nil : Bool) → Pipeline
      → W
      → Outcome × Option PipelineResult × W
  unfolding executor_validate run_sorted topological_sort
  execute parallel keys sort_keys true p w = (returned (some nil_context), none, w)
  execute parallel keys sort_keys false p w = elim (executor_validate keys p) [
    | some e ↦ (returned (some e), none, w)
    | none ↦ run_sorted parallel p (topological_sort sort_keys p.stages) w
  ]
