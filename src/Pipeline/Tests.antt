-- ===== src/Pipeline/Tests.antt =====
-- A pipeline that scans, checks a policy and reports, and the theorems at it.
use mathlib.Core.List.Perm
use devsec.Base.{
  ℕ, ◌≡◌, ◌≢◌, refl, true, false, Option, none, some, List, [], ◌∷◌, String, Perm, IsDistinct,
  string_discrete, length, ◌⊎◌, ◌↔◌, ◌++◌,
}
use devsec.Base.Int.{pos}
use devsec.Pipeline.Types.{
  StageKind, scan, policy, report, StageStatus, success, failed, skipped, unset, Stage, Pipeline,
  names, kind_is_valid, condition_is_valid, circular_dependency, PipelineError, foreign_error,
}
use devsec.Pipeline.Order.{Closed, IsAcyclic, Respects}
use devsec.Pipeline.Sort.{sorted, circular, out_of_fuel, topological_sort}
use devsec.Pipeline.Sort.Laws.{
  topological_sort-ne-out_of_fuel, topological_sort_sound, topological_sort_complete,
}
use devsec.Pipeline.Cycle.{has_cycle}
use devsec.Pipeline.Cycle.Edges.{DependsPath}
use devsec.Pipeline.Cycle.Laws.{has_cycle_decides}
use devsec.Pipeline.Validate.{validate}
use devsec.Pipeline.Validate.Laws.{IsWellFormed, validate_iff, validate-topological_sort}
use devsec.Pipeline.Result.{StageResult, PipelineResult}
use devsec.Pipeline.Status.{determine_overall_status}
use devsec.Pipeline.Completed.{completed_names}
use devsec.Pipeline.Runner.{Environment, ExecuteOptions, RunnerInput}
use devsec.Pipeline.Execute.{Run, returned, execute_sequential, empty_run}
use devsec.Pipeline.Execute.Coverage.{Calls}
use devsec.Pipeline.Execute.Laws.{execute_sequential-Respects, execute_sequential_all}

abbrev pub stage : String → StageKind → List String → Stage
stage name kind deps = record {
  config = [];
  name = name;
  kind = kind;
  continue_on = unset;
  depends_on = deps;
  timeout = pos 0;
  is_parallel = false;
  fail_fast = false;
}

abbrev pub three : List Stage
three =
    stage "report" report ("scan" ∷ "policy" ∷ [])
    ∷ stage "policy" policy ("scan" ∷ [])
    ∷ stage "scan" scan []
    ∷ []

abbrev loop : List Stage
loop = stage "a" scan ("b" ∷ []) ∷ stage "b" scan ("a" ∷ []) ∷ []

abbrev pub pipeline : List Stage → Pipeline
pipeline stages = record {
  metadata = [];
  name = "ci";
  version = "1";
  stages = stages;
  timeout = pos 0;
  is_parallel = false;
  fail_fast = false;
}

abbrev pub in_order : List String
in_order = "scan" ∷ "policy" ∷ "report" ∷ []

pub three-sorted : topological_sort (names three) three ≡ sorted in_order
unfolding topological_sort
three-sorted = refl

loop-circular : topological_sort (names loop) loop ≡ circular
unfolding topological_sort
loop-circular = refl

three-has_cycle : has_cycle (names three) three ≡ some false
unfolding has_cycle
three-has_cycle = refl

loop-has_cycle : has_cycle (names loop) loop ≡ some true
unfolding has_cycle
loop-has_cycle = refl

pub three-valid : validate (names three) (some (pipeline three)) ≡ none
unfolding validate kind_is_valid condition_is_valid
three-valid = refl

loop-invalid : validate (names loop) (some (pipeline loop)) ≡ some circular_dependency
unfolding validate kind_is_valid condition_is_valid
loop-invalid = refl

three-IsDistinct : IsDistinct (names three)
unfolding string_discrete
three-IsDistinct = (refl, (refl, (refl, tt)))

three-Closed : Closed three
unfolding string_discrete
three-Closed = ((refl, (refl, tt)), ((refl, tt), (tt, tt)))

three-IsAcyclic : IsAcyclic three
three-IsAcyclic =
    ((validate_iff (names three) (pipeline three) (Perm.refl _)).0 three-valid).acyclic

topological_sort-ne-out_of_fuel_example : topological_sort (names three) three ≢ out_of_fuel
topological_sort-ne-out_of_fuel_example =
    topological_sort-ne-out_of_fuel (names three) three three-IsDistinct (Perm.refl _)

topological_sort_sound_example : Perm in_order (names three) × Respects three [] in_order
topological_sort_sound_example =
    topological_sort_sound (names three) three in_order three-IsDistinct (Perm.refl _) three-sorted

topological_sort_complete_example :
    (order : List String) × (topological_sort (names three) three ≡ sorted order)
topological_sort_complete_example =
    topological_sort_complete (names three) three three-IsDistinct (Perm.refl _) three-Closed
      three-IsAcyclic

has_cycle_decides_example :
    ((x : String) × (has_cycle (names three) three ≡ some true) × DependsPath three x x)
    ⊎ ((has_cycle (names three) three ≡ some false) × IsAcyclic three)
has_cycle_decides_example =
    has_cycle_decides (names three) three three-IsDistinct (Perm.refl _) three-Closed

validate_iff_example :
    (validate (names three) (some (pipeline three)) ≡ none) ↔ IsWellFormed (pipeline three)
validate_iff_example = validate_iff (names three) (pipeline three) (Perm.refl _)

validate-topological_sort_example :
    (order : List String) × (topological_sort (names three) three ≡ sorted order)
    × Perm order (names three)
    × Respects three [] order
validate-topological_sort_example =
    validate-topological_sort (names three) (names three) (pipeline three) (Perm.refl _)
      (Perm.refl _) three-valid

-- Every runner of a scan fails, and every other succeeds. The world counts the runs.
abbrev pub flaky_run : Stage → RunnerInput → ℕ → StageResult × Option PipelineError × ℕ
flaky_run s input n = elim s.kind [
  | StageKind.scan ↦ (
    record { name = s.name; status = failed; error = "boom"; artifacts = none },
    some (foreign_error "boom"),
    ℕ.suc n,
  )
  | _ ↦ (record { name = s.name; status = success; error = ""; artifacts = none }, none, ℕ.suc n)
]

abbrev pub flaky : Environment ℕ
flaky = record {
  done = λ _. false;
  runner = λ _. some flaky_run;
  reporter = none;
  iterate = λ c. c;
}

abbrev pub options : ExecuteOptions
options = record { work_dir = "."; dry_run = false }

abbrev flaky_three : Run ℕ
flaky_three =
    (execute_sequential flaky options (pipeline three) in_order (empty_run flaky options 0)).1

execute_sequential-Respects_example :
    (ran : List String) × (left : List String) × Calls flaky options
      (pipeline three)
      (empty_run flaky options 0)
      ran
      flaky_three
    × (in_order ≡ ran ++ left)
    × IsDistinct ran
    × Respects three [] ran
execute_sequential-Respects_example =
    execute_sequential-Respects flaky options (pipeline three) 0 (names three) (names three)
      in_order (Perm.refl _) (Perm.refl _) three-valid three-sorted

execute_sequential_all_example :
    let (o, run) =
      execute_sequential flaky options (pipeline three) in_order (empty_run flaky options 0) in
    (o ≡ returned none)
    × Calls flaky options (pipeline three) (empty_run flaky options 0) in_order run
    × (completed_names run.completed ≡ in_order)
    × (length run.results ≡ 3)
execute_sequential_all_example =
    execute_sequential_all flaky options (pipeline three) 0 (names three) (names three) in_order
      (Perm.refl _) (Perm.refl _) three-valid three-sorted refl (λ _. refl)

abbrev result : String → StageStatus → StageResult
result name status = record { name = name; status = status; error = ""; artifacts = none }

abbrev mixed : List StageResult
mixed = result "scan" success ∷ result "policy" failed ∷ result "report" skipped ∷ []

mixed-failed : determine_overall_status mixed ≡ failed
unfolding determine_overall_status
mixed-failed = refl

abbrev run : PipelineResult
run = record { name = "ci"; status = failed; error = none; stages = mixed }
