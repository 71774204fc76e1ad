-- ===== src/Pipeline/Parallel/Tests.antt =====
-- The pipeline that scans, checks a policy and reports, by executeParallel on two tokens.
use mathlib.Core.List.Perm
use devsec.Base.{
  ℕ, ◌≤◌, ◌≡◌, ◌⊎◌, refl, Bool, true, Option, none, some, List, [], ◌∷◌, String, IsDistinct, arith,
  has, string_discrete,
}
use devsec.Base.Int.{pos}
use devsec.Pipeline.Types.{PipelineError, foreign_error, stage_error_of, pipeline_canceled, names}
use devsec.Pipeline.Order.{Respects}
use devsec.Pipeline.Completed.{completed_names}
use devsec.Pipeline.Parallel.{
  System, main_moves, looping, returned, init, Step, Reach, start, deps_of, all_finished,
  max_workers,
}
use devsec.Pipeline.Parallel.Spec as Spec
use devsec.Pipeline.Parallel.Steps.{task_names, tokens_held}
use devsec.Pipeline.Parallel.Refines.{view}
use devsec.Pipeline.Parallel.Measure.{measure, Shorter}
use devsec.Pipeline.Parallel.Progress.{Next}
use devsec.Pipeline.Parallel.Schedule.{Choice, main_goes, task_goes, schedule, schedule-Reach}
use devsec.Pipeline.Parallel.History.{failures, failed_calls, first_failure, some_failure}
use devsec.Pipeline.Parallel.Laws.{
  execute_parallel-refines, execute_parallel-IsSafe, execute_parallel-Next,
  execute_parallel-Shorter, execute_parallel-returns,
}
use devsec.Pipeline.Tests.{three, in_order, pipeline, three-valid, three-sorted, flaky, options}

abbrev repeat : ℕ → Choice → List Choice → List Choice
repeat ℕ.zero c cs = cs
repeat (ℕ.suc n) c cs = c ∷ repeat n c cs

-- Each stage is launched, and runs to its end, before the loop goes on.
abbrev one_by_one : List Choice
one_by_one = repeat 3 main_goes (
    repeat 8 (task_goes 0) (
      repeat 3 main_goes (
        repeat 8 (task_goes 1)
          (repeat 3 main_goes (repeat 8 (task_goes 2) (repeat 2 main_goes []))))))

abbrev begun : System ℕ
begun = init in_order 0

abbrev state_after : List Choice → Option (System ℕ)
state_after cs = schedule flaky options 2 (pipeline three) cs begun

abbrev or_begun : Option (System ℕ) → System ℕ
or_begun none = begun
or_begun (some s) = s

abbrev ended : System ℕ
ended = or_begun (state_after one_by_one)

ended_lem : state_after one_by_one ≡ some ended
unfolding schedule string_discrete
ended_lem = refl

ended-main :
    ended.main ≡ returned (some (stage_error_of "scan" "stage failed" (foreign_error "boom")))
unfolding schedule string_discrete
ended-main = refl

abbrev Reached : System ℕ → Type 0
Reached s = Reach flaky options (max_workers 1 (pos 2)) (pipeline three) in_order 0 s

ended-Reached : Reached ended
unfolding max_workers
ended-Reached =
    schedule-Reach flaky options 2 (pipeline three) in_order 0 one_by_one begun ended start
      ended_lem

-- The goroutine of the scan has its snapshot.
abbrev started : System ℕ
started = or_begun (state_after (repeat 3 main_goes (repeat 3 (task_goes 0) [])))

started_lem : state_after (repeat 3 main_goes (repeat 3 (task_goes 0) [])) ≡ some started
unfolding schedule string_discrete
started_lem = refl

started-Reached : Reached started
unfolding max_workers
started-Reached =
    schedule-Reach flaky options 2 (pipeline three) in_order 0
      (repeat 3 main_goes (repeat 3 (task_goes 0) [])) begun started start started_lem

started-main : started.main ≡ looping
unfolding schedule string_discrete
started-main = refl

execute_parallel-refines_example : Spec.Reach (deps_of three) (view ended)
execute_parallel-refines_example =
    execute_parallel-refines flaky options 1 (pos 2) (pipeline three) 0 (names three) (names three)
      in_order (Perm.refl _) (Perm.refl _) three-valid three-sorted ended ended-Reached

execute_parallel-IsSafe_example :
    IsDistinct (task_names ended.tasks)
    × Respects three [] (completed_names ended.shared.completed)
    × (ended.shared.tokens ≡ tokens_held ended.tasks)
    × (tokens_held ended.tasks ≤ max_workers 1 (pos 2))
execute_parallel-IsSafe_example =
    execute_parallel-IsSafe flaky options 1 (pos 2) (pipeline three) 0 (names three) (names three)
      in_order (Perm.refl _) (Perm.refl _) three-valid three-sorted ended ended-Reached

execute_parallel-Next_example : Next flaky options (max_workers 1 (pos 2)) (pipeline three) started
execute_parallel-Next_example =
    execute_parallel-Next flaky options 1 (pos 2) (pipeline three) 0 (names three) (names three)
      in_order (Perm.refl _) (Perm.refl _) three-valid three-sorted started started-Reached
      (omega arith) (λ err e. cc (e, started-main))

execute_parallel-returns_example :
    (some (stage_error_of "scan" "stage failed" (foreign_error "boom")) ≡ some pipeline_canceled)
    ⊎ (((n : String) → has n (completed_names ended.shared.completed) ≡ has n (names three))
        × (all_finished ended.tasks ≡ true)
        × (some (stage_error_of "scan" "stage failed" (foreign_error "boom"))
            ≡ first_failure
                (failures flaky options (max_workers 1 (pos 2)) (pipeline three) ended-Reached))
        × ((test : String → PipelineError → Bool)
            → some_failure test
                (failed_calls flaky options (max_workers 1 (pos 2)) (pipeline three) ended-Reached)
              ≡ some_failure test
                  (failures flaky options (max_workers 1 (pos 2)) (pipeline three) ended-Reached)))
execute_parallel-returns_example =
    execute_parallel-returns flaky options 1 (pos 2) (pipeline three) 0 (names three) (names three)
      in_order (Perm.refl _) (Perm.refl _) three-valid three-sorted ended _ ended-Reached ended-main

-- The first step: the loop finds the scan.
abbrev found : System ℕ
found = or_begun (state_after (main_goes ∷ []))

found-Step : Step flaky options (max_workers 1 (pos 2)) (pipeline three) begun found
unfolding schedule string_discrete max_workers
found-Step = main_moves in_order (Perm.refl _) refl

execute_parallel-Shorter_example :
    Shorter flaky options (max_workers 1 (pos 2)) (pipeline three) begun found
    × (measure begun ≡ 38)
execute_parallel-Shorter_example =
    execute_parallel-Shorter flaky options 1 (pos 2) (pipeline three) 0 (names three) (names three)
      in_order (Perm.refl _) (Perm.refl _) three-valid three-sorted begun found start found-Step
