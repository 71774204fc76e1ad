-- ===== src/Pipeline/Parallel/Laws.antt =====
-- What executeParallel does with a valid pipeline, whatever the runners return and however the loop
-- and the goroutines interleave.
use mathlib.Core.List.Perm
use devsec.Base.{
  ℕ, ◌+◌, ◌*◌, ◌≤◌, ◌<◌, ◌≡◌, ◌≢◌, ◌⊎◌, inl, inr, refl, Bool, true, false, Option, none, some, List,
  [], ◌∷◌, ◌++◌, String, has, arith, subst, sym, ap, ◌∙◌, IsDistinct, IsDistinct-perm, has-perm,
  length, length-perm, Perm, update,
}
use devsec.Base.Int.{ℤ, pos, negsuc}
use devsec.Pipeline.Types.{Stage, Pipeline, PipelineError, pipeline_canceled, names}
use devsec.Pipeline.Order.{Satisfied, Ready, Respects}
use devsec.Pipeline.Sort.{sorted, topological_sort}
use devsec.Pipeline.Sort.Laws.{topological_sort_sound}
use devsec.Pipeline.Validate.{validate}
use devsec.Pipeline.Validate.Laws.{validate_iff}
use devsec.Pipeline.Completed.{completed_names}
use devsec.Pipeline.Runner.{Environment, ExecuteOptions}
use devsec.Pipeline.Execute.Laws.{length-names}
use devsec.Pipeline.Parallel.{
  System, init, returned, all_finished, max_workers, deps_of, build_deps, Step, Reach,
}
use devsec.Pipeline.Parallel.Spec as Spec
use devsec.Pipeline.Parallel.Spec.{Behind, Reach-IsSound}
use devsec.Pipeline.Parallel.Steps.{task_names, tokens_held, has_recorded-has}
use devsec.Pipeline.Parallel.Keeps.{Kept, MainKept}
use devsec.Pipeline.Parallel.Invariant.{Reach-Kept}
use devsec.Pipeline.Parallel.Refines.{view, Reach-refines}
use devsec.Pipeline.Parallel.History.{failures, failed_calls, first_failure, some_failure}
use devsec.Pipeline.Parallel.History.Laws.{Reach-first_failure}
use devsec.Pipeline.Parallel.Measure.{measure, Shorter, Step-Shorter}
use devsec.Pipeline.Parallel.Wakes.{all_finished-has_recorded}
use devsec.Pipeline.Parallel.Progress.{Next, kept-Next}

build_deps-absent :
    (d : String → List String) (ss : List Stage) (n : String)
    → has n (names ss) ≡ false
    → build_deps d ss n ≡ d n
unfolding build_deps
build_deps-absent d [] n h = refl
build_deps-absent d (s ∷ ss) n h =
    ground (arith, build_deps-absent (update d s.name s.depends_on) ss n)

-- The map `deps` holds the dependencies of every stage, when the names are distinct.
Ready-of_build_deps :
    (d : String → List String) (ss : List Stage) (before : List String) (n : String)
    → IsDistinct (names ss)
    → Satisfied before (build_deps d ss n)
    → Ready ss before n
unfolding build_deps
Ready-of_build_deps d [] before n u h = tt
Ready-of_build_deps d (s ∷ ss) before n (new, u) h = (
  λ e.
      subst (Satisfied before)
        (ground (arith, build_deps-absent (update d s.name s.depends_on) ss n)) h,
  Ready-of_build_deps (update d s.name s.depends_on) ss before n u h,
)

Behind-Respects :
    (ss : List Stage) (before done : List String)
    → IsDistinct (names ss)
    → Behind (deps_of ss) before done
    → Respects ss before done
unfolding deps_of
Behind-Respects ss before [] u h = tt
Behind-Respects ss before (n ∷ done) u (here, h) = (
  Ready-of_build_deps (λ _. []) ss before n u here,
  Behind-Respects ss (before ++ n ∷ []) done u h,
)

max_workers_pos : (num_cpu : ℕ) (k : ℤ) → 0 < num_cpu → 0 < max_workers num_cpu k
unfolding max_workers
max_workers_pos num_cpu (pos n) h = ground arith
max_workers_pos num_cpu (negsuc n) h = h

module _ {W : Type 0} (env : Environment W) (opts : ExecuteOptions) (num_cpu : ℕ) (max_parallel : ℤ)
    (p : Pipeline) (w : W) (keys sort_keys order : List String) (perm : Perm keys (names p.stages))
    (perm' : Perm sort_keys (names p.stages)) (valid : validate keys (some p) ≡ none)
    (is_sorted : topological_sort sort_keys p.stages ≡ sorted order) where
  abbrev max : ℕ
  max = max_workers num_cpu max_parallel

  abbrev Reached : System W → Type 0
  Reached s = Reach env opts max p order w s

  IsDistinct-names : IsDistinct (names p.stages)
  IsDistinct-names = ((validate_iff keys p perm).0 valid).distinct

  ordered : Perm order (names p.stages) × Respects p.stages [] order
  ordered = topological_sort_sound sort_keys p.stages order IsDistinct-names perm' is_sorted

  order-IsDistinct : IsDistinct order
  order-IsDistinct = IsDistinct-perm (Perm.symm ordered.0) IsDistinct-names

  declared : (n : String) → has n order ≡ true → has n (names p.stages) ≡ true
  declared n h = sym (has-perm n ordered.0) ∙ h

  kept : (s : System W) → Reached s → Kept max order p s
  kept s r = Reach-Kept env opts max p order declared order-IsDistinct r

  -- In a valid pipeline, every state that the loop and the goroutines reach is one that the
  -- specification reaches: a stage is started at most once and only when each of its dependencies
  -- has a result, and a started stage gets its result once.
  pub execute_parallel-refines : (s : System W) → Reached s → Spec.Reach (deps_of p.stages) (view s)
  execute_parallel-refines s r = Reach-refines env opts max p order declared order-IsDistinct r

  -- In a valid pipeline, in every state that the loop and the goroutines reach: no stage has been
  -- started twice, the results in `completed` stand behind those of their dependencies, and no more
  -- goroutines hold a token of the semaphore than it has.
  pub execute_parallel-IsSafe :
      (s : System W)
      → Reached s
      → IsDistinct (task_names s.tasks)
        × Respects p.stages [] (completed_names s.shared.completed)
        × (s.shared.tokens ≡ tokens_held s.tasks)
        × (tokens_held s.tasks ≤ max)
  execute_parallel-IsSafe s r =
      let sound = Reach-IsSound (deps_of p.stages) (execute_parallel-refines s r) in
      let k = (kept s r).0.tasks in
      (
        sound.started_once,
        Behind-Respects p.stages [] (completed_names s.shared.completed) IsDistinct-names
            sound.ordered,
        k.held,
        omega (arith, k.held, k.bounded),
      )

  -- In a valid pipeline and on at least one processor, executeParallel is never stuck: in every state
  -- that it reaches and from which the calling goroutine has not returned, some step brings the run
  -- nearer to its end.
  pub execute_parallel-Next :
      (s : System W)
      → Reached s
      → 0 < num_cpu
      → ((err : Option PipelineError) → s.main ≢ returned err)
      → Next env opts max p s
  execute_parallel-Next s r workers live =
      kept-Next env opts max p order ordered.1 s live (max_workers_pos num_cpu max_parallel workers)
        (kept s r)

  -- In a valid pipeline, every step from a state that executeParallel reaches shortens the measure,
  -- which is 12 for each stage and 2 at the start, or it changes nothing but the world: it is a step
  -- of the world, or the sleep of the loop.
  pub execute_parallel-Shorter :
      (s t : System W)
      → Reached s
      → Step env opts max p s t
      → Shorter env opts max p s t × (measure (init order w) ≡ 12 * length p.stages + 2)
  execute_parallel-Shorter s t r step = (
    Step-Shorter env opts max p order s t (kept s r) step,
    omega (arith, length-perm ordered.0, length-names p.stages),
  )

  -- In a valid pipeline, when executeParallel has returned, it was canceled, or every stage has a
  -- result or was skipped, all goroutines have ended, and the error is that of the first of the
  -- failures that the goroutines recorded in the run, or nil, if there is none. These failures are
  -- those of the calls of executeStage: a test of a stage's name and error holds of one of these
  -- exactly if it holds of one of those.
  pub execute_parallel-returns :
      (s : System W) (err : Option PipelineError) (r : Reached s)
      → s.main ≡ returned err
      → (err ≡ some pipeline_canceled)
        ⊎ (((n : String) → has n (completed_names s.shared.completed) ≡ has n (names p.stages))
            × (all_finished s.tasks ≡ true)
            × (err ≡ first_failure (failures env opts max p r))
            × ((test : String → PipelineError → Bool)
                → some_failure test (failed_calls env opts max p r)
                  ≡ some_failure test (failures env opts max p r)))
  execute_parallel-returns s err r e =
      let (st, h) = kept s r in
      let (first, told) = Reach-first_failure env opts max p r in
      elim (subst (MainKept p s) e h) [
        | inl canceled ↦ inl canceled
        | inr (none_left, ended, same) ↦ inr (
          λ n. ground (
            arith,
            has-perm n ordered.0,
            st.known n,
            ap (has n) none_left,
            st.tasks.written n,
            all_finished-has_recorded n s.tasks ended,
            has_recorded-has n s.tasks,
          ),
          ended,
          same ∙ first,
          told ended,
        )
      ]
