-- ===== src/Pipeline/Parallel/Progress.antt =====
-- executeParallel is never stuck before it returns.
use mathlib.Core.List.Perm
use mathlib.Core.Bool.{false≢true}
use devsec.Base.{
  ℕ, ◌<◌, ◌≡◌, ◌≢◌, ◌⊎◌, inl, inr, refl, Bool, true, false, Option, some, List, [], ◌∷◌, ◌++◌,
  String, has, arith, subst, sym, ap, ◌∙◌, All, Bool-cases, ltb,
}
use devsec.Pipeline.Types.{Stage, Pipeline, PipelineError}
use devsec.Pipeline.Order.{Respects}
use devsec.Pipeline.Result.{get_stage}
use devsec.Pipeline.Completed.{completed_names}
use devsec.Pipeline.Runner.{Environment, ExecuteOptions}
use devsec.Pipeline.Parallel.{
  Phase, waiting, finished, Task, Shared, Main, looping, joining, launching, returned, panicked,
  System, deps_of, main_step, advance, launch, loop_step, launch_all, find_ready_stages, Step,
  main_moves, task_moves, all_finished, is_finished,
}
use devsec.Pipeline.Parallel.Steps.{advance-Advanced, tokens_of, tokens_held}
use devsec.Pipeline.Parallel.Keeps.{TasksKept, MainKept, StagesKept, Kept, in_phase}
use devsec.Pipeline.Parallel.Measure.{measure, launch-shorter, loop_step-Shorter, task_measure}
use devsec.Pipeline.Parallel.Wakes.{
  first_pending, all_finished-has_recorded, find_ready_stages-finds,
}

-- Whether a goroutine can go on.
abbrev is_runnable : ℕ → ℕ → Phase → Bool
is_runnable max tokens waiting = ltb tokens max
is_runnable max tokens finished = false
is_runnable max tokens _ = true

-- A goroutine that can go on, among the others.
record Runnable (max tokens : ℕ) (tasks : List Task) : Type 0 where
  before : List Task
  after : List Task
  stage : Stage
  phase : Phase
  parts : tasks ≡ before ++ in_phase stage phase ∷ after
  can_run : is_runnable max tokens phase ≡ true

find-Runnable :
    (max tokens : ℕ) (ts : List Task)
    → Runnable max tokens ts ⊎ All (λ t. is_runnable max tokens t.phase ≡ false) ts
find-Runnable max tokens [] = inr tt
find-Runnable max tokens (t ∷ ts) = elim (Bool-cases (is_runnable max tokens t.phase)) [
  | inl e ↦ inl (record {
    before = [];
    after = ts;
    stage = t.stage;
    phase = t.phase;
    parts = refl;
    can_run = e;
  })
  | inr e ↦ elim (find-Runnable max tokens ts) [
    | inl r ↦ inl (record {
      before = t ∷ r.before;
      after = r.after;
      stage = r.stage;
      phase = r.phase;
      parts = ap (λ l. t ∷ l) r.parts;
      can_run = r.can_run;
    })
    | inr none_runs ↦ inr (e, none_runs)
  ]
]

-- Where no goroutine can go on, none holds a token.
blocked-tokens_of :
    (max tokens : ℕ) (a : Phase) → is_runnable max tokens a ≡ false → tokens_of a ≡ 0
blocked-tokens_of max tokens waiting h = refl
blocked-tokens_of max tokens finished h = refl
blocked-tokens_of max tokens _ h = absurd (false≢true (sym h))

blocked-tokens_held :
    (max tokens : ℕ) (ts : List Task)
    → All (λ t. is_runnable max tokens t.phase ≡ false) ts
    → tokens_held ts ≡ 0
blocked-tokens_held max tokens [] h = refl
blocked-tokens_held max tokens (t ∷ ts) (here, h) =
    omega (arith, blocked-tokens_of max tokens t.phase here, blocked-tokens_held max tokens ts h)

blocked-is_finished :
    (max tokens : ℕ) (a : Phase)
    → tokens < max
    → is_runnable max tokens a ≡ false
    → is_finished a ≡ true
unfolding is_finished
blocked-is_finished max tokens waiting free h = ground arith
blocked-is_finished max tokens finished free h = refl
blocked-is_finished max tokens _ free h = absurd (false≢true (sym h))

blocked-all_finished :
    (max tokens : ℕ) (ts : List Task)
    → tokens < max
    → All (λ t. is_runnable max tokens t.phase ≡ false) ts
    → all_finished ts ≡ true
unfolding all_finished
blocked-all_finished max tokens [] free h = refl
blocked-all_finished max tokens (t ∷ ts) free (here, h) =
    rw (blocked-is_finished max tokens t.phase free here)
      (blocked-all_finished max tokens ts free h)

module _ {W : Type 0} (env : Environment W) (opts : ExecuteOptions) (max : ℕ) (p : Pipeline) where
  advance-runs :
      (stage : Stage) (a : Phase) (sh : Shared W)
      → is_runnable max sh.tokens a ≡ true
      → (b : Phase) × (sh' : Shared W) × (advance env opts max p stage a sh ≡ some (b, sh'))
  unfolding advance
  advance-runs stage waiting sh h = rw h (_, _, refl)
  advance-runs stage finished sh h = absurd (false≢true h)
  advance-runs stage _ sh h = (_, _, refl)

  -- A step that brings the run nearer to its end.
  abbrev pub Next : System W → Type 0
  Next s = (t : System W) × Step env opts max p s t × (measure t < measure s)

  -- Before all goroutines have ended, one of them goes on.
  task-Next :
      (s : System W)
      → 0 < max
      → s.main ≢ panicked
      → TasksKept max s.shared s.tasks
      → all_finished s.tasks ≡ false
      → Next s
  task-Next s workers live k busy = elim (find-Runnable max s.shared.tokens s.tasks) [
    | inl r ↦
        let (b, sh, e) = advance-runs r.stage r.phase s.shared r.can_run in
        (
          _,
          task_moves r.before r.after r.stage r.phase live r.parts e,
          task_measure env opts max p s r.before r.after r.stage r.phase b sh r.parts
              (advance-Advanced env opts max p r.stage r.phase b s.shared sh e).shorter,
        )
    | inr blocked ↦
        let free : s.shared.tokens < max =
          omega (arith, k.held, blocked-tokens_held max s.shared.tokens s.tasks blocked) in
        absurd
          (false≢true (sym busy ∙ blocked-all_finished max s.shared.tokens s.tasks free blocked))
  ]

  main-Next :
      (s t : System W)
      → main_step env opts max p s.pending s.main s ≡ some t
      → measure t < measure s
      → Next s
  main-Next s t e less = (t, main_moves s.pending (Perm.refl s.pending) e, less)

  -- The loop finds a stage when all goroutines have ended.
  module _ (order : List String) (respects : Respects p.stages [] order) where
    finds_some :
        (k : String) (s : System W)
        → StagesKept max order s
        → all_finished s.tasks ≡ true
        → has k s.pending ≡ true
        → find_ready_stages s.pending (deps_of p.stages) s.shared.completed ≢ []
    finds_some k s st ended wait e =
        let (n, mem, deps) =
          first_pending p.stages [] order (completed_names s.shared.completed) s.pending k respects
            (λ n h. absurd (false≢true h))
            (λ n h.
              ground
                (arith, st.known n, st.tasks.written n, all_finished-has_recorded n s.tasks ended))
            (ground (arith, st.known k)) wait in
        absurd (
          false≢true (
            ap (has n) (sym e)
            ∙ find_ready_stages-finds n s.pending (deps_of p.stages) s.shared.completed mem deps))

    launch_all-ne-looping : (ready : List String) → ready ≢ [] → launch_all ready ≢ looping
    unfolding launch_all
    launch_all-ne-looping [] h e = h refl
    launch_all-ne-looping (n ∷ ready) h e = ground arith

    loop_step-ne-looping :
        (s : System W) (pending : List String)
        → s.pending ≡ pending
        → StagesKept max order s
        → all_finished s.tasks ≡ true
        → loop_step env opts max p pending s ≢ looping
    unfolding loop_step
    loop_step-ne-looping s [] same st ended = ground arith
    loop_step-ne-looping s (k ∷ keys) same st ended = elim (Bool-cases (env.done s.shared.world)) [
      | inl d ↦ rw d (ground arith)
      | inr d ↦ rw d (
          launch_all-ne-looping (find_ready_stages (k ∷ keys) (deps_of p.stages) s.shared.completed)
            (subst (λ l. find_ready_stages l (deps_of p.stages) s.shared.completed ≢ []) same
              (finds_some k s st ended (rw same (ground arith)))))
    ]

    looping-Next : (s : System W) → s.main ≡ looping → 0 < max → StagesKept max order s → Next s
    unfolding main_step
    looping-Next s e workers st = elim (Bool-cases (all_finished s.tasks)) [
      | inr busy ↦ task-Next s workers (λ h. ground arith) st.tasks busy
      | inl ended ↦
          let wakes = loop_step-ne-looping s s.pending refl st ended in
          elim (loop_step-Shorter env opts max p s.pending s e) [
            | inl same ↦ absurd (wakes (ap (λ t. t.main) same ∙ e))
            | inr less ↦
                main-Next s (record s { main = loop_step env opts max p s.pending s }) (rw e refl)
                  less
          ]
    ]

    main_case :
        (s : System W) (m : Main)
        → s.main ≡ m
        → ((err : Option PipelineError) → m ≢ returned err)
        → 0 < max
        → StagesKept max order s
        → MainKept p s m
        → Next s
    unfolding main_step
    main_case s looping e live workers st h = looping-Next s e workers st
    main_case s (launching []) e live workers st h =
        main-Next s (record s { main = looping }) (rw e refl) (rw e (omega arith))
    main_case s (launching (n ∷ ready)) e live workers st (_, ((mem, _), _)) =
        main-Next s (launch n ready (get_stage p n) s) (rw e refl)
          (launch-shorter env opts max p n ready (get_stage p n) s e mem)
    main_case s joining e live workers st h = elim (Bool-cases (all_finished s.tasks)) [
      | inl ended ↦
          main-Next s (record s { main = returned s.shared.first_err }) (rw (e, ended) refl)
            (rw e (omega arith))
      | inr busy ↦ task-Next s workers (λ h. ground arith) st.tasks busy
    ]
    main_case s (returned err) e live workers st h = absurd (live err refl)
    main_case s panicked e live workers st h = absurd h

    pub kept-Next :
        (s : System W)
        → ((err : Option PipelineError) → s.main ≢ returned err)
        → 0 < max
        → Kept max order p s
        → Next s
    kept-Next s live workers (st, h) = main_case s s.main refl live workers st h
