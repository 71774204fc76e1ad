-- ===== src/Pipeline/Parallel/History/Laws.antt =====
-- The first error of executeParallel is that of the first failure, and no failure is lost.
use devsec.Base.{
  ℕ, ◌≡◌, refl, sym, ap, ◌∙◌, subst, Bool, true, ◌||◌, Option, none, some, List, [], ◌∷◌, ◌++◌,
  String, arith, Bool-cases, inl, inr, append-nil,
}
use devsec.Pipeline.Types.{Stage, Pipeline, PipelineError}
use devsec.Pipeline.Result.{get_stage}
use devsec.Pipeline.Runner.{Environment, ExecuteOptions}
use devsec.Pipeline.Parallel.{
  Phase, waiting, Task, Shared, Main, looping, joining, launching, returned, panicked, System,
  main_step, launch, all_finished, is_finished, Step, Reach, start, later, main_moves, task_moves,
  world_moves,
}
use devsec.Pipeline.Parallel.Keeps.{in_phase}
use devsec.Pipeline.Parallel.History.{
  first_failure, some_failure, some_failure-append, failure_at, call_at, calls_in, failures_in,
  failed_calls, failures,
}
use devsec.Pipeline.Parallel.History.Accounts.{
  carried, all_carried, Accounts, AccountsTo, advance-AccountsTo,
}

module _ {W : Type 0} (env : Environment W) (opts : ExecuteOptions) (max : ℕ) (p : Pipeline) where
  -- The first error is that of the first failure recorded, and each failure of a call is recorded or
  -- still to be recorded.
  record Told (s : System W) (cs fs : List (String × PipelineError)) : Type 0 where
    first : s.shared.first_err ≡ first_failure fs
    told :
        (test : String → PipelineError → Bool)
        → some_failure test cs ≡ (some_failure test (all_carried s.tasks) || some_failure test fs)

  Told-same :
      (s t : System W) (cs fs : List (String × PipelineError))
      → t.shared.first_err ≡ s.shared.first_err
      → ((test : String → PipelineError → Bool)
          → some_failure test (all_carried t.tasks) ≡ some_failure test (all_carried s.tasks))
      → Told s cs fs
      → Told t (cs ++ []) (fs ++ [])
  Told-same s t cs fs kept same k = record {
    first = kept ∙ k.first ∙ ap first_failure (sym (append-nil fs));
    told = λ test. rw (append-nil cs, append-nil fs, same test) (k.told test);
  }

  all_carried-append :
      (test : String → PipelineError → Bool) (xs ys : List Task)
      → some_failure test (all_carried (xs ++ ys))
        ≡ (some_failure test (all_carried xs) || some_failure test (all_carried ys))
  all_carried-append test [] ys = refl
  all_carried-append test (x ∷ xs) ys = ground (
    arith,
    all_carried-append test xs ys,
    some_failure-append test (carried x.stage x.phase) (all_carried xs),
    some_failure-append test (carried x.stage x.phase) (all_carried (xs ++ ys)),
  )

  all_carried-around :
      (test : String → PipelineError → Bool) (xs ys : List Task) (stage : Stage) (a : Phase)
      → some_failure test (all_carried (xs ++ in_phase stage a ∷ ys)) ≡ (
          some_failure test (all_carried xs)
          || (some_failure test (carried stage a) || some_failure test (all_carried ys)))
  all_carried-around test xs ys stage a =
      all_carried-append test xs (in_phase stage a ∷ ys)
      ∙ ap (λ b. some_failure test (all_carried xs) || b)
          (some_failure-append test (carried stage a) (all_carried ys))

  -- What is carried before or called in a step is carried behind it or recorded in it.
  handed_on :
      (x y f a call b new : Bool)
      → (a || call) ≡ (b || new)
      → (((x || (a || y)) || f) || call) ≡ ((x || (b || y)) || (f || new))
  handed_on x y f a call b new h = ground (arith, h)

  abbrev ToldTo :
      System W
      → List (String × PipelineError)
      → List (String × PipelineError)
      → Option (System W)
      → Type 0
  ToldTo s cs fs none = Unit
  ToldTo s cs fs (some t) = Told t (cs ++ []) (fs ++ [])

  launch-Told :
      (n : String) (ready : List String) (stage : Option Stage) (s : System W)
      (cs fs : List (String × PipelineError))
      → Told s cs fs
      → Told (launch n ready stage s) (cs ++ []) (fs ++ [])
  unfolding launch
  launch-Told n ready none s cs fs k = Told-same s _ cs fs refl (λ test. refl) k
  launch-Told n ready (some stage) s cs fs k =
      Told-same s _ cs fs refl
        (λ test. ground (arith, all_carried-append test s.tasks (in_phase stage waiting ∷ []))) k

  main_step-ToldTo :
      (keys : List String) (m : Main) (s : System W) (cs fs : List (String × PipelineError))
      → Told s cs fs
      → ToldTo s cs fs (main_step env opts max p keys m s)
  unfolding main_step
  main_step-ToldTo keys looping s cs fs k = Told-same s _ cs fs refl (λ test. refl) k
  main_step-ToldTo keys (launching []) s cs fs k = Told-same s _ cs fs refl (λ test. refl) k
  main_step-ToldTo keys (launching (n ∷ ready)) s cs fs k =
      launch-Told n ready (get_stage p n) s cs fs k
  main_step-ToldTo keys joining s cs fs k = elim (Bool-cases (all_finished s.tasks)) [
    | inl e ↦ rw e (Told-same s _ cs fs refl (λ test. refl) k)
    | inr e ↦ rw e tt
  ]
  main_step-ToldTo keys (returned err) s cs fs k = tt
  main_step-ToldTo keys panicked s cs fs k = tt

  task-Told :
      (s : System W) (xs ys : List Task) (stage : Stage) (a b : Phase) (sh : Shared W)
      (cs fs : List (String × PipelineError))
      → s.tasks ≡ xs ++ in_phase stage a ∷ ys
      → Accounts env opts max p stage a b s.shared sh
      → Told s cs fs
      → Told
          (record s { shared = sh; tasks = xs ++ in_phase stage b ∷ ys })
          (cs ++ call_at env opts max p stage a s.shared)
          (fs ++ failure_at stage a)
  task-Told s xs ys stage a b sh cs fs e acc k = record {
    first = acc.first fs k.first;
    told = λ test.
        let before : some_failure test cs ≡ (
            (some_failure test (all_carried xs)
              || (some_failure test (carried stage a) || some_failure test (all_carried ys)))
            || some_failure test fs) =
          k.told test
          ∙ ap (λ b. b || some_failure test fs)
              (ap (λ ts. some_failure test (all_carried ts)) e
                ∙ all_carried-around test xs ys stage a) in
        rw
          (
            some_failure-append test cs (call_at env opts max p stage a s.shared),
            some_failure-append test fs (failure_at stage a),
            all_carried-around test xs ys stage b,
            before,
          )
          (handed_on (some_failure test (all_carried xs)) (some_failure test (all_carried ys))
            (some_failure test fs) _ _ _ _ (acc.moved test));
  }

  Step-Told :
      {s t : System W} (cs fs : List (String × PipelineError)) (step : Step env opts max p s t)
      → Told s cs fs
      → Told t (cs ++ calls_in env opts max p step) (fs ++ failures_in env opts max p step)
  Step-Told {s} cs fs (main_moves keys perm e) k =
      subst (ToldTo s cs fs) e (main_step-ToldTo keys s.main s cs fs k)
  Step-Told {s} cs fs (world_moves w) k = Told-same s _ cs fs refl (λ test. refl) k
  Step-Told {s} cs fs (task_moves xs ys stage a {phase' = b} {shared' = sh} live e adv) k =
      task-Told s xs ys stage a b sh cs fs e
        (subst (AccountsTo env opts max p stage a s.shared) adv
          (advance-AccountsTo env opts max p stage a s.shared))
        k

  Reach-Told :
      {order : List String} {w : W} {s : System W} (r : Reach env opts max p order w s)
      → Told s (failed_calls env opts max p r) (failures env opts max p r)
  unfolding failed_calls failures
  Reach-Told start = record { first = refl; told = λ test. refl }
  Reach-Told (later r step) =
      Step-Told (failed_calls env opts max p r) (failures env opts max p r) step (Reach-Told r)

  carried-finished : (s : Stage) (a : Phase) → is_finished a ≡ true → carried s a ≡ []
  unfolding is_finished
  carried-finished s a h = ground (arith, h)

  all_carried-finished : (ts : List Task) → all_finished ts ≡ true → all_carried ts ≡ []
  unfolding all_finished
  all_carried-finished [] h = refl
  all_carried-finished (t ∷ ts) h =
      let here : is_finished t.phase ≡ true = ground (arith, h) in
      let there : all_finished ts ≡ true = ground (arith, h) in
      ap (λ l. l ++ all_carried ts) (carried-finished t.stage t.phase here)
      ∙ all_carried-finished ts there

  -- The first error is that of the first failure that was recorded. When all goroutines have ended,
  -- the failures that were recorded are those of the calls of executeStage: a test that holds of one
  -- of these holds of one of those.
  pub Reach-first_failure :
      {order : List String} {w : W} {s : System W} (r : Reach env opts max p order w s)
      → (s.shared.first_err ≡ first_failure (failures env opts max p r))
        × (all_finished s.tasks ≡ true
            → (test : String → PipelineError → Bool)
            → some_failure test (failed_calls env opts max p r)
              ≡ some_failure test (failures env opts max p r))
  Reach-first_failure {s = s} r =
      let k = Reach-Told r in
      (
        k.first,
        λ ended test.
            k.told test
            ∙ ap (λ l. some_failure test l || some_failure test (failures env opts max p r))
                (all_carried-finished s.tasks ended),
      )
