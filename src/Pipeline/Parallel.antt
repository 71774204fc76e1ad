-- ===== src/Pipeline/Parallel.antt =====
-- internal/pipeline/executor.go: executeParallel and findReadyStages, as the interleavings of the
-- loop and the goroutines that it launches. A step stands for a stretch of code between two
-- synchronizations. The call of executeStage is one step.
pub mod Spec
pub mod Steps
pub mod Keeps
pub mod Ready
pub mod Invariant
pub mod Refines
pub mod Measure
pub mod Wakes
pub mod Progress
pub mod History
pub mod Schedule
pub mod Laws
mod Tests
use mathlib.Core.Logic.{ite}
use devsec.Base.{
  ℕ, ◌+◌, ◌-◌, ◌≡◌, ◌≢◌, Bool, true, false, ◌&&◌, Option, none, some, List, [], ◌∷◌, ◌++◌, String,
  Perm, has, update, ltb, if◌then◌else◌, string_discrete,
}
use devsec.Base.Int.{ℤ, pos, is_nonpositive}
use devsec.Pipeline.Types.{
  skipped, Stage, Pipeline, PipelineError, pipeline_canceled, stage_error_of,
}
use devsec.Pipeline.Result.{StageResult, get_stage}
use devsec.Pipeline.Completed.{Completed, set_completed, completed_names}
use devsec.Pipeline.Runner.{Environment, ExecuteOptions, execute_stage}

-- The map `deps`, of which a missing key reads as nil.
unfoldable pub build_deps : (String → List String) → List Stage → String → List String
build_deps d [] = d
build_deps d (s ∷ ss) = build_deps (update d s.name s.depends_on) ss

unfoldable pub deps_of : List Stage → String → List String
unfolding build_deps string_discrete
deps_of stages = build_deps (λ _. []) stages

-- The inner loop of findReadyStages.
unfoldable pub all_deps_complete : Completed → List String → Bool
all_deps_complete c [] = true
all_deps_complete c (d ∷ ds) = if has d (completed_names c) then all_deps_complete c ds else false

-- findReadyStages, with the keys of `pending` in the order of the loop.
unfoldable pub find_ready_stages : List String → (String → List String) → Completed → List String
unfolding all_deps_complete
find_ready_stages [] deps c = []
find_ready_stages (n ∷ pending) deps c =
    let rest = find_ready_stages pending deps c in
    if all_deps_complete c (deps n) then n ∷ rest else rest

-- delete(pending, name)
unfoldable pub delete : String → List String → List String
delete n [] = []
delete n (m ∷ ms) = let rest = delete n ms in ite (string_discrete m n) rest (m ∷ rest)

-- The capacity of the semaphore. `num_cpu` is runtime.NumCPU().
unfoldable pub max_workers : ℕ → ℤ → ℕ
max_workers num_cpu max_parallel =
    if is_nonpositive max_parallel then num_cpu else elim max_parallel [ pos n ↦ n | _ ↦ num_cpu ]

-- Where a goroutine stands: before the semaphore, with its token at the test of firstErr, at either
-- branch of it, with its snapshot, and behind executeStage, behind each of the three updates, and
-- at the end.
pub data Phase : Type 0 where
  waiting acquired skipping continuing : Phase
  executing : Completed → Phase
  executed appended : StageResult → Option PipelineError → Phase
  recorded : Option PipelineError → Phase
  releasing finished : Phase

pub record Task : Type 0 where
  pub stage : Stage
  pub phase : Phase

-- What the goroutines share. `tokens` are those in the semaphore.
pub record Shared (W : Type 0) : Type 0 where
  pub tokens : ℕ
  pub completed : Completed
  pub results : List StageResult
  pub first_err : Option PipelineError
  pub world : W

-- Where the calling goroutine stands: at the head of its loop, in the loop over the ready stages, at
-- wg.Wait, behind its return, or stopped by the dereference of a nil stage.
pub data Main : Type 0 where
  looping joining : Main
  launching : List String → Main
  returned : Option PipelineError → Main
  panicked : Main

pub record System (W : Type 0) : Type 0 where
  pub shared : Shared W
  pub pending : List String
  pub tasks : List Task
  pub main : Main

abbrev pub is_some {ℓ} : {A : Type ℓ} → Option A → Bool
is_some none = false
is_some (some _) = true

-- if firstErr == nil { firstErr = NewStageError(...) }
keep_first : Option PipelineError → String → PipelineError → Option PipelineError
keep_first none name e = some (stage_error_of name "stage failed" e)
keep_first (some first) name e = some first

-- The last test of a goroutine.
set_first_err : String → Option PipelineError → Option PipelineError → Option PipelineError
unfolding keep_first
set_first_err name none first = first
set_first_err name (some e) first = keep_first first name e

skipped_result : String → StageResult
skipped_result name = record { name = name; status = skipped; error = ""; artifacts = none }

unfoldable pub is_finished : Phase → Bool
is_finished finished = true
is_finished _ = false

unfoldable pub all_finished : List Task → Bool
unfolding is_finished
all_finished [] = true
all_finished (t ∷ ts) = is_finished t.phase && all_finished ts

-- The stages found ready are launched; when there are none, the loop sleeps and goes on.
unfoldable pub launch_all : List String → Main
launch_all [] = looping
launch_all (n ∷ ready) = launching (n ∷ ready)

unfoldable pub launch : {W : Type 0} → String → List String → Option Stage → System W → System W
unfolding delete
launch n ready none s = record s { pending = delete n s.pending; main = panicked }
launch n ready (some stage) s = record s {
  pending = delete n s.pending;
  tasks = s.tasks ++ (record { stage = stage; phase = waiting }) ∷ [];
  main = launching ready;
}

abbrev pub init : {W : Type 0} → List String → W → System W
init order w = record {
  shared = record { tokens = 0; completed = []; results = []; first_err = none; world = w };
  pending = order;
  tasks = [];
  main = looping;
}

module _ {W : Type 0} (env : Environment W) (opts : ExecuteOptions) (max : ℕ) (p : Pipeline) where
  -- The next step of a goroutine; none where it is blocked or has ended.
  unfoldable pub advance : Stage → Phase → Shared W → Option (Phase × Shared W)
  unfolding execute_stage set_completed set_first_err skipped_result
  advance s waiting sh =
      if ltb sh.tokens max then some (acquired, record sh { tokens = sh.tokens + 1 }) else none
  advance s acquired sh =
      some (if is_some sh.first_err && p.fail_fast then skipping else continuing, sh)
  advance s skipping sh = some (
    releasing,
    record sh { completed = set_completed s.name (skipped_result s.name) sh.completed },
  )
  advance s continuing sh = some (executing sh.completed, sh)
  advance s (executing snapshot) sh =
      let (r, err, w) = execute_stage env opts s snapshot sh.world in
      some (executed r err, record sh { world = w })
  advance s (executed r err) sh =
      some (appended r err, record sh { results = sh.results ++ r ∷ [] })
  advance s (appended r err) sh =
      some (recorded err, record sh { completed = set_completed s.name r sh.completed })
  advance s (recorded err) sh =
      some (releasing, record sh { first_err = set_first_err s.name err sh.first_err })
  advance s releasing sh = some (finished, record sh { tokens = sh.tokens - 1 })
  advance s finished sh = none

  unfoldable pub loop_step : List String → System W → Main
  unfolding find_ready_stages deps_of launch_all
  loop_step [] s = joining
  loop_step (k ∷ keys) s =
      if env.done s.shared.world
      then returned (some pipeline_canceled)
      else launch_all (find_ready_stages (k ∷ keys) (deps_of p.stages) s.shared.completed)

  -- The next step of the calling goroutine; `keys` are those of `pending` in the order of the loop.
  unfoldable pub main_step : List String → Main → System W → Option (System W)
  unfolding loop_step launch get_stage all_finished
  main_step keys looping s = some (record s { main = loop_step keys s })
  main_step keys (launching []) s = some (record s { main = looping })
  main_step keys (launching (n ∷ ready)) s = some (launch n ready (get_stage p n) s)
  main_step keys joining s =
      if all_finished s.tasks then some (record s { main = returned s.shared.first_err }) else none
  main_step keys (returned err) s = none
  main_step keys panicked s = none

  -- The goroutines go on when the calling one has returned, until they end or the program panics. The
  -- world, with the context in it, may change at any time.
  pub data Step (s : System W) : System W → Type 0 where
    main_moves :
        (keys : List String) {t : System W}
        → Perm keys s.pending
        → main_step keys s.main s ≡ some t
        → Step s t
    world_moves : (w : W) → Step s (record s { shared = record s.shared { world = w } })
    task_moves :
        (before after : List Task) (stage : Stage) (phase : Phase) {phase' : Phase}
        {shared' : Shared W}
        → s.main ≢ panicked
        → s.tasks ≡ before ++ (record { stage = stage; phase = phase }) ∷ after
        → advance stage phase s.shared ≡ some (phase', shared')
        → Step s (record s {
          shared = shared';
          tasks = before ++ (record { stage = stage; phase = phase' }) ∷ after;
        })

  pub data Reach (order : List String) (w : W) : System W → Type 0 where
    start : Reach order w (init order w)
    later : {s t : System W} → Reach order w s → Step s t → Reach order w t
