-- ===== src/Pipeline/Parallel/Invariant.antt =====
-- The invariant of executeParallel: every step of the loop and of a goroutine keeps it.
use mathlib.Core.Bool.{false≢true}
use mathlib.Core.List.Perm
use devsec.Base.{
  ℕ, ◌≡◌, ◌≢◌, inl, inr, refl, true, false, ◌||◌, Option, none, some, List, [], ◌∷◌, ◌++◌, String,
  has, has-perm, arith, subst, Bool-cases, sym, ap, ◌∙◌, All, IsDistinct, Perm, IsDistinct-perm,
  length-perm,
}
use devsec.Pipeline.Types.{Stage, Pipeline, names}
use devsec.Pipeline.Order.{Satisfied}
use devsec.Pipeline.Result.{get_stage}
use devsec.Pipeline.Result.Lookup.{get_stage-has, get_stage-name}
use devsec.Pipeline.Completed.{Completed, completed_names}
use devsec.Pipeline.Runner.{Environment, ExecuteOptions}
use devsec.Pipeline.Parallel.{
  Phase, waiting, finished, Task, Shared, Main, looping, joining, launching, returned, panicked,
  System, deps_of, find_ready_stages, all_finished, is_finished, main_step, launch, loop_step,
  launch_all, Step, Reach, start, later, main_moves, task_moves, world_moves,
}
use devsec.Pipeline.Parallel.Spec.{IsDistinct-snoc}
use devsec.Pipeline.Parallel.Steps.{
  Records, Advanced, advance-Advanced, task_names, steps_left, task_names-append,
  tokens_held-append, has_recorded-append,
}
use devsec.Pipeline.Parallel.Keeps.{
  MayStart, TasksKept, MainKept, StagesKept, Kept, init-Kept, task_step, in_phase,
  has-set_completed, has_names-append, task_names-phase,
}
use devsec.Pipeline.Parallel.Ready.{
  find_ready_stages-IsDistinct, find_ready_stages-MayStart, has-delete, IsDistinct-delete,
  MayStart-delete,
}

pub Satisfied-mono :
    (xs ys ds : List String)
    → ((n : String) → has n xs ≡ true → has n ys ≡ true)
    → Satisfied xs ds
    → Satisfied ys ds
Satisfied-mono xs ys [] sub h = tt
Satisfied-mono xs ys (d ∷ ds) sub (here, rest) = (sub d here, Satisfied-mono xs ys ds sub rest)

-- No result is lost.
has-Records :
    {W : Type 0} (n : String) (a b : Phase) (sh sh' : Shared W) (m : String)
    → Records n a b sh sh'
    → has m (completed_names sh.completed) ≡ true
    → has m (completed_names sh'.completed) ≡ true
has-Records n a b sh sh' m (inl (_, kept)) h = rw kept h
has-Records n a b sh sh' m (inr (_, _, (r, kept))) h =
    rw kept (ground (arith, has-set_completed m n r sh.completed))

MayStart-mono :
    (p : Pipeline) (c c' : Completed) (pending ready : List String)
    → ((n : String) → has n (completed_names c) ≡ true → has n (completed_names c') ≡ true)
    → All (MayStart p c pending) ready
    → All (MayStart p c' pending) ready
MayStart-mono p c c' pending [] sub h = tt
MayStart-mono p c c' pending (n ∷ ready) sub ((here, deps), rest) = (
  (here, Satisfied-mono (completed_names c) (completed_names c') (deps_of p.stages n) sub deps),
  MayStart-mono p c c' pending ready sub rest,
)

-- A goroutine that goes on has not ended.
all_finished-stuck :
    (xs ys : List Task) (s : Stage) (a : Phase)
    → all_finished (xs ++ in_phase s a ∷ ys) ≡ true
    → steps_left a ≡ 0
unfolding all_finished is_finished
all_finished-stuck [] ys s finished h = refl
all_finished-stuck [] ys s a h = absurd (false≢true h)
all_finished-stuck (x ∷ xs) ys s a h = all_finished-stuck xs ys s a (ground arith)

module _ {W : Type 0} (p : Pipeline) where
  MainKept-task :
      (s : System W) (sh : Shared W) (ts : List Task) (m : Main)
      → ((n : String)
          → has n (completed_names s.shared.completed) ≡ true
          → has n (completed_names sh.completed) ≡ true)
      → (all_finished s.tasks ≢ true)
      → MainKept p s m
      → MainKept p (record s { shared = sh; tasks = ts }) m
  MainKept-task s sh ts looping sub busy h = tt
  MainKept-task s sh ts joining sub busy h = h
  MainKept-task s sh ts (launching ready) sub busy (once, may) =
      (once, MayStart-mono p s.shared.completed sh.completed s.pending ready sub may)
  MainKept-task s sh ts (returned err) sub busy (inl e) = inl e
  MainKept-task s sh ts (returned err) sub busy (inr (_, ended, _)) = absurd (busy ended)
  MainKept-task s sh ts panicked sub busy h = h

  -- It does not depend on the world, nor on the place itself.
  MainKept-same :
      (s : System W) (w : W) (m m' : Main)
      → MainKept p s m
      → MainKept p (record s { shared = record s.shared { world = w }; main = m' }) m
  MainKept-same s w looping m' h = h
  MainKept-same s w joining m' h = h
  MainKept-same s w (launching ready) m' h = h
  MainKept-same s w (returned err) m' h = h
  MainKept-same s w panicked m' h = h

  launch_all-MainKept :
      (s : System W) (ready : List String)
      → MainKept p s (launching ready)
      → MainKept p s (launch_all ready)
  unfolding launch_all
  launch_all-MainKept s [] h = tt
  launch_all-MainKept s (n ∷ ready) h = h

perm-nil : (xs : List String) → Perm [] xs → xs ≡ []
perm-nil [] h = refl
perm-nil (x ∷ xs) h = ground (arith, length-perm h)

StagesKept-same :
    {W : Type 0} (max : ℕ) (order : List String) (s : System W) (w : W) (m : Main)
    → StagesKept max order s
    → StagesKept max order (record s { shared = record s.shared { world = w }; main = m })
StagesKept-same max order s w m k = record {
  known = k.known;
  apart = k.apart;
  pending_once = k.pending_once;
  tasks = record {
    once = k.tasks.once;
    written = k.tasks.written;
    held = k.tasks.held;
    bounded = k.tasks.bounded;
  };
}

module _ {W : Type 0} (env : Environment W) (opts : ExecuteOptions) (max : ℕ) (p : Pipeline)
    (order : List String) where
  -- Launching a pending stage.
  launch-StagesKept :
      (n : String) (stage : Stage) (ready : List String) (s : System W)
      → stage.name ≡ n
      → has n s.pending ≡ true
      → StagesKept max order s
      → StagesKept max order (launch n ready (some stage) s)
  unfolding launch
  launch-StagesKept n stage ready s named mem k =
      let new = in_phase stage waiting ∷ [] in
      let free : has stage.name (task_names s.tasks) ≡ false = ground (arith, k.apart stage.name) in
      record {
        known = λ m.
            ground (arith, k.known m, has_names-append m s.tasks new, has-delete m n s.pending);
        apart = λ m h.
            ground (arith, k.apart m, has_names-append m s.tasks new, has-delete m n s.pending);
        pending_once = IsDistinct-delete n s.pending k.pending_once;
        tasks = record {
          once =
              subst IsDistinct (sym (task_names-append s.tasks new))
                (IsDistinct-snoc stage.name (task_names s.tasks) k.tasks.once free);
          written = λ m. ground (arith, k.tasks.written m, has_recorded-append m s.tasks new);
          held = omega (arith, k.tasks.held, tokens_held-append s.tasks new);
          bounded = k.tasks.bounded;
        };
      }

  loop_step-MainKept :
      (keys : List String) (s : System W)
      → Perm keys s.pending
      → IsDistinct s.pending
      → MainKept p s (loop_step env opts max p keys s)
  unfolding loop_step
  loop_step-MainKept [] s perm once = perm-nil s.pending perm
  loop_step-MainKept (k ∷ keys) s perm once = elim (Bool-cases (env.done s.shared.world)) [
    | inl e ↦ rw e (inl refl)
    | inr e ↦
        let deps = deps_of p.stages in
        let c = s.shared.completed in
        rw e (
          launch_all-MainKept p s (find_ready_stages (k ∷ keys) deps c) (
            find_ready_stages-IsDistinct (k ∷ keys) deps c (IsDistinct-perm (Perm.symm perm) once),
            find_ready_stages-MayStart p (k ∷ keys) s.pending c (λ n h. sym (has-perm n perm) ∙ h),
          ))
  ]

  -- Whether a state of the system is kept, if there is one.
  abbrev KeptTo : Option (System W) → Type 0
  KeptTo none = Unit
  KeptTo (some t) = Kept max order p t

  launch-Kept :
      (n : String) (ready : List String) (s : System W)
      → ((m : String) → has m order ≡ true → has m (names p.stages) ≡ true)
      → StagesKept max order s
      → MainKept p s (launching (n ∷ ready))
      → Kept max order p (launch n ready (get_stage p n) s)
  launch-Kept n ready s declared k ((new, once), ((mem, deps), may)) =
      let (stage, found) = get_stage-has p n (declared n (ground (arith, k.known n))) in
      rw found (
        launch-StagesKept n stage ready s (get_stage-name p n stage found) mem k,
        unfold launch in (once, MayStart-delete p s.shared.completed n s.pending ready new may),
      )

  main_step-KeptTo :
      (keys : List String) (m : Main) (s : System W)
      → ((n : String) → has n order ≡ true → has n (names p.stages) ≡ true)
      → Perm keys s.pending
      → StagesKept max order s
      → MainKept p s m
      → KeptTo (main_step env opts max p keys m s)
  unfolding main_step
  main_step-KeptTo keys looping s declared perm k h =
      let m = loop_step env opts max p keys s in
      (
        StagesKept-same max order s s.shared.world m k,
        MainKept-same p s s.shared.world m m (loop_step-MainKept keys s perm k.pending_once),
      )
  main_step-KeptTo keys (launching []) s declared perm k h =
      (StagesKept-same max order s s.shared.world looping k, tt)
  main_step-KeptTo keys (launching (n ∷ ready)) s declared perm k h =
      launch-Kept n ready s declared k h
  main_step-KeptTo keys joining s declared perm k h = elim (Bool-cases (all_finished s.tasks)) [
    | inl e ↦ rw e (
      StagesKept-same max order s s.shared.world (returned s.shared.first_err) k,
      inr (h, e, refl),
    )
    | inr e ↦ rw e tt
  ]
  main_step-KeptTo keys (returned err) s declared perm k h = tt
  main_step-KeptTo keys panicked s declared perm k h = tt

  task-Kept :
      (s : System W) (xs ys : List Task) (stage : Stage) (a b : Phase) (sh : Shared W)
      → s.tasks ≡ xs ++ in_phase stage a ∷ ys
      → Advanced max stage.name a b s.shared sh
      → Kept max order p s
      → Kept max order p (record s { shared = sh; tasks = xs ++ in_phase stage b ∷ ys })
  task-Kept s xs ys stage a b sh e adv (k, h) =
      let same = ap task_names e ∙ task_names-phase xs ys stage a b in
      (
        record {
          known = λ n. k.known n ∙ ap (λ l. has n l || has n s.pending) same;
          apart = λ n on. k.apart n (ap (has n) same ∙ on);
          pending_once = k.pending_once;
          tasks =
              task_step max xs ys stage a b s.shared sh adv
                (subst (TasksKept max s.shared) e k.tasks);
        },
        MainKept-task p s sh (xs ++ in_phase stage b ∷ ys) s.main
            (λ n. has-Records stage.name a b s.shared sh n adv.records)
            (λ ended. omega (
              arith,
              adv.shorter,
              all_finished-stuck xs ys stage a (ap all_finished (sym e) ∙ ended),
            ))
            h,
      )

  module _ (declared : (n : String) → has n order ≡ true → has n (names p.stages) ≡ true) where
    Step-Kept : {s t : System W} → Step env opts max p s t → Kept max order p s → Kept max order p t
    Step-Kept {s} (main_moves keys perm e) (k, h) =
        subst KeptTo e (main_step-KeptTo keys s.main s declared perm k h)
    Step-Kept {s} (world_moves w) (k, h) =
        (StagesKept-same max order s w s.main k, MainKept-same p s w s.main s.main h)
    Step-Kept {s} (task_moves xs ys stage a {phase' = b} {shared' = sh} live e adv) k =
        task-Kept s xs ys stage a b sh e (advance-Advanced env opts max p stage a b s.shared sh adv)
          k

    pub Reach-Kept :
        {w : W} {s : System W}
        → IsDistinct order
        → Reach env opts max p order w s
        → Kept max order p s
    Reach-Kept {w} d start = init-Kept max order p w d
    Reach-Kept d (later r s) = Step-Kept s (Reach-Kept d r)
