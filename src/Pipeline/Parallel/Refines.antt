-- ===== src/Pipeline/Parallel/Refines.antt =====
-- executeParallel refines the specification of Spec, and what follows for the stages that it runs.
use devsec.Base.{
  ℕ, ◌≡◌, ◌⊎◌, inl, inr, refl, true, false, Option, none, some, List, [], ◌∷◌, ◌++◌, String, has,
  arith, subst, sym, ap, ◌∙◌, IsDistinct, Bool-cases,
}
use devsec.Pipeline.Types.{Stage, Pipeline, names}
use devsec.Pipeline.Order.{Satisfied}
use devsec.Pipeline.Result.{get_stage}
use devsec.Pipeline.Result.Lookup.{get_stage-name}
use devsec.Pipeline.Completed.{completed_names}
use devsec.Pipeline.Runner.{Environment, ExecuteOptions}
use devsec.Pipeline.Execute.Coverage.{set_completed-new}
use devsec.Pipeline.Parallel.{
  Phase, Task, Shared, Main, looping, joining, launching, returned, panicked, System, deps_of,
  main_step, launch, Step, Reach, start, later, main_moves, task_moves, world_moves, all_finished,
  waiting,
}
use devsec.Pipeline.Parallel.Spec.{State, starts, finishes}
use devsec.Pipeline.Parallel.Spec as Spec
use devsec.Pipeline.Parallel.Steps.{
  Records, advance-Advanced, task_names, task_names-append, has_recorded-append, is_recorded,
}
use devsec.Pipeline.Parallel.Keeps.{
  TasksKept, MainKept, StagesKept, Kept, in_phase, task_names-phase, has_recorded-once,
  has_names-append,
}
use devsec.Pipeline.Parallel.Invariant.{Reach-Kept}

-- What the specification sees of the system.
abbrev pub view : {W : Type 0} → System W → State
view s = record { started = task_names s.tasks; done = completed_names s.shared.completed }

-- Nothing that the specification sees, or one step of it.
abbrev pub Simulated : {W : Type 0} → Pipeline → System W → System W → Type 0
Simulated p s t = (view t ≡ view s) ⊎ Spec.Step (deps_of p.stages) (view s) (view t)

module _ {W : Type 0} (env : Environment W) (opts : ExecuteOptions) (max : ℕ) (p : Pipeline)
    (order : List String) where
  -- The result of a goroutine that has not written it yet is new.
  unwritten :
      (s : System W) (xs ys : List Task) (stage : Stage) (a : Phase)
      → s.tasks ≡ xs ++ in_phase stage a ∷ ys
      → TasksKept max s.shared s.tasks
      → is_recorded a ≡ false
      → (has stage.name (task_names s.tasks) ≡ true)
        × (has stage.name (completed_names s.shared.completed) ≡ false)
  unwritten s xs ys stage a e k unrecorded =
      let (l, r) =
        has_recorded-once xs ys stage a (subst (λ ts. IsDistinct (task_names ts)) e k.once) in
      (
        rw (e, has_names-append stage.name xs (in_phase stage a ∷ ys)) (ground arith),
        rw
            (
              k.written stage.name,
              e,
              has_recorded-append stage.name xs (in_phase stage a ∷ ys),
              unrecorded,
              l,
            )
            r,
      )

  task-Simulated :
      (s : System W) (xs ys : List Task) (stage : Stage) (a b : Phase) (sh : Shared W)
      → s.tasks ≡ xs ++ in_phase stage a ∷ ys
      → TasksKept max s.shared s.tasks
      → Records stage.name a b s.shared sh
      → Simulated p s (record s { shared = sh; tasks = xs ++ in_phase stage b ∷ ys })
  task-Simulated s xs ys stage a b sh e k (inl (_, kept)) =
      let same = ap task_names e ∙ task_names-phase xs ys stage a b in
      inl (rw (sym same, kept) refl)
  task-Simulated s xs ys stage a b sh e k (inr (before, after, (r, kept))) =
      let same = ap task_names e ∙ task_names-phase xs ys stage a b in
      let (on, new) = unwritten s xs ys stage a e k before in
      inr (
        rw (sym same, kept, set_completed-new stage.name r s.shared.completed new)
          (finishes stage.name on new))

  -- Whether a state of the system is simulated, if there is one.
  abbrev SimulatedTo : System W → Option (System W) → Type 0
  SimulatedTo s none = Unit
  SimulatedTo s (some t) = Simulated p s t

  launch-Simulated :
      (n : String) (ready : List String) (stage : Option Stage) (s : System W)
      → ((found : Stage) → stage ≡ some found → found.name ≡ n)
      → has n (task_names s.tasks) ≡ false
      → Satisfied (completed_names s.shared.completed) (deps_of p.stages n)
      → Simulated p s (launch n ready stage s)
  unfolding launch
  launch-Simulated n ready none s named new deps = inl refl
  launch-Simulated n ready (some stage) s named new deps = inr (
      rw (task_names-append s.tasks (in_phase stage waiting ∷ []), named stage refl)
        (starts n new deps))

  main_step-SimulatedTo :
      (keys : List String) (m : Main) (s : System W)
      → StagesKept max order s
      → MainKept p s m
      → SimulatedTo s (main_step env opts max p keys m s)
  unfolding main_step
  main_step-SimulatedTo keys looping s k h = inl refl
  main_step-SimulatedTo keys (launching []) s k h = inl refl
  main_step-SimulatedTo keys (launching (n ∷ ready)) s k (_, ((mem, deps), _)) =
      launch-Simulated n ready (get_stage p n) s (get_stage-name p n) (ground (arith, k.apart n))
        deps
  main_step-SimulatedTo keys joining s k h = elim (Bool-cases (all_finished s.tasks)) [
    | inl e ↦ rw e (inl refl)
    | inr e ↦ rw e tt
  ]
  main_step-SimulatedTo keys (returned err) s k h = tt
  main_step-SimulatedTo keys panicked s k h = tt

  Step-Simulated : {s t : System W} → Step env opts max p s t → Kept max order p s → Simulated p s t
  Step-Simulated {s} (main_moves keys perm e) (k, h) =
      subst (SimulatedTo s) e (main_step-SimulatedTo keys s.main s k h)
  Step-Simulated (world_moves w) k = inl refl
  Step-Simulated {s} (task_moves xs ys stage a {phase' = b} {shared' = sh} live e adv) (k, h) =
      task-Simulated s xs ys stage a b sh e k.tasks
        (advance-Advanced env opts max p stage a b s.shared sh adv).records

  follow :
      (s t : System W)
      → Spec.Reach (deps_of p.stages) (view s)
      → Simulated p s t
      → Spec.Reach (deps_of p.stages) (view t)
  follow s t r (inl same) = subst (Spec.Reach (deps_of p.stages)) (sym same) r
  follow s t r (inr step) = Spec.later r step

  module _ (declared : (n : String) → has n order ≡ true → has n (names p.stages) ≡ true) where
    pub Reach-refines :
        {w : W} {s : System W}
        → IsDistinct order
        → Reach env opts max p order w s
        → Spec.Reach (deps_of p.stages) (view s)
    Reach-refines d start = Spec.start
    Reach-refines d (later {s} {t} r s') =
        follow s t (Reach-refines d r)
          (Step-Simulated s' (Reach-Kept env opts max p order declared d r))
