-- ===== src/Pipeline/Parallel/Measure.antt =====
-- executeParallel goes on until it returns: no goroutine is blocked for ever, and the steps run out.
use devsec.Base.{
  ℕ, ◌+◌, ◌*◌, ◌≤◌, ◌<◌, ◌≡◌, ◌⊎◌, inl, inr, refl, true, Option, none, some, List, [], ◌∷◌, ◌++◌,
  String, has, arith, subst, sym, ap, length, Bool-cases,
}
use devsec.Pipeline.Types.{Stage, Pipeline}
use devsec.Pipeline.Result.{get_stage}
use devsec.Pipeline.Runner.{Environment, ExecuteOptions}
use devsec.Pipeline.Parallel.{
  Phase, waiting, Task, Shared, Main, looping, joining, launching, returned, panicked, System,
  deps_of, main_step, launch, loop_step, launch_all, delete, find_ready_stages, Step, main_moves,
  task_moves, world_moves, all_finished,
}
use devsec.Pipeline.Parallel.Steps.{
  advance-Advanced, steps_left, all_steps_left, all_steps_left-append,
}
use devsec.Pipeline.Parallel.Keeps.{MainKept, Kept, in_phase}

-- The steps that the calling goroutine has before it, without those of the launches.
abbrev pub main_left : Main → ℕ
main_left looping = 2
main_left (launching []) = 3
main_left (launching (n ∷ ready)) = 1
main_left joining = 1
main_left (returned err) = 0
main_left panicked = 0

-- A bound on the steps before a system: a pending stage stands for its launch and its goroutine.
abbrev pub measure : {W : Type 0} → System W → ℕ
measure s = 12 * length s.pending + all_steps_left s.tasks + main_left s.main

length-delete_le : (n : String) (xs : List String) → length (delete n xs) ≤ length xs
unfolding delete
length-delete_le n [] = omega arith
length-delete_le n (x ∷ xs) = ground (arith, length-delete_le n xs)

length-delete : (n : String) (xs : List String) → has n xs ≡ true → length (delete n xs) < length xs
unfolding delete
length-delete n [] h = ground arith
length-delete n (x ∷ xs) h = ground (arith, length-delete_le n xs, length-delete n xs)

module _ {W : Type 0} (env : Environment W) (opts : ExecuteOptions) (max : ℕ) (p : Pipeline) where
  -- A step of the main goroutine sleeps, or it shortens the measure.
  abbrev pub Shorter : System W → System W → Type 0
  Shorter s t =
      (t ≡ record s { shared = record s.shared { world = t.shared.world } })
      ⊎ (measure t < measure s)

  abbrev ShorterTo : System W → Option (System W) → Type 0
  ShorterTo s none = Unit
  ShorterTo s (some t) = Shorter s t

  pub launch-shorter :
      (n : String) (ready : List String) (stage : Option Stage) (s : System W)
      → s.main ≡ launching (n ∷ ready)
      → has n s.pending ≡ true
      → measure (launch n ready stage s) < measure s
  unfolding launch
  launch-shorter n ready none s e mem = rw e (omega (arith, length-delete n s.pending mem))
  launch-shorter n [] (some stage) s e mem = rw e (
      omega (
        arith,
        length-delete n s.pending mem,
        all_steps_left-append s.tasks (in_phase stage waiting ∷ []),
      ))
  launch-shorter n (m ∷ ready) (some stage) s e mem = rw e (
      omega (
        arith,
        length-delete n s.pending mem,
        all_steps_left-append s.tasks (in_phase stage waiting ∷ []),
      ))

  launch_all-Shorter :
      (ready : List String) (s : System W)
      → s.main ≡ looping
      → Shorter s (record s { main = launch_all ready })
  unfolding launch_all
  launch_all-Shorter [] s e = inl (ap (λ m. record s { main = m }) (sym e))
  launch_all-Shorter (n ∷ ready) s e = inr (rw e (omega arith))

  pub loop_step-Shorter :
      (keys : List String) (s : System W)
      → s.main ≡ looping
      → Shorter s (record s { main = loop_step env opts max p keys s })
  unfolding loop_step
  loop_step-Shorter [] s e = inr (rw e (omega arith))
  loop_step-Shorter (k ∷ keys) s e = elim (Bool-cases (env.done s.shared.world)) [
    | inl d ↦ rw d (inr (rw e (omega arith)))
    | inr d ↦ rw d (
        launch_all-Shorter (find_ready_stages (k ∷ keys) (deps_of p.stages) s.shared.completed) s e)
  ]

  main_step-ShorterTo :
      (keys : List String) (m : Main) (s : System W)
      → s.main ≡ m
      → MainKept p s m
      → ShorterTo s (main_step env opts max p keys m s)
  unfolding main_step
  main_step-ShorterTo keys looping s e h = loop_step-Shorter keys s e
  main_step-ShorterTo keys (launching []) s e h = inr (rw e (omega arith))
  main_step-ShorterTo keys (launching (n ∷ ready)) s e (_, ((mem, _), _)) =
      inr (launch-shorter n ready (get_stage p n) s e mem)
  main_step-ShorterTo keys joining s e h = elim (Bool-cases (all_finished s.tasks)) [
    | inl f ↦ rw f (inr (rw e (omega arith)))
    | inr f ↦ rw f tt
  ]
  main_step-ShorterTo keys (returned err) s e h = tt
  main_step-ShorterTo keys panicked s e h = tt

  pub task_measure :
      (s : System W) (xs ys : List Task) (stage : Stage) (a b : Phase) (sh : Shared W)
      → s.tasks ≡ xs ++ in_phase stage a ∷ ys
      → steps_left b < steps_left a
      → measure (record s { shared = sh; tasks = xs ++ in_phase stage b ∷ ys }) < measure s
  task_measure s xs ys stage a b sh e less = rw e (
      omega (
        arith,
        less,
        all_steps_left-append xs (in_phase stage a ∷ ys),
        all_steps_left-append xs (in_phase stage b ∷ ys),
      ))

  -- From a state that keeps the invariant, every step either changes nothing but the world or
  -- brings the run nearer to its end.
  pub Step-Shorter :
      (order : List String) (s t : System W)
      → Kept max order p s
      → Step env opts max p s t
      → Shorter s t
  Step-Shorter order s t (k, h) (main_moves keys perm e) =
      subst (ShorterTo s) e (main_step-ShorterTo keys s.main s refl h)
  Step-Shorter order s t k (world_moves w) = inl refl
  Step-Shorter order s t k (task_moves xs ys stage a {phase' = b} {shared' = sh} live e adv) = inr (
      task_measure s xs ys stage a b sh e
        (advance-Advanced env opts max p stage a b s.shared sh adv).shorter)
