-- ===== src/Pipeline/Parallel/Keeps.antt =====
-- What the loop and the goroutines of executeParallel keep between them.
use devsec.Base.{
  ℕ, ◌≤◌, ◌≡◌, ◌⊎◌, inl, inr, refl, true, false, ◌||◌, some, List, [], ◌∷◌, ◌++◌, String, has,
  has-append, arith, subst, string_discrete, ite, ap, All, IsDistinct, text_eq_iff,
}
use devsec.Pipeline.Types.{Stage, Pipeline, pipeline_canceled}
use devsec.Pipeline.Order.{Satisfied}
use devsec.Pipeline.Result.{StageResult}
use devsec.Pipeline.Completed.{Completed, set_completed, completed_names}
use devsec.Pipeline.Parallel.{
  Phase, Task, Shared, Main, looping, joining, launching, returned, panicked, System, deps_of,
  all_finished, init,
}
use devsec.Pipeline.Parallel.Steps.{
  Records, Advanced, task_names, tokens_held, has_recorded, task_names-append, tokens_held-append,
  has_recorded-append, has_recorded-has,
}

-- A stage that the loop may launch.
abbrev pub MayStart : Pipeline → Completed → List String → String → Type 0
MayStart p c pending n = (has n pending ≡ true) × Satisfied (completed_names c) (deps_of p.stages n)

-- What the goroutines and their shared state keep.
pub record TasksKept {W : Type 0} (max : ℕ) (sh : Shared W) (tasks : List Task) : Type 0 where
  pub once : IsDistinct (task_names tasks)
  pub written : (n : String) → has n (completed_names sh.completed) ≡ has_recorded n tasks
  pub held : sh.tokens ≡ tokens_held tasks
  pub bounded : sh.tokens ≤ max

-- What holds at each place of the calling goroutine.
abbrev pub MainKept : {W : Type 0} → Pipeline → System W → Main → Type 0
MainKept p s looping = Unit
MainKept p s joining = s.pending ≡ []
MainKept p s (launching ready) =
    IsDistinct ready × All (MayStart p s.shared.completed s.pending) ready
MainKept p s (returned err) =
    (err ≡ some pipeline_canceled)
    ⊎ ((s.pending ≡ []) × (all_finished s.tasks ≡ true) × (err ≡ s.shared.first_err))
MainKept p s panicked = ⊥

module _ {W : Type 0} (max : ℕ) (order : List String) where
  -- What does not depend on the place of the calling goroutine.
  pub record StagesKept (s : System W) : Type 0 where
    pub known : (n : String) → has n order ≡ (has n (task_names s.tasks) || has n s.pending)
    pub apart : (n : String) → has n (task_names s.tasks) ≡ true → has n s.pending ≡ false
    pub pending_once : IsDistinct s.pending
    pub tasks : TasksKept max s.shared s.tasks

  abbrev pub Kept : Pipeline → System W → Type 0
  Kept p s = StagesKept s × MainKept p s s.main

  pub init-Kept : (p : Pipeline) (w : W) → IsDistinct order → Kept p (init order w)
  init-Kept p w d = (
    record {
      known = λ n. refl;
      apart = λ n h. ground arith;
      pending_once = d;
      tasks = record { once = tt; written = λ n. refl; held = refl; bounded = omega arith };
    },
    tt,
  )

pub has-set_completed :
    (m n : String) (r : StageResult) (c : Completed)
    → has m (completed_names (set_completed n r c))
      ≡ (ite (string_discrete m n) true false || has m (completed_names c))
unfolding set_completed
has-set_completed m n r [] = ground arith
has-set_completed m n r ((k, q) ∷ c) = ground (arith, has-set_completed m n r c, text_eq_iff k n)

-- A goroutine in the middle of the others.
abbrev pub in_phase : Stage → Phase → Task
in_phase s phase = record { stage = s; phase = phase }

pub task_names-phase :
    (xs ys : List Task) (s : Stage) (a b : Phase)
    → task_names (xs ++ in_phase s a ∷ ys) ≡ task_names (xs ++ in_phase s b ∷ ys)
task_names-phase [] ys s a b = refl
task_names-phase (x ∷ xs) ys s a b = ap (λ l. x.stage.name ∷ l) (task_names-phase xs ys s a b)

pub has_names-append :
    (n : String) (xs ys : List Task)
    → has n (task_names (xs ++ ys)) ≡ (has n (task_names xs) || has n (task_names ys))
has_names-append n xs ys =
    rw (task_names-append xs ys) (has-append n (task_names xs) (task_names ys))

-- Distinct names: no other goroutine writes this stage's result.
pub has_recorded-once :
    (xs ys : List Task) (s : Stage) (a : Phase)
    → IsDistinct (task_names (xs ++ in_phase s a ∷ ys))
    → (has_recorded s.name xs ≡ false) × (has_recorded s.name ys ≡ false)
has_recorded-once [] ys s a d = (refl, ground (arith, has_recorded-has s.name ys, d.0))
has_recorded-once (x ∷ xs) ys s a d =
    let (l, r) = has_recorded-once xs ys s a d.1 in
    (ground (arith, has_names-append x.stage.name xs (in_phase s a ∷ ys), d.0, l), r)

module _ {W : Type 0} (max : ℕ) where
  written_step :
      (n : String) (xs ys : List Task) (s : Stage) (a b : Phase) (sh sh' : Shared W)
      → TasksKept max sh (xs ++ in_phase s a ∷ ys)
      → Records s.name a b sh sh'
      → has n (completed_names sh'.completed) ≡ has_recorded n (xs ++ in_phase s b ∷ ys)
  written_step n xs ys s a b sh sh' k (inl (same, kept)) =
      rw
        (
          kept,
          k.written n,
          has_recorded-append n xs (in_phase s a ∷ ys),
          has_recorded-append n xs (in_phase s b ∷ ys),
          same,
        )
        refl
  written_step n xs ys s a b sh sh' k (inr (before, after, (r, kept))) =
      rw
        (
          kept,
          has-set_completed n s.name r sh.completed,
          k.written n,
          has_recorded-append n xs (in_phase s a ∷ ys),
          has_recorded-append n xs (in_phase s b ∷ ys),
          before,
          after,
        )
        (ground arith)

  pub task_step :
      (xs ys : List Task) (s : Stage) (a b : Phase) (sh sh' : Shared W)
      → Advanced max s.name a b sh sh'
      → TasksKept max sh (xs ++ in_phase s a ∷ ys)
      → TasksKept max sh' (xs ++ in_phase s b ∷ ys)
  task_step xs ys s a b sh sh' adv k =
      let la = tokens_held-append xs (in_phase s a ∷ ys) in
      let lb = tokens_held-append xs (in_phase s b ∷ ys) in
      record {
        once = subst IsDistinct (task_names-phase xs ys s a b) k.once;
        written = λ n. written_step n xs ys s a b sh sh' k adv.records;
        held = omega (arith, la, lb, k.held, adv.tokens (omega (arith, la, k.held)));
        bounded = adv.bounded k.bounded;
      }
