-- ===== src/Pipeline/Parallel/Schedule.antt =====
-- A run of executeParallel by a list of choices: which goroutine goes on next.
use mathlib.Core.List.Perm
use mathlib.Core.Bool.{false≢true}
use mathlib.Core.Option.{some-injective}
use devsec.Base.{
  ℕ, zero, suc, ◌≡◌, ◌≢◌, refl, Bool, true, false, Option, none, some, List, [], ◌∷◌, ◌++◌, String,
  sym, ap, ◌∙◌, subst, Bool-cases, Option-cases, inl, inr, if◌then◌else◌, arith,
}
use devsec.Pipeline.Types.{Stage, Pipeline}
use devsec.Pipeline.Runner.{Environment, ExecuteOptions}
use devsec.Pipeline.Parallel.{
  Phase, Task, Shared, Main, panicked, System, main_step, advance, Step, Reach, later, main_moves,
  task_moves,
}
use devsec.Pipeline.Parallel.Keeps.{in_phase}

-- The calling goroutine, or the launched goroutine of that index.
pub data Choice : Type 0 where
  main_goes : Choice
  task_goes : ℕ → Choice

abbrev is_panicked : Main → Bool
is_panicked panicked = true
is_panicked _ = false

module _ {W : Type 0} (env : Environment W) (opts : ExecuteOptions) (max : ℕ) (p : Pipeline) where
  moved : Task → List Task → Option (Phase × Shared W) → Option (List Task × Shared W)
  moved t ts none = none
  moved t ts (some (phase, sh)) = some (in_phase t.stage phase ∷ ts, sh)

  behind : Task → Option (List Task × Shared W) → Option (List Task × Shared W)
  behind t none = none
  behind t (some (ts, sh)) = some (t ∷ ts, sh)

  unfoldable pub advance_nth : ℕ → List Task → Shared W → Option (List Task × Shared W)
  unfolding advance moved behind
  advance_nth i [] sh = none
  advance_nth zero (t ∷ ts) sh = moved t ts (advance env opts max p t.stage t.phase sh)
  advance_nth (suc i) (t ∷ ts) sh = behind t (advance_nth i ts sh)

  with_tasks : System W → Option (List Task × Shared W) → Option (System W)
  with_tasks s none = none
  with_tasks s (some (ts, sh)) = some (record s { shared = sh; tasks = ts })

  unfoldable pub choose : Choice → System W → Option (System W)
  unfolding main_step advance_nth with_tasks
  choose main_goes s = main_step env opts max p s.pending s.main s
  choose (task_goes i) s =
      if is_panicked s.main then none else with_tasks s (advance_nth i s.tasks s.shared)

  -- The state behind all choices; none where one of them is blocked.
  unfoldable pub schedule : List Choice → System W → Option (System W)
  unfolding choose
  schedule [] s = some s
  schedule (c ∷ cs) s = elim (choose c s) [ none ↦ none | some t ↦ schedule cs t ]

  -- One goroutine has gone on.
  record Moved (ts ts' : List Task) (sh sh' : Shared W) : Type 0 where
    before : List Task
    after : List Task
    stage : Stage
    phase : Phase
    phase' : Phase
    parts : ts ≡ before ++ in_phase stage phase ∷ after
    moves : advance env opts max p stage phase sh ≡ some (phase', sh')
    parts' : ts' ≡ before ++ in_phase stage phase' ∷ after

  abbrev MovedTo : List Task → Shared W → Option (List Task × Shared W) → Type 0
  MovedTo ts sh none = Unit
  MovedTo ts sh (some (ts', sh')) = Moved ts ts' sh sh'

  moved-MovedTo :
      (t : Task) (ts : List Task) (sh : Shared W) (o : Option (Phase × Shared W))
      → advance env opts max p t.stage t.phase sh ≡ o
      → MovedTo (t ∷ ts) sh (moved t ts o)
  unfolding moved
  moved-MovedTo t ts sh none e = tt
  moved-MovedTo t ts sh (some (phase, sh')) e = record {
    before = [];
    after = ts;
    stage = t.stage;
    phase = t.phase;
    phase' = phase;
    parts = refl;
    moves = e;
    parts' = refl;
  }

  behind-MovedTo :
      (t : Task) (ts : List Task) (sh : Shared W) (o : Option (List Task × Shared W))
      → MovedTo ts sh o
      → MovedTo (t ∷ ts) sh (behind t o)
  unfolding behind
  behind-MovedTo t ts sh none m = tt
  behind-MovedTo t ts sh (some (ts', sh')) m = record {
    before = t ∷ m.before;
    after = m.after;
    stage = m.stage;
    phase = m.phase;
    phase' = m.phase';
    parts = ap (λ l. t ∷ l) m.parts;
    moves = m.moves;
    parts' = ap (λ l. t ∷ l) m.parts';
  }

  advance_nth-MovedTo :
      (i : ℕ) (ts : List Task) (sh : Shared W) → MovedTo ts sh (advance_nth i ts sh)
  unfolding advance_nth
  advance_nth-MovedTo i [] sh = tt
  advance_nth-MovedTo zero (t ∷ ts) sh = moved-MovedTo t ts sh _ refl
  advance_nth-MovedTo (suc i) (t ∷ ts) sh = behind-MovedTo t ts sh _ (advance_nth-MovedTo i ts sh)

  abbrev StepTo : System W → Option (System W) → Type 0
  StepTo s none = Unit
  StepTo s (some t) = Step env opts max p s t

  with_tasks-StepTo :
      (s : System W) (o : Option (List Task × Shared W))
      → s.main ≢ panicked
      → MovedTo s.tasks s.shared o
      → StepTo s (with_tasks s o)
  unfolding with_tasks
  with_tasks-StepTo s none live m = tt
  with_tasks-StepTo s (some (ts, sh)) live m =
      rw m.parts' (task_moves m.before m.after m.stage m.phase live m.parts m.moves)

  main-StepTo :
      (s : System W) (o : Option (System W))
      → main_step env opts max p s.pending s.main s ≡ o
      → StepTo s o
  main-StepTo s none e = tt
  main-StepTo s (some t) e = main_moves s.pending (Perm.refl s.pending) e

  choose-StepTo : (c : Choice) (s : System W) → StepTo s (choose c s)
  unfolding choose
  choose-StepTo main_goes s = main-StepTo s _ refl
  choose-StepTo (task_goes i) s = elim (Bool-cases (is_panicked s.main)) [
    | inl e ↦ rw e tt
    | inr e ↦ rw e (
        with_tasks-StepTo s (advance_nth i s.tasks s.shared)
          (λ h. false≢true (sym e ∙ ap is_panicked h)) (advance_nth-MovedTo i s.tasks s.shared))
  ]

  -- What a schedule reaches is reached.
  pub schedule-Reach :
      (order : List String) (w : W) (cs : List Choice) (s t : System W)
      → Reach env opts max p order w s
      → schedule cs s ≡ some t
      → Reach env opts max p order w t
  unfolding schedule
  schedule-Reach order w [] s t r e = subst (Reach env opts max p order w) (some-injective s t e) r
  schedule-Reach order w (c ∷ cs) s t r e = elim (Option-cases (choose c s)) [
    | inl stuck ↦ ground arith
    | inr (s', goes) ↦
        let step : Step env opts max p s s' = subst (StepTo s) goes (choose-StepTo c s) in
        schedule-Reach order w cs s' t (later r step) (ground arith)
  ]
