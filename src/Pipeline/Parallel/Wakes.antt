-- ===== src/Pipeline/Parallel/Wakes.antt =====
-- When all goroutines of executeParallel have ended, findReadyStages finds a pending stage.
use devsec.Base.{
  ◌≡◌, inl, inr, refl, true, ◌||◌, List, [], ◌∷◌, ◌++◌, String, has, arith, sym, has-append,
  string_discrete, ite, Bool-cases, update,
}
use mathlib.Core.Bool.{false≢true}
use devsec.Pipeline.Types.{Stage}
use devsec.Pipeline.Order.{Satisfied, Ready, Respects}
use devsec.Pipeline.Completed.{Completed, completed_names}
use devsec.Pipeline.Parallel.{
  Phase, Task, deps_of, build_deps, find_ready_stages, all_finished, is_finished, finished,
}
use devsec.Pipeline.Parallel.Steps.{task_names, has_recorded, is_recorded}
use devsec.Pipeline.Parallel.Ready.{all_deps_complete-of_Satisfied}
use devsec.Pipeline.Parallel.Invariant.{Satisfied-mono}

build_deps-Satisfied :
    (d : String → List String) (ss : List Stage) (before : List String) (n : String)
    → Satisfied before (d n)
    → Ready ss before n
    → Satisfied before (build_deps d ss n)
unfolding build_deps
build_deps-Satisfied d [] before n h r = h
build_deps-Satisfied d (s ∷ ss) before n h (here, r) =
    build_deps-Satisfied (update d s.name s.depends_on) ss before n
      (elim (string_discrete n s.name) as (λ e. Satisfied before (ite e s.depends_on (d n))) [
        | yes e ↦ here (sym e)
        | no ne ↦ h
      ])
      r

-- A stage that is ready has its dependencies of the map `deps` done.
pub Ready-deps_of :
    (ss : List Stage) (before : List String) (n : String)
    → Ready ss before n
    → Satisfied before (deps_of ss n)
unfolding deps_of
Ready-deps_of ss before n r = build_deps-Satisfied (λ _. []) ss before n tt r

-- The first pending name of an order is ready, when all names before it are done.
pub first_pending :
    (ss : List Stage) (before rest done pending : List String) (k : String)
    → Respects ss before rest
    → ((n : String) → has n before ≡ true → has n done ≡ true)
    → ((n : String) → has n rest ≡ true → (has n done || has n pending) ≡ true)
    → has k rest ≡ true
    → has k pending ≡ true
    → (n : String) × (has n pending ≡ true) × Satisfied done (deps_of ss n)
first_pending ss before [] done pending k r earlier covered mem wait = absurd (false≢true mem)
first_pending ss before (m ∷ rest) done pending k (ready, r) earlier covered mem wait =
    elim (Bool-cases (has m pending)) [
      | inl e ↦ (
        m,
        e,
        Satisfied-mono before done (deps_of ss m) earlier (Ready-deps_of ss before m ready),
      )
      | inr e ↦
          first_pending ss (before ++ m ∷ []) rest done pending k r
            (λ n h. ground (arith, has-append n before (m ∷ []), earlier n, covered n))
            (λ n h. covered n (ground arith)) (ground arith) wait
    ]

is_finished-is_recorded : (a : Phase) → is_finished a ≡ true → is_recorded a ≡ true
unfolding is_finished
is_finished-is_recorded finished h = refl
is_finished-is_recorded _ h = absurd (false≢true h)

pub all_finished-has_recorded :
    (n : String) (ts : List Task)
    → all_finished ts ≡ true
    → has n (task_names ts) ≡ true
    → has_recorded n ts ≡ true
unfolding all_finished is_finished
all_finished-has_recorded n [] f h = h
all_finished-has_recorded n (t ∷ ts) f h =
    ground (arith, is_finished-is_recorded t.phase, all_finished-has_recorded n ts)

pub find_ready_stages-finds :
    (n : String) (ks : List String) (deps : String → List String) (c : Completed)
    → has n ks ≡ true
    → Satisfied (completed_names c) (deps n)
    → has n (find_ready_stages ks deps c) ≡ true
unfolding find_ready_stages
find_ready_stages-finds n [] deps c h sat = h
find_ready_stages-finds n (k ∷ ks) deps c h sat =
    ground
      (arith, find_ready_stages-finds n ks deps c, all_deps_complete-of_Satisfied c (deps n) sat)
