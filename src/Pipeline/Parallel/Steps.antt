-- ===== src/Pipeline/Parallel/Steps.antt =====
-- What one step of a goroutine of executeParallel does to the semaphore and to the map `completed`.
use devsec.Base.{
  ℕ, ◌+◌, ◌≤◌, ◌<◌, ◌≡◌, ◌⊎◌, inl, inr, refl, Bool, true, false, ◌&&◌, ◌||◌, Option, none, some,
  List, [], ◌∷◌, ◌++◌, String, has, arith, ltb, subst, string_discrete, ite, Bool-cases, ap,
  if◌then◌else◌,
}
use devsec.Pipeline.Types.{Stage, Pipeline}
use devsec.Pipeline.Result.{StageResult}
use devsec.Pipeline.Completed.{set_completed}
use devsec.Pipeline.Runner.{Environment, ExecuteOptions}
use devsec.Pipeline.Parallel.{
  Phase, waiting, acquired, skipping, continuing, executing, executed, appended, recorded,
  releasing, finished, Task, Shared, advance, is_some,
}

-- The tokens that a goroutine holds.
abbrev pub tokens_of : Phase → ℕ
tokens_of waiting = 0
tokens_of finished = 0
tokens_of _ = 1

-- Whether a goroutine has written its result to `completed`.
abbrev pub is_recorded : Phase → Bool
is_recorded (recorded _) = true
is_recorded releasing = true
is_recorded finished = true
is_recorded _ = false

-- A bound on the steps that a goroutine has before it.
abbrev pub steps_left : Phase → ℕ
steps_left waiting = 8
steps_left acquired = 7
steps_left continuing = 6
steps_left (executing _) = 5
steps_left (executed _ _) = 4
steps_left (appended _ _) = 3
steps_left (recorded _) = 2
steps_left skipping = 2
steps_left releasing = 1
steps_left finished = 0

module _ {W : Type 0} where
  -- The step writes the result of the stage, or leaves `completed` as it is.
  abbrev pub Records : String → Phase → Phase → Shared W → Shared W → Type 0
  Records n phase phase' sh sh' =
      ((is_recorded phase' ≡ is_recorded phase) × (sh'.completed ≡ sh.completed))
      ⊎ ((is_recorded phase ≡ false)
          × (is_recorded phase' ≡ true)
          × ((r : StageResult) × (sh'.completed ≡ set_completed n r sh.completed)))

  pub record Advanced (max : ℕ) (n : String) (phase phase' : Phase) (sh sh' : Shared W)
      : Type 0 where
    pub tokens :
        tokens_of phase ≤ sh.tokens → sh'.tokens + tokens_of phase ≡ sh.tokens + tokens_of phase'
    pub bounded : sh.tokens ≤ max → sh'.tokens ≤ max
    pub shorter : steps_left phase' < steps_left phase
    pub records : Records n phase phase' sh sh'

  keeps_tokens :
      {max : ℕ} {n : String} {phase phase' : Phase} {sh sh' : Shared W}
      → tokens_of phase ≡ tokens_of phase'
      → sh'.tokens ≡ sh.tokens
      → steps_left phase' < steps_left phase
      → Records n phase phase' sh sh'
      → Advanced max n phase phase' sh sh'
  keeps_tokens same kept less r = record {
    tokens = λ _. omega arith;
    bounded = λ h. omega arith;
    shorter = less;
    records = r;
  }

  abbrev AdvancedTo : ℕ → String → Phase → Shared W → Option (Phase × Shared W) → Type 0
  AdvancedTo max n phase sh none = Unit
  AdvancedTo max n phase sh (some (phase', sh')) = Advanced max n phase phase' sh sh'

module _ {W : Type 0} (env : Environment W) (opts : ExecuteOptions) (max : ℕ) (p : Pipeline) where
  advance-AdvancedTo :
      (s : Stage) (phase : Phase) (sh : Shared W)
      → AdvancedTo max s.name phase sh (advance env opts max p s phase sh)
  unfolding advance
  advance-AdvancedTo s waiting sh = elim (Bool-cases (ltb sh.tokens max)) [
    | inl e ↦ rw e (record {
      tokens = λ _. omega arith;
      bounded = λ _. ground arith;
      shorter = omega arith;
      records = inl (refl, refl);
    })
    | inr e ↦ rw e tt
  ]
  advance-AdvancedTo s acquired sh =
      elim (is_some sh.first_err && p.fail_fast)
        as (λ b. Advanced max s.name acquired (if b then skipping else continuing) sh sh) [
          | true ↦ keeps_tokens refl refl (omega arith) (inl (refl, refl))
          | false ↦ keeps_tokens refl refl (omega arith) (inl (refl, refl))
        ]
  advance-AdvancedTo s skipping sh =
      keeps_tokens refl refl (omega arith) (inr (refl, refl, (_, refl)))
  advance-AdvancedTo s continuing sh = keeps_tokens refl refl (omega arith) (inl (refl, refl))
  advance-AdvancedTo s (executing snapshot) sh =
      keeps_tokens refl refl (omega arith) (inl (refl, refl))
  advance-AdvancedTo s (executed r err) sh = keeps_tokens refl refl (omega arith) (inl (refl, refl))
  advance-AdvancedTo s (appended r err) sh =
      keeps_tokens refl refl (omega arith) (inr (refl, refl, (r, refl)))
  advance-AdvancedTo s (recorded err) sh = keeps_tokens refl refl (omega arith) (inl (refl, refl))
  advance-AdvancedTo s releasing sh = record {
    tokens = λ h. omega arith;
    bounded = λ h. omega arith;
    shorter = omega arith;
    records = inl (refl, refl);
  }
  advance-AdvancedTo s finished sh = tt

  pub advance-Advanced :
      (s : Stage) (phase phase' : Phase) (sh sh' : Shared W)
      → advance env opts max p s phase sh ≡ some (phase', sh')
      → Advanced max s.name phase phase' sh sh'
  advance-Advanced s phase phase' sh sh' e =
      subst (AdvancedTo max s.name phase sh) e (advance-AdvancedTo s phase sh)

-- Lists of goroutines.
abbrev pub task_names : List Task → List String
task_names [] = []
task_names (t ∷ ts) = t.stage.name ∷ task_names ts

abbrev pub tokens_held : List Task → ℕ
tokens_held [] = 0
tokens_held (t ∷ ts) = tokens_of t.phase + tokens_held ts

abbrev pub all_steps_left : List Task → ℕ
all_steps_left [] = 0
all_steps_left (t ∷ ts) = steps_left t.phase + all_steps_left ts

-- Whether a goroutine for that name has written its result.
abbrev pub has_recorded : String → List Task → Bool
has_recorded n [] = false
has_recorded n (t ∷ ts) =
    (is_recorded t.phase && ite (string_discrete n t.stage.name) true false) || has_recorded n ts

pub task_names-append : (xs ys : List Task) → task_names (xs ++ ys) ≡ task_names xs ++ task_names ys
task_names-append [] ys = refl
task_names-append (x ∷ xs) ys = ap (λ l. x.stage.name ∷ l) (task_names-append xs ys)

pub tokens_held-append :
    (xs ys : List Task) → tokens_held (xs ++ ys) ≡ tokens_held xs + tokens_held ys
tokens_held-append [] ys = omega arith
tokens_held-append (x ∷ xs) ys = omega (arith, tokens_held-append xs ys)

pub all_steps_left-append :
    (xs ys : List Task) → all_steps_left (xs ++ ys) ≡ all_steps_left xs + all_steps_left ys
all_steps_left-append [] ys = omega arith
all_steps_left-append (x ∷ xs) ys = omega (arith, all_steps_left-append xs ys)

pub has_recorded-append :
    (n : String) (xs ys : List Task)
    → has_recorded n (xs ++ ys) ≡ (has_recorded n xs || has_recorded n ys)
has_recorded-append n [] ys = refl
has_recorded-append n (x ∷ xs) ys = ground (arith, has_recorded-append n xs ys)

-- Only a goroutine of the name writes its result.
pub has_recorded-has :
    (n : String) (xs : List Task) → has_recorded n xs ≡ true → has n (task_names xs) ≡ true
has_recorded-has n [] h = h
has_recorded-has n (x ∷ xs) h = ground (arith, has_recorded-has n xs)
