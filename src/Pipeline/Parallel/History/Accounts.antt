-- ===== src/Pipeline/Parallel/History/Accounts.antt =====
-- What one step of a goroutine of executeParallel does to the first error and to the failures.
use devsec.Base.{
  ℕ, ◌≡◌, refl, sym, ap, ◌∙◌, Bool, true, false, ◌||◌, Option, none, some, List, [], ◌∷◌, ◌++◌,
  String, arith, Bool-cases, inl, inr, ltb, append-nil, ◌&&◌, if◌then◌else◌,
}
use devsec.Pipeline.Types.{Stage, Pipeline, PipelineError}
use devsec.Pipeline.Runner.{Environment, ExecuteOptions}
use devsec.Pipeline.Parallel.{
  Phase, waiting, acquired, skipping, continuing, executing, executed, appended, recorded,
  releasing, finished, Task, Shared, advance, is_some, set_first_err, keep_first,
}
use devsec.Pipeline.Parallel.History.{failure, first_failure, some_failure, failure_at, call_at}

abbrev pub carried : Stage → Phase → List (String × PipelineError)
carried s (executed r err) = failure s.name err
carried s (appended r err) = failure s.name err
carried s (recorded err) = failure s.name err
carried s _ = []

abbrev pub all_carried : List Task → List (String × PipelineError)
all_carried [] = []
all_carried (t ∷ ts) = carried t.stage t.phase ++ all_carried ts

module _ {W : Type 0} (env : Environment W) (opts : ExecuteOptions) (max : ℕ) (p : Pipeline) where
  -- What a step of a goroutine does to the first error and to the failures.
  pub record Accounts (s : Stage) (a b : Phase) (sh sh' : Shared W) : Type 0 where
    pub first :
        (fs : List (String × PipelineError))
        → sh.first_err ≡ first_failure fs
        → sh'.first_err ≡ first_failure (fs ++ failure_at s a)
    pub moved :
        (test : String → PipelineError → Bool)
        → (some_failure test (carried s a) || some_failure test (call_at env opts max p s a sh))
          ≡ (some_failure test (carried s b) || some_failure test (failure_at s a))

  abbrev pub AccountsTo : Stage → Phase → Shared W → Option (Phase × Shared W) → Type 0
  AccountsTo s a sh none = Unit
  AccountsTo s a sh (some (b, sh')) = Accounts s a b sh sh'

  keeps_failures :
      {s : Stage} {a b : Phase} {sh sh' : Shared W}
      → failure_at s a ≡ []
      → call_at env opts max p s a sh ≡ []
      → carried s b ≡ carried s a
      → sh'.first_err ≡ sh.first_err
      → Accounts s a b sh sh'
  keeps_failures none_recorded none_called same kept = record {
    first = λ fs h.
        kept ∙ h ∙ ap first_failure (sym (append-nil fs) ∙ ap (λ l. fs ++ l) (sym none_recorded));
    moved = λ test. rw (none_recorded, none_called, same) refl;
  }

  set_first_err-first_failure :
      (n : String) (err : Option PipelineError) (fs : List (String × PipelineError))
      → set_first_err n err (first_failure fs) ≡ first_failure (fs ++ failure n err)
  unfolding set_first_err keep_first
  set_first_err-first_failure n none fs = ap first_failure (sym (append-nil fs))
  set_first_err-first_failure n (some e) [] = refl
  set_first_err-first_failure n (some e) (f ∷ fs) = refl

  pub advance-AccountsTo :
      (s : Stage) (a : Phase) (sh : Shared W) → AccountsTo s a sh (advance env opts max p s a sh)
  unfolding advance
  advance-AccountsTo s waiting sh = elim (Bool-cases (ltb sh.tokens max)) [
    | inl e ↦ rw e (keeps_failures refl refl refl refl)
    | inr e ↦ rw e tt
  ]
  advance-AccountsTo s acquired sh =
      elim (is_some sh.first_err && p.fail_fast)
        as (λ b. Accounts s acquired (if b then skipping else continuing) sh sh) [
          | true ↦ keeps_failures refl refl refl refl
          | false ↦ keeps_failures refl refl refl refl
        ]
  advance-AccountsTo s skipping sh = keeps_failures refl refl refl refl
  advance-AccountsTo s continuing sh = keeps_failures refl refl refl refl
  advance-AccountsTo s (executing snapshot) sh = record {
    first = λ fs h. h ∙ ap first_failure (sym (append-nil fs));
    moved = λ test. ground arith;
  }
  advance-AccountsTo s (executed r err) sh = keeps_failures refl refl refl refl
  advance-AccountsTo s (appended r err) sh = keeps_failures refl refl refl refl
  advance-AccountsTo s (recorded err) sh = record {
    first = λ fs h. ap (set_first_err s.name err) h ∙ set_first_err-first_failure s.name err fs;
    moved = λ test. ground arith;
  }
  advance-AccountsTo s releasing sh = keeps_failures refl refl refl refl
  advance-AccountsTo s finished sh = tt
