-- ===== src/Pipeline/Execute/Laws.antt =====
-- What executing a valid pipeline does, stage by stage.
use mathlib.Core.List.Perm
use devsec.Base.{
  suc, ◌≡◌, refl, sym, ◌∙◌, ap, true, false, Option, none, some, List, [], ◌∷◌, ◌++◌, String,
  length, Perm, has, IsDistinct, IsDistinct-perm, arith, append-nil, subst, has-perm, length-perm,
  has-append,
}
use devsec.Pipeline.Types.{Stage, Pipeline, names, PipelineError}
use devsec.Pipeline.Order.{Respects}
use devsec.Pipeline.Sort.{sorted, topological_sort}
use devsec.Pipeline.Sort.Laws.{topological_sort_sound}
use devsec.Pipeline.Validate.{validate}
use devsec.Pipeline.Validate.Laws.{validate_iff}
use devsec.Pipeline.Result.{StageResult}
use devsec.Pipeline.Result.Lookup.{get_stage-has}
use devsec.Pipeline.Completed.{completed_names}
use devsec.Pipeline.Runner.{Environment, ExecuteOptions, execute_stage}
use devsec.Pipeline.Execute.{
  empty_run, Run, returned, visit, visit_stage, execute_sequential, after_stage,
}
use devsec.Pipeline.Execute.Coverage.{execute_sequential-Covers, Covers, Calls}

module _ {W : Type 0} (env : Environment W) (opts : ExecuteOptions) (p : Pipeline) where
  after_stage-slow :
      (s : Stage) (r : StageResult) (err : Option PipelineError)
      → after_stage env opts false s r err ≡ none
  unfolding after_stage
  after_stage-slow s r (some e) = refl
  after_stage-slow s r none = ground arith

  visit_stage-goes_on :
      (n : String) (s : Stage) (run : Run W)
      → p.fail_fast ≡ false
      → (visit_stage env opts p n (some s) run).0 ≡ none
  unfolding visit_stage
  visit_stage-goes_on n s run slow =
      let (r, err, w) = execute_stage env opts s run.completed run.world in
      rw (slow, after_stage-slow s r err)

  -- Without fail_fast and cancellation the loop goes on after every stage, failed or not.
  visit-goes_on :
      (n : String) (run : Run W)
      → p.fail_fast ≡ false
      → env.done run.world ≡ false
      → has n (names p.stages) ≡ true
      → (visit env opts p n run).0 ≡ none
  unfolding visit
  visit-goes_on n run slow live known =
      let (s, found) = get_stage-has p n known in
      rw (live, found) (visit_stage-goes_on n s run slow)

  execute_sequential-returns :
      (order : List String) (run : Run W)
      → p.fail_fast ≡ false
      → ((w : W) → env.done w ≡ false)
      → ((n : String) → has n order ≡ true → has n (names p.stages) ≡ true)
      → (execute_sequential env opts p order run).0 ≡ returned none
  unfolding execute_sequential
  execute_sequential-returns [] run slow live known = refl
  execute_sequential-returns (n ∷ order) run slow live known =
      let on = visit-goes_on n run slow (live run.world) (known n (ground arith)) in
      rw (on, execute_sequential)
        (execute_sequential-returns order (visit env opts p n run).1 slow live
          (λ m h. known m (ground arith)))

Respects-prefix :
    (stages : List Stage) (before xs ys : List String)
    → Respects stages before (xs ++ ys)
    → Respects stages before xs
Respects-prefix stages before [] ys r = tt
Respects-prefix stages before (x ∷ xs) ys r =
    (r.0, Respects-prefix stages (before ++ x ∷ []) xs ys r.1)

IsDistinct-prefix : (xs ys : List String) → IsDistinct (xs ++ ys) → IsDistinct xs
IsDistinct-prefix [] ys d = tt
IsDistinct-prefix (x ∷ xs) ys d = (ground (arith, has-append x xs ys), IsDistinct-prefix xs ys d.1)

pub length-names : (ss : List Stage) → length (names ss) ≡ length ss
length-names [] = refl
length-names (s ∷ ss) = ap suc (length-names ss)

module _ {W : Type 0} (env : Environment W) (opts : ExecuteOptions) (p : Pipeline) (w : W)
    (keys sort_keys order : List String) (perm : Perm keys (names p.stages))
    (perm' : Perm sort_keys (names p.stages)) (valid : validate keys (some p) ≡ none)
    (is_sorted : topological_sort sort_keys p.stages ≡ sorted order) where
  abbrev ordered : Perm order (names p.stages) × Respects p.stages [] order
  ordered =
      topological_sort_sound sort_keys p.stages order ((validate_iff keys p perm).0 valid).distinct
        perm' is_sorted

  order-IsDistinct : IsDistinct order
  order-IsDistinct =
      IsDistinct-perm (Perm.symm ordered.0) ((validate_iff keys p perm).0 valid).distinct

  covers :
      Covers env opts p order
        (empty_run env opts w)
        (execute_sequential env opts p order (empty_run env opts w))
  covers = execute_sequential-Covers env opts p order (empty_run env opts w) order-IsDistinct

  -- In a valid pipeline, whatever the runners return and wherever the run stops, executeStage has been
  -- called once for each stage of a beginning of the order, in that order, each call in the world that
  -- the one before it left, and nothing else has changed the world or the results. So no stage ran
  -- twice, and each ran behind all of its dependencies.
  pub execute_sequential-Respects :
      (ran : List String) × (left : List String) × Calls env opts p
        (empty_run env opts w)
        ran
        (execute_sequential env opts p order (empty_run env opts w)).1
      × (order ≡ ran ++ left)
      × IsDistinct ran
      × Respects p.stages [] ran
  execute_sequential-Respects =
      let c = covers in
      (
        c.ran,
        c.left,
        c.extends.called,
        c.parts,
        IsDistinct-prefix c.ran c.left (subst IsDistinct c.parts order-IsDistinct),
        Respects-prefix p.stages [] c.ran c.left (subst (Respects p.stages []) c.parts ordered.1),
      )

  -- Without fail_fast and cancellation, a valid pipeline runs to its end: the error is nil, executeStage
  -- has been called once for each stage, in the order, whatever stages have failed before it, nothing
  -- else has changed the world, and there is one result for each stage, under its name.
  pub execute_sequential_all :
      p.fail_fast ≡ false
      → ((v : W) → env.done v ≡ false)
      → let (o, run) = execute_sequential env opts p order (empty_run env opts w) in
        (o ≡ returned none)
        × Calls env opts p (empty_run env opts w) order run
        × (completed_names run.completed ≡ order)
        × (length run.results ≡ length p.stages)
  execute_sequential_all slow live =
      let c = covers in
      let run = (execute_sequential env opts p order (empty_run env opts w)).1 in
      let ends =
        execute_sequential-returns env opts p order (empty_run env opts w) slow live
          (λ n h. sym (has-perm n ordered.0) ∙ h) in
      let whole = c.parts ∙ ap (λ l. c.ran ++ l) (c.all_ran ends) ∙ append-nil c.ran in
      (
        ends,
        subst (λ ns. Calls env opts p (empty_run env opts w) ns run) (sym whole) c.extends.called,
        c.extends.completed ∙ sym whole,
        c.extends.results
            ∙ omega (arith, ap length whole, length-perm ordered.0, length-names p.stages),
      )
