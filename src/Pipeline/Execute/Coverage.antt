-- ===== src/Pipeline/Execute/Coverage.antt =====
-- Which stages executeSequential runs, and in which order.
use devsec.Base.{
  ◌+◌, ◌≡◌, ◌≢◌, ◌⊎◌, inl, inr, refl, sym, ◌∙◌, ap, false, Option, none, some, List, [], ◌∷◌, ◌++◌,
  String, length, text_eq_iff, has, IsDistinct, arith, append_assoc, append-nil, length-append,
  subst, has-before, Bool-cases,
}
use devsec.Pipeline.Types.{Stage, Pipeline, PipelineError}
use devsec.Pipeline.Result.{StageResult, get_stage}
use devsec.Pipeline.Completed.{Completed, set_completed, completed_names}
use devsec.Pipeline.Runner.{Environment, ExecuteOptions, execute_stage}
use devsec.Pipeline.Execute.{Run, Outcome, returned, visit, visit_stage, execute_sequential}

pub set_completed-new :
    (n : String) (r : StageResult) (c : Completed)
    → has n (completed_names c) ≡ false
    → completed_names (set_completed n r c) ≡ completed_names c ++ n ∷ []
unfolding set_completed
set_completed-new n r [] h = refl
set_completed-new n r ((m, q) ∷ c) h = ground (arith, set_completed-new n r c, text_eq_iff m n)

module _ {W : Type 0} (env : Environment W) (opts : ExecuteOptions) (p : Pipeline) where
  -- The calls of executeStage between two runs: one for each of the names, in their order, each in the
  -- world that the call before it leaves and with the results of all calls before it. Nothing else
  -- happens to the world, to the results or to `completed`.
  pub data Calls : Run W → List String → Run W → Type 0 where
    ends : {run : Run W} → Calls run [] run
    calls :
        {run run' : Run W} (n : String) {ns : List String} (s : Stage) (r : StageResult)
        (err : Option PipelineError) (w : W)
        → get_stage p n ≡ some s
        → execute_stage env opts s run.completed run.world ≡ (r, err, w)
        → Calls
            (record {
              results = run.results ++ r ∷ [];
              completed = set_completed n r run.completed;
              world = w;
            })
            ns
            run'
        → Calls run (n ∷ ns) run'

  Calls-append :
      {run run' run'' : Run W} {ns ms : List String}
      → Calls run ns run'
      → Calls run' ms run''
      → Calls run (ns ++ ms) run''
  Calls-append ends d = d
  Calls-append (calls n s r err w found e c) d = calls n s r err w found e (Calls-append c d)

  -- The second run has run exactly the stages `ran` after the first.
  pub record Extends (run run' : Run W) (ran : List String) : Type 0 where
    pub called : Calls run ran run'
    pub completed : completed_names run'.completed ≡ completed_names run.completed ++ ran
    pub results : length run'.results ≡ length run.results + length ran

  visit_stage-Extends :
      (n : String) (s : Stage) (run : Run W)
      → get_stage p n ≡ some s
      → has n (completed_names run.completed) ≡ false
      → Extends run (visit_stage env opts p n (some s) run).1 (n ∷ [])
  unfolding visit_stage
  visit_stage-Extends n s run found new =
      let (r, err, w) = execute_stage env opts s run.completed run.world in
      record {
        called = calls n s r err w found refl ends;
        completed = set_completed-new n r run.completed new;
        results = length-append run.results (r ∷ []);
      }

  -- The loop's body runs the stage, or stops before it.
  abbrev Visited : String → Run W → Option Outcome × Run W → Type 0
  Visited n run v = ((v.0 ≢ none) × (v.1 ≡ run)) ⊎ Extends run v.1 (n ∷ [])

  visit_stage-Visited :
      (n : String) (s : Option Stage) (run : Run W)
      → get_stage p n ≡ s
      → has n (completed_names run.completed) ≡ false
      → Visited n run (visit_stage env opts p n s run)
  visit_stage-Visited n none run found new =
      inl (unfold visit_stage in ground arith, unfold visit_stage in refl)
  visit_stage-Visited n (some s) run found new = inr (visit_stage-Extends n s run found new)

  visit-Visited :
      (n : String) (run : Run W)
      → has n (completed_names run.completed) ≡ false
      → Visited n run (visit env opts p n run)
  unfolding visit
  visit-Visited n run new = elim (Bool-cases (env.done run.world)) [
    | inl e ↦ rw e (inl (ground arith, refl))
    | inr e ↦ rw e (visit_stage-Visited n (get_stage p n) run refl new)
  ]

  visit_stage-stops :
      (n : String) (s : Option Stage) (run : Run W)
      → (visit_stage env opts p n s run).0 ≢ some (returned none)
  unfolding visit_stage
  visit_stage-stops n none run = ground arith
  visit_stage-stops n (some s) run = ground arith

  -- Where the loop stops early it does not return the nil error.
  visit-stops : (n : String) (run : Run W) → (visit env opts p n run).0 ≢ some (returned none)
  unfolding visit
  visit-stops n run = ground (arith, visit_stage-stops n (get_stage p n) run)

  -- What is run is a beginning of the order, each stage once; all of it, if no error is returned.
  pub record Covers (order : List String) (run : Run W) (res : Outcome × Run W) : Type 0 where
    pub ran : List String
    pub left : List String
    pub parts : order ≡ ran ++ left
    pub extends : Extends run res.1 ran
    pub all_ran : res.0 ≡ returned none → left ≡ []

  Extends-refl : (run : Run W) → Extends run run []
  Extends-refl run = record { called = ends; completed = sym (append-nil _); results = omega arith }

  -- The step of the induction, from the outcome of the loop's body.
  covers_step :
      (n : String) (order : List String) (run : Run W) (o : Option Outcome)
      → (visit env opts p n run).0 ≡ o
      → Visited n run (visit env opts p n run)
      → ((run'' : Run W)
          → Extends run run'' (n ∷ [])
          → Covers order run'' (execute_sequential env opts p order run''))
      → Covers (n ∷ order) run (execute_sequential env opts p (n ∷ order) run)
  unfolding execute_sequential
  covers_step n order run (some out) e (inl (_, same)) rest =
      rw (e, execute_sequential)
        (record {
          ran = [];
          left = n ∷ order;
          parts = refl;
          extends = subst (λ r. Extends run r []) (sym same) (Extends-refl run);
          all_ran = λ h. absurd (visit-stops n run (e ∙ ap some h));
        })
  covers_step n order run (some out) e (inr ext) rest =
      rw (e, execute_sequential)
        (record {
          ran = n ∷ [];
          left = order;
          parts = refl;
          extends = ext;
          all_ran = λ h. absurd (visit-stops n run (e ∙ ap some h));
        })
  covers_step n order run none e (inl (stop, _)) rest = absurd (stop e)
  covers_step n order run none e (inr ext) rest =
      let run' = (visit env opts p n run).1 in
      let c = rest run' ext in
      rw (e, execute_sequential)
        (record {
          ran = n ∷ c.ran;
          left = c.left;
          parts = ap (λ l. n ∷ l) c.parts;
          extends = record {
            called = Calls-append ext.called c.extends.called;
            completed =
                c.extends.completed
                ∙ ap (λ l. l ++ c.ran) ext.completed
                ∙ append_assoc (completed_names run.completed) (n ∷ []) c.ran;
            results = omega (arith, ext.results, c.extends.results);
          };
          all_ran = c.all_ran;
        })

  pub execute_sequential-Covers :
      (order : List String) (run : Run W)
      → IsDistinct (completed_names run.completed ++ order)
      → Covers order run (execute_sequential env opts p order run)
  unfolding execute_sequential
  execute_sequential-Covers [] run d = record {
    ran = [];
    left = [];
    parts = refl;
    extends = Extends-refl run;
    all_ran = λ _. refl;
  }
  execute_sequential-Covers (n ∷ order) run d =
      let new = has-before n (completed_names run.completed) order d in
      covers_step n order run (visit env opts p n run).0 refl (visit-Visited n run new) (λ run' ext.
        execute_sequential-Covers order run' (
          subst IsDistinct
            (sym (append_assoc (completed_names run.completed) (n ∷ []) order)
              ∙ ap (λ l. l ++ order) (sym ext.completed))
            d))
