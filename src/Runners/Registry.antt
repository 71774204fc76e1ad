-- ===== src/Runners/Registry.antt =====
-- internal/pipeline/runner.go: RunnerRegistry, a map from kinds to runners, and DefaultRegistry. A
-- StageKind is a Go string, so that kinds are compared by their texts.
use devsec.Base.{
  ◌≡◌, refl, Bool, true, false, Option, none, some, List, [], ◌∷◌, String, if◌then◌else◌, text_eq,
  text_eq_iff, arith, ◌∙◌, All, Perm, Option-cases, inl, inr,
}
use devsec.Pipeline.Types.{
  StageKind, scan, policy, report, compliance, custom, unknown_kind, kind_is_valid, Stage, Pipeline,
  names, PipelineError,
}
use devsec.Pipeline.Validate.{validate}
use devsec.Pipeline.Validate.Laws.{validate_iff}
use devsec.Pipeline.Validate.Config.{IsValidStage}
use devsec.Pipeline.Result.{StageResult}
use devsec.Pipeline.Runner.{Environment, ExecuteOptions, RunnerInput, kind_text}
use devsec.Pipeline.Execute.{executor_validate, runners_known}

-- A StageRunner: its Kind, and its Run.
pub record StageRunner {κ} (R : Type κ) : Type κ where
  pub kind : StageKind
  pub run : R

module _ {κ} {R : Type κ} where
  -- r.runners[key] = runner
  set_runner : String → R → List (String × R) → List (String × R)
  set_runner key r [] = (key, r) ∷ []
  set_runner key r ((k, q) ∷ m) =
      if text_eq k key then (key, r) ∷ m else (k, q) ∷ set_runner key r m

  -- Register
  unfoldable pub register : Option (StageRunner R) → List (String × R) → List (String × R)
  unfolding set_runner kind_text
  register none m = m
  register (some r) m = set_runner (kind_text r.kind) r.run m

  find_runner : String → List (String × R) → Option R
  find_runner key [] = none
  find_runner key ((k, r) ∷ m) = if text_eq k key then some r else find_runner key m

  -- Get
  unfoldable pub get : StageKind → List (String × R) → Option R
  unfolding find_runner kind_text
  get kind m = find_runner (kind_text kind) m

  -- Has
  unfoldable pub is_registered : StageKind → List (String × R) → Bool
  unfolding get
  is_registered kind m = elim (get kind m) [ none ↦ false | some _ ↦ true ]

  -- Kinds, in the order of the map's iteration
  unfoldable pub kinds : List (String × R) → List String
  kinds [] = []
  kinds ((k, _) ∷ m) = k ∷ kinds m

  -- DefaultRegistry, with the runners that the constructors make
  unfoldable pub default_registry : (StageKind → R) → List (String × R)
  unfolding register
  default_registry make = register (some (record { kind = custom; run = make custom })) (
      register (some (record { kind = compliance; run = make compliance })) (
        register (some (record { kind = report; run = make report })) (
          register (some (record { kind = policy; run = make policy }))
            (register (some (record { kind = scan; run = make scan })) []))))

  find_runner-set_runner :
      (key other : String) (r : R) (m : List (String × R))
      → find_runner other (set_runner key r m)
        ≡ (if text_eq key other then some r else find_runner other m)
  unfolding find_runner set_runner
  find_runner-set_runner key other r [] = refl
  find_runner-set_runner key other r ((k, q) ∷ m) = ground (
    arith,
    find_runner-set_runner key other r m,
    text_eq_iff k key,
    text_eq_iff k other,
    text_eq_iff key other,
  )

  -- What Get finds behind Register: the runner of that kind, in place of an earlier one, and what it
  -- found before for every other kind. A nil runner changes nothing.
  pub register-get :
      (r : StageRunner R) (kind : StageKind) (m : List (String × R))
      → (get kind (register none m) ≡ get kind m)
        × (get kind (register (some r) m)
            ≡ (if text_eq (kind_text r.kind) (kind_text kind) then some r.run else get kind m))
  unfolding get register
  register-get r kind m = (refl, find_runner-set_runner (kind_text r.kind) (kind_text kind) r.run m)

  -- The default registry has a runner for each kind that a stage may have.
  pub default_registry-get :
      (make : StageKind → R) (kind : StageKind)
      → kind_is_valid kind ≡ true
      → get kind (default_registry make) ≡ some (make kind)
  unfolding get default_registry kind_is_valid
  default_registry-get make scan h = refl
  default_registry-get make policy h = refl
  default_registry-get make report h = refl
  default_registry-get make compliance h = refl
  default_registry-get make custom h = refl
  default_registry-get make (unknown_kind s) h = ground arith

abbrev RunOf : Type 0 → Type 0
RunOf W = Stage → RunnerInput → W → StageResult × Option PipelineError × W

module _ {W : Type 0} (env : Environment W) (opts : ExecuteOptions) where
  runners_known-none :
      ((k : StageKind) → kind_is_valid k ≡ true → (r : RunOf W) × (env.runner k ≡ some r))
      → (ss : List Stage) → All IsValidStage ss
      → runners_known env opts ss ≡ none
  unfolding runners_known
  runners_known-none known [] h = refl
  runners_known-none known (s ∷ ss) (valid, h) =
      let (r, e) = known s.kind valid.kind_valid in
      rw (e, runners_known) (runners_known-none known ss h)

  -- With the default registry, the executor accepts exactly the pipelines that Pipeline.Validate
  -- accepts: no valid stage is left without a runner.
  pub executor_validate-default_registry :
      (make : StageKind → RunOf W) (keys : List String) (p : Pipeline)
      → Perm keys (names p.stages)
      → ((k : StageKind) → env.runner k ≡ get k (default_registry make))
      → executor_validate env opts keys p ≡ validate keys (some p)
  unfolding executor_validate
  executor_validate-default_registry make keys p perm wired =
      elim (Option-cases (validate keys (some p))) [
        | inl e ↦
            let known =
              runners_known-none (λ k h. (make k, wired k ∙ default_registry-get make k h)) p.stages
                ((validate_iff keys p perm).0 e).stages_valid in
            rw (e, known) refl
        | inr (err, e) ↦ rw e refl
      ]
