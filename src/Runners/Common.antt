-- ===== src/Runners/Common.antt =====
-- internal/pipeline/runner.go: what the runners share: the configuration of a stage, and results.
use devsec.Base.{
  ◌≡◌, ◌⊎◌, inl, inr, refl, Bool, Option, none, some, List, [], ◌∷◌, String, if◌then◌else◌, text_eq,
}
use devsec.Pipeline.Types.{
  StageStatus, success, failed, canceled, Stage, PipelineError, stage_error,
}
use devsec.Pipeline.Errors.{error_text}
use devsec.Pipeline.Result.{StageResult, Artifact}

-- What the runners call: the verb %q, the context, and package filepath.
pub record Tools (W : Type 0) : Type 0 where
  pub quote : String → String
  pub done : W → Bool
  pub ctx_err : W → PipelineError
  pub is_abs : String → Bool
  pub join : String → String → String

-- stage.Config[key]: the empty text, where the key is missing.
unfoldable pub config_value : String → List (String × String) → String
config_value key [] = ""
config_value key ((k, v) ∷ config) = if text_eq k key then v else config_value key config

-- The value, or another where it is empty.
unfoldable pub or_default : String → String → String
or_default value other = if text_eq value "" then other else value

result_text : (String → String) → Option PipelineError → String
unfolding error_text
result_text quote none = ""
result_text quote (some e) = error_text quote e

-- createResult
unfoldable pub create_result :
    (String → String) → String → StageStatus → Option PipelineError → StageResult
unfolding result_text
create_result quote name status err = record {
  name = name;
  status = status;
  error = result_text quote err;
  artifacts = none;
}

-- What a runner returns, and leaves of the world.
abbrev pub Ran : Type 0 → Type 0
Ran W = StageResult × Option PipelineError × W

module _ {W : Type 0} (tools : Tools W) (s : Stage) where
  -- A failed result with a stage error.
  unfoldable pub fail : String → W → Ran W
  unfolding create_result
  fail message w =
      let e = stage_error s.name message in
      (create_result tools.quote s.name failed (some e), some e, w)

  -- The result of a canceled context.
  unfoldable pub cancel : W → Ran W
  unfolding create_result
  cancel w =
      let e = tools.ctx_err w in (create_result tools.quote s.name canceled (some e), some e, w)

  -- A result with artifacts.
  unfoldable pub succeed : List (String × Artifact) → W → Ran W
  unfolding create_result
  succeed artifacts w = (
    record (create_result tools.quote s.name success none) { artifacts = some artifacts },
    none,
    w,
  )

  -- A result with artifacts and an error.
  unfoldable pub fail_with : String → List (String × Artifact) → W → Ran W
  unfolding create_result
  fail_with message artifacts w =
      let e = stage_error s.name message in
      (
        record (create_result tools.quote s.name failed (some e)) { artifacts = some artifacts },
        some e,
        w,
      )

  -- A result is a success exactly when there is no error, and names its stage.
  pub record IsCoherent (ran : Ran W) : Type 0 where
    pub named : ran.0.name ≡ s.name
    pub status :
        ((ran.0.status ≡ success) × (ran.1 ≡ none) × (ran.0.error ≡ ""))
        ⊎ (((ran.0.status ≡ failed) ⊎ (ran.0.status ≡ canceled))
            × ((e : PipelineError) × (ran.1 ≡ some e)))

  pub fail-IsCoherent : (message : String) (w : W) → IsCoherent (fail message w)
  unfolding fail
  fail-IsCoherent message w = record { named = refl; status = inr (inl refl, (_, refl)) }

  pub cancel-IsCoherent : (w : W) → IsCoherent (cancel w)
  unfolding cancel
  cancel-IsCoherent w = record { named = refl; status = inr (inr refl, (_, refl)) }

  pub succeed-IsCoherent :
      (artifacts : List (String × Artifact)) (w : W) → IsCoherent (succeed artifacts w)
  unfolding succeed
  succeed-IsCoherent artifacts w = record { named = refl; status = inl (refl, refl, refl) }

  pub fail_with-IsCoherent :
      (message : String) (artifacts : List (String × Artifact)) (w : W)
      → IsCoherent (fail_with message artifacts w)
  unfolding fail_with
  fail_with-IsCoherent message artifacts w = record {
    named = refl;
    status = inr (inl refl, (_, refl));
  }
