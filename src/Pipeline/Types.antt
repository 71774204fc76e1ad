-- ===== src/Pipeline/Types.antt =====
-- internal/pipeline/pipeline.go and errors.go: the data model. A Go string with named constants is
-- a data type with a constructor for each constant and, where the code accepts any text, one for
-- every other text. A map is the list of its entries in the order in which a loop meets them.
use devsec.Base.{ℕ, ◌*◌, Bool, true, false, List, [], ◌∷◌, String, if◌then◌else◌}
use devsec.Base.Int.{ℤ, pos, is_nonpositive}

abbrev pub max_stages : ℕ
max_stages = 100

abbrev pub max_stage_name_len : ℕ
max_stage_name_len = 256

abbrev pub max_pipeline_name_len : ℕ
max_pipeline_name_len = 256

abbrev pub max_config_entries : ℕ
max_config_entries = 50

abbrev pub max_config_key_len : ℕ
max_config_key_len = 128

abbrev pub max_config_value_len : ℕ
max_config_value_len = 4096

abbrev pub max_dependencies : ℕ
max_dependencies = 20

abbrev pub max_metadata_entries : ℕ
max_metadata_entries = 50

-- time.Duration counts nanoseconds.
abbrev pub minute : ℕ
minute = 60 * 1000000000

abbrev pub default_stage_timeout : ℤ
default_stage_timeout = pos (10 * minute)

abbrev pub default_timeout : ℤ
default_timeout = pos (30 * minute)

pub data StageKind : Type 0 where
  scan policy report compliance custom : StageKind
  unknown_kind : String → StageKind

-- StageKind.IsValid
unfoldable pub kind_is_valid : StageKind → Bool
kind_is_valid (unknown_kind _) = false
kind_is_valid _ = true

pub data StageStatus : Type 0 where
  pending running success failed skipped canceled : StageStatus

unfoldable pub is_terminal : StageStatus → Bool
is_terminal pending = false
is_terminal running = false
is_terminal _ = true

unfoldable pub is_success : StageStatus → Bool
is_success success = true
is_success _ = false

-- `unset` is the empty string.
pub data ContinueCondition : Type 0 where
  on_success on_failure always unset : ContinueCondition
  unknown_condition : String → ContinueCondition

-- ContinueCondition.IsValid
unfoldable pub condition_is_valid : ContinueCondition → Bool
condition_is_valid (unknown_condition _) = false
condition_is_valid _ = true

pub record Stage : Type 0 where
  pub config : List (String × String)
  pub name : String
  pub kind : StageKind
  pub continue_on : ContinueCondition
  pub depends_on : List String
  pub timeout : ℤ
  pub is_parallel : Bool
  pub fail_fast : Bool

-- Stage.GetTimeout
unfoldable pub stage_get_timeout : Stage → ℤ
stage_get_timeout s = if is_nonpositive s.timeout then default_stage_timeout else s.timeout

pub record Pipeline : Type 0 where
  pub metadata : List (String × String)
  pub name : String
  pub version : String
  pub stages : List Stage
  pub timeout : ℤ
  pub is_parallel : Bool
  pub fail_fast : Bool

-- Pipeline.GetTimeout
unfoldable pub get_timeout : Pipeline → ℤ
get_timeout p = if is_nonpositive p.timeout then default_timeout else p.timeout

-- The sentinel errors that validation and execution return, and the errors that wrap another.
-- `foreign_error` stands for an error of code outside this package.
pub data PipelineError : Type 0 where
  nil_pipeline empty_pipeline_name pipeline_name_too_long no_stages too_many_stages
        too_many_metadata_entries nil_stage empty_stage_name stage_name_too_long invalid_stage_kind
        invalid_continue_condition duplicate_stage_name too_many_dependencies
        too_many_config_entries config_key_too_long config_value_too_long invalid_dependency
        self_dependency circular_dependency nil_context pipeline_canceled no_runner :
      PipelineError
  foreign_error : String → PipelineError
  validation_error : (field message : String) → PipelineError → PipelineError
  stage_error : (stage_name message : String) → PipelineError
  stage_error_of : (stage_name message : String) → PipelineError → PipelineError

abbrev pub names : List Stage → List String
names [] = []
names (s ∷ ss) = s.name ∷ names ss
