-- ===== src/Pipeline/Errors.antt =====
-- internal/pipeline/errors.go: the texts of the errors, and the tests on a chain of wrapped errors.
-- `quote` is the verb %q of package fmt. A foreign error holds its text, and wraps none of this
-- package's.
use Prim.Native.String.{◌++◌ as text_append}
use devsec.Base.{Bool, true, false, Option, none, some, String, if◌then◌else◌, text_eq}
use devsec.Pipeline.Types.{
  PipelineError, nil_pipeline, empty_pipeline_name, pipeline_name_too_long, no_stages,
  too_many_stages, too_many_metadata_entries, nil_stage, empty_stage_name, stage_name_too_long,
  invalid_stage_kind, invalid_continue_condition, duplicate_stage_name, too_many_dependencies,
  too_many_config_entries, config_key_too_long, config_value_too_long, invalid_dependency,
  self_dependency, circular_dependency, nil_context, pipeline_canceled, no_runner, foreign_error,
  validation_error, stage_error, stage_error_of,
}

-- The texts of the sentinel errors.
sentinel_text : PipelineError → String
sentinel_text nil_pipeline = "pipeline cannot be nil"
sentinel_text empty_pipeline_name = "pipeline name cannot be empty"
sentinel_text pipeline_name_too_long = "pipeline name exceeds maximum length"
sentinel_text no_stages = "pipeline must have at least one stage"
sentinel_text too_many_stages = "pipeline exceeds maximum number of stages"
sentinel_text too_many_metadata_entries = "pipeline exceeds maximum metadata entries"
sentinel_text nil_stage = "stage cannot be nil"
sentinel_text empty_stage_name = "stage name cannot be empty"
sentinel_text stage_name_too_long = "stage name exceeds maximum length"
sentinel_text invalid_stage_kind = "invalid stage kind"
sentinel_text invalid_continue_condition = "invalid continue condition"
sentinel_text duplicate_stage_name = "duplicate stage name"
sentinel_text too_many_dependencies = "stage exceeds maximum dependencies"
sentinel_text too_many_config_entries = "stage exceeds maximum config entries"
sentinel_text config_key_too_long = "config key exceeds maximum length"
sentinel_text config_value_too_long = "config value exceeds maximum length"
sentinel_text invalid_dependency = "dependency references non-existent stage"
sentinel_text self_dependency = "stage cannot depend on itself"
sentinel_text circular_dependency = "circular dependency detected"
sentinel_text nil_context = "context cannot be nil"
sentinel_text pipeline_canceled = "pipeline execution canceled"
sentinel_text no_runner = "no runner registered for stage kind"
sentinel_text _ = ""

-- ValidationError.Error
validation_text : (field message : String) → String
validation_text field message =
    if text_eq field ""
    then text_append "validation error: " message
    else text_append (text_append (text_append "validation error for " field) ": ") message

-- StageError.Error, with the text of the wrapped error
stage_text : (quote : String → String) → (name message : String) → Option String → String
stage_text quote name message none =
    text_append (text_append (text_append "stage " (quote name)) " failed: ") message
stage_text quote name message (some e) =
    text_append
      (text_append
        (text_append (text_append (text_append "stage " (quote name)) " failed: ") message) ": ")
      e

-- err.Error()
unfoldable pub error_text : (quote : String → String) → PipelineError → String
unfolding sentinel_text validation_text stage_text
error_text quote (validation_error field message e) = validation_text field message
error_text quote (stage_error name message) = stage_text quote name message none
error_text quote (stage_error_of name message e) =
    stage_text quote name message (some (error_text quote e))
error_text quote (foreign_error text) = text
error_text quote e = sentinel_text e

-- IsValidationError
unfoldable pub is_validation_error : PipelineError → Bool
is_validation_error (validation_error _ _ _) = true
is_validation_error (stage_error_of _ _ e) = is_validation_error e
is_validation_error _ = false

-- IsStageError
unfoldable pub is_stage_error : PipelineError → Bool
is_stage_error (stage_error _ _) = true
is_stage_error (stage_error_of _ _ _) = true
is_stage_error (validation_error _ _ e) = is_stage_error e
is_stage_error _ = false

-- IsCancellationError
unfoldable pub is_cancellation_error : PipelineError → Bool
is_cancellation_error pipeline_canceled = true
is_cancellation_error (stage_error_of _ _ e) = is_cancellation_error e
is_cancellation_error (validation_error _ _ e) = is_cancellation_error e
is_cancellation_error _ = false
