-- ===== src/Pipeline/Validate.antt =====
-- internal/pipeline/pipeline.go: Stage.Validate and Pipeline.Validate. `none` is the nil error, and
-- a receiver that may be nil is an Option.
pub mod Config
pub mod Stages
pub mod Laws
use Prim.Native.String.{len}
use devsec.Base.{
  Bool, true, false, not, Option, none, some, List, [], ◌∷◌, String, length, update, ltb, ◌==◌,
  text_eq, string_discrete,
}
use devsec.Pipeline.Types.{
  Stage, kind_is_valid, condition_is_valid, Pipeline, PipelineError, nil_pipeline,
  empty_pipeline_name, pipeline_name_too_long, no_stages, too_many_stages,
  too_many_metadata_entries, nil_stage, empty_stage_name, stage_name_too_long, invalid_stage_kind,
  invalid_continue_condition, duplicate_stage_name, too_many_dependencies, too_many_config_entries,
  config_key_too_long, config_value_too_long, invalid_dependency, self_dependency,
  circular_dependency, max_stages, max_stage_name_len, max_pipeline_name_len, max_config_entries,
  max_config_key_len, max_config_value_len, max_dependencies, max_metadata_entries,
}
use devsec.Pipeline.Cycle.{has_cycle}

-- `if bad { return e }`, and then the rest of the function.
abbrev pub refuse : Bool → PipelineError → Option PipelineError → Option PipelineError
refuse true e rest = some e
refuse false e rest = rest

-- `if err := e; err != nil { return err }`, and then the rest.
abbrev pub or_else : Option PipelineError → Option PipelineError → Option PipelineError
or_else (some e) rest = some e
or_else none rest = rest

-- The loop over the configuration map.
pub validate_config : List (String × String) → Option PipelineError
validate_config [] = none
validate_config ((key, value) ∷ entries) =
    refuse (ltb max_config_key_len (len key)) config_key_too_long (
      refuse (ltb max_config_value_len (len value)) config_value_too_long (validate_config entries))

unfoldable pub validate_fields : Stage → Option PipelineError
unfolding validate_config
validate_fields s = refuse (text_eq s.name "") empty_stage_name (
    refuse (ltb max_stage_name_len (len s.name)) stage_name_too_long (
      refuse (not (kind_is_valid s.kind)) invalid_stage_kind (
        refuse (not (condition_is_valid s.continue_on)) invalid_continue_condition (
          refuse (ltb max_dependencies (length s.depends_on)) too_many_dependencies (
            refuse (ltb max_config_entries (length s.config)) too_many_config_entries
              (validate_config s.config))))))

-- Stage.Validate
pub validate_stage : Option Stage → Option PipelineError
unfolding validate_fields
validate_stage none = some nil_stage
validate_stage (some s) = validate_fields s

-- The loop that checks each stage and remembers the names that it has seen.
pub validate_stages : (String → Bool) → List Stage → Option PipelineError
unfolding validate_stage string_discrete
validate_stages seen [] = none
validate_stages seen (s ∷ ss) =
    refuse (seen s.name) duplicate_stage_name
      (or_else (validate_stage (some s)) (validate_stages (update seen s.name true) ss))

-- The set of names that the loop above leaves behind.
pub seen_names : (String → Bool) → List Stage → String → Bool
unfolding string_discrete
seen_names seen [] = seen
seen_names seen (s ∷ ss) = seen_names (update seen s.name true) ss

pub validate_deps : (String → Bool) → String → List String → Option PipelineError
validate_deps known name [] = none
validate_deps known name (dep ∷ deps) =
    refuse (not (known dep)) invalid_dependency
      (refuse (text_eq dep name) self_dependency (validate_deps known name deps))

pub validate_dependencies : (String → Bool) → List Stage → Option PipelineError
unfolding validate_deps
validate_dependencies known [] = none
validate_dependencies known (s ∷ ss) =
    or_else (validate_deps known s.name s.depends_on) (validate_dependencies known ss)

-- The last check. A search that has run out of fuel would be reported as a cycle.
pub refuse_cycle : Option Bool → Option PipelineError
refuse_cycle (some false) = none
refuse_cycle _ = some circular_dependency

-- Pipeline.Validate, with the order in which hasCycle meets the keys of its graph.
unfoldable pub validate : List String → Option Pipeline → Option PipelineError
unfolding validate_stages seen_names validate_dependencies refuse_cycle has_cycle
validate keys none = some nil_pipeline
validate keys (some p) = refuse (text_eq p.name "") empty_pipeline_name (
    refuse (ltb max_pipeline_name_len (len p.name)) pipeline_name_too_long (
      refuse (length p.stages == 0) no_stages (
        refuse (ltb max_stages (length p.stages)) too_many_stages (
          refuse (ltb max_metadata_entries (length p.metadata)) too_many_metadata_entries (
            or_else (validate_stages (λ _. false) p.stages) (
              or_else (validate_dependencies (seen_names (λ _. false) p.stages) p.stages)
                (refuse_cycle (has_cycle keys p.stages))))))))
