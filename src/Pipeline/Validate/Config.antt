-- ===== src/Pipeline/Validate/Config.antt =====
-- What a valid stage is, and that Stage.Validate accepts exactly those.
use Prim.Native.String.{len}
use devsec.Base.{
  ◌≤◌, ◌≡◌, ◌≢◌, ◌↔◌, refl, true, none, List, [], ◌∷◌, String, All, length, arith, text_eq_iff,
}
use devsec.Pipeline.Types.{
  Stage, kind_is_valid, condition_is_valid, max_stage_name_len, max_config_entries,
  max_config_key_len, max_config_value_len, max_dependencies,
}
use devsec.Pipeline.Validate.{validate_config, validate_fields}

abbrev pub ConfigWithin : List (String × String) → Type 0
ConfigWithin config =
    All (λ e. (len e.0 ≤ max_config_key_len) × (len e.1 ≤ max_config_value_len)) config

pub record IsValidStage (s : Stage) : Type 0 where
  pub named : s.name ≢ ""
  pub name_within : len s.name ≤ max_stage_name_len
  pub kind_valid : kind_is_valid s.kind ≡ true
  pub condition_valid : condition_is_valid s.continue_on ≡ true
  pub deps_within : length s.depends_on ≤ max_dependencies
  pub entries_within : length s.config ≤ max_config_entries
  pub config_within : ConfigWithin s.config

validate_config-ConfigWithin :
    (config : List (String × String)) → (validate_config config ≡ none) ↔ ConfigWithin config
unfolding validate_config
validate_config-ConfigWithin [] = (λ _. tt, λ _. refl)
validate_config-ConfigWithin ((k, v) ∷ es) =
    let ih = validate_config-ConfigWithin es in
    (λ h. ground (arith, ih.0), λ h. ground (arith, ih.1))

-- Stage.Validate accepts a stage exactly when its name is neither empty nor too long, its kind and
-- condition are known, and its dependencies and configuration are within the limits.
pub validate_fields_iff : (s : Stage) → (validate_fields s ≡ none) ↔ IsValidStage s
unfolding validate_fields
validate_fields_iff s =
    let config = validate_config-ConfigWithin s.config in
    (
      λ h. ground (arith, text_eq_iff s.name "", config.0),
      λ v. ground (arith, text_eq_iff s.name "", config.1),
    )
