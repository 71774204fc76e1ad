-- ===== src/Gates/Rollback.antt =====
-- internal/gates/rollback.go: the rollback of a release to an earlier revision.
pub mod Laws
use devsec.Base.{Bool, true, false, not, Option, none, some, String, if◌then◌else◌, text_eq}
use devsec.Base.Int.{ℤ, pos, decrement, is_zero, is_nonpositive}
use devsec.Gates.Types.{
  GateError, missing_helm_client, empty_namespace, empty_release_name, no_previous_revision,
  rollback_failed, gate_error, Result, ok, err, GateResult, RollbackOptions, HelmClient,
  validate_rollback,
}

-- revision <= 1
abbrev pub is_first : ℤ → Bool
is_first z = is_nonpositive (decrement z)

-- RollbackHandler.ShouldRollback
pub should_rollback : Option GateResult → Bool
should_rollback none = false
should_rollback (some r) = not r.passed

previous_of : (namespace release : String) → Result ℤ → Result ℤ
previous_of ns release (err e) = err (gate_error "get revision" "" ns release e)
previous_of ns release (ok current) =
    if is_first current
    then err (gate_error "get revision" "" ns release no_previous_revision)
    else ok (decrement current)

module _ {W : Type 0} where
  -- RollbackHandler.GetPreviousRevision
  unfoldable pub get_previous_revision :
      Option (HelmClient W) → (namespace release : String) → W → Result ℤ × W
  unfolding previous_of
  get_previous_revision none ns release w = (err missing_helm_client, w)
  get_previous_revision (some helm) ns release w =
      if text_eq ns ""
      then (err empty_namespace, w)
      else if text_eq release ""
      then (err empty_release_name, w)
      else let (r, w') = helm.get_current_revision ns release w in (previous_of ns release r, w')

  rollback_result : RollbackOptions → Option GateError × W → Option GateError × W
  rollback_result opts (none, w) = (none, w)
  rollback_result opts (some e, w) =
      (some (gate_error "rollback" "" opts.namespace opts.release_name (rollback_failed e)), w)

  roll_to : HelmClient W → RollbackOptions → Result ℤ × W → Option GateError × W
  unfolding rollback_result
  roll_to helm opts (err e, w) =
      (some (gate_error "rollback" "" opts.namespace opts.release_name e), w)
  roll_to helm opts (ok revision, w) =
      rollback_result opts (helm.rollback opts.namespace opts.release_name revision w)

  -- The revision to roll back to: that of the options, or else the previous one.
  target_revision : HelmClient W → RollbackOptions → W → Result ℤ × W
  unfolding get_previous_revision
  target_revision helm opts w =
      if is_zero opts.revision
      then get_previous_revision (some helm) opts.namespace opts.release_name w
      else (ok opts.revision, w)

  execute_valid : HelmClient W → RollbackOptions → Option GateError → W → Option GateError × W
  unfolding roll_to target_revision
  execute_valid helm opts (some e) w = (some e, w)
  execute_valid helm opts none w = roll_to helm opts (target_revision helm opts w)

  -- RollbackHandler.Execute
  unfoldable pub execute_rollback :
      Option (HelmClient W) → RollbackOptions → W → Option GateError × W
  unfolding execute_valid
  execute_rollback none opts w = (some missing_helm_client, w)
  execute_rollback (some helm) opts w = execute_valid helm opts (validate_rollback opts) w

pub record RollbackResult : Type 0 where
  pub namespace : String
  pub release_name : String
  pub from_revision : ℤ
  pub to_revision : ℤ
  pub succeeded : Bool

module _ {W : Type 0} where
  conclude : RollbackResult → Option GateError × W → RollbackResult × Option GateError × W
  conclude r (none, w) = (record r { succeeded = true }, none, w)
  conclude r (some e, w) = (r, some e, w)

  -- The part of ExecuteWithResult behind the current revision.
  roll_back_from :
      Option (HelmClient W)
      → RollbackOptions
      → RollbackResult
      → Result ℤ × W
      → RollbackResult × Option GateError × W
  unfolding execute_rollback conclude
  roll_back_from helm opts r (err e, w) = (r, some e, w)
  roll_back_from helm opts r (ok current, w) =
      let target = if is_zero opts.revision then decrement current else opts.revision in
      let r' = record r { from_revision = current } in
      if is_nonpositive target
      then (r', some no_previous_revision, w)
      else conclude (record r' { to_revision = target })
          (execute_rollback helm (record opts { revision = target }) w)

  -- RollbackHandler.ExecuteWithResult, which calls the client without a test for nil.
  unfoldable pub execute_with_result :
      HelmClient W → RollbackOptions → W → RollbackResult × Option GateError × W
  unfolding roll_back_from
  execute_with_result helm opts w =
      roll_back_from (some helm) opts
        (record {
          namespace = opts.namespace;
          release_name = opts.release_name;
          from_revision = pos 0;
          to_revision = pos 0;
          succeeded = false;
        })
        (helm.get_current_revision opts.namespace opts.release_name w)

pub record AutoRollbackConfig : Type 0 where
  pub enabled : Bool
  pub on_pre_check : Bool
  pub on_post_check : Bool
  pub on_deploy_error : Bool

-- AutoRollbackConfig.ShouldRollbackOn
unfoldable pub should_rollback_on : AutoRollbackConfig → String → Bool
should_rollback_on c failure =
    if not c.enabled
    then false
    else if text_eq failure "pre_check"
    then c.on_pre_check
    else if text_eq failure "post_check"
    then c.on_post_check
    else if text_eq failure "deploy_error"
    then c.on_deploy_error
    else false
