-- ===== src/Gates/Deploy.antt =====
-- internal/gates/gates.go: DefaultDeploymentGates. `stopped` is the test of the context's error. The
-- gates' clients may be nil, and the context of Deploy may be.
pub mod Checked
pub mod Tried
pub mod Safety
pub mod Status
use devsec.Base.{
  Bool, true, false, not, ◌&&◌, Option, none, some, List, [], ◌∷◌, ◌++◌, String, if◌then◌else◌,
  text_eq,
}
use devsec.Base.Int.{ℤ, pos, is_nonpositive}
use devsec.Gates.Types.{
  DeployStatus, success, failed, rolled_back, pre_check_failed, post_check_failed, GateError,
  nil_context, missing_helm_client, pre_check_error, post_check_error, gate_error, Result, ok, err,
  GateResult, PreCheckOptions, PostCheckOptions, DeployOptions, RollbackOptions, DeploymentResult,
  HelmClient, PreGate, PostGate, validate_deploy, validate_pre_check, validate_post_check,
}
use devsec.Gates.Run.{run_pre_checks, run_post_checks}
use devsec.Gates.Rollback.{execute_rollback}

-- DefaultDeploymentGates. `rollback_handler` is the handler's client, if there is a handler.
pub record Gates (W : Type 0) : Type 0 where
  pub helm_client : Option (HelmClient W)
  pub rollback_handler : Option (Option (HelmClient W))
  pub pre_gates : List (PreGate W)
  pub post_gates : List (PostGate W)
  pub namespace : String
  pub dry_run : Bool

-- What Deploy returns: the result, which may be nil, the error, and the world.
abbrev pub Deployed : Type 0 → Type 0
Deployed W = Option DeploymentResult × Option GateError × W

module _ {W : Type 0} where
  -- AddPreGate and AddPostGate
  pub add_pre_gate : PreGate W → Gates W → Gates W
  add_pre_gate gate g = record g { pre_gates = g.pre_gates ++ gate ∷ [] }

  pub add_post_gate : PostGate W → Gates W → Gates W
  add_post_gate gate g = record g { post_gates = g.post_gates ++ gate ∷ [] }

module _ {W : Type 0} (stopped : W → Bool) (g : Gates W) where
  -- PreCheck
  unfoldable pub pre_check : PreCheckOptions → W → Result GateResult × W
  pre_check opts w = elim (validate_pre_check opts) [
    | some e ↦ (err e, w)
    | none ↦ run_pre_checks stopped g.pre_gates opts w
  ]

  -- PostCheck
  unfoldable pub post_check : PostCheckOptions → W → Result GateResult × W
  post_check opts w = elim (validate_post_check opts) [
    | some e ↦ (err e, w)
    | none ↦ run_post_checks stopped g.post_gates opts w
  ]

  fail_with : (op release : String) → GateError → DeploymentResult × W → Deployed W
  fail_with op release e (r, w) = (some r, some (gate_error op "" g.namespace release e), w)

  -- Rolled back, if the handler's rollback succeeds.
  after_rollback : DeploymentResult → Option GateError × W → DeploymentResult × W
  after_rollback r (none, w) = (record r { was_rolled_back = true; status = some rolled_back }, w)
  after_rollback r (some e, w) = (r, w)

  -- The automatic rollback, which Deploy makes at three places.
  roll_back :
      DeployOptions → Option (Option (HelmClient W)) → DeploymentResult → W → DeploymentResult × W
  unfolding after_rollback
  roll_back opts none r w = (r, w)
  roll_back opts (some helm) r w =
      let target : RollbackOptions = record {
        release_name = opts.release_name;
        namespace = g.namespace;
        revision = r.previous_revision;
      } in
      if opts.auto_rollback && not (is_nonpositive r.previous_revision)
      then after_rollback r (execute_rollback helm target w)
      else (r, w)

  -- A failure of the deployment or of the check behind it.
  fail_back : DeployOptions → String → DeployStatus → GateError → DeploymentResult → W → Deployed W
  unfolding fail_with roll_back
  fail_back opts op status e r w =
      fail_with op opts.release_name e
        (roll_back opts g.rollback_handler (record r { status = some status }) w)

  succeed : DeploymentResult → W → Deployed W
  succeed r w = (some (record r { status = some success }), none, w)

  judge_post_check : DeployOptions → DeploymentResult → (passed : Bool) → W → Deployed W
  unfolding fail_back succeed
  judge_post_check opts r true w = succeed r w
  judge_post_check opts r false w =
      fail_back opts "post-check" post_check_failed post_check_error r w

  after_post_check : DeployOptions → DeploymentResult → Result GateResult × W → Deployed W
  unfolding fail_back judge_post_check
  after_post_check opts r (err e, w) = fail_back opts "post-check" post_check_failed e r w
  after_post_check opts r (ok res, w) =
      judge_post_check opts (record r { post_check_result = some res }) res.passed w

  -- The options of the check behind the deployment name the deployed release.
  post_options : DeployOptions → PostCheckOptions → PostCheckOptions
  post_options opts post = record post { namespace = g.namespace; release_name = opts.release_name }

  verify : DeployOptions → DeploymentResult → Option PostCheckOptions → W → Deployed W
  unfolding succeed post_check after_post_check post_options
  verify opts r none w = succeed r w
  verify opts r (some post) w = after_post_check opts r (post_check (post_options opts post) w)

  pub after_upgrade : DeployOptions → DeploymentResult → Result ℤ × W → Deployed W
  unfolding fail_back verify
  after_upgrade opts r (err e, w) = fail_back opts "deploy" failed e r w
  after_upgrade opts r (ok revision, w) =
      verify opts (record r { revision = revision }) opts.post_check w

  -- The part of Deploy behind the check in front of the deployment.
  deploy_release :
      HelmClient W → DeployOptions → DeploymentResult → (dry_run : Bool) → W → Deployed W
  unfolding succeed after_upgrade
  deploy_release helm opts r true w = succeed r w
  deploy_release helm opts r false w =
      after_upgrade opts r (helm.upgrade g.namespace opts.release_name opts.chart_ref w)

  judge_pre_check :
      HelmClient W → DeployOptions → DeploymentResult → (passed : Bool) → W → Deployed W
  unfolding fail_with deploy_release
  judge_pre_check helm opts r true w = deploy_release helm opts r g.dry_run w
  judge_pre_check helm opts r false w =
      fail_with "pre-check" opts.release_name pre_check_error
        (record r { status = some pre_check_failed }, w)

  after_pre_check :
      HelmClient W → DeployOptions → DeploymentResult → Result GateResult × W → Deployed W
  unfolding fail_with judge_pre_check
  after_pre_check helm opts r (err e, w) =
      fail_with "pre-check" opts.release_name e (record r { status = some pre_check_failed }, w)
  after_pre_check helm opts r (ok res, w) =
      judge_pre_check helm opts (record r { pre_check_result = some res }) res.passed w

  new_result : DeployOptions → DeploymentResult
  new_result opts = record {
    pre_check_result = none;
    post_check_result = none;
    namespace = g.namespace;
    release_name = opts.release_name;
    chart_ref = opts.chart_ref;
    status = none;
    revision = pos 0;
    previous_revision = pos 0;
    was_rolled_back = false;
  }

  note_revision : DeploymentResult → Result ℤ × W → DeploymentResult × W
  note_revision r (ok revision, w) = (record r { previous_revision = revision }, w)
  note_revision r (err e, w) = (r, w)

  -- The revision before the deployment, which is asked for only if there is a handler.
  unfoldable pub find_revision :
      HelmClient W → DeployOptions → Option (Option (HelmClient W)) → W → DeploymentResult × W
  unfolding new_result note_revision
  find_revision helm opts none w = (new_result opts, w)
  find_revision helm opts (some _) w =
      note_revision (new_result opts) (helm.get_current_revision g.namespace opts.release_name w)

  deploy_with :
      HelmClient W → DeployOptions → Option PreCheckOptions → DeploymentResult × W → Deployed W
  unfolding deploy_release after_pre_check pre_check
  deploy_with helm opts none (r, w) = deploy_release helm opts r g.dry_run w
  deploy_with helm opts (some pre) (r, w) = after_pre_check helm opts r (pre_check pre w)

  deploy_by : DeployOptions → Option (HelmClient W) → W → Deployed W
  unfolding find_revision deploy_with
  deploy_by opts none w = (none, some missing_helm_client, w)
  deploy_by opts (some helm) w =
      deploy_with helm opts opts.pre_check (find_revision helm opts g.rollback_handler w)

  deploy_valid : DeployOptions → Option GateError → W → Deployed W
  unfolding deploy_by
  deploy_valid opts (some e) w = (none, some e, w)
  deploy_valid opts none w = deploy_by opts g.helm_client w

  -- Deploy
  unfoldable pub deploy : (context_is_nil : Bool) → DeployOptions → W → Deployed W
  unfolding deploy_valid
  deploy true opts w = (none, some nil_context, w)
  deploy false opts w = deploy_valid opts (validate_deploy opts) w

  -- Rollback
  unfoldable pub rollback : (context_is_nil : Bool) → RollbackOptions → W → Option GateError × W
  rollback true opts w = (some nil_context, w)
  rollback false opts w = elim g.rollback_handler [
    | none ↦ (some missing_helm_client, w)
    | some helm ↦
        execute_rollback helm
          (record opts {
            namespace = if text_eq opts.namespace "" then g.namespace else opts.namespace;
          })
          w
  ]
