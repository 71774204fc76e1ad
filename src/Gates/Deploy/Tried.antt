-- ===== src/Gates/Deploy/Tried.antt =====
-- What Deploy does behind the check in front of the deployment does not end in its status.
use devsec.Base.{
  ◌≢◌, Bool, true, false, not, ◌&&◌, Option, none, some, String, Bool-cases, inl, inr,
}
use devsec.Base.Int.{ℤ, is_nonpositive}
use devsec.Gates.Types.{
  DeployStatus, failed, pre_check_failed, post_check_failed, post_check_error, GateError, Result,
  ok, err, GateResult, PostCheckOptions, DeployOptions, DeploymentResult, HelmClient,
}
use devsec.Gates.Deploy.{
  Gates, Deployed, fail_with, after_rollback, roll_back, fail_back, succeed, judge_post_check,
  after_post_check, verify, after_upgrade,
}

module _ {W : Type 0} (stopped : W → Bool) (g : Gates W) (opts : DeployOptions) where
  abbrev pub Tried : DeploymentResult → Type 0
  Tried r = r.status ≢ some pre_check_failed

  abbrev pub WasTried : Deployed W → Type 0
  WasTried (none, e, w) = ⊥
  WasTried (some r, e, w) = Tried r

  after_rollback-Tried :
      (r : DeploymentResult) (v : Option GateError × W)
      → Tried r
      → Tried (after_rollback stopped g r v).0
  unfolding after_rollback
  after_rollback-Tried r (none, w) k = λ q. cc
  after_rollback-Tried r (some e, w) k = k

  roll_back-Tried :
      (h : Option (Option (HelmClient W))) (r : DeploymentResult) (w : W)
      → Tried r
      → Tried (roll_back stopped g opts h r w).0
  unfolding roll_back
  roll_back-Tried none r w k = k
  roll_back-Tried (some helm) r w k =
      elim (Bool-cases (opts.auto_rollback && not (is_nonpositive r.previous_revision))) [
        | inl e ↦ rw e (after_rollback-Tried r _ k)
        | inr e ↦ rw e k
      ]

  fail_back-WasTried :
      (op : String) (status : DeployStatus) (e : GateError) (r : DeploymentResult) (w : W)
      → status ≢ pre_check_failed
      → WasTried (fail_back stopped g opts op status e r w)
  unfolding fail_back fail_with
  fail_back-WasTried op status e r w k =
      roll_back-Tried g.rollback_handler (record r { status = some status }) w (λ q. k cc)

  judge_post_check-WasTried :
      (r : DeploymentResult) (passed : Bool) (w : W)
      → WasTried (judge_post_check stopped g opts r passed w)
  unfolding judge_post_check succeed
  judge_post_check-WasTried r true w = λ q. cc
  judge_post_check-WasTried r false w =
      fail_back-WasTried "post-check" post_check_failed post_check_error r w (λ q. cc)

  after_post_check-WasTried :
      (r : DeploymentResult) (v : Result GateResult × W)
      → WasTried (after_post_check stopped g opts r v)
  unfolding after_post_check
  after_post_check-WasTried r (err e, w) =
      fail_back-WasTried "post-check" post_check_failed e r w (λ q. cc)
  after_post_check-WasTried r (ok res, w) =
      judge_post_check-WasTried (record r { post_check_result = some res }) res.passed w

  verify-WasTried :
      (r : DeploymentResult) (post : Option PostCheckOptions) (w : W)
      → WasTried (verify stopped g opts r post w)
  unfolding verify succeed
  verify-WasTried r none w = λ q. cc
  verify-WasTried r (some post) w = after_post_check-WasTried r _

  pub after_upgrade-WasTried :
      (r : DeploymentResult) (v : Result ℤ × W) → WasTried (after_upgrade stopped g opts r v)
  unfolding after_upgrade
  after_upgrade-WasTried r (err e, w) = fail_back-WasTried "deploy" failed e r w (λ q. cc)
  after_upgrade-WasTried r (ok revision, w) =
      verify-WasTried (record r { revision = revision }) opts.post_check w
