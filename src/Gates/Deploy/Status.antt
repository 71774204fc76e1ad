-- ===== src/Gates/Deploy/Status.antt =====
-- The result of Deploy: its status, its error and its flags fit together.
use devsec.Base.{
  ◌≡◌, ◌≢◌, ◌↔◌, refl, Bool, true, false, not, ◌&&◌, ◌||◌, Option, none, some, String, arith,
  Bool-cases, inl, inr,
}
use devsec.Base.Int.{ℤ, is_nonpositive}
use devsec.Gates.Types.{
  DeployStatus, success, failed, rolled_back, pre_check_failed, post_check_failed, GateError,
  Result, ok, err, GateResult, PostCheckOptions, PreCheckOptions, DeployOptions, DeploymentResult,
  HelmClient, post_check_error, validate_deploy,
}
use devsec.Gates.Deploy.{
  Gates, Deployed, fail_with, after_rollback, roll_back, fail_back, succeed, judge_post_check,
  after_post_check, verify, after_upgrade, deploy_release, judge_pre_check, after_pre_check,
  new_result, note_revision, find_revision, deploy_with, deploy_by, deploy_valid, deploy,
}

module _ {W : Type 0} (stopped : W → Bool) (g : Gates W) (opts : DeployOptions) where
  -- A release is rolled back only if that was asked for and there was a revision to go back to.
  pub record IsFailed (r : DeploymentResult) : Type 0 where
    pub not_success : r.status ≢ some success
    pub rolled_back_iff : (r.was_rolled_back ≡ true) ↔ (r.status ≡ some rolled_back)
    pub asked :
        (not r.was_rolled_back || (opts.auto_rollback && not (is_nonpositive r.previous_revision)))
        ≡ true

  pub record IsDone (r : DeploymentResult) : Type 0 where
    pub is_success : r.status ≡ some success
    pub kept : r.was_rolled_back ≡ false

  -- A deployment without an error has succeeded, and one with an error has not.
  abbrev pub IsCoherent : Deployed W → Type 0
  IsCoherent (none, e, w) = e ≢ none
  IsCoherent (some r, none, w) = IsDone r
  IsCoherent (some r, some e, w) = IsFailed r

  -- What holds of a result before a rollback.
  abbrev Kept : DeploymentResult → DeployStatus → Type 0
  Kept r status = (r.was_rolled_back ≡ false) × (status ≢ success) × (status ≢ rolled_back)

  Kept-IsFailed :
      (r : DeploymentResult) (status : DeployStatus)
      → Kept r status
      → IsFailed (record r { status = some status })
  Kept-IsFailed r status k = ground arith

  after_rollback-IsFailed :
      (r : DeploymentResult) (status : DeployStatus) (v : Option GateError × W)
      → Kept r status
      → opts.auto_rollback ≡ true
      → is_nonpositive r.previous_revision ≡ false
      → IsFailed (after_rollback stopped g (record r { status = some status }) v).0
  unfolding after_rollback
  after_rollback-IsFailed r status (none, w) k auto positive = ground arith
  after_rollback-IsFailed r status (some e, w) k auto positive = Kept-IsFailed r status k

  roll_back-IsFailed :
      (h : Option (Option (HelmClient W))) (r : DeploymentResult) (status : DeployStatus) (w : W)
      → Kept r status
      → IsFailed (roll_back stopped g opts h (record r { status = some status }) w).0
  unfolding roll_back
  roll_back-IsFailed none r status w k = Kept-IsFailed r status k
  roll_back-IsFailed (some helm) r status w k =
      elim (Bool-cases (opts.auto_rollback && not (is_nonpositive r.previous_revision))) [
        | inl e ↦ rw e (after_rollback-IsFailed r status _ k (ground arith) (ground arith))
        | inr e ↦ rw e (Kept-IsFailed r status k)
      ]

  fail_back-IsCoherent :
      (op : String) (status : DeployStatus) (e : GateError) (r : DeploymentResult) (w : W)
      → Kept r status
      → IsCoherent (fail_back stopped g opts op status e r w)
  unfolding fail_back fail_with
  fail_back-IsCoherent op status e r w k = roll_back-IsFailed g.rollback_handler r status w k

  succeed-IsCoherent :
      (r : DeploymentResult) (w : W)
      → r.was_rolled_back ≡ false
      → IsCoherent (succeed stopped g r w)
  unfolding succeed
  succeed-IsCoherent r w k = record { is_success = refl; kept = k }

  judge_post_check-IsCoherent :
      (r : DeploymentResult) (passed : Bool) (w : W)
      → r.was_rolled_back ≡ false
      → IsCoherent (judge_post_check stopped g opts r passed w)
  unfolding judge_post_check
  judge_post_check-IsCoherent r true w k = succeed-IsCoherent r w k
  judge_post_check-IsCoherent r false w k =
      fail_back-IsCoherent "post-check" post_check_failed post_check_error r w
        (k, (λ q. cc), (λ q. cc))

  after_post_check-IsCoherent :
      (r : DeploymentResult) (v : Result GateResult × W)
      → r.was_rolled_back ≡ false
      → IsCoherent (after_post_check stopped g opts r v)
  unfolding after_post_check
  after_post_check-IsCoherent r (err e, w) k =
      fail_back-IsCoherent "post-check" post_check_failed e r w (k, (λ q. cc), (λ q. cc))
  after_post_check-IsCoherent r (ok res, w) k =
      judge_post_check-IsCoherent (record r { post_check_result = some res }) res.passed w k

  verify-IsCoherent :
      (r : DeploymentResult) (post : Option PostCheckOptions) (w : W)
      → r.was_rolled_back ≡ false
      → IsCoherent (verify stopped g opts r post w)
  unfolding verify
  verify-IsCoherent r none w k = succeed-IsCoherent r w k
  verify-IsCoherent r (some post) w k = after_post_check-IsCoherent r _ k

  after_upgrade-IsCoherent :
      (r : DeploymentResult) (v : Result ℤ × W)
      → r.was_rolled_back ≡ false
      → IsCoherent (after_upgrade stopped g opts r v)
  unfolding after_upgrade
  after_upgrade-IsCoherent r (err e, w) k =
      fail_back-IsCoherent "deploy" failed e r w (k, (λ q. cc), (λ q. cc))
  after_upgrade-IsCoherent r (ok revision, w) k =
      verify-IsCoherent (record r { revision = revision }) opts.post_check w k

  deploy_release-IsCoherent :
      (helm : HelmClient W) (r : DeploymentResult) (dry_run : Bool) (w : W)
      → r.was_rolled_back ≡ false
      → IsCoherent (deploy_release stopped g helm opts r dry_run w)
  unfolding deploy_release
  deploy_release-IsCoherent helm r true w k = succeed-IsCoherent r w k
  deploy_release-IsCoherent helm r false w k = after_upgrade-IsCoherent r _ k

  judge_pre_check-IsCoherent :
      (helm : HelmClient W) (r : DeploymentResult) (passed : Bool) (w : W)
      → r.was_rolled_back ≡ false
      → IsCoherent (judge_pre_check stopped g helm opts r passed w)
  unfolding judge_pre_check fail_with
  judge_pre_check-IsCoherent helm r true w k = deploy_release-IsCoherent helm r g.dry_run w k
  judge_pre_check-IsCoherent helm r false w k =
      Kept-IsFailed r pre_check_failed (k, (λ q. cc), (λ q. cc))

  after_pre_check-IsCoherent :
      (helm : HelmClient W) (r : DeploymentResult) (v : Result GateResult × W)
      → r.was_rolled_back ≡ false
      → IsCoherent (after_pre_check stopped g helm opts r v)
  unfolding after_pre_check fail_with
  after_pre_check-IsCoherent helm r (err e, w) k =
      Kept-IsFailed r pre_check_failed (k, (λ q. cc), (λ q. cc))
  after_pre_check-IsCoherent helm r (ok res, w) k =
      judge_pre_check-IsCoherent helm (record r { pre_check_result = some res }) res.passed w k

  deploy_with-IsCoherent :
      (helm : HelmClient W) (pre : Option PreCheckOptions) (v : DeploymentResult × W)
      → v.0.was_rolled_back ≡ false
      → IsCoherent (deploy_with stopped g helm opts pre v)
  unfolding deploy_with
  deploy_with-IsCoherent helm none (r, w) k = deploy_release-IsCoherent helm r g.dry_run w k
  deploy_with-IsCoherent helm (some pre) (r, w) k = after_pre_check-IsCoherent helm r _ k

  note_revision-kept :
      (v : Result ℤ × W)
      → (note_revision stopped g (new_result stopped g opts) v).0.was_rolled_back ≡ false
  unfolding note_revision new_result
  note_revision-kept (ok revision, w) = refl
  note_revision-kept (err e, w) = refl

  find_revision-kept :
      (helm : HelmClient W) (h : Option (Option (HelmClient W))) (w : W)
      → (find_revision stopped g helm opts h w).0.was_rolled_back ≡ false
  unfolding find_revision new_result
  find_revision-kept helm none w = refl
  find_revision-kept helm (some _) w = note_revision-kept _

  deploy_by-IsCoherent :
      (helm : Option (HelmClient W)) (w : W) → IsCoherent (deploy_by stopped g opts helm w)
  unfolding deploy_by
  deploy_by-IsCoherent none w = λ q. cc
  deploy_by-IsCoherent (some helm) w =
      deploy_with-IsCoherent helm opts.pre_check _ (find_revision-kept helm g.rollback_handler w)

  deploy_valid-IsCoherent :
      (e : Option GateError) (w : W) → IsCoherent (deploy_valid stopped g opts e w)
  unfolding deploy_valid
  deploy_valid-IsCoherent (some e) w = λ q. cc
  deploy_valid-IsCoherent none w = deploy_by-IsCoherent g.helm_client w

  -- Deploy returns no error exactly with the status of success. With an error and a result, the
  -- result is marked as rolled back exactly if that is its status, and then only if the options asked
  -- for it and there was a revision before the deployment. A missing result comes with an error.
  pub deploy-IsCoherent :
      (context_is_nil : Bool) (w : W) → IsCoherent (deploy stopped g context_is_nil opts w)
  unfolding deploy
  deploy-IsCoherent true w = λ q. cc
  deploy-IsCoherent false w = deploy_valid-IsCoherent (validate_deploy opts) w
