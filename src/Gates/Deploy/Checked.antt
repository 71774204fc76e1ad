-- ===== src/Gates/Deploy/Checked.antt =====
-- A deployment that succeeds has passed the checks that its options ask for.
use devsec.Base.{◌≡◌, refl, subst, Bool, true, false, ◌||◌, Option, none, some, arith}
use devsec.Base.Int.{ℤ}
use devsec.Gates.Types.{
  GateError, Result, ok, err, GateResult, PreCheckOptions, PostCheckOptions, DeployOptions,
  DeploymentResult, HelmClient, validate_deploy,
}
use devsec.Gates.Deploy.{
  Gates, Deployed, fail_with, fail_back, succeed, judge_post_check, after_post_check, verify,
  after_upgrade, deploy_release, judge_pre_check, after_pre_check, deploy_with, deploy_by,
  deploy_valid, deploy,
}

abbrev passes : Option GateResult → Bool
passes none = false
passes (some res) = res.passed

-- A check that is asked for has a result, which passes.
abbrev pub covers : {A : Type 0} → Option A → Option GateResult → Bool
covers none res = true
covers (some _) res = passes res

module _ {W : Type 0} (stopped : W → Bool) (g : Gates W) (opts : DeployOptions) where
  abbrev IsChecked : Deployed W → Type 0
  IsChecked (none, e, w) = Unit
  IsChecked (some r, some e, w) = Unit
  IsChecked (some r, none, w) =
      (covers opts.pre_check r.pre_check_result ≡ true)
      × ((g.dry_run || covers opts.post_check r.post_check_result) ≡ true)

  abbrev Before : DeploymentResult → Type 0
  Before r = covers opts.pre_check r.pre_check_result ≡ true

  judge_post_check-IsChecked :
      (r : DeploymentResult) (passed : Bool) (w : W)
      → Before r
      → passes r.post_check_result ≡ passed
      → IsChecked (judge_post_check stopped g opts r passed w)
  unfolding judge_post_check succeed fail_back fail_with
  judge_post_check-IsChecked r true w k p = (k, covered opts.post_check)
    where
      covered :
          (post : Option PostCheckOptions) → (g.dry_run || covers post r.post_check_result) ≡ true
      covered none = ground arith
      covered (some post) = ground (arith, p)
  judge_post_check-IsChecked r false w k p = tt

  after_post_check-IsChecked :
      (r : DeploymentResult) (v : Result GateResult × W)
      → Before r
      → IsChecked (after_post_check stopped g opts r v)
  unfolding after_post_check fail_back fail_with
  after_post_check-IsChecked r (err e, w) k = tt
  after_post_check-IsChecked r (ok res, w) k =
      judge_post_check-IsChecked (record r { post_check_result = some res }) res.passed w k refl

  verify-IsChecked :
      (r : DeploymentResult) (post : Option PostCheckOptions) (w : W)
      → opts.post_check ≡ post
      → Before r
      → IsChecked (verify stopped g opts r post w)
  unfolding verify succeed
  verify-IsChecked r none w e k = (k, ground (arith, e))
  verify-IsChecked r (some post) w e k = after_post_check-IsChecked r _ k

  after_upgrade-IsChecked :
      (r : DeploymentResult) (v : Result ℤ × W)
      → Before r
      → IsChecked (after_upgrade stopped g opts r v)
  unfolding after_upgrade fail_back fail_with
  after_upgrade-IsChecked r (err e, w) k = tt
  after_upgrade-IsChecked r (ok revision, w) k =
      verify-IsChecked (record r { revision = revision }) opts.post_check w refl k

  deploy_release-IsChecked :
      (helm : HelmClient W) (r : DeploymentResult) (dry_run : Bool) (w : W)
      → g.dry_run ≡ dry_run
      → Before r
      → IsChecked (deploy_release stopped g helm opts r dry_run w)
  unfolding deploy_release succeed
  deploy_release-IsChecked helm r true w e k = (k, ground (arith, e))
  deploy_release-IsChecked helm r false w e k = after_upgrade-IsChecked r _ k

  judge_pre_check-IsChecked :
      (helm : HelmClient W) (r : DeploymentResult) (passed : Bool) (w : W)
      → passes r.pre_check_result ≡ passed
      → IsChecked (judge_pre_check stopped g helm opts r passed w)
  unfolding judge_pre_check fail_with
  judge_pre_check-IsChecked helm r true w p =
      deploy_release-IsChecked helm r g.dry_run w refl (covered opts.pre_check)
    where
      covered : (pre : Option PreCheckOptions) → covers pre r.pre_check_result ≡ true
      covered none = refl
      covered (some pre) = p
  judge_pre_check-IsChecked helm r false w p = tt

  after_pre_check-IsChecked :
      (helm : HelmClient W) (r : DeploymentResult) (v : Result GateResult × W)
      → IsChecked (after_pre_check stopped g helm opts r v)
  unfolding after_pre_check fail_with
  after_pre_check-IsChecked helm r (err e, w) = tt
  after_pre_check-IsChecked helm r (ok res, w) =
      judge_pre_check-IsChecked helm (record r { pre_check_result = some res }) res.passed w refl

  deploy_with-IsChecked :
      (helm : HelmClient W) (pre : Option PreCheckOptions) (v : DeploymentResult × W)
      → opts.pre_check ≡ pre
      → IsChecked (deploy_with stopped g helm opts pre v)
  unfolding deploy_with
  deploy_with-IsChecked helm none (r, w) e =
      deploy_release-IsChecked helm r g.dry_run w refl (ground (arith, e))
  deploy_with-IsChecked helm (some pre) (r, w) e = after_pre_check-IsChecked helm r _

  deploy_by-IsChecked :
      (helm : Option (HelmClient W)) (w : W) → IsChecked (deploy_by stopped g opts helm w)
  unfolding deploy_by
  deploy_by-IsChecked none w = tt
  deploy_by-IsChecked (some helm) w = deploy_with-IsChecked helm opts.pre_check _ refl

  deploy_valid-IsChecked :
      (e : Option GateError) (w : W) → IsChecked (deploy_valid stopped g opts e w)
  unfolding deploy_valid
  deploy_valid-IsChecked (some e) w = tt
  deploy_valid-IsChecked none w = deploy_by-IsChecked g.helm_client w

  deploy-IsChecked :
      (context_is_nil : Bool) (w : W) → IsChecked (deploy stopped g context_is_nil opts w)
  unfolding deploy
  deploy-IsChecked true w = tt
  deploy-IsChecked false w = deploy_valid-IsChecked (validate_deploy opts) w

  -- When Deploy returns no error, the check in front of the deployment has passed, if the options
  -- ask for one, and outside of dry-run mode so has the check behind it.
  pub deploy-covers :
      (context_is_nil : Bool) (w w' : W) (r : DeploymentResult)
      → deploy stopped g context_is_nil opts w ≡ (some r, none, w')
      → (covers opts.pre_check r.pre_check_result ≡ true)
        × ((g.dry_run || covers opts.post_check r.post_check_result) ≡ true)
  deploy-covers nil w w' r eq = subst IsChecked eq (deploy-IsChecked nil w)
