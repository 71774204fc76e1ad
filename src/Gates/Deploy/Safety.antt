-- ===== src/Gates/Deploy/Safety.antt =====
-- Deploy changes the cluster only behind the check in front of the deployment.
use mathlib.Core.Option
use mathlib.Core.Option.{some-injective}
use devsec.Base.{
  ◌≡◌, refl, subst, Bool, true, false, Option, none, some, Option-cases, inl, inr, ◌⊎◌, All,
}
use devsec.Base.Int.{ℤ}
use devsec.Gates.Types.{
  pre_check_failed, GateError, Result, ok, err, GateResult, PreCheckOptions, DeployOptions,
  DeploymentResult, HelmClient, validate_deploy, validate_pre_check,
}
use devsec.Gates.Run.Keeps.{Keeps, KeepsGate, run_pre_checks-Keeps}
use devsec.Gates.Deploy.{
  Gates, Deployed, pre_check, fail_with, succeed, after_upgrade, deploy_release, judge_pre_check,
  after_pre_check, note_revision, find_revision, deploy_with, deploy_by, deploy_valid, deploy,
}
use devsec.Gates.Deploy.Tried.{WasTried, after_upgrade-WasTried}

module _ {W : Type 0} (stopped : W → Bool) (g : Gates W) (opts : DeployOptions) where
  -- A check that has found something, or could not be made.
  abbrev pub NotPassed : Result GateResult → Type 0
  NotPassed (err e) = Unit
  NotPassed (ok res) = res.passed ≡ false

  -- The check in front of the deployment, in the world behind the query of the revision, fails.
  abbrev pub PreCheckFails : HelmClient W → PreCheckOptions → W → Type 0
  PreCheckFails helm pre w =
      NotPassed
        (pre_check stopped g pre (find_revision stopped g helm opts g.rollback_handler w).1).0

  module _ (P : W → Type 0) where
    -- Without an upgrade, what held of the world still holds.
    abbrev Stays : Deployed W → Type 0
    Stays (none, e, w) = P w
    Stays (some r, e, w) = (r.status ≡ some pre_check_failed) ⊎ (g.dry_run ≡ true) → P w

    tried-Stays : (d : Deployed W) → g.dry_run ≡ false → WasTried stopped g opts d → Stays d
    tried-Stays (none, e, w) live t = elim t [ ]
    tried-Stays (some r, e, w) live t = λ q. elim q [ inl x ↦ elim (t x) [ ] | inr x ↦ cc ]

    deploy_release-Stays :
        (helm : HelmClient W) (r : DeploymentResult) (dry_run : Bool) (w : W)
        → g.dry_run ≡ dry_run
        → P w
        → Stays (deploy_release stopped g helm opts r dry_run w)
    unfolding deploy_release succeed
    deploy_release-Stays helm r true w e k = λ q. k
    deploy_release-Stays helm r false w e k =
        tried-Stays (after_upgrade stopped g opts r _) e (after_upgrade-WasTried stopped g opts r _)

    judge_pre_check-Stays :
        (helm : HelmClient W) (r : DeploymentResult) (passed : Bool) (w : W)
        → P w
        → Stays (judge_pre_check stopped g helm opts r passed w)
    unfolding judge_pre_check fail_with
    judge_pre_check-Stays helm r true w k = deploy_release-Stays helm r g.dry_run w refl k
    judge_pre_check-Stays helm r false w k = λ q. k

    after_pre_check-Stays :
        (helm : HelmClient W) (r : DeploymentResult) (v : Result GateResult × W)
        → P v.1
        → Stays (after_pre_check stopped g helm opts r v)
    unfolding after_pre_check fail_with
    after_pre_check-Stays helm r (err e, w) k = λ q. k
    after_pre_check-Stays helm r (ok res, w) k =
        judge_pre_check-Stays helm (record r { pre_check_result = some res }) res.passed w k

    module _ (keep : All (KeepsGate P) g.pre_gates) where
      pre_check-Keeps :
          (pre : PreCheckOptions) → Keeps P (Result GateResult) (pre_check stopped g pre)
      unfolding pre_check
      pre_check-Keeps pre w k = elim (Option-cases (validate_pre_check pre)) [
        | inr (e, q) ↦ rw (q, pre_check) k
        | inl q ↦ rw (q, pre_check) (run_pre_checks-Keeps P stopped g.pre_gates pre keep w k)
      ]

      deploy_with-Stays :
          (helm : HelmClient W) (pre : Option PreCheckOptions) (v : DeploymentResult × W)
          → P v.1
          → Stays (deploy_with stopped g helm opts pre v)
      unfolding deploy_with
      deploy_with-Stays helm none (r, w) k = deploy_release-Stays helm r g.dry_run w refl k
      deploy_with-Stays helm (some pre) (r, w) k =
          after_pre_check-Stays helm r (pre_check stopped g pre w) (pre_check-Keeps pre w k)

      note_revision-keeps :
          (r : DeploymentResult) (v : Result ℤ × W) → P v.1 → P (note_revision stopped g r v).1
      unfolding note_revision
      note_revision-keeps r (ok revision, w) k = k
      note_revision-keeps r (err e, w) k = k

      find_revision-Keeps :
          (helm : HelmClient W) (h : Option (Option (HelmClient W)))
          → Keeps P (Result ℤ) (helm.get_current_revision g.namespace opts.release_name)
          → Keeps P DeploymentResult (find_revision stopped g helm opts h)
      unfolding find_revision
      find_revision-Keeps helm none asks w k = k
      find_revision-Keeps helm (some _) asks w k = note_revision-keeps _ _ (asks w k)

      deploy_by-Stays :
          (helm : Option (HelmClient W)) (w : W)
          → ((client : HelmClient W)
              → helm ≡ some client
              → Keeps P (Result ℤ) (client.get_current_revision g.namespace opts.release_name))
          → P w
          → Stays (deploy_by stopped g opts helm w)
      unfolding deploy_by
      deploy_by-Stays none w asks k = k
      deploy_by-Stays (some helm) w asks k =
          deploy_with-Stays helm opts.pre_check _
            (find_revision-Keeps helm g.rollback_handler (asks helm refl) w k)

      stays-keeps :
          (r : Option DeploymentResult) (e : Option GateError) (w : W)
          → Stays (r, e, w)
          → (r ≡ none)
            ⊎ (Option.map (λ x. x.status) r ≡ some (some pre_check_failed))
            ⊎ (g.dry_run ≡ true)
          → P w
      stays-keeps none e w s cause = s
      stays-keeps (some r) e w s (inl x) = cc
      stays-keeps (some r) e w s (inr (inl x)) = s (inl (some-injective _ _ x))
      stays-keeps (some r) e w s (inr (inr x)) = s (inr x)

      deploy_valid-Stays :
          (e : Option GateError) (w : W)
          → ((client : HelmClient W)
              → g.helm_client ≡ some client
              → Keeps P (Result ℤ) (client.get_current_revision g.namespace opts.release_name))
          → P w
          → Stays (deploy_valid stopped g opts e w)
      unfolding deploy_valid
      deploy_valid-Stays (some e) w asks k = k
      deploy_valid-Stays none w asks k = deploy_by-Stays g.helm_client w asks k

      deploy-Stays :
          (context_is_nil : Bool) (w : W)
          → ((client : HelmClient W)
              → g.helm_client ≡ some client
              → Keeps P (Result ℤ) (client.get_current_revision g.namespace opts.release_name))
          → P w
          → Stays (deploy stopped g context_is_nil opts w)
      unfolding deploy
      deploy-Stays true w asks k = k
      deploy-Stays false w asks k = deploy_valid-Stays (validate_deploy opts) w asks k

      after_pre_check-fails :
          (helm : HelmClient W) (r : DeploymentResult) (v : Result GateResult × W)
          → NotPassed v.0
          → P v.1
          → P (after_pre_check stopped g helm opts r v).2
      unfolding after_pre_check judge_pre_check fail_with
      after_pre_check-fails helm r (err e, w) fails k = k
      after_pre_check-fails helm r (ok res, w) fails k = rw (fails, judge_pre_check) k

      -- Where the check in front of the deployment fails, nothing runs behind it.
      deploy-fails :
          (context_is_nil : Bool) (w : W) (helm : HelmClient W) (pre : PreCheckOptions)
          → g.helm_client ≡ some helm
          → opts.pre_check ≡ some pre
          → PreCheckFails helm pre w
          → Keeps P (Result ℤ) (helm.get_current_revision g.namespace opts.release_name)
          → P w
          → P (deploy stopped g context_is_nil opts w).2
      unfolding deploy deploy_valid deploy_by deploy_with
      deploy-fails true w helm pre client asked fails asks k = k
      deploy-fails false w helm pre client asked fails asks k =
          elim (Option-cases (validate_deploy opts)) [
            | inr (e, q) ↦ rw (q, deploy_valid) k
            | inl q ↦
                let found = find_revision stopped g helm opts g.rollback_handler w in
                rw (q, deploy_valid, client, deploy_by, asked, deploy_with)
                  (after_pre_check-fails helm found.0 (pre_check stopped g pre found.1) fails (
                    pre_check-Keeps pre found.1
                      (find_revision-Keeps helm g.rollback_handler asks w k)))
          ]

      -- A deployment in dry-run mode, one whose check in front of it fails or cannot be made, one that
      -- says so in its status, and one without a result leave the world in a state in which everything
      -- still holds that the gates of that check and the query of the current revision keep. So
      -- neither the upgrade nor a rollback runs.
      pub deploy-keeps :
          (context_is_nil : Bool) (w : W) (r : Option DeploymentResult) (e : Option GateError)
          (w' : W)
          → ((client : HelmClient W)
              → g.helm_client ≡ some client
              → Keeps P (Result ℤ) (client.get_current_revision g.namespace opts.release_name))
          → P w
          → deploy stopped g context_is_nil opts w ≡ (r, e, w')
          → (r ≡ none)
            ⊎ (Option.map (λ x. x.status) r ≡ some (some pre_check_failed))
            ⊎ (g.dry_run ≡ true)
            ⊎ ((helm : HelmClient W) × (pre : PreCheckOptions) × (g.helm_client ≡ some helm)
                × (opts.pre_check ≡ some pre)
                × PreCheckFails helm pre w)
          → P w'
      deploy-keeps nil w r e w' asks k eq (inr (inr (inr (helm, pre, client, asked, fails)))) =
          subst (λ d. P d.2) eq
            (deploy-fails nil w helm pre client asked fails (asks helm client) k)
      deploy-keeps nil w r e w' asks k eq (inr (inr (inl dry))) =
          stays-keeps r e w' (subst Stays eq (deploy-Stays nil w asks k)) (inr (inr dry))
      deploy-keeps nil w r e w' asks k eq (inr (inl status)) =
          stays-keeps r e w' (subst Stays eq (deploy-Stays nil w asks k)) (inr (inl status))
      deploy-keeps nil w r e w' asks k eq (inl nothing) =
          stays-keeps r e w' (subst Stays eq (deploy-Stays nil w asks k)) (inl nothing)
