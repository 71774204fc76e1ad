-- ===== src/Gates/Tests.antt =====
-- A release at revision 3, its gates, and the theorems at it. The world counts the calls that change
-- the cluster.
use mathlib.Core.Option.{some-injective}
use devsec.Base.{
  if◌then◌else◌, subst, ℕ, suc, ◌≡◌, ◌∙◌, inr, refl, Bool, true, false, ◌||◌, Option, none, some,
  [], ◌∷◌, String,
}
use devsec.Base.Int.{ℤ, pos}
use devsec.Model.{Finding, Severity, critical, high, low}
use devsec.Gates.Types.{
  DeployStatus, success, pre_check_failed, rolled_back, pre_check_error, post_check_error,
  gate_error, ok, GateDecision, GateResult, PolicyResult, PreCheckOptions, PostCheckOptions,
  DeployOptions, RollbackOptions, DeploymentResult, HelmClient, PostGate, validate_deploy,
  validate_pre_check, validate_post_check, validate_rollback,
}
use devsec.Gates.Checks.{Evaluator, policy_check, severity_gate, severity_check}
use devsec.Gates.Checks.Laws.{severity_check_world}
use devsec.Gates.Run.{run_pre_checks, run_post_checks}
use devsec.Gates.Rollback.{execute_rollback}
use devsec.Gates.Rollback.Laws.{execute_rollback-previous}
use devsec.Gates.Deploy.{Gates, Deployed, deploy, pre_check, find_revision}
use devsec.Gates.Deploy.Status.{IsCoherent, deploy-IsCoherent}
use devsec.Gates.Deploy.Safety.{PreCheckFails, deploy-keeps}
use devsec.Gates.Deploy.Checked.{covers, deploy-covers}

abbrev finding : Severity → Finding
finding s = record {
  id = "1";
  title = "";
  description = "";
  rule = "r";
  scanner = "semgrep";
  severity = s;
  location = record { file = "a.go"; start_line = 1; end_line = 1; column = 1 };
}

abbrev helm : HelmClient ℕ
helm = record {
  upgrade = λ ns name chart w. (ok (pos 4), suc w);
  rollback = λ ns name revision w. (none, suc w);
  get_current_revision = λ ns name w. (ok (pos 3), w);
}

-- A gate behind the deployment whose verdict is fixed.
abbrev fixed : Bool → PostGate ℕ
fixed passed = record {
  name = "fixed";
  check_health = λ ns dep w. (ok (record { gate_name = "fixed"; passed = passed }), w);
}

abbrev gates : (healthy dry_run : Bool) → Gates ℕ
gates healthy dry_run = record {
  helm_client = some helm;
  rollback_handler = some (some helm);
  pre_gates = severity_gate (pos 0) (pos 5) ∷ [];
  post_gates = fixed true ∷ fixed healthy ∷ [];
  namespace = "prod";
  dry_run = dry_run;
}

abbrev running : ℕ → Bool
running w = false

abbrev findings : PreCheckOptions
findings = record { findings = finding high ∷ finding low ∷ [] }

abbrev alarming : PreCheckOptions
alarming = record { findings = finding critical ∷ [] }

abbrev health : PostCheckOptions
health = record { namespace = "prod"; release_name = "web"; deployment_name = "" }

abbrev options : PreCheckOptions → DeployOptions
options pre = record {
  pre_check = some pre;
  post_check = some health;
  release_name = "web";
  chart_ref = "repo/web";
  auto_rollback = true;
}

abbrev decided : String → Bool → GateDecision
decided name passed = record { gate_name = name; passed = passed }

abbrev pre_result : GateResult
pre_result = record {
  decisions = decided "severity" true ∷ [];
  total_gates = 1;
  passed_gates = 1;
  failed_gates = 0;
  passed = true;
}

abbrev post_result : Bool → GateResult
post_result healthy = record {
  decisions = decided "fixed" true ∷ decided "fixed" healthy ∷ [];
  total_gates = 2;
  passed_gates = if healthy then 2 else 1;
  failed_gates = if healthy then 0 else 1;
  passed = healthy;
}

abbrev deployed : Option GateResult → Option GateResult → DeployStatus → ℤ → Bool → DeploymentResult
deployed pre post status revision was_rolled_back = record {
  pre_check_result = pre;
  post_check_result = post;
  namespace = "prod";
  release_name = "web";
  chart_ref = "repo/web";
  status = some status;
  revision = revision;
  previous_revision = pos 3;
  was_rolled_back = was_rolled_back;
}

healthy-deploy :
    deploy running (gates true false) false (options findings) 0
    ≡ (some (deployed (some pre_result) (some (post_result true)) success (pos 4) false), none, 1)
unfolding deploy validate_deploy validate_pre_check run_pre_checks severity_check
    validate_post_check run_post_checks
healthy-deploy = refl

unhealthy-deploy : deploy running (gates false false) false (options findings) 0 ≡ (
  some (deployed (some pre_result) (some (post_result false)) rolled_back (pos 4) true),
  some (gate_error "post-check" "" "prod" "web" post_check_error),
  2,
)
unfolding deploy validate_deploy validate_pre_check run_pre_checks severity_check
    validate_post_check run_post_checks execute_rollback validate_rollback
unhealthy-deploy = refl

abbrev alarming_result : GateResult
alarming_result = record {
  decisions = decided "severity" false ∷ [];
  total_gates = 1;
  passed_gates = 0;
  failed_gates = 1;
  passed = false;
}

alarming-deploy : deploy running (gates true false) false (options alarming) 0 ≡ (
  some (deployed (some alarming_result) none pre_check_failed (pos 0) false),
  some (gate_error "pre-check" "" "prod" "web" pre_check_error),
  0,
)
unfolding deploy validate_deploy validate_pre_check run_pre_checks severity_check
alarming-deploy = refl

healthy-pre_check :
    (run_pre_checks running (severity_gate (pos 0) (pos 5) ∷ []) findings 0).0 ≡ ok pre_result
unfolding run_pre_checks severity_check validate_pre_check
healthy-pre_check = refl

unhealthy-post_check :
    (run_post_checks running (fixed true ∷ fixed false ∷ []) health 0).0 ≡ ok (post_result false)
unfolding run_post_checks validate_post_check
unhealthy-post_check = refl

abbrev warned : PolicyResult
warned = record { violations = []; warnings = "old image" ∷ []; allow = true; deny = false }

abbrev back : RollbackOptions
back = record { release_name = "web"; namespace = "prod"; revision = pos 0 }

rolled-back : execute_rollback (some helm) back 0 ≡ (none, 1)
unfolding execute_rollback validate_rollback
rolled-back = refl

abbrev warn : Evaluator ℕ
warn fs w = (ok warned, w)

warn-checked : policy_check (some warn) true findings.findings 0 ≡ (ok (decided "policy" false), 0)
unfolding policy_check
warn-checked = refl

execute_rollback-previous_example :
    (n : ℕ) × (w : ℕ) × (helm.get_current_revision "prod" "web" 0 ≡ (ok (pos (suc (suc n))), w))
    × (helm.rollback "prod" "web" (pos (suc n)) w ≡ (none, 1))
execute_rollback-previous_example = execute_rollback-previous helm back 0 1 refl rolled-back

deploy-IsCoherent_example :
    IsCoherent running
      (gates false false)
      (options findings)
      (deploy running (gates false false) false (options findings) 0)
deploy-IsCoherent_example = deploy-IsCoherent running (gates false false) (options findings) false 0

helm-asks :
    (client : HelmClient ℕ)
    → some helm ≡ some client
    → (w : ℕ) → w ≡ 0
    → (client.get_current_revision "prod" "web" w).1 ≡ 0
helm-asks client e w k =
    subst (λ c. (c.get_current_revision "prod" "web" w).1 ≡ 0) (some-injective helm client e) k

abbrev alarmed : Deployed ℕ
alarmed = deploy running (gates true false) false (options alarming) 0

alarming-fails : PreCheckFails running (gates true false) (options alarming) helm alarming 0
unfolding pre_check find_revision validate_pre_check run_pre_checks severity_check
alarming-fails = refl

deploy-keeps_example : alarmed.2 ≡ 0
deploy-keeps_example =
    deploy-keeps running (gates true false) (options alarming) (λ w. w ≡ 0)
      ((λ opts w k. severity_check_world (pos 0) (pos 5) opts.findings w ∙ k), tt) false 0 alarmed.0
      alarmed.1 alarmed.2 helm-asks refl refl
      (inr (inr (inr (helm, alarming, refl, refl, alarming-fails))))

deploy-covers_example :
    (covers (some findings) (some pre_result) ≡ true)
    × ((false || covers (some health) (some (post_result true))) ≡ true)
deploy-covers_example =
    deploy-covers running (gates true false) (options findings) false 0 1
      (deployed (some pre_result) (some (post_result true)) success (pos 4) false) healthy-deploy
