-- ===== src/Gates/Types.antt =====
-- internal/gates/config.go and errors.go: options, decisions, results, and the clients. Times,
-- messages, metadata and details of decisions are left out. A client is what the code calls, over an
-- abstract world that each call may change.
use devsec.Base.{
  ◌≡◌, refl, ◌⊎◌, inl, inr, ℕ, Bool, true, false, Option, none, some, List, String, text_eq, length,
  if◌then◌else◌, ◌==◌,
}
use devsec.Base.Int.{ℤ}
use devsec.Model.{Finding}

pub data DeployStatus : Type 0 where
  success failed rolled_back pre_check_failed post_check_failed : DeployStatus

-- DeployStatus.IsSuccess
unfoldable pub status_is_success : DeployStatus → Bool
status_is_success success = true
status_is_success _ = false

-- DeployStatus.IsFailure
unfoldable pub status_is_failure : DeployStatus → Bool
status_is_failure failed = true
status_is_failure pre_check_failed = true
status_is_failure post_check_failed = true
status_is_failure _ = false

-- The sentinel errors, an error of code outside this package, and GateError.
pub data GateError : Type 0 where
  nil_context missing_kube_client missing_helm_client missing_policy_engine empty_namespace
        empty_release_name empty_chart_ref empty_gate_name no_findings pre_check_error
        post_check_error context_error no_previous_revision :
      GateError
  foreign_error : String → GateError
  rollback_failed : GateError → GateError
  gate_error : (op gate_name namespace resource : String) → GateError → GateError

pub data Result {ℓ} (A : Type ℓ) : Type ℓ where
  ok : A → Result A
  err : GateError → Result A

pub Result-cases {ℓ} :
    {A : Type ℓ} (r : Result A) → ((a : A) × (r ≡ ok a)) ⊎ ((e : GateError) × (r ≡ err e))
Result-cases (ok a) = inl (a, refl)
Result-cases (err e) = inr (e, refl)

pub record PolicyResult : Type 0 where
  pub violations : List String
  pub warnings : List String
  pub allow : Bool
  pub deny : Bool

pub record GateDecision : Type 0 where
  pub gate_name : String
  pub passed : Bool

pub record GateResult : Type 0 where
  pub decisions : List GateDecision
  pub total_gates : ℕ
  pub passed_gates : ℕ
  pub failed_gates : ℕ
  pub passed : Bool

pub record PreCheckOptions : Type 0 where
  pub findings : List Finding

pub record PostCheckOptions : Type 0 where
  pub namespace : String
  pub release_name : String
  pub deployment_name : String

pub record DeployOptions : Type 0 where
  pub pre_check : Option PreCheckOptions
  pub post_check : Option PostCheckOptions
  pub release_name : String
  pub chart_ref : String
  pub auto_rollback : Bool

pub record RollbackOptions : Type 0 where
  pub release_name : String
  pub namespace : String
  pub revision : ℤ

pub record DeploymentResult : Type 0 where
  pub pre_check_result : Option GateResult
  pub post_check_result : Option GateResult
  pub namespace : String
  pub release_name : String
  pub chart_ref : String
  pub status : Option DeployStatus
  pub revision : ℤ
  pub previous_revision : ℤ
  pub was_rolled_back : Bool

-- The calls of HelmClient that the gates make: a new revision or an error, and the world.
pub record HelmClient (W : Type 0) : Type 0 where
  pub upgrade : (namespace name chart : String) → W → Result ℤ × W
  pub rollback : (namespace name : String) → ℤ → W → Option GateError × W
  pub get_current_revision : (namespace name : String) → W → Result ℤ × W

-- PreDeploymentGate and PostDeploymentGate: a name and a check.
pub record PreGate (W : Type 0) : Type 0 where
  pub name : String
  pub check_findings : List Finding → W → Result GateDecision × W

pub record PostGate (W : Type 0) : Type 0 where
  pub name : String
  pub check_health : (namespace deployment : String) → W → Result GateDecision × W

-- DeployOptions.Validate
unfoldable pub validate_deploy : DeployOptions → Option GateError
validate_deploy o =
    if text_eq o.release_name ""
    then some empty_release_name
    else if text_eq o.chart_ref ""
    then some empty_chart_ref
    else none

-- RollbackOptions.Validate
unfoldable pub validate_rollback : RollbackOptions → Option GateError
validate_rollback o = if text_eq o.release_name "" then some empty_release_name else none

-- PreCheckOptions.Validate
unfoldable pub validate_pre_check : PreCheckOptions → Option GateError
validate_pre_check o = if length o.findings == 0 then some no_findings else none

-- PostCheckOptions.Validate
unfoldable pub validate_post_check : PostCheckOptions → Option GateError
validate_post_check o =
    if text_eq o.namespace ""
    then some empty_namespace
    else if text_eq o.release_name ""
    then some empty_release_name
    else none
