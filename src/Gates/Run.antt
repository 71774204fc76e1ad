-- ===== src/Gates/Run.antt =====
-- internal/gates/precheck.go and postcheck.go: PreCheckRunner.Run and PostCheckRunner.Run.
-- `stopped` is the test of the context's error.
pub mod Keeps
pub mod Tally
use devsec.Base.{
  ℕ, ◌+◌, Bool, false, none, some, List, [], ◌∷◌, ◌++◌, String, length, if◌then◌else◌, text_eq,
  ◌==◌,
}
use devsec.Gates.Types.{
  context_error, gate_error, Result, ok, err, GateDecision, GateResult, PreCheckOptions,
  PostCheckOptions, PreGate, PostGate, validate_pre_check, validate_post_check,
}

-- The result before the first gate.
abbrev pub no_decisions : ℕ → GateResult
no_decisions total = record {
  decisions = [];
  total_gates = total;
  passed_gates = 0;
  failed_gates = 0;
  passed = false;
}

unfoldable pub add_decision : GateDecision → GateResult → GateResult
add_decision d r =
    let r' = record r { decisions = r.decisions ++ d ∷ [] } in
    if d.passed
    then record r' { passed_gates = r.passed_gates + 1 }
    else record r' { failed_gates = r.failed_gates + 1 }

-- The overall result passes only if all gates pass.
close_result : GateResult → GateResult
close_result r = record r { passed = r.failed_gates == 0 }

-- A gate of either kind, with its input: its name and what it decides.
abbrev pub Check : Type 0 → Type 0
Check W = String × (W → Result GateDecision × W)

module _ {W : Type 0} (stopped : W → Bool) (op namespace resource : String) where
  -- The loop over the gates, which both runners have.
  pub run_checks : List (Check W) → GateResult → W → Result GateResult × W
  unfolding add_decision close_result
  run_checks [] r w = (ok (close_result r), w)
  run_checks ((name, check) ∷ rest) r w =
      let (d, w') = check w in
      let go : Result GateResult × W = elim d [
        | ok decision ↦ run_checks rest (add_decision decision r) w'
        | err e ↦ (err (gate_error "run" name namespace resource e), w')
      ] in
      if stopped w then (err (gate_error "run" op namespace resource context_error), w) else go

pre_checks : {W : Type 0} → PreCheckOptions → List (PreGate W) → List (Check W)
pre_checks opts [] = []
pre_checks opts (g ∷ gs) = (g.name, g.check_findings opts.findings) ∷ pre_checks opts gs

post_checks : {W : Type 0} → (namespace deployment : String) → List (PostGate W) → List (Check W)
post_checks ns dep [] = []
post_checks ns dep (g ∷ gs) = (g.name, g.check_health ns dep) ∷ post_checks ns dep gs

-- PreCheckRunner.Run
unfoldable pub run_pre_checks :
    {W : Type 0} → (W → Bool) → List (PreGate W) → PreCheckOptions → W → Result GateResult × W
unfolding pre_checks run_checks
run_pre_checks stopped gates opts w = elim (validate_pre_check opts) [
  | some e ↦ (err e, w)
  | none ↦
      run_checks stopped "pre-check" "" "" (pre_checks opts gates) (no_decisions (length gates)) w
]

-- The deployment's name, or else that of the release.
abbrev pub deployment_of : PostCheckOptions → String
deployment_of opts =
    if text_eq opts.deployment_name "" then opts.release_name else opts.deployment_name

-- PostCheckRunner.Run
unfoldable pub run_post_checks :
    {W : Type 0} → (W → Bool) → List (PostGate W) → PostCheckOptions → W → Result GateResult × W
unfolding post_checks run_checks
run_post_checks stopped gates opts w = elim (validate_post_check opts) [
  | some e ↦ (err e, w)
  | none ↦
      run_checks stopped "post-check" opts.namespace (deployment_of opts)
        (post_checks opts.namespace (deployment_of opts) gates) (no_decisions (length gates)) w
]
