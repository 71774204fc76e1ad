-- ===== src/Gates/Checks.antt =====
-- internal/gates/precheck.go: the policy gate and the severity gate.
pub mod Laws
use devsec.Base.{
  ℕ, suc, Bool, true, false, not, ◌&&◌, Option, none, some, List, [], ◌∷◌, length, if◌then◌else◌,
  ◌==◌, ltb,
}
use devsec.Base.Int.{ℤ, pos, negsuc}
use devsec.Model.{Finding, critical, high}
use devsec.Gates.Types.{
  missing_policy_engine, no_findings, gate_error, Result, ok, err, PolicyResult, GateDecision,
  PreGate,
}

-- PolicyEvaluator
abbrev pub Evaluator : Type 0 → Type 0
Evaluator W = List Finding → W → Result PolicyResult × W

-- The verdict of PolicyGate on a policy result.
unfoldable pub policy_passed : Bool → PolicyResult → Bool
policy_passed strict r =
    let passed = r.allow && not r.deny in
    if strict && ltb 0 (length r.warnings) then false else passed

policy_decision : {W : Type 0} → Bool → Result PolicyResult × W → Result GateDecision × W
unfolding policy_passed
policy_decision strict (err e, w) = (err (gate_error "evaluate" "policy" "" "" e), w)
policy_decision strict (ok r, w) =
    (ok (record { gate_name = "policy"; passed = policy_passed strict r }), w)

-- PolicyGate.CheckFindings
unfoldable pub policy_check :
    {W : Type 0} → Option (Evaluator W) → Bool → List Finding → W → Result GateDecision × W
unfolding policy_decision
policy_check none strict findings w = (err missing_policy_engine, w)
policy_check (some engine) strict findings w =
    if length findings == 0
    then (err no_findings, w)
    else policy_decision strict (engine findings w)

-- NewPolicyGate
abbrev pub policy_gate : {W : Type 0} → Option (Evaluator W) → Bool → PreGate W
policy_gate engine strict = record { name = "policy"; check_findings = policy_check engine strict }

-- The loop that counts findings by severity.
abbrev pub count_critical : List Finding → ℕ
count_critical [] = 0
count_critical (f ∷ fs) =
    let rest = count_critical fs in elim f.severity [ critical ↦ suc rest | _ ↦ rest ]

abbrev pub count_high : List Finding → ℕ
count_high [] = 0
count_high (f ∷ fs) = let rest = count_high fs in elim f.severity [ high ↦ suc rest | _ ↦ rest ]

-- count > max
abbrev pub exceeds : ℕ → ℤ → Bool
exceeds n (pos m) = ltb m n
exceeds n (negsuc m) = true

unfoldable pub severity_passed : (max_critical max_high : ℤ) → List Finding → Bool
severity_passed max_critical max_high fs =
    if exceeds (count_critical fs) max_critical
    then false
    else if exceeds (count_high fs) max_high
    then false
    else true

-- SeverityGate.CheckFindings
unfoldable pub severity_check :
    {W : Type 0} (max_critical max_high : ℤ) → List Finding → W → Result GateDecision × W
unfolding severity_passed
severity_check max_critical max_high fs w = if length fs == 0 then (err no_findings, w) else (
  ok (record { gate_name = "severity"; passed = severity_passed max_critical max_high fs }),
  w,
)

-- NewSeverityGate, with its defaults.
abbrev pub severity_gate : {W : Type 0} (max_critical max_high : ℤ) → PreGate W
severity_gate max_critical max_high = record {
  name = "severity";
  check_findings = severity_check max_critical max_high;
}

abbrev pub default_max_critical : ℤ
default_max_critical = pos 0

abbrev pub default_max_high : ℤ
default_max_high = pos 5
