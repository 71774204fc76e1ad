-- ===== src/Gates/Checks/Laws.antt =====
-- What the gates in front of a deployment let through.
use devsec.Base.{some, ◌⊎◌, ◌≡◌, ◌↔◌, ap, Bool, true, false, List, [], ◌∷◌, length, arith, ◌==◌}
use devsec.Base.Int.{ℤ}
use devsec.Model.{Finding}
use devsec.Gates.Types.{Result, ok, err, GateDecision, PolicyResult}
use devsec.Gates.Checks.{severity_check, policy_passed, Evaluator, policy_check, policy_decision}

verdict : Result GateDecision → Bool
verdict (ok d) = d.passed
verdict (err e) = false

policy_passed_iff :
    (strict : Bool) (r : PolicyResult)
    → (policy_passed strict r ≡ true)
      ↔ ((r.allow ≡ true) × (r.deny ≡ false) × ((strict ≡ false) ⊎ (length r.warnings ≡ 0)))
unfolding policy_passed
policy_passed_iff strict r = ground arith

policy_decision-ok :
    {W : Type 0} (strict : Bool) (v : Result PolicyResult × W) (w : W) (d : GateDecision)
    → policy_decision strict v ≡ (ok d, w)
    → (r : PolicyResult) × (v ≡ (ok r, w)) × (policy_passed strict r ≡ d.passed)
unfolding policy_decision verdict
policy_decision-ok strict (err e, w') w d eq = cc
policy_decision-ok strict (ok r, w') w d eq =
    (r, ap (λ x. (ok r, x.1)) eq, ap (λ x. verdict x.0) eq)

-- A decision of the policy gate comes from one evaluation of the findings, and passes exactly if the
-- result of that evaluation allows and does not deny and, in strict mode, has no warnings.
pub policy_check_iff :
    {W : Type 0} (engine : Evaluator W) (strict : Bool) (fs : List Finding) (w w' : W)
    (d : GateDecision)
    → policy_check (some engine) strict fs w ≡ (ok d, w')
    → (r : PolicyResult) × (engine fs w ≡ (ok r, w'))
      × ((d.passed ≡ true)
          ↔ ((r.allow ≡ true) × (r.deny ≡ false) × ((strict ≡ false) ⊎ (length r.warnings ≡ 0))))
unfolding policy_check
policy_check_iff engine strict [] w w' d eq = cc
policy_check_iff engine strict (f ∷ fs) w w' d eq =
    let filled : (length (f ∷ fs) == 0) ≡ false = ground arith in
    let decided : policy_decision strict (engine (f ∷ fs) w) ≡ (ok d, w') =
      ground (arith, filled, eq) in
    let (r, found, same) = policy_decision-ok strict (engine (f ∷ fs) w) w' d decided in
    (r, found, ground (arith, same, policy_passed_iff strict r))

-- The severity gate leaves the world alone.
pub severity_check_world :
    {W : Type 0} (max_critical max_high : ℤ) (fs : List Finding) (w : W)
    → (severity_check max_critical max_high fs w).1 ≡ w
unfolding severity_check
severity_check_world max_critical max_high fs w = ground arith
