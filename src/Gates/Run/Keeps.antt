-- ===== src/Gates/Run/Keeps.antt =====
-- What holds of the world still holds behind a check, if every gate keeps it.
use devsec.Base.{Bool, List, [], ◌∷◌, String, Bool-cases, Option-cases, inl, inr, All}
use devsec.Gates.Types.{
  Result-cases, GateDecision, Result, GateResult, PreCheckOptions, PreGate, validate_pre_check,
}
use devsec.Gates.Run.{Check, run_checks, run_pre_checks, pre_checks}

module _ {W : Type 0} (P : W → Type 0) where
  -- A call that keeps what holds of the world.
  abbrev pub Keeps : (A : Type 0) → (W → A × W) → Type 0
  Keeps A f = (w : W) → P w → P (f w).1

  module _ (stopped : W → Bool) (op namespace resource : String) where
    run_checks-Keeps :
        (checks : List (Check W)) (r : GateResult)
        → All (λ c. Keeps (Result GateDecision) c.1) checks
        → Keeps (Result GateResult) (run_checks stopped op namespace resource checks r)
    unfolding run_checks
    run_checks-Keeps [] r ks w k = k
    run_checks-Keeps ((name, check) ∷ rest) r (keep, ks) w k = elim (Bool-cases (stopped w)) [
      | inl e ↦ rw e k
      | inr e ↦ elim (Result-cases (check w).0) [
        | inr (x, f) ↦ rw (e, f) (keep w k)
        | inl (d, f) ↦ rw (e, f) (run_checks-Keeps rest _ ks (check w).1 (keep w k))
      ]
    ]

  -- A gate whose check keeps what holds of the world.
  abbrev pub KeepsGate : PreGate W → Type 0
  KeepsGate gate =
      (opts : PreCheckOptions) → Keeps (Result GateDecision) (gate.check_findings opts.findings)

  pre_checks-Keeps :
      (opts : PreCheckOptions) (gates : List (PreGate W))
      → All KeepsGate gates
      → All (λ c. Keeps (Result GateDecision) c.1) (pre_checks opts gates)
  unfolding pre_checks
  pre_checks-Keeps opts [] ks = tt
  pre_checks-Keeps opts (g ∷ gs) (k, ks) = (k opts, pre_checks-Keeps opts gs ks)

  pub run_pre_checks-Keeps :
      (stopped : W → Bool) (gates : List (PreGate W)) (opts : PreCheckOptions)
      → All KeepsGate gates
      → Keeps (Result GateResult) (run_pre_checks stopped gates opts)
  unfolding run_pre_checks
  run_pre_checks-Keeps stopped gates opts ks w k = elim (Option-cases (validate_pre_check opts)) [
    | inr (e, q) ↦ rw (q, run_pre_checks) k
    | inl q ↦
        rw (q, run_pre_checks)
          (run_checks-Keeps stopped "pre-check" "" "" _ _ (pre_checks-Keeps opts gates ks) w k)
  ]
