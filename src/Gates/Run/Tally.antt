-- ===== src/Gates/Run/Tally.antt =====
-- What the runners' results say of the decisions they hold.
use devsec.Base.{
  ℕ, suc, ◌+◌, ◌≡◌, refl, Bool, true, ◌&&◌, List, [], ◌∷◌, ◌++◌, String, length, arith,
  length-append, Bool-cases, inl, inr, Option-cases, ◌==◌,
}
use devsec.Base.{ap, ◌∙◌, subst}
use devsec.Gates.Types.{
  Result-cases, Result, ok, err, GateDecision, GateResult, PreCheckOptions, PostCheckOptions,
  PreGate, PostGate, validate_pre_check, validate_post_check,
}
use devsec.Gates.Run.{
  Check, run_checks, add_decision, close_result, no_decisions, pre_checks, post_checks,
  run_pre_checks, run_post_checks, deployment_of,
}

abbrev pub all_passed : List GateDecision → Bool
all_passed [] = true
all_passed (d ∷ ds) = d.passed && all_passed ds

all_passed-snoc :
    (ds : List GateDecision) (d : GateDecision)
    → all_passed (ds ++ d ∷ []) ≡ (all_passed ds && d.passed)
all_passed-snoc [] d = ground arith
all_passed-snoc (c ∷ ds) d = rw (all_passed-snoc ds d) (ground arith)

-- The counters of a result after some gates.
pub record IsTally (r : GateResult) : Type 0 where
  pub counted : r.passed_gates + r.failed_gates ≡ length r.decisions
  pub none_failed : (r.failed_gates == 0) ≡ all_passed r.decisions

add_decision-IsTally : (d : GateDecision) (r : GateResult) → IsTally r → IsTally (add_decision d r)
unfolding add_decision
add_decision-IsTally d r t = record {
  counted = ground (arith, length-append r.decisions (d ∷ []), t.counted);
  none_failed = ground (arith, all_passed-snoc r.decisions d, t.none_failed);
}

-- A finished result for a number of gates.
pub record IsReport (n : ℕ) (r : GateResult) : Type 0 where
  pub decided : length r.decisions ≡ n
  pub total : r.total_gates ≡ n
  pub counted : r.passed_gates + r.failed_gates ≡ n
  pub passed_iff : r.passed ≡ all_passed r.decisions

abbrev Reports : ℕ → Result GateResult → Type 0
Reports n (err e) = Unit
Reports n (ok r) = IsReport n r

close_result-IsReport :
    (n : ℕ) (r : GateResult)
    → IsTally r
    → length r.decisions ≡ n
    → r.total_gates ≡ n
    → IsReport n (close_result r)
unfolding close_result
close_result-IsReport n r t len total = record {
  decided = len;
  total = total;
  counted = t.counted ∙ len;
  passed_iff = t.none_failed;
}

add_decision-total :
    (d : GateDecision) (r : GateResult) → (add_decision d r).total_gates ≡ r.total_gates
unfolding add_decision
add_decision-total d r = ground arith

add_decision-length :
    (d : GateDecision) (r : GateResult)
    → length (add_decision d r).decisions ≡ suc (length r.decisions)
unfolding add_decision
add_decision-length d r = ground (arith, length-append r.decisions (d ∷ []))

module _ {W : Type 0} (stopped : W → Bool) (op namespace resource : String) where
  run_checks-Reports :
      (n : ℕ) (checks : List (Check W)) (r : GateResult) (w : W)
      → IsTally r
      → length r.decisions + length checks ≡ n
      → r.total_gates ≡ n
      → Reports n (run_checks stopped op namespace resource checks r w).0
  unfolding run_checks
  run_checks-Reports n [] r w t len total = close_result-IsReport n r t (ground arith) total
  run_checks-Reports n ((name, check) ∷ rest) r w t len total = elim (Bool-cases (stopped w)) [
    | inl e ↦ rw e tt
    | inr e ↦ elim (Result-cases (check w).0) [
      | inr (x, f) ↦ rw (e, f) tt
      | inl (d, f) ↦
          rw (e, f)
            (run_checks-Reports n rest (add_decision d r) (check w).1 (add_decision-IsTally d r t)
              (ground (arith, add_decision-length d r, len)) (add_decision-total d r ∙ total))
    ]
  ]

  run_checks-Reports_all :
      (n : ℕ) (checks : List (Check W)) (w : W)
      → length checks ≡ n
      → Reports n (run_checks stopped op namespace resource checks (no_decisions n) w).0
  run_checks-Reports_all n checks w len =
      run_checks-Reports n checks (no_decisions n) w (record { counted = refl; none_failed = refl })
        (ground (arith, len)) refl

length-pre_checks :
    {W : Type 0} (opts : PreCheckOptions) (gates : List (PreGate W))
    → length (pre_checks opts gates) ≡ length gates
unfolding pre_checks
length-pre_checks opts [] = refl
length-pre_checks opts (g ∷ gs) = ap suc (length-pre_checks opts gs)

length-post_checks :
    {W : Type 0} (ns dep : String) (gates : List (PostGate W))
    → length (post_checks ns dep gates) ≡ length gates
unfolding post_checks
length-post_checks ns dep [] = refl
length-post_checks ns dep (g ∷ gs) = ap suc (length-post_checks ns dep gs)

run_pre_checks-Reports :
    {W : Type 0} (stopped : W → Bool) (gates : List (PreGate W)) (opts : PreCheckOptions) (w : W)
    → Reports (length gates) (run_pre_checks stopped gates opts w).0
unfolding run_pre_checks
run_pre_checks-Reports stopped gates opts w = elim (Option-cases (validate_pre_check opts)) [
  | inr (e, q) ↦ rw (q, Reports) tt
  | inl q ↦
      rw (q, Reports)
        (run_checks-Reports_all stopped "pre-check" "" "" (length gates) (pre_checks opts gates) w
          (length-pre_checks opts gates))
]

run_post_checks-Reports :
    {W : Type 0} (stopped : W → Bool) (gates : List (PostGate W)) (opts : PostCheckOptions) (w : W)
    → Reports (length gates) (run_post_checks stopped gates opts w).0
unfolding run_post_checks
run_post_checks-Reports stopped gates opts w =
    let ns = opts.namespace in
    let dep = deployment_of opts in
    elim (Option-cases (validate_post_check opts)) [
      | inr (e, q) ↦ rw (q, Reports) tt
      | inl q ↦
          rw (q, Reports)
            (run_checks-Reports_all stopped "post-check" ns dep (length gates)
              (post_checks ns dep gates) w (length-post_checks ns dep gates))
    ]

-- A result of the check in front of a deployment has one decision for each gate, counts the gates
-- and those that passed and failed, and passes exactly if all of its decisions pass.
pub run_pre_checks-IsReport :
    {W : Type 0} (stopped : W → Bool) (gates : List (PreGate W)) (opts : PreCheckOptions) (w : W)
    (res : GateResult)
    → (run_pre_checks stopped gates opts w).0 ≡ ok res
    → IsReport (length gates) res
run_pre_checks-IsReport stopped gates opts w res eq =
    subst (Reports (length gates)) eq (run_pre_checks-Reports stopped gates opts w)

-- A result of the check behind a deployment has one decision for each gate, counts the gates and
-- those that passed and failed, and passes exactly if all of its decisions pass.
pub run_post_checks-IsReport :
    {W : Type 0} (stopped : W → Bool) (gates : List (PostGate W)) (opts : PostCheckOptions) (w : W)
    (res : GateResult)
    → (run_post_checks stopped gates opts w).0 ≡ ok res
    → IsReport (length gates) res
run_post_checks-IsReport stopped gates opts w res eq =
    subst (Reports (length gates)) eq (run_post_checks-Reports stopped gates opts w)
