-- ===== src/Policy/Laws.antt =====
-- What the decision point promises about its verdicts, its violations and its recommendations.
use devsec.Base.{
  true, false, ◌⊎◌, ◌↔◌, ◌≢◌, Option, none, some, All, leb, text_eq_iff, ℕ, ◌≡◌, inl, inr, refl, ap,
  ◌∙◌, Bool, ◌&&◌, ◌||◌, not, List, [], ◌∷◌, String, length, if◌then◌else◌, text_eq, arith, has,
  Bool-cases, IsDistinct,
}
use devsec.Model.{Finding, Severity, critical, high}
use devsec.Runners.Threshold.{rank}
use devsec.Pipeline.Parallel.Spec.{IsDistinct-snoc}
use devsec.Policy.Decision.{
  EvaluationResult, Violation, CheckResult, blocked_by, is_critical, is_high_or_critical,
  violation_reason, include_violation, violations_by, generate_violations, check, check_result,
  CheckError, evaluation_failed, no_results, missing_policy_name, recommend, recommend_all,
  generate_recommendations,
}

-- What a map holds under a key, the empty text if it has no such key.
abbrev pub value_of : String → List (String × String) → String
value_of key [] = ""
value_of key ((k, v) ∷ m) = let rest = value_of key m in if text_eq key k then v else rest

blocked_by-value_of : (m : List (String × String)) → blocked_by m ≡ value_of "blocked_by" m
unfolding blocked_by
blocked_by-value_of [] = refl
blocked_by-value_of ((k, v) ∷ m) =
    ground (arith, blocked_by-value_of m, text_eq_iff k "blocked_by", text_eq_iff "blocked_by" k)

-- The least rank of a severity that a verdict blocks: that of critical, if the verdict names the
-- critical findings, and that of high otherwise.
abbrev pub blocking_rank : String → ℕ
blocking_rank b =
    if text_eq b "critical_findings"
    then rank critical
    else if text_eq b "critical"
    then rank critical
    else rank high

-- Whether a verdict blocks findings of that severity.
abbrev pub is_blocked : String → Severity → Bool
is_blocked b s = leb (blocking_rank b) (rank s)

-- The findings that a verdict blocks.
abbrev pub blocked : String → List Finding → List Finding
blocked b [] = []
blocked b (f ∷ fs) = let rest = blocked b fs in if is_blocked b f.severity then f ∷ rest else rest

-- The findings of violations.
abbrev pub findings_of : List Violation → List Finding
findings_of [] = []
findings_of (v ∷ vs) = v.finding ∷ findings_of vs

-- Whether there is a reason.
abbrev is_given : Option String → Bool
is_given none = false
is_given (some reason) = true

included_by_reason :
    (reason : Option String) (f : Finding) (vs : List Violation)
    → findings_of (include_violation reason f vs)
      ≡ (if is_given reason then f ∷ findings_of vs else findings_of vs)
unfolding include_violation
included_by_reason none f vs = refl
included_by_reason (some reason) f vs = refl

by_critical :
    (s : Severity) (reason : String)
    → is_given (if is_critical s then some reason else none) ≡ leb (rank critical) (rank s)
by_critical s reason = ground arith

by_high :
    (s : Severity) (reason : String)
    → is_given (if is_high_or_critical s then some reason else none) ≡ leb (rank high) (rank s)
by_high s reason = ground arith

-- A reason is given exactly where the rank of the severity is blocked.
violation_reason-is_blocked :
    (b : String) (s : Severity) → is_given (violation_reason b s) ≡ is_blocked b s
unfolding violation_reason
violation_reason-is_blocked b s = elim (Bool-cases (text_eq b "critical_findings")) [
  | inl e ↦ rw e (by_critical s _)
  | inr e ↦ elim (Bool-cases (text_eq b "critical")) [
    | inl e' ↦ rw (e, e') (by_critical s _)
    | inr e' ↦ rw (e, e') (by_high s _)
  ]
]

included :
    (b : String) (f : Finding) (vs : List Violation)
    → findings_of (include_violation (violation_reason b f.severity) f vs)
      ≡ (if is_blocked b f.severity then f ∷ findings_of vs else findings_of vs)
included b f vs =
    included_by_reason (violation_reason b f.severity) f vs
    ∙ ground (arith, violation_reason-is_blocked b f.severity)

violations_by-blocked :
    (b : String) (fs : List Finding) → findings_of (violations_by b fs) ≡ blocked b fs
unfolding violations_by violation_reason include_violation
violations_by-blocked b [] = refl
violations_by-blocked b (f ∷ fs) =
    included b f (violations_by b fs)
    ∙ ap (λ l. if is_blocked b f.severity then f ∷ l else l) (violations_by-blocked b fs)

abbrev pub HasSeverity : Violation → Type 0
HasSeverity v = v.severity ≡ v.finding.severity

include_violation-HasSeverity :
    (reason : Option String) (f : Finding) (vs : List Violation)
    → All HasSeverity vs
    → All HasSeverity (include_violation reason f vs)
unfolding include_violation
include_violation-HasSeverity none f vs h = h
include_violation-HasSeverity (some reason) f vs h = (refl, h)

violations_by-HasSeverity : (b : String) (fs : List Finding) → All HasSeverity (violations_by b fs)
unfolding violations_by
violations_by-HasSeverity b [] = tt
violations_by-HasSeverity b (f ∷ fs) =
    include_violation-HasSeverity (violation_reason b f.severity) f (violations_by b fs)
      (violations_by-HasSeverity b fs)

-- What holds of the result of a check.
pub record IsVerdict (e : EvaluationResult) (fs : List Finding) (r : CheckResult) : Type 0 where
  pub passed_iff : (r.passed ≡ true) ↔ ((e.decision.allow ≡ true) × (e.decision.deny ≡ false))
  pub no_violations : r.passed ≡ true → r.violations ≡ []
  pub violations :
      r.passed ≡ false
      → findings_of r.violations ≡ blocked (value_of "blocked_by" e.decision.metadata) fs
  pub severities : All HasSeverity r.violations
  pub warnings : r.warnings ≡ e.decision.warnings
  pub total : r.total_count ≡ length fs

check_result-IsVerdict :
    (decimal : ℕ → String) (trim : String → String) (e : EvaluationResult) (fs : List Finding)
    → IsVerdict e fs (check_result decimal trim e fs)
unfolding check_result generate_violations
check_result-IsVerdict decimal trim e fs =
    let b = blocked_by e.decision.metadata in
    record {
      passed_iff = ground arith;
      no_violations = λ p. rw p refl;
      violations = λ p.
          rw p (violations_by-blocked b fs)
          ∙ ap (λ t. blocked t fs) (blocked_by-value_of e.decision.metadata);
      severities = elim (Bool-cases (e.decision.allow && not e.decision.deny)) [
        | inl p ↦ rw p tt
        | inr p ↦ rw p (violations_by-HasSeverity b fs)
      ];
      warnings = refl;
      total = refl;
    }

-- What a check returns for an answer of the engine.
abbrev pub IsChecked :
    String ⊎ List EvaluationResult → List Finding → CheckError ⊎ CheckResult → Type 0
IsChecked (inl e) fs out = out ≡ inl (evaluation_failed e)
IsChecked (inr []) fs out = out ≡ inl no_results
IsChecked (inr (e ∷ es)) fs out =
    ((e.policy_name ≡ "") × (out ≡ inl missing_policy_name))
    ⊎ ((e.policy_name ≢ "") × ((r : CheckResult) × (out ≡ inr r) × IsVerdict e fs r))

-- A check fails exactly where the engine fails, answers without a result, or with a first result that
-- has no policy name. Otherwise it passes exactly if the first result allows and does not deny. A
-- passed check has no violations. The violations of a failed one are, in order and with their
-- severities, the critical findings, if the result says that it blocks these, and the high and the
-- critical ones otherwise.
pub check-IsVerdict :
    (decimal : ℕ → String) (trim : String → String) (answer : String ⊎ List EvaluationResult)
    (fs : List Finding)
    → IsChecked answer fs (check decimal trim answer fs)
unfolding check
check-IsVerdict decimal trim (inl e) fs = refl
check-IsVerdict decimal trim (inr []) fs = refl
check-IsVerdict decimal trim (inr (e ∷ es)) fs = elim (Bool-cases (text_eq e.policy_name "")) [
  | inl q ↦ inl ((text_eq_iff e.policy_name "").0 q, rw q refl)
  | inr q ↦ inr (
    ground (arith, text_eq_iff e.policy_name ""),
    (check_result decimal trim e fs, rw q refl, check_result-IsVerdict decimal trim e fs),
  )
]

recommend-IsDistinct :
    (rec : String) (recs : List String) → IsDistinct recs → IsDistinct (recommend rec recs)
unfolding recommend
recommend-IsDistinct rec recs d = elim (Bool-cases (text_eq rec "" || has rec recs)) [
  | inl e ↦ rw e d
  | inr e ↦ rw e (IsDistinct-snoc rec recs d (ground arith))
]

recommend_all-IsDistinct :
    (vs : List Violation) (recs : List String)
    → IsDistinct recs
    → IsDistinct (recommend_all vs recs)
unfolding recommend_all
recommend_all-IsDistinct [] recs d = d
recommend_all-IsDistinct (v ∷ vs) recs d =
    recommend_all-IsDistinct vs _ (recommend-IsDistinct _ recs d)

-- No recommendation is given twice.
pub generate_recommendations-IsDistinct :
    (r : CheckResult) → IsDistinct (generate_recommendations r)
unfolding generate_recommendations
generate_recommendations-IsDistinct r = recommend_all-IsDistinct r.violations [] tt
