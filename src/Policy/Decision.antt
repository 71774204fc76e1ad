-- ===== src/Policy/Decision.antt =====
-- internal/policy/decision.go: DecisionPoint.Check, the violations, the summary, and the report. The
-- engine is an argument; times and some texts of errors are left out. `decimal` is the verb %d, and
-- `trim` strings.TrimSpace.
use Prim.Native.String.{◌++◌ as text_append}
use devsec.Base.{
  ℕ, zero, suc, ◌⊎◌, inl, inr, Bool, true, false, ◌&&◌, ◌||◌, not, Option, none, some, List, [],
  ◌∷◌, ◌++◌, String, length, if◌then◌else◌, text_eq, has,
}
use devsec.Model.{Finding, Severity, critical, high}
use devsec.Report.Severities.{severity_text}

pub record Decision : Type 0 where
  pub metadata : List (String × String)
  pub warnings : List String
  pub allow : Bool
  pub deny : Bool

pub record EvaluationResult : Type 0 where
  pub policy_name : String
  pub decision : Decision

pub record Violation : Type 0 where
  pub reason : String
  pub severity : Severity
  pub finding : Finding

pub record CheckResult : Type 0 where
  pub metadata : List (String × String)
  pub summary : String
  pub policy_name : String
  pub violations : List Violation
  pub warnings : List String
  pub total_count : ℕ
  pub passed : Bool

pub data CheckError : Type 0 where
  evaluation_failed : String → CheckError
  no_results missing_policy_name : CheckError

-- decision.Metadata["blocked_by"]: the empty text, where the key is missing.
unfoldable pub blocked_by : List (String × String) → String
blocked_by [] = ""
blocked_by ((k, v) ∷ m) = if text_eq k "blocked_by" then v else blocked_by m

abbrev pub is_critical : Severity → Bool
is_critical critical = true
is_critical _ = false

abbrev pub is_high_or_critical : Severity → Bool
is_high_or_critical critical = true
is_high_or_critical high = true
is_high_or_critical _ = false

-- Whether only critical findings are blocked.
abbrev pub blocks_critical : String → Bool
blocks_critical b = text_eq b "critical_findings" || text_eq b "critical"

-- The switch on `blockedBy`: the reason, where the finding is included. The second and the last case
-- agree.
unfoldable pub violation_reason : String → Severity → Option String
unfolding severity_text
violation_reason b s =
    if blocks_critical b
    then if is_critical s then some "Critical severity finding blocked by policy" else none
    else if is_high_or_critical s
    then some (text_append (severity_text s) " severity finding blocked by policy")
    else none

unfoldable pub include_violation : Option String → Finding → List Violation → List Violation
include_violation none f rest = rest
include_violation (some reason) f rest =
    record { reason = reason; severity = f.severity; finding = f } ∷ rest

unfoldable pub violations_by : String → List Finding → List Violation
unfolding violation_reason include_violation
violations_by b [] = []
violations_by b (f ∷ fs) =
    let rest = violations_by b fs in include_violation (violation_reason b f.severity) f rest

-- generateViolations
unfoldable pub generate_violations : List Finding → Decision → List Violation
unfolding violations_by blocked_by
generate_violations fs d = violations_by (blocked_by d.metadata) fs

module _ (decimal : ℕ → String) (trim : String → String) where
  counted : ℕ → String → String
  counted zero label = ""
  counted (suc n) label = text_append (decimal (suc n)) label

  -- generateSummary
  unfoldable pub generate_summary : CheckResult → ℕ → String
  unfolding counted
  generate_summary r n = trim (
      text_append (if r.passed then "Policy check PASSED. " else "Policy check FAILED. ") (
        text_append (text_append (text_append "Evaluated " (decimal n)) " finding(s). ") (
          text_append (counted (length r.violations) " violation(s) found. ")
            (counted (length r.warnings) " warning(s). "))))

  unfoldable pub check_result : EvaluationResult → List Finding → CheckResult
  unfolding generate_violations generate_summary
  check_result e fs =
      let passed = e.decision.allow && not e.decision.deny in
      let r : CheckResult = record {
        metadata = e.decision.metadata;
        summary = "";
        policy_name = e.policy_name;
        violations = if passed then [] else generate_violations fs e.decision;
        warnings = e.decision.warnings;
        total_count = length fs;
        passed = passed;
      } in
      record r { summary = generate_summary r (length fs) }

  -- Check, behind the tests for nil, with what the engine's Evaluate returns.
  unfoldable pub check : String ⊎ List EvaluationResult → List Finding → CheckError ⊎ CheckResult
  unfolding check_result
  check (inl e) fs = inl (evaluation_failed e)
  check (inr []) fs = inl no_results
  check (inr (e ∷ es)) fs =
      if text_eq e.policy_name "" then inl missing_policy_name else inr (check_result e fs)

-- getRecommendation
unfoldable pub get_recommendation : Violation → String
get_recommendation v =
    if text_eq v.finding.scanner "gitleaks"
    then "Remove or rotate exposed secrets and credentials"
    else if text_eq v.finding.scanner "semgrep"
    then "Review and fix code security issues identified by SAST"
    else if text_eq v.finding.scanner "trivy"
    then "Update vulnerable dependencies to patched versions"
    else if text_eq v.finding.scanner "osv"
    then "Upgrade packages to versions without known vulnerabilities"
    else if is_critical v.finding.severity
    then "Immediately address all critical severity findings"
    else "Review and remediate security findings before deployment"

unfoldable pub recommend : String → List String → List String
recommend rec recs = if text_eq rec "" || has rec recs then recs else recs ++ rec ∷ []

unfoldable pub recommend_all : List Violation → List String → List String
unfolding recommend get_recommendation
recommend_all [] recs = recs
recommend_all (v ∷ vs) recs = recommend_all vs (recommend (get_recommendation v) recs)

-- generateRecommendations
unfoldable pub generate_recommendations : CheckResult → List String
unfolding recommend_all
generate_recommendations r = recommend_all r.violations []

pub record ViolationReport : Type 0 where
  pub title : String
  pub summary : String
  pub violations : List Violation
  pub warnings : List String
  pub recommendations : List String
  pub passed : Bool

-- GenerateReport
unfoldable pub generate_report : CheckResult → ViolationReport
unfolding generate_recommendations
generate_report r = record {
  title = "Security Policy Violation Report";
  summary = r.summary;
  violations = r.violations;
  warnings = r.warnings;
  recommendations = if r.passed then [] else generate_recommendations r;
  passed = r.passed;
}
