-- ===== src/Policy/Tests.antt =====
-- A denied check of a critical and a low finding.
use devsec.Base.{ℕ, ◌≡◌, inr, refl, true, List, [], ◌∷◌, String}
use devsec.Model.{Finding, Severity, critical, low}
use devsec.Policy.Decision.{EvaluationResult, check, check_result}
use devsec.Policy.Laws.{IsChecked, check-IsVerdict}

abbrev finding : String → Severity → Finding
finding id severity = record {
  id = id;
  title = "t";
  description = "d";
  rule = "r";
  scanner = "trivy";
  severity = severity;
  location = record { file = "f"; start_line = 1; end_line = 1; column = 1 };
}

abbrev findings : List Finding
findings = finding "1" critical ∷ finding "2" low ∷ []

abbrev denied : EvaluationResult
denied = record {
  policy_name = "p";
  decision = record {
    metadata = ("blocked_by", "critical") ∷ [];
    warnings = [];
    allow = true;
    deny = true;
  };
}

abbrev digits : ℕ → String
digits n = "n"

abbrev same : String → String
same s = s

-- The critical finding is a violation, and the low one is not.
denied-checked :
    check digits same (inr (denied ∷ [])) findings ≡ inr (check_result digits same denied findings)
unfolding check
denied-checked = refl

check-IsVerdict_example :
    IsChecked (inr (denied ∷ [])) findings (check digits same (inr (denied ∷ [])) findings)
check-IsVerdict_example = check-IsVerdict digits same (inr (denied ∷ [])) findings
