-- ===== src/Runners/Tests.antt =====
-- A scan, a policy check and a command, and the theorems at them.
use mathlib.Core.List.Perm
use devsec.Base.{
  ◌++◌, ℕ, ◌≡◌, ◌≢◌, inr, refl, true, false, Bool, none, some, List, [], ◌∷◌, String, All, arith,
  if◌then◌else◌, ltb, text_eq, text_eq_iff,
}
use devsec.Base.Int.{pos}
use devsec.Model.{Finding, Severity, low}
use devsec.Pipeline.Types.{
  policy, scan, unset, Stage, Pipeline, names, kind_is_valid, success, failed, foreign_error,
}
use devsec.Pipeline.Validate.{validate}
use devsec.Pipeline.Completed.{Completed, extract_findings}
use devsec.Pipeline.Execute.{executor_validate}
use devsec.Pipeline.Runner.{Environment, ExecuteOptions, RunnerInput, execute_stage}
use devsec.Runners.Common.{Tools, IsCoherent, config_value, or_default}
use devsec.Runners.Registry.{get, default_registry, executor_validate-default_registry}
use devsec.Runners.Threshold.{at_least, threshold_rank, check_threshold}
use devsec.Runners.Command.{Bytes, parse_command, quoted, IsQuotable, parse_command-quoted}
use devsec.Runners.Scan.{Scanning, run_scan, run_scan-extract_findings}
use devsec.Runners.Policy.{PolicyTools, run_policy, load_policies, policy_dir, run_policy-at_least}
use devsec.Runners.Report.{Reporting}
use devsec.Runners.Compliance.{Mapping}
use devsec.Runners.Custom.{Shell, codes}
use devsec.Runners.Default.{Suite, default_run, execute_stage-IsCoherent}

abbrev finding : String → Severity → Finding
finding id severity = record {
  id = id;
  title = "t";
  description = "d";
  rule = "r";
  scanner = "s";
  severity = severity;
  location = record { file = "f"; start_line = 1; end_line = 1; column = 1 };
}

abbrev one_low : List Finding
one_low = finding "a" low ∷ []

-- The world counts the calls.
abbrev tools : Tools ℕ
tools = record {
  quote = λ s. s;
  done = λ _. false;
  ctx_err = λ _. foreign_error "canceled";
  is_abs = λ _. true;
  join = λ d f. f;
}

abbrev scanning : Scanning ℕ
scanning = record {
  abs = λ path w. inr path;
  run_scanner = λ scanner path timeout w. (inr one_low, ℕ.suc w);
  report_count = λ count w. w;
}

abbrev policies : PolicyTools ℕ Bool
policies = record {
  open_dir = λ dir w. none;
  read_dir = λ dir w. inr (("a.rego", false) ∷ ("sub", true) ∷ []);
  is_rego = λ name. text_eq name "a.rego";
  load_policy = λ path w. (none, ℕ.suc w);
  policy_count = λ w. w;
  evaluate = λ findings w. (inr (false ∷ []), w);
  close = λ w. w;
  fold = λ s. s;
  decimal = λ n. "n";
}

abbrev scan_stage : Stage
scan_stage = record {
  config = ("scanner", "gitleaks") ∷ ("path", "src") ∷ [];
  name = "scan";
  kind = scan;
  continue_on = unset;
  depends_on = [];
  timeout = pos 0;
  is_parallel = false;
  fail_fast = false;
}

abbrev policy_stage : Stage
policy_stage = record scan_stage {
  config = ("fail_on", "low") ∷ [];
  name = "policy";
  kind = policy;
}

abbrev input : List Finding → RunnerInput
input findings = record { previous_results = []; work_dir = "."; findings = findings }

gitleaks : config_value "scanner" scan_stage.config ≢ ""
unfolding config_value
gitleaks = ground (arith, text_eq_iff "gitleaks" "")

abbrev scanned : Completed
scanned = ("other", (run_scan tools scanning scan_stage (input []) 0).0) ∷ []

run_scan-extract_findings_example :
    extract_findings
      (scanned ++ ("scan", (run_scan tools scanning scan_stage (input []) 0).0) ∷ scanned)
    ≡ extract_findings scanned ++ (one_low ++ extract_findings scanned)
run_scan-extract_findings_example =
    run_scan-extract_findings tools scanning scan_stage (input [])
      (or_default (config_value "path" scan_stage.config) ".") one_low 0 scanned scanned refl
      gitleaks refl refl

policies-load :
    load_policies tools policies (policy_dir tools policies policy_stage ".") 0 ≡ (none, 1)
unfolding load_policies policy_dir
policies-load = refl

-- The engine denies, and the low finding fails the stage all the same only by its severity.
run_policy-at_least_example :
    (run_policy tools policies policy_stage (input one_low) 0).0.status ≡ (
      if ltb 0 (
        at_least
          (threshold_rank (or_default (config_value "fail_on" policy_stage.config) "high"))
          one_low)
      then failed
      else success)
run_policy-at_least_example =
    run_policy-at_least tools policies policy_stage (input one_low) (false ∷ []) 0 1 refl
      policies-load refl refl

policy-failed : (run_policy tools policies policy_stage (input one_low) 0).0.status ≡ failed
unfolding run_policy check_threshold config_value or_default
policy-failed = refl

abbrev words : List Bytes
words = codes "a b" ∷ codes "c" ∷ []

words-IsQuotable : All IsQuotable words
words-IsQuotable = (
  (λ e. ground arith, (omega arith, (omega arith, (omega arith, tt)))),
  ((λ e. ground arith, (omega arith, tt)), tt),
)

parse_command-quoted_example : parse_command (quoted words) ≡ words
parse_command-quoted_example = parse_command-quoted words words-IsQuotable

a_command :
    parse_command (codes "sh -c 'echo  \"a b\"' ")
    ≡ codes "sh" ∷ codes "-c" ∷ codes "echo  \"a b\"" ∷ []
unfolding parse_command
a_command = refl

abbrev reporting : Reporting ℕ
reporting = record {
  hash = λ s. s;
  itoa = λ n. "n";
  fold_severity = λ s. s;
  sort = λ fs. fs;
  add_error_text = λ e. "e";
  context_error_text = "canceled";
  marshal = λ r. inr "{}";
  marshal_sarif = λ rs. inr "[]";
  timestamp = "now";
  decimal = λ n. "n";
  lower = λ s. s;
  dir = λ path. ".";
  base = λ path. path;
  open_dir = λ dir w. none;
  write_file = λ dir file text w. (none, ℕ.suc w);
}

abbrev mapping : Mapping
mapping = record {
  split = λ s. s ∷ [];
  lower = λ s. s;
  upper = λ s. s;
  order = λ names. names;
  stopped = λ n. false;
  frameworks = [];
  cwes = record { cwe_to_controls = []; control_to_cwes = [] };
  error_text = λ e. "e";
}

abbrev shell : Shell ℕ Bytes
shell = record {
  new = λ w. (none, w);
  build = λ name args timeout dir. inr name;
  execute = λ command w. (inr (record { exit_code = pos 1; success = false }), ℕ.suc w);
  shutdown = λ w. w;
  decimal = λ n. "n";
}

abbrev suite : Suite ℕ Bool Bytes
suite = record {
  tools = tools;
  scanning = scanning;
  policies = policies;
  reporting = reporting;
  mapping = mapping;
  shell = shell;
}

abbrev environment : Environment ℕ
environment = record {
  done = λ w. false;
  runner = λ k. get k (default_registry (default_run suite));
  reporter = none;
  iterate = λ c. c;
}

abbrev options : ExecuteOptions
options = record { work_dir = "."; dry_run = false }

policy_stage-valid : kind_is_valid policy ≡ true
unfolding kind_is_valid
policy_stage-valid = refl

execute_stage-IsCoherent_example :
    IsCoherent tools policy_stage (execute_stage environment options policy_stage [] 0)
execute_stage-IsCoherent_example =
    execute_stage-IsCoherent suite environment options (λ k. refl) policy_stage [] 0
      policy_stage-valid refl

abbrev pipeline : Pipeline
pipeline = record {
  metadata = [];
  name = "ci";
  version = "1";
  stages = scan_stage ∷ policy_stage ∷ [];
  timeout = pos 0;
  is_parallel = true;
  fail_fast = true;
}

executor_validate-default_registry_example :
    executor_validate environment options (names pipeline.stages) pipeline
    ≡ validate (names pipeline.stages) (some pipeline)
executor_validate-default_registry_example =
    executor_validate-default_registry environment options (default_run suite)
      (names pipeline.stages) pipeline (Perm.refl _) (λ k. refl)
