-- ===== src/Runners/Threshold.antt =====
-- internal/pipeline/runner.go: countFindingsBySeverity, and checkThreshold of the policy runner.
-- `fold` is strings.ToLower.
use devsec.Base.{
  ℕ, ◌+◌, ◌≡◌, Bool, true, false, List, [], ◌∷◌, String, if◌then◌else◌, text_eq, arith, ap, ltb,
  leb, length,
}
use devsec.Model.{Severity, critical, high, medium, low, info, other, Finding}

-- progress.FindingCount
pub record FindingCount : Type 0 where
  pub critical : ℕ
  pub high : ℕ
  pub medium : ℕ
  pub low : ℕ
  pub info : ℕ

unfoldable pub total_count : FindingCount → ℕ
total_count c = c.critical + c.high + c.medium + c.low + c.info

no_count : FindingCount
no_count = record { critical = 0; high = 0; medium = 0; low = 0; info = 0 }

-- The switch of countFindingsBySeverity
count_one : Severity → FindingCount → FindingCount
count_one critical c = record c { critical = c.critical + 1 }
count_one high c = record c { high = c.high + 1 }
count_one medium c = record c { medium = c.medium + 1 }
count_one low c = record c { low = c.low + 1 }
count_one _ c = record c { info = c.info + 1 }

count_from : List Finding → FindingCount → FindingCount
unfolding count_one
count_from [] c = c
count_from (f ∷ fs) c = count_from fs (count_one f.severity c)

-- countFindingsBySeverity
unfoldable pub count_findings_by_severity : List Finding → FindingCount
unfolding count_from no_count
count_findings_by_severity fs = count_from fs no_count

-- The switch of checkThreshold, which leaves the infos out
count_known : Severity → FindingCount → FindingCount
count_known critical c = record c { critical = c.critical + 1 }
count_known high c = record c { high = c.high + 1 }
count_known medium c = record c { medium = c.medium + 1 }
count_known low c = record c { low = c.low + 1 }
count_known _ c = c

count_known_from : List Finding → FindingCount → FindingCount
unfolding count_known
count_known_from [] c = c
count_known_from (f ∷ fs) c = count_known_from fs (count_known f.severity c)

exceeds : ℕ → Bool × ℕ
exceeds n = (ltb 0 n, n)

judge : String → FindingCount → Bool × ℕ
unfolding exceeds
judge fail_on c =
    if text_eq fail_on "critical"
    then exceeds c.critical
    else if text_eq fail_on "high"
    then exceeds (c.critical + c.high)
    else if text_eq fail_on "medium"
    then exceeds (c.critical + c.high + c.medium)
    else if text_eq fail_on "low"
    then exceeds (c.critical + c.high + c.medium + c.low)
    else exceeds (c.critical + c.high)

-- checkThreshold. The results of the evaluation are its first argument, and are not used.
unfoldable pub check_threshold :
    {E : Type 0} → (fold : String → String) → List E → String → List Finding → Bool × ℕ
unfolding count_known_from judge no_count
check_threshold fold results fail_on findings =
    judge (fold fail_on) (count_known_from findings no_count)

-- How severe a finding is, independently of the code: 0 is no known severity.
abbrev pub rank : Severity → ℕ
rank critical = 4
rank high = 3
rank medium = 2
rank low = 1
rank _ = 0

-- The rank that a threshold names; any other text stands for high.
abbrev pub threshold_rank : String → ℕ
threshold_rank t =
    if text_eq t "critical"
    then 4
    else if text_eq t "high"
    then 3
    else if text_eq t "medium"
    then 2
    else if text_eq t "low"
    then 1
    else 3

-- The findings of at least that rank.
abbrev pub at_least : ℕ → List Finding → ℕ
at_least r [] = 0
at_least r (f ∷ fs) = (if leb r (rank f.severity) then 1 else 0) + at_least r fs

-- One more finding at each rank that it reaches.
count_known-counts :
    (s : Severity) (c : FindingCount)
    → let d = count_known s c in
      (d.critical ≡ c.critical + (if leb 4 (rank s) then 1 else 0))
      × (d.critical + d.high ≡ c.critical + c.high + (if leb 3 (rank s) then 1 else 0))
      × (d.critical + d.high + d.medium
          ≡ c.critical + c.high + c.medium + (if leb 2 (rank s) then 1 else 0))
      × (d.critical + d.high + d.medium + d.low
          ≡ c.critical + c.high + c.medium + c.low + (if leb 1 (rank s) then 1 else 0))
unfolding count_known
count_known-counts critical c = (omega arith, omega arith, omega arith, omega arith)
count_known-counts high c = (omega arith, omega arith, omega arith, omega arith)
count_known-counts medium c = (omega arith, omega arith, omega arith, omega arith)
count_known-counts low c = (omega arith, omega arith, omega arith, omega arith)
count_known-counts info c = (omega arith, omega arith, omega arith, omega arith)
count_known-counts (other _) c = (omega arith, omega arith, omega arith, omega arith)

count_known_from-counts :
    (fs : List Finding) (c : FindingCount)
    → let d = count_known_from fs c in
      (d.critical ≡ c.critical + at_least 4 fs)
      × (d.critical + d.high ≡ c.critical + c.high + at_least 3 fs)
      × (d.critical + d.high + d.medium ≡ c.critical + c.high + c.medium + at_least 2 fs)
      × (d.critical + d.high + d.medium + d.low
          ≡ c.critical + c.high + c.medium + c.low + at_least 1 fs)
unfolding count_known_from
count_known_from-counts [] c = (omega arith, omega arith, omega arith, omega arith)
count_known_from-counts (f ∷ fs) c =
    let (a, b, d, e) = count_known-counts f.severity c in
    let (a', b', d', e') = count_known_from-counts fs (count_known f.severity c) in
    (omega (arith, a, a'), omega (arith, b, b'), omega (arith, d, d'), omega (arith, e, e'))

judge-at_least :
    (a b c d : Bool) (x y z u : ℕ) (n : ℕ → ℕ)
    → x ≡ n 4
    → y ≡ n 3
    → z ≡ n 2
    → u ≡ n 1
    → (if a
        then exceeds x
        else if b
        then exceeds y
        else if c
        then exceeds z
        else if d
        then exceeds u
        else exceeds y)
      ≡ exceeds (n (if a then 4 else if b then 3 else if c then 2 else if d then 1 else 3))
judge-at_least true b c d x y z u n e4 e3 e2 e1 = ap exceeds e4
judge-at_least false true c d x y z u n e4 e3 e2 e1 = ap exceeds e3
judge-at_least false false true d x y z u n e4 e3 e2 e1 = ap exceeds e2
judge-at_least false false false true x y z u n e4 e3 e2 e1 = ap exceeds e1
judge-at_least false false false false x y z u n e4 e3 e2 e1 = ap exceeds e3

-- checkThreshold counts the findings at or above the threshold that the folded text names, and fails
-- exactly if there is one; the results of the policies do not matter.
pub check_threshold_lem :
    {E : Type 0} (fold : String → String) (results : List E) (fail_on : String) (fs : List Finding)
    → let n = at_least (threshold_rank (fold fail_on)) fs in
      check_threshold fold results fail_on fs ≡ (ltb 0 n, n)
unfolding check_threshold judge exceeds no_count
check_threshold_lem fold results fail_on fs =
    let (a, b, c, d) = count_known_from-counts fs no_count in
    let t = fold fail_on in
    judge-at_least (text_eq t "critical") (text_eq t "high") (text_eq t "medium") (text_eq t "low")
      _ _ _ _ (λ r. at_least r fs) (omega (arith, a)) (omega (arith, b)) (omega (arith, c))
      (omega (arith, d))

count_one-total :
    (s : Severity) (c : FindingCount) → total_count (count_one s c) ≡ total_count c + 1
unfolding count_one total_count
count_one-total critical c = omega arith
count_one-total high c = omega arith
count_one-total medium c = omega arith
count_one-total low c = omega arith
count_one-total info c = omega arith
count_one-total (other _) c = omega arith

count_from-total :
    (fs : List Finding) (c : FindingCount)
    → total_count (count_from fs c) ≡ total_count c + length fs
unfolding count_from
count_from-total [] c = omega arith
count_from-total (f ∷ fs) c =
    omega (arith, count_from-total fs (count_one f.severity c), count_one-total f.severity c)

-- countFindingsBySeverity counts every finding once.
pub count_findings_by_severity-total :
    (fs : List Finding) → total_count (count_findings_by_severity fs) ≡ length fs
unfolding count_findings_by_severity no_count total_count
count_findings_by_severity-total fs = omega (arith, count_from-total fs no_count)
