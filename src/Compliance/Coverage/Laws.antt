-- ===== src/Compliance/Coverage/Laws.antt =====
-- How the counts of a coverage hang together.
use devsec.Base.{
  ℕ, ◌+◌, ◌≡◌, refl, sym, ◌∙◌, Bool, false, some, List, [], ◌∷◌, ◌++◌, String, length,
  length-append, arith, ap,
}
use devsec.Compliance.Types.{
  ControlStatus, compliant, non_compliant, partial, not_assessed, ControlAssessment,
}
use devsec.Compliance.Coverage.{
  CoverageStats, tally_status, tally_framework, tally_overall, no_coverage,
  calculate_framework_coverage, overall_from, calculate_overall, get_missing_controls,
}
use devsec.Compliance.Gap.Laws.{gaps_of}

-- What the loop over a framework's assessments adds to the counts.
record Adds (s s' : CoverageStats) (as' : List ControlAssessment) : Type 0 where
  total : s'.total_controls ≡ s.total_controls
  split :
      s'.compliant_controls + s'.gap_count + s.assessed_controls
      ≡ s'.assessed_controls + s.compliant_controls + s.gap_count
  gaps : s'.gap_count ≡ s.gap_count + length (gaps_of as')
  missing :
      s'.assessed_controls + length (get_missing_controls as') ≡ s.assessed_controls + length as'

tally_framework-Adds :
    (as' : List ControlAssessment) (s : CoverageStats) → Adds s (tally_framework as' s) as'
unfolding tally_framework tally_status get_missing_controls
tally_framework-Adds [] s = record {
  total = refl;
  split = ground arith;
  gaps = ground arith;
  missing = ground arith;
}
tally_framework-Adds (a ∷ as') s =
    let rest = tally_framework-Adds as' (tally_status a.status s) in
    record {
      total = rest.total ∙ ground arith;
      split = ground (arith, rest.split);
      gaps = ground (arith, rest.gaps);
      missing = ground (arith, rest.missing);
    }

-- How the counts of a coverage fit the assessments.
pub record IsCoverage (s : CoverageStats) (as' : List ControlAssessment) : Type 0 where
  pub total : s.total_controls ≡ length as'
  pub assessed : s.assessed_controls ≡ s.compliant_controls + s.gap_count
  pub gaps : s.gap_count ≡ length (gaps_of as')
  pub missing : s.assessed_controls + length (get_missing_controls as') ≡ s.total_controls

-- The coverage of a framework counts all of its controls. The assessed ones are the compliant ones and
-- the gaps, there are as many gaps as the gap analysis finds without its limit, and the controls that
-- are not assessed are the missing ones.
pub calculate_framework_coverage-IsCoverage :
    (as' : List ControlAssessment) → IsCoverage (calculate_framework_coverage as') as'
unfolding calculate_framework_coverage
calculate_framework_coverage-IsCoverage as' =
    let counted = tally_framework-Adds as' (no_coverage (length as')) in
    record {
      total = counted.total;
      assessed = ground (arith, counted.split);
      gaps = ground (arith, counted.gaps);
      missing = ground (arith, counted.missing, counted.total);
    }

-- The assessments of all frameworks, one after another.
abbrev pub flatten : List (String × List ControlAssessment) → List ControlAssessment
flatten [] = []
flatten ((framework, as') ∷ rest) = as' ++ flatten rest

tally_framework-append :
    (as' bs : List ControlAssessment) (s : CoverageStats)
    → tally_framework (as' ++ bs) s ≡ tally_framework bs (tally_framework as' s)
unfolding tally_framework
tally_framework-append [] bs s = refl
tally_framework-append (a ∷ as') bs s = tally_framework-append as' bs (tally_status a.status s)

-- The counts with a number added to the total.
abbrev raise : ℕ → CoverageStats → CoverageStats
raise n s = record s { total_controls = s.total_controls + n }

tally_status-raise :
    (t : ControlStatus) (n : ℕ) (s : CoverageStats)
    → tally_status t (raise n s) ≡ raise n (tally_status t s)
unfolding tally_status
tally_status-raise compliant n s = refl
tally_status-raise non_compliant n s = refl
tally_status-raise partial n s = refl
tally_status-raise not_assessed n s = refl

tally_framework-raise :
    (as' : List ControlAssessment) (n : ℕ) (s : CoverageStats)
    → tally_framework as' (raise n s) ≡ raise n (tally_framework as' s)
unfolding tally_framework
tally_framework-raise [] n s = refl
tally_framework-raise (a ∷ as') n s =
    ap (tally_framework as') (tally_status-raise a.status n s)
    ∙ tally_framework-raise as' n (tally_status a.status s)

raise-raise : (n m : ℕ) (s : CoverageStats) → raise n (raise m s) ≡ raise (m + n) s
raise-raise n m s = ap (λ t. record s { total_controls = t }) (omega arith)

tally_overall_lem :
    (as' : List ControlAssessment) (s : CoverageStats)
    → tally_overall as' s ≡ raise (length as') (tally_framework as' s)
unfolding tally_overall tally_framework
tally_overall_lem [] s = ap (λ t. record s { total_controls = t }) (omega arith)
tally_overall_lem (a ∷ as') s =
    let s' = tally_status a.status s in
    tally_overall_lem as' (tally_status a.status (raise 1 s))
    ∙ ap (λ t. raise (length as') (tally_framework as' t)) (tally_status-raise a.status 1 s)
    ∙ ap (raise (length as')) (tally_framework-raise as' 1 s')
    ∙ raise-raise (length as') 1 (tally_framework as' s')
    ∙ ap (λ n. raise n (tally_framework as' s')) (omega arith)

overall_from_lem :
    (cancelled : ℕ → Bool) (n : ℕ) (as' : List (String × List ControlAssessment))
    (s : CoverageStats)
    → ((i : ℕ) → cancelled i ≡ false)
    → overall_from cancelled n as' s
      ≡ some (raise (length (flatten as')) (tally_framework (flatten as') s))
unfolding overall_from tally_framework
overall_from_lem cancelled n [] s live =
    ap (λ t. some (record s { total_controls = t })) (omega arith)
overall_from_lem cancelled n ((framework, as') ∷ rest) s live =
    let s' = tally_framework as' s in
    rw (live n) (
      overall_from_lem cancelled (n + 1) rest (tally_overall as' s) live
      ∙ ap some (
          ap (λ t. raise (length (flatten rest)) (tally_framework (flatten rest) t))
            (tally_overall_lem as' s)
          ∙ ap (raise (length (flatten rest)))
              (tally_framework-raise (flatten rest) (length as') s')
          ∙ raise-raise (length (flatten rest)) (length as') (tally_framework (flatten rest) s')
          ∙ ap (raise (length as' + length (flatten rest)))
              (sym (tally_framework-append as' (flatten rest) s))
          ∙ ap (λ k. raise k (tally_framework (as' ++ flatten rest) s))
              (sym (length-append as' (flatten rest)))))

-- Without a cancellation, the overall coverage is that of one framework with the assessments of all.
pub calculate_overall-flatten :
    (cancelled : ℕ → Bool) (as' : List (String × List ControlAssessment))
    → ((i : ℕ) → cancelled i ≡ false)
    → calculate_overall cancelled as' ≡ some (calculate_framework_coverage (flatten as'))
unfolding calculate_overall calculate_framework_coverage
calculate_overall-flatten cancelled as' live =
    let all = flatten as' in
    overall_from_lem cancelled 0 as' (no_coverage 0) live
    ∙ ap some (sym (tally_framework-raise all (length all) (no_coverage 0)))
    ∙ ap (λ t. some (tally_framework all (no_coverage t))) (omega arith)
