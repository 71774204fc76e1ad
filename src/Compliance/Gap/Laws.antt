-- ===== src/Compliance/Gap/Laws.antt =====
-- Gaps: how many there are, how severe they are, and what a summary counts.
use mathlib.Core.Option.{some-injective}
use devsec.Base.{
  ap, ℕ, ◌+◌, ◌≤◌, ◌≡◌, ◌≢◌, ◌↔◌, append-nil, append_assoc, refl, sym, ◌∙◌, Bool, false, Option,
  none, some, List, [], ◌∷◌, ◌++◌, String, length, length-append, arith, if◌then◌else◌, leb, Perm,
  Bool-cases, inl, inr, length-perm,
}
use devsec.Compliance.Types.{
  compliant, partial, Control, EnrichedFinding, ControlAssessment, Gap, medium, low, max_gaps,
}
use devsec.Compliance.Assess.{assess_control}
use devsec.Compliance.Assess.Laws.{assess_control-IsAssessed}
use devsec.Compliance.Gap.{
  determine_severity, create_gap, collect, collect_all, sorted_gaps, analyze, is_gap,
}

-- The gap of an assessment that is not compliant is low exactly if the assessment is partial, and
-- otherwise critical or high: no assessment by findings gives a gap of medium severity.
pub assess_control-determine_severity :
    (c : Control) (fs : List EnrichedFinding)
    → (assess_control c fs).status ≢ compliant
    → (determine_severity (assess_control c fs) ≢ medium)
      × ((determine_severity (assess_control c fs) ≡ low)
          ↔ ((assess_control c fs).status ≡ partial))
unfolding determine_severity
assess_control-determine_severity c fs gap =
    let a = assess_control-IsAssessed c fs in
    (
      ground (arith, a.compliant_iff),
      ground (arith, a.non_compliant_iff, a.compliant_iff, a.bounded, a.assessed),
    )

-- The loops never hold more gaps than the limit.
collect-bound :
    (as' : List ControlAssessment) (gaps : List Gap)
    → length gaps ≤ max_gaps
    → length (collect as' gaps) ≤ max_gaps
unfolding collect
collect-bound [] gaps k = k
collect-bound (a ∷ as') gaps k = elim (Bool-cases (leb max_gaps (length gaps))) [
  | inl e ↦ rw e k
  | inr e ↦ rw e (collect-bound as' _ (ground (arith, length-append gaps (create_gap a ∷ []))))
]

collect_all-bound :
    (cancelled : ℕ → Bool) (n : ℕ) (as' : List (String × List ControlAssessment))
    (gaps found : List Gap)
    → length gaps ≤ max_gaps
    → collect_all cancelled n as' gaps ≡ some found
    → length found ≤ max_gaps
unfolding collect_all
collect_all-bound cancelled n [] gaps found k e = ground arith
collect_all-bound cancelled n ((framework, as') ∷ rest) gaps found k e =
    let after =
      collect_all-bound cancelled (n + 1) rest (collect as' gaps) found
        (collect-bound as' gaps k) in
    ground (arith, after)

-- All gaps of a framework, and of all frameworks.
abbrev pub gaps_of : List ControlAssessment → List Gap
gaps_of [] = []
gaps_of (a ∷ as') = let rest = gaps_of as' in if is_gap a.status then create_gap a ∷ rest else rest

abbrev pub all_gaps : List (String × List ControlAssessment) → List Gap
all_gaps [] = []
all_gaps ((framework, as') ∷ rest) = gaps_of as' ++ all_gaps rest

append-empty {ℓ} : {A : Type ℓ} (xs ys : List A) → length ys ≡ 0 → xs ≡ xs ++ ys
append-empty xs [] e = sym (append-nil xs)
append-empty xs (y ∷ ys) e = ground arith

collect-gaps_of :
    (as' : List ControlAssessment) (gaps : List Gap)
    → length gaps + length (gaps_of as') ≤ max_gaps
    → collect as' gaps ≡ gaps ++ gaps_of as'
unfolding collect
collect-gaps_of [] gaps k = sym (append-nil gaps)
collect-gaps_of (a ∷ as') gaps k = elim (Bool-cases (leb max_gaps (length gaps))) [
  | inl e ↦ rw e (append-empty gaps (gaps_of (a ∷ as')) (ground arith))
  | inr e ↦ elim (Bool-cases (is_gap a.status)) [
    | inr q ↦ rw (e, q) (collect-gaps_of as' gaps (ground arith))
    | inl q ↦
        let more = length-append gaps (create_gap a ∷ []) in
        rw (e, q)
          (collect-gaps_of as' (gaps ++ create_gap a ∷ []) (ground arith)
            ∙ append_assoc gaps (create_gap a ∷ []) (gaps_of as'))
  ]
]

collect_all-all_gaps :
    (cancelled : ℕ → Bool) (n : ℕ) (as' : List (String × List ControlAssessment)) (gaps : List Gap)
    → ((i : ℕ) → cancelled i ≡ false)
    → length gaps + length (all_gaps as') ≤ max_gaps
    → collect_all cancelled n as' gaps ≡ some (gaps ++ all_gaps as')
unfolding collect_all
collect_all-all_gaps cancelled n [] gaps live k = ground (arith, append-nil gaps)
collect_all-all_gaps cancelled n ((framework, as') ∷ rest) gaps live k =
    let split = length-append (gaps_of as') (all_gaps rest) in
    let now : collect as' gaps ≡ gaps ++ gaps_of as' = collect-gaps_of as' gaps (ground arith) in
    let joined = length-append gaps (gaps_of as') in
    elim (Bool-cases (leb max_gaps (length gaps))) [
      | inl e ↦
          rw (live n, e) (ap some (append-empty gaps (gaps_of as' ++ all_gaps rest) (ground arith)))
      | inr e ↦
          rw (live n, e, now)
            (collect_all-all_gaps cancelled (n + 1) rest (gaps ++ gaps_of as') live (ground arith)
              ∙ ap some (append_assoc gaps (gaps_of as') (all_gaps rest)))
    ]

-- Analyze never returns more gaps than the limit, whatever the number of the assessments.
pub analyze-bound :
    (sort : List Gap → List Gap) (cancelled : ℕ → Bool)
    (as' : List (String × List ControlAssessment)) (gaps : List Gap)
    → ((gs : List Gap) → Perm (sort gs) gs)
    → analyze sort cancelled as' ≡ some gaps
    → length gaps ≤ max_gaps
unfolding analyze
analyze-bound sort cancelled as' gaps perm eq = sorted (collect_all cancelled 0 as' []) refl eq
  where
    sorted :
        (found : Option (List Gap))
        → collect_all cancelled 0 as' [] ≡ found
        → sorted_gaps sort found ≡ some gaps
        → length gaps ≤ max_gaps
    sorted none e q = cc
    sorted (some gs) e q = ground (
      arith,
      ap length (some-injective (sort gs) gaps q),
      length-perm (perm gs),
      collect_all-bound cancelled 0 as' [] gs (ground arith) e,
    )

-- Within the limit and without a cancellation, Analyze returns, sorted, the gaps of all assessments
-- that are not compliant or partial, and of no others.
pub analyze-all_gaps :
    (sort : List Gap → List Gap) (cancelled : ℕ → Bool)
    (as' : List (String × List ControlAssessment))
    → ((i : ℕ) → cancelled i ≡ false)
    → length (all_gaps as') ≤ max_gaps
    → analyze sort cancelled as' ≡ some (sort (all_gaps as'))
unfolding analyze sorted_gaps
analyze-all_gaps sort cancelled as' live k =
    ap (sorted_gaps sort) (collect_all-all_gaps cancelled 0 as' [] live (ground arith))
