-- ===== src/Compliance/Book.antt =====
-- internal/compliance/compliance.go: Report, with its limits and its summary. The floats of the summary
-- are left out. The map of the assessments is the list of its entries, in the order of the loop.
use devsec.Base.{
  ℕ, ◌+◌, ◌≡◌, ◌≤◌, refl, false, List, [], ◌∷◌, ◌++◌, String, length, length-append, if◌then◌else◌,
  text_eq, arith, leb, All, Bool-cases, inl, inr,
}
use devsec.Compliance.Types.{
  ControlStatus, compliant, non_compliant, partial, not_assessed, ControlAssessment, Gap, max_gaps,
}

abbrev pub max_assessments : ℕ
max_assessments = 10000

-- FrameworkSummary, and the counts of Summary
pub record Counts : Type 0 where
  pub total_controls : ℕ
  pub compliant_count : ℕ
  pub non_compliant_count : ℕ
  pub partial_count : ℕ
  pub not_assessed_count : ℕ

pub record Summary : Type 0 where
  pub frameworks : List (String × Counts)
  pub overall : Counts

pub record Book : Type 0 where
  pub assessments : List (String × List ControlAssessment)
  pub gaps : List Gap
  pub summary : Summary

abbrev pub no_counts : Counts
no_counts = record {
  total_controls = 0;
  compliant_count = 0;
  non_compliant_count = 0;
  partial_count = 0;
  not_assessed_count = 0;
}

-- NewReport
abbrev pub new_report : Book
new_report = record {
  assessments = [];
  gaps = [];
  summary = record { frameworks = []; overall = no_counts };
}

-- r.Assessments[framework]
unfoldable pub assessments_of :
    String → List (String × List ControlAssessment) → List ControlAssessment
assessments_of f [] = []
assessments_of f ((g, as') ∷ m) = if text_eq g f then as' else assessments_of f m

unfoldable pub append_assessment :
    String
    → ControlAssessment
    → List (String × List ControlAssessment)
    → List (String × List ControlAssessment)
append_assessment f a [] = (f, a ∷ []) ∷ []
append_assessment f a ((g, as') ∷ m) =
    if text_eq g f then (g, as' ++ a ∷ []) ∷ m else (g, as') ∷ append_assessment f a m

-- AddAssessment
unfoldable pub add_assessment : String → ControlAssessment → Book → Book
unfolding assessments_of append_assessment
add_assessment f a r =
    if text_eq f ""
    then r
    else if leb max_assessments (length (assessments_of f r.assessments))
    then r
    else record r { assessments = append_assessment f a r.assessments }

-- AddGap
unfoldable pub add_gap : Gap → Book → Book
add_gap g r = if leb max_gaps (length r.gaps) then r else record r { gaps = r.gaps ++ g ∷ [] }

unfoldable pub count_status : ControlStatus → Counts → Counts
count_status compliant c = record c { compliant_count = c.compliant_count + 1 }
count_status non_compliant c = record c { non_compliant_count = c.non_compliant_count + 1 }
count_status partial c = record c { partial_count = c.partial_count + 1 }
count_status not_assessed c = record c { not_assessed_count = c.not_assessed_count + 1 }

-- The inner loop, on the counts of the framework and of the report.
count_assessments : List ControlAssessment → Counts × Counts → Counts × Counts
unfolding count_status
count_assessments [] cs = cs
count_assessments (a ∷ as') (fs, all) = count_assessments as' (
  count_status a.status fs,
  count_status a.status (record all { total_controls = all.total_controls + 1 }),
)

-- The outer loop.
count_frameworks : List (String × List ControlAssessment) → Summary → Summary
unfolding count_assessments
count_frameworks [] s = s
count_frameworks ((f, as') ∷ m) s =
    let (fs, all) =
      count_assessments as' (record no_counts { total_controls = length as' }, s.overall) in
    count_frameworks m (record { frameworks = s.frameworks ++ (f, fs) ∷ []; overall = all })

-- CalculateSummary
unfoldable pub calculate_summary : Book → Book
unfolding count_frameworks
calculate_summary r = record r {
  summary = count_frameworks r.assessments (record { frameworks = []; overall = no_counts });
}

-- Within the limits.
abbrev pub IsWithin : Book → Type 0
IsWithin r = All (λ e. length e.1 ≤ max_assessments) r.assessments × (length r.gaps ≤ max_gaps)

append_assessment-within :
    (f : String) (a : ControlAssessment) (m : List (String × List ControlAssessment))
    → leb max_assessments (length (assessments_of f m)) ≡ false
    → All (λ e. length e.1 ≤ max_assessments) m
    → All (λ e. length e.1 ≤ max_assessments) (append_assessment f a m)
unfolding assessments_of append_assessment
append_assessment-within f a [] room h = (omega arith, tt)
append_assessment-within f a ((g, as') ∷ m) room (here, h) = elim (Bool-cases (text_eq g f)) [
  | inl e ↦ rw e (ground (arith, e, length-append as' (a ∷ [])), h)
  | inr e ↦ rw e (here, append_assessment-within f a m (ground (arith, e)) h)
]

-- AddAssessment and AddGap keep the limits of the report, whatever they are given.
pub add_assessment-IsWithin :
    (f : String) (a : ControlAssessment) (g : Gap) (r : Book)
    → IsWithin r
    → IsWithin (add_assessment f a r) × IsWithin (add_gap g r)
unfolding add_assessment add_gap
add_assessment-IsWithin f a g r (h, h') = (
  elim (Bool-cases (text_eq f "")) [
    | inl e ↦ rw e (h, h')
    | inr e ↦ elim (Bool-cases (leb max_assessments (length (assessments_of f r.assessments)))) [
      | inl full ↦ rw (e, full) (h, h')
      | inr room ↦ rw (e, room) (append_assessment-within f a r.assessments room h, h')
    ]
  ],
  elim (Bool-cases (leb max_gaps (length r.gaps))) [
    | inl full ↦ rw full (h, h')
    | inr room ↦ rw room (h, ground (arith, room, length-append r.gaps (g ∷ [])))
  ],
)

-- What the four statuses add up to.
abbrev pub statuses : Counts → ℕ
statuses c = c.compliant_count + c.non_compliant_count + c.partial_count + c.not_assessed_count

abbrev pub all_assessments : List (String × List ControlAssessment) → ℕ
all_assessments [] = 0
all_assessments ((f, as') ∷ m) = length as' + all_assessments m

count_status-statuses :
    (s : ControlStatus) (c : Counts)
    → (statuses (count_status s c) ≡ statuses c + 1)
      × ((count_status s c).total_controls ≡ c.total_controls)
unfolding count_status
count_status-statuses compliant c = (omega arith, refl)
count_status-statuses non_compliant c = (omega arith, refl)
count_status-statuses partial c = (omega arith, refl)
count_status-statuses not_assessed c = (omega arith, refl)

count_assessments-statuses :
    (as' : List ControlAssessment) (fs all : Counts)
    → let (fs', all') = count_assessments as' (fs, all) in
      (statuses fs' ≡ statuses fs + length as')
      × (fs'.total_controls ≡ fs.total_controls)
      × (statuses all' ≡ statuses all + length as')
      × (all'.total_controls ≡ all.total_controls + length as')
unfolding count_assessments
count_assessments-statuses [] fs all = (omega arith, refl, omega arith, omega arith)
count_assessments-statuses (a ∷ as') fs all =
    let all1 = record all { total_controls = all.total_controls + 1 } in
    let (n, t) = count_status-statuses a.status fs in
    let (n', t') = count_status-statuses a.status all1 in
    let (m, u, m', u') =
      count_assessments-statuses as' (count_status a.status fs) (count_status a.status all1) in
    (omega (arith, n, m), omega (arith, t, u), omega (arith, n', m'), omega (arith, t', u'))

-- The counts of each framework add up.
abbrev pub Adds : List (String × Counts) → Type 0
Adds = All (λ e. statuses e.1 ≡ e.1.total_controls)

Adds-snoc :
    (es : List (String × Counts)) (e : String × Counts)
    → Adds es
    → statuses e.1 ≡ e.1.total_controls
    → Adds (es ++ e ∷ [])
Adds-snoc [] e h new = (new, tt)
Adds-snoc (x ∷ es) e (here, h) new = (here, Adds-snoc es e h new)

count_frameworks-Adds :
    (m : List (String × List ControlAssessment)) (s : Summary)
    → Adds s.frameworks
    → let s' = count_frameworks m s in
      Adds s'.frameworks
      × (statuses s'.overall ≡ statuses s.overall + all_assessments m)
      × (s'.overall.total_controls ≡ s.overall.total_controls + all_assessments m)
unfolding count_frameworks
count_frameworks-Adds [] s h = (h, omega arith, omega arith)
count_frameworks-Adds ((f, as') ∷ m) s h =
    let fs = record no_counts { total_controls = length as' } in
    let (fs', all') = count_assessments as' (fs, s.overall) in
    let (n, t, n', t') = count_assessments-statuses as' fs s.overall in
    let (adds, v, u) =
      count_frameworks-Adds m
        (record { frameworks = s.frameworks ++ (f, fs') ∷ []; overall = all' })
        (Adds-snoc s.frameworks (f, fs') h (omega (arith, n, t))) in
    (adds, omega (arith, v, n'), omega (arith, u, t'))

-- CalculateSummary changes only the summary. In it, the four statuses of each framework add up to its
-- controls, those of the whole report to all controls, and these are all assessments.
pub calculate_summary-Adds :
    (r : Book)
    → let s = (calculate_summary r).summary in
      Adds s.frameworks
      × (statuses s.overall ≡ all_assessments r.assessments)
      × (s.overall.total_controls ≡ all_assessments r.assessments)
      × ((calculate_summary r).assessments ≡ r.assessments)
      × ((calculate_summary r).gaps ≡ r.gaps)
unfolding calculate_summary
calculate_summary-Adds r =
    let (a, b, c) =
      count_frameworks-Adds r.assessments (record { frameworks = []; overall = no_counts }) tt in
    (a, omega (arith, b), omega (arith, c), refl, refl)
