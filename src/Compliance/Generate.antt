-- ===== src/Compliance/Generate.antt =====
-- internal/compliance/report.go: ReportGenerator, which enriches findings, assesses controls, and puts
-- assessments and gaps into a report; and the report of one framework. Each loop over the map of
-- assessments has an order of its own, and each loop asks the context at its turns.
use devsec.Base.{
  ℕ, zero, suc, ◌+◌, true, false, Bool, ◌⊎◌, inl, inr, Option, none, some, List, [], ◌∷◌, String,
  length, if◌then◌else◌, text_eq, ltb,
}
use devsec.Model.{Finding}
use devsec.Compliance.Types.{ControlAssessment, EnrichedFinding, Gap, max_gaps}
use devsec.Compliance.Gap.{analyze}
use devsec.Compliance.Cwe.{CweMapper}
use devsec.Compliance.Mapper.{
  Framework, MapperError, nil_context, context_error, enrich, map_to_controls,
}
use devsec.Compliance.Book.{
  Book, Counts, no_counts, new_report, max_assessments, assessments_of, add_assessment, add_gap,
  calculate_summary, count_status,
}
pub mod Laws

abbrev pub Assessments : Type 0
Assessments = List (String × List ControlAssessment)

module _ {ℓ} {A : Type ℓ} where
  take : ℕ → List A → List A
  take n [] = []
  take zero (x ∷ xs) = []
  take (suc n) (x ∷ xs) = x ∷ take n xs

  -- if len(xs) > n { xs = xs[:n] }
  unfoldable pub limited : ℕ → List A → List A
  unfolding take
  limited n xs = if ltb n (length xs) then take n xs else xs

unfoldable pub add_assessments : String → List ControlAssessment → Book → Book
unfolding add_assessment
add_assessments f [] r = r
add_assessments f (a ∷ as') r = add_assessments f as' (add_assessment f a r)

unfoldable pub add_frameworks : Assessments → Book → Book
unfolding add_assessments limited
add_frameworks [] r = r
add_frameworks ((f, as') ∷ m) r =
    add_frameworks m (add_assessments f (limited max_assessments as') r)

unfoldable pub add_gaps : List Gap → Book → Book
unfolding add_gap
add_gaps [] r = r
add_gaps (g ∷ gs) r = add_gaps gs (add_gap g r)

unfoldable pub with_gaps : Option (List Gap) → Book → MapperError ⊎ Book
unfolding add_gaps limited calculate_summary
with_gaps none r = inl context_error
with_gaps (some gaps) r = inr (calculate_summary (add_gaps (limited max_gaps gaps) r))

module _ (sort : List Gap → List Gap) (order order' : Assessments → Assessments)
    (cancelled : ℕ → Bool) (include_gaps : Bool) where
  -- The report of the assessments.
  unfoldable pub report_of : Assessments → MapperError ⊎ Book
  unfolding add_frameworks with_gaps analyze calculate_summary
  report_of m =
      let r = add_frameworks (order m) new_report in
      if include_gaps
      then with_gaps (analyze sort cancelled (order' m)) r
      else inr (calculate_summary r)

  -- GenerateFromAssessments
  unfoldable pub generate_from_assessments :
      (context_is_nil : Bool) → (done : Bool) → Assessments → MapperError ⊎ Book
  unfolding report_of
  generate_from_assessments true done m = inl nil_context
  generate_from_assessments false done m = if done then inl context_error else report_of m

  mapped : MapperError ⊎ Assessments → MapperError ⊎ Book
  unfolding report_of
  mapped (inl e) = inl e
  mapped (inr m) = report_of m

  module _ (set_order : List String → List String) (fold : String → String) (cwes : CweMapper)
      (frameworks : List (String × Framework)) (stopped stopped' : ℕ → Bool) where
    enriched : List String → MapperError ⊎ Option (List EnrichedFinding) → MapperError ⊎ Book
    unfolding mapped map_to_controls
    enriched ids (inl e) = inl e
    enriched ids (inr es) = mapped (map_to_controls false stopped' frameworks es ids)

    -- Generate
    unfoldable pub generate :
        (context_is_nil : Bool) → (done : Bool) → List Finding → List String → MapperError ⊎ Book
    unfolding enriched enrich
    generate true done fs ids = inl nil_context
    generate false done fs ids =
        if done
        then inl context_error
        else enriched ids (enrich set_order fold cwes false stopped fs)

-- The report of one framework.
pub record FrameworkReport : Type 0 where
  pub framework : String
  pub assessments : List ControlAssessment
  pub gaps : List Gap
  pub summary : Counts

gaps_of : String → List Gap → List Gap
gaps_of f [] = []
gaps_of f (g ∷ gs) =
    let rest = gaps_of f gs in if text_eq g.control.framework f then g ∷ rest else rest

count_controls : List ControlAssessment → Counts → Counts
unfolding count_status
count_controls [] c = c
count_controls (a ∷ as') c =
    count_controls as' (count_status a.status (record c { total_controls = c.total_controls + 1 }))

-- ExtractFrameworkReport
unfoldable pub extract_framework_report : Book → String → FrameworkReport
unfolding gaps_of count_controls assessments_of
extract_framework_report r f =
    let as' = assessments_of f r.assessments in
    record {
      framework = f;
      assessments = as';
      gaps = gaps_of f r.gaps;
      summary = count_controls as' no_counts;
    }
