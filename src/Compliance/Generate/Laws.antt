-- ===== src/Compliance/Generate/Laws.antt =====
-- The reports of the generator hold the assessments and the gaps they are made from.
use devsec.Base.{
  ℕ, ◌+◌, ◌≡◌, ◌≤◌, ◌<◌, refl, sym, ap, ◌∙◌, true, false, Bool, inl, inr, List, [], ◌∷◌, ◌++◌,
  String, length, length-append, append-nil, append_assoc, if◌then◌else◌, text_eq, text_eq_iff,
  arith, leb, ltb, Bool-cases, All, IsDistinct, has, Perm,
}
use devsec.Compliance.Types.{ControlAssessment, Gap, max_gaps}
use devsec.Compliance.Gap.Laws.{all_gaps, analyze-all_gaps, analyze-bound}
use devsec.Compliance.Book.{
  Book, new_report, max_assessments, assessments_of, append_assessment, add_assessment, add_gap,
  calculate_summary, statuses, all_assessments, calculate_summary-Adds,
}
use devsec.Compliance.Generate.{
  Assessments, limited, add_assessments, add_frameworks, add_gaps, with_gaps, report_of,
  generate_from_assessments,
}

assessments_of-append_assessment :
    (f g : String) (a : ControlAssessment) (m : Assessments)
    → assessments_of g (append_assessment f a m)
      ≡ (if text_eq f g then assessments_of g m ++ a ∷ [] else assessments_of g m)
unfolding assessments_of append_assessment
assessments_of-append_assessment f g a [] = refl
assessments_of-append_assessment f g a ((k, as') ∷ m) = ground (
  arith,
  assessments_of-append_assessment f g a m,
  text_eq_iff k f,
  text_eq_iff k g,
  text_eq_iff f g,
)

add_assessment-room :
    (f : String) (a : ControlAssessment) (r : Book)
    → text_eq f "" ≡ false
    → length (assessments_of f r.assessments) < max_assessments
    → add_assessment f a r ≡ record r { assessments = append_assessment f a r.assessments }
unfolding add_assessment
add_assessment-room f a r named room =
    let free : leb max_assessments (length (assessments_of f r.assessments)) ≡ false =
      ground arith in
    rw (named, free) refl

-- The assessments of a named framework are all added, behind those that the report has, if there is
-- room for them; those of the other frameworks stay.
pub add_assessments-assessments_of :
    (f g : String) (as' : List ControlAssessment) (r : Book)
    → text_eq f "" ≡ false
    → length (assessments_of f r.assessments) + length as' ≤ max_assessments
    → assessments_of g (add_assessments f as' r).assessments ≡ (
        if text_eq f g
        then assessments_of g r.assessments ++ as'
        else assessments_of g r.assessments)
unfolding add_assessments
add_assessments-assessments_of f g [] r named room = elim (Bool-cases (text_eq f g)) [
  | inl e ↦ rw e (sym (append-nil (assessments_of g r.assessments)))
  | inr e ↦ rw e refl
]
add_assessments-assessments_of f g (a ∷ as') r named room =
    let r' : Book = record r { assessments = append_assessment f a r.assessments } in
    let here = assessments_of-append_assessment f f a r.assessments in
    let there = assessments_of-append_assessment f g a r.assessments in
    let longer : length (assessments_of f r'.assessments)
        ≡ length (assessments_of f r.assessments) + 1 =
      rw (here, (text_eq_iff f f).1 refl)
        (length-append (assessments_of f r.assessments) (a ∷ [])) in
    let rest = add_assessments-assessments_of f g as' r' named (omega (arith, longer, room)) in
    ap (λ b. assessments_of g (add_assessments f as' b).assessments)
      (add_assessment-room f a r named (omega (arith, room)))
    ∙ rest
    ∙ elim (Bool-cases (text_eq f g)) [
      | inl e ↦ rw (e, there, e) (append_assoc (assessments_of g r.assessments) (a ∷ []) as')
      | inr e ↦ rw (e, there, e) refl
    ]

abbrev pub keys : Assessments → List String
keys [] = []
keys ((f, as') ∷ m) = f ∷ keys m

-- A framework has a name, and no more assessments than the limit.
abbrev pub Fits : Assessments → Type 0
Fits = All (λ e. (text_eq e.0 "" ≡ false) × (length e.1 ≤ max_assessments))

assessments_of-absent :
    (f : String) (m : Assessments) → has f (keys m) ≡ false → assessments_of f m ≡ []
unfolding assessments_of
assessments_of-absent f [] h = refl
assessments_of-absent f ((k, as') ∷ m) h =
    ground (arith, assessments_of-absent f m, text_eq_iff k f)

limited-short : {A : Type 0} (n : ℕ) (xs : List A) → length xs ≤ n → limited n xs ≡ xs
unfolding limited
limited-short n xs h = let short : ltb n (length xs) ≡ false = ground arith in rw short refl

-- Frameworks that the report does not have yet are all added.
add_frameworks-assessments_of :
    (m : Assessments) (r : Book) (g : String)
    → IsDistinct (keys m)
    → Fits m
    → ((f : String) → has f (keys m) ≡ true → assessments_of f r.assessments ≡ [])
    → assessments_of g (add_frameworks m r).assessments
      ≡ assessments_of g r.assessments ++ assessments_of g m
unfolding add_frameworks assessments_of
add_frameworks-assessments_of [] r g d fits new = sym (append-nil (assessments_of g r.assessments))
add_frameworks-assessments_of ((f, as') ∷ m) r g (absent, d) ((named, short), fits) new =
    let r' = add_assessments f as' r in
    let empty : assessments_of f r.assessments ≡ [] = new f (ground (arith, text_eq_iff f f)) in
    let added : (k : String)
        → assessments_of k r'.assessments ≡ (
            if text_eq f k
            then assessments_of k r.assessments ++ as'
            else assessments_of k r.assessments) =
      λ k. add_assessments-assessments_of f k as' r named (omega (arith, ap length empty, short)) in
    let new' : (k : String) → has k (keys m) ≡ true → assessments_of k r'.assessments ≡ [] = λ k h.
      let other : text_eq f k ≡ false = ground (arith, text_eq_iff f k) in
      added k ∙ rw other (new k (ground (arith, h))) in
    let none_left : text_eq f g ≡ true → assessments_of g m ≡ [] =
      λ e. assessments_of-absent g m (ground (arith, text_eq_iff f g)) in
    ap (λ xs. assessments_of g (add_frameworks m (add_assessments f xs r)).assessments)
      (limited-short max_assessments as' short)
    ∙ add_frameworks-assessments_of m r' g d fits new'
    ∙ elim (Bool-cases (text_eq f g)) [
      | inl e ↦ rw (added g, e, none_left e) (append-nil (assessments_of g r.assessments ++ as'))
      | inr e ↦ rw (added g, e) refl
    ]

add_assessments-gaps :
    (f : String) (as' : List ControlAssessment) (r : Book) → (add_assessments f as' r).gaps ≡ r.gaps
unfolding add_assessments add_assessment
add_assessments-gaps f [] r = refl
add_assessments-gaps f (a ∷ as') r =
    add_assessments-gaps f as' (add_assessment f a r) ∙ elim (Bool-cases (text_eq f "")) [
      | inl e ↦ rw e refl
      | inr e ↦ elim (Bool-cases (leb max_assessments (length (assessments_of f r.assessments)))) [
        | inl full ↦ rw (e, full) refl
        | inr room ↦ rw (e, room) refl
      ]
    ]

add_frameworks-gaps : (m : Assessments) (r : Book) → (add_frameworks m r).gaps ≡ r.gaps
unfolding add_frameworks
add_frameworks-gaps [] r = refl
add_frameworks-gaps ((f, as') ∷ m) r =
    add_frameworks-gaps m (add_assessments f (limited max_assessments as') r)
    ∙ add_assessments-gaps f (limited max_assessments as') r

add_gaps-append :
    (gs : List Gap) (r : Book)
    → length r.gaps + length gs ≤ max_gaps
    → add_gaps gs r ≡ record r { gaps = r.gaps ++ gs }
unfolding add_gaps add_gap
add_gaps-append [] r room = ap (λ gs. record r { gaps = gs }) (sym (append-nil r.gaps))
add_gaps-append (g ∷ gs) r room =
    let free : leb max_gaps (length r.gaps) ≡ false = ground arith in
    let r' : Book = record r { gaps = r.gaps ++ g ∷ [] } in
    rw free (
      add_gaps-append gs r' (omega (arith, length-append r.gaps (g ∷ []), room))
      ∙ ap (λ l. record r { gaps = l }) (append_assoc r.gaps (g ∷ []) gs))

module _ (sort : List Gap → List Gap) (order order' : Assessments → Assessments)
    (cancelled : ℕ → Bool) where
  -- What the report of assessments is to hold.
  pub record IsReportOf (include_gaps : Bool) (m : Assessments) (b : Book) : Type 0 where
    pub assessed : (f : String) → assessments_of f b.assessments ≡ assessments_of f (order m)
    pub gaps : b.gaps ≡ (if include_gaps then sort (all_gaps (order' m)) else [])
    pub counted : statuses b.summary.overall ≡ all_assessments b.assessments

  -- Within the limits and without a cancellation, GenerateFromAssessments returns a report that holds
  -- the assessments of each framework, in order, the gaps of all of them, sorted, if they are asked
  -- for, and a summary whose statuses add up to all assessments.
  pub generate_from_assessments-IsReportOf :
      (include_gaps : Bool) (m : Assessments)
      → IsDistinct (keys (order m))
      → Fits (order m)
      → ((gs : List Gap) → Perm (sort gs) gs)
      → ((i : ℕ) → cancelled i ≡ false)
      → length (all_gaps (order' m)) ≤ max_gaps
      → (b : Book) × (generate_from_assessments sort order order' cancelled include_gaps false false
            m
          ≡ inr b)
        × IsReportOf include_gaps m b
  unfolding generate_from_assessments report_of with_gaps assessments_of
  generate_from_assessments-IsReportOf false m d fits perm live few =
      let r = add_frameworks (order m) new_report in
      let (adds, counted, total, same, gaps) = calculate_summary-Adds r in
      (
        calculate_summary r,
        refl,
        record {
          assessed = λ f.
              ap (assessments_of f) same
              ∙ add_frameworks-assessments_of (order m) new_report f d fits (λ k h. refl);
          gaps = gaps ∙ add_frameworks-gaps (order m) new_report;
          counted = counted ∙ ap all_assessments (sym same);
        },
      )
  generate_from_assessments-IsReportOf true m d fits perm live few =
      let gs = sort (all_gaps (order' m)) in
      let found = analyze-all_gaps sort cancelled (order' m) live few in
      let bound = analyze-bound sort cancelled (order' m) gs perm found in
      let r = add_frameworks (order m) new_report in
      let none_yet = add_frameworks-gaps (order m) new_report in
      let r' = add_gaps (limited max_gaps gs) r in
      let whole : r' ≡ record r { gaps = r.gaps ++ gs } =
        ap (λ l. add_gaps l r) (limited-short max_gaps gs bound)
        ∙ add_gaps-append gs r (omega (arith, ap length none_yet, bound)) in
      let (adds, counted, total, same, gaps) = calculate_summary-Adds r' in
      (
        calculate_summary r',
        rw found refl,
        record {
          assessed = λ f.
              ap (assessments_of f) same
              ∙ ap (λ b. assessments_of f b.assessments) whole
              ∙ add_frameworks-assessments_of (order m) new_report f d fits (λ k h. refl);
          gaps = gaps ∙ ap (λ b. b.gaps) whole ∙ ap (λ l. l ++ gs) none_yet;
          counted = counted ∙ ap all_assessments (sym same);
        },
      )
