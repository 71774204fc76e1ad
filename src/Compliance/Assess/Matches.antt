-- ===== src/Compliance/Assess/Matches.antt =====
-- What the loop of assessControl over the findings keeps.
use devsec.Base.{
  ℕ, if◌then◌else◌, append-nil, append_assoc, suc, ◌+◌, ◌≤◌, ◌≡◌, refl, sym, ◌∙◌, ap, subst, Bool,
  true, false, ◌&&◌, ◌||◌, List, [], ◌∷◌, ◌++◌, String, length, length-append, has, has-append,
  IsDistinct, arith, text_eq, text_eq_iff, Bool-cases, inl, inr,
}
use devsec.Model.{Severity, critical, high}
use devsec.Compliance.Types.{Control, EnrichedFinding}
use devsec.Compliance.Assess.{
  matches, Matched, count_severity, take_match, match_finding, match_all,
}

-- Whether a finding of this name matches the control.
abbrev pub has_match : Control → String → List EnrichedFinding → Bool
has_match c i [] = false
has_match c i (f ∷ fs) = text_eq i f.finding.id && matches c f || has_match c i fs

-- The findings that match the control.
abbrev pub matching : Control → List EnrichedFinding → List EnrichedFinding
matching c [] = []
matching c (f ∷ fs) = let rest = matching c fs in if matches c f then f ∷ rest else rest

-- The first finding of each name, but for the names seen before.
abbrev pub first_of_each : List String → List EnrichedFinding → List EnrichedFinding
first_of_each seen [] = []
first_of_each seen (f ∷ fs) =
    let again = first_of_each seen fs in
    let rest = first_of_each (seen ++ f.finding.id ∷ []) fs in
    if has f.finding.id seen then again else f ∷ rest

abbrev pub ids : List EnrichedFinding → List String
ids [] = []
ids (f ∷ fs) = f.finding.id ∷ ids fs

-- How many findings are of a severity.
abbrev pub criticals : List EnrichedFinding → ℕ
criticals [] = 0
criticals (f ∷ fs) = (elim f.finding.severity [ critical ↦ 1 | _ ↦ 0 ]) + criticals fs

abbrev pub highs : List EnrichedFinding → ℕ
highs [] = 0
highs (f ∷ fs) = (elim f.finding.severity [ high ↦ 1 | _ ↦ 0 ]) + highs fs

IsDistinct-snoc :
    (xs : List String) (x : String) → IsDistinct xs → has x xs ≡ false → IsDistinct (xs ++ x ∷ [])
IsDistinct-snoc [] x d new = (refl, tt)
IsDistinct-snoc (y ∷ xs) x (fresh, d) new = (
  ground
      (arith, has-append x xs (y ∷ []), has-append y xs (x ∷ []), text_eq_iff x y, text_eq_iff y x),
  IsDistinct-snoc xs x d (ground arith),
)

-- The names are distinct, and the counts count some of them.
pub record IsMatched (m : Matched) : Type 0 where
  pub distinct : IsDistinct m.findings
  pub bounded : m.critical_count + m.high_count ≤ length m.findings

count_severity-findings : (s : Severity) (m : Matched) → (count_severity s m).findings ≡ m.findings
unfolding count_severity
count_severity-findings s m = ground arith

count_severity-bound :
    (s : Severity) (m : Matched)
    → (count_severity s m).critical_count + (count_severity s m).high_count
      ≤ suc (m.critical_count + m.high_count)
unfolding count_severity
count_severity-bound s m = ground arith

take_match-has :
    (seen matched : Bool) (f : EnrichedFinding) (m : Matched) (i : String)
    → has f.finding.id m.findings ≡ seen
    → has i (take_match seen matched f m).findings
      ≡ (has i m.findings || (text_eq i f.finding.id && matched))
unfolding take_match
take_match-has true matched f m i e = elim (Bool-cases (text_eq i f.finding.id)) [
  | inl q ↦
      let known = ap (λ x. has x m.findings) ((text_eq_iff i f.finding.id).0 q) ∙ e in ground arith
  | inr q ↦ ground arith
]
take_match-has false false f m i e = ground arith
take_match-has false true f m i e =
    ap (has i) (
      count_severity-findings f.finding.severity
        (record m { findings = m.findings ++ f.finding.id ∷ [] }))
    ∙ has-append i m.findings (f.finding.id ∷ [])
    ∙ ground (arith, text_eq_iff i f.finding.id)

take_match-IsMatched :
    (seen matched : Bool) (f : EnrichedFinding) (m : Matched)
    → has f.finding.id m.findings ≡ seen
    → IsMatched m
    → IsMatched (take_match seen matched f m)
unfolding take_match
take_match-IsMatched true matched f m e k = k
take_match-IsMatched false false f m e k = k
take_match-IsMatched false true f m e k =
    let m' = record m { findings = m.findings ++ f.finding.id ∷ [] } in
    let kept = count_severity-findings f.finding.severity m' in
    record {
      distinct = subst IsDistinct (sym kept) (IsDistinct-snoc m.findings f.finding.id k.distinct e);
      bounded = ground (
        arith,
        k.bounded,
        ap length kept,
        length-append m.findings (f.finding.id ∷ []),
        count_severity-bound f.finding.severity m',
      );
    }

pub match_all-has :
    (c : Control) (fs : List EnrichedFinding) (m : Matched) (i : String)
    → has i (match_all c fs m).findings ≡ (has i m.findings || has_match c i fs)
unfolding match_all match_finding
match_all-has c [] m i = ground arith
match_all-has c (f ∷ fs) m i =
    match_all-has c fs (match_finding c f m) i
    ∙ ground (arith, take_match-has (has f.finding.id m.findings) (matches c f) f m i refl)

pub match_all-IsMatched :
    (c : Control) (fs : List EnrichedFinding) (m : Matched)
    → IsMatched m
    → IsMatched (match_all c fs m)
unfolding match_all match_finding
match_all-IsMatched c [] m k = k
match_all-IsMatched c (f ∷ fs) m k =
    match_all-IsMatched c fs (match_finding c f m)
      (take_match-IsMatched (has f.finding.id m.findings) (matches c f) f m refl k)

-- What the loop has kept behind the findings, of what it kept before.
pub record Keeps (m m' : Matched) (fs : List EnrichedFinding) : Type 0 where
  pub listed : m'.findings ≡ m.findings ++ ids fs
  pub criticals : m'.critical_count ≡ m.critical_count + criticals fs
  pub highs : m'.high_count ≡ m.high_count + highs fs

count_severity-counts :
    (s : Severity) (m : Matched)
    → ((count_severity s m).critical_count ≡ m.critical_count + (elim s [ critical ↦ 1 | _ ↦ 0 ]))
      × ((count_severity s m).high_count ≡ m.high_count + (elim s [ high ↦ 1 | _ ↦ 0 ]))
unfolding count_severity
count_severity-counts s m = (ground arith, ground arith)

count_severity-Keeps :
    (f : EnrichedFinding) (m : Matched)
    → Keeps m
        (count_severity f.finding.severity
          (record m { findings = m.findings ++ f.finding.id ∷ [] }))
        (f ∷ [])
count_severity-Keeps f m =
    let m' : Matched = record m { findings = m.findings ++ f.finding.id ∷ [] } in
    let (c, h) = count_severity-counts f.finding.severity m' in
    record {
      listed = count_severity-findings f.finding.severity m';
      criticals = omega (arith, c);
      highs = omega (arith, h);
    }

Keeps-cons :
    (f : EnrichedFinding) (fs : List EnrichedFinding) (m m' m'' : Matched)
    → Keeps m m' (f ∷ [])
    → Keeps m' m'' fs
    → Keeps m m'' (f ∷ fs)
Keeps-cons f fs m m' m'' k k' = record {
  listed =
      k'.listed
      ∙ ap (λ l. l ++ ids fs) k.listed
      ∙ append_assoc m.findings (f.finding.id ∷ []) (ids fs);
  criticals = omega (arith, k.criticals, k'.criticals);
  highs = omega (arith, k.highs, k'.highs);
}

pub match_all-Keeps :
    (c : Control) (fs : List EnrichedFinding) (m : Matched)
    → Keeps m (match_all c fs m) (first_of_each m.findings (matching c fs))
unfolding match_all match_finding take_match
match_all-Keeps c [] m = record {
  listed = sym (append-nil m.findings);
  criticals = omega arith;
  highs = omega arith;
}
match_all-Keeps c (f ∷ fs) m = elim (Bool-cases (has f.finding.id m.findings)) [
  | inl seen ↦ elim (Bool-cases (matches c f)) [
    | inl on ↦ rw (seen, on, seen) (match_all-Keeps c fs m)
    | inr off ↦ rw (seen, off) (match_all-Keeps c fs m)
  ]
  | inr new ↦ elim (Bool-cases (matches c f)) [
    | inl on ↦
        let m' =
          count_severity f.finding.severity
            (record m { findings = m.findings ++ f.finding.id ∷ [] }) in
        let k = count_severity-Keeps f m in
        rw (new, on, new)
          (Keeps-cons f _ m m' _ k (
            subst (λ l. Keeps m' (match_all c fs m') (first_of_each l (matching c fs))) k.listed
              (match_all-Keeps c fs m')))
    | inr off ↦ rw (new, off) (match_all-Keeps c fs m)
  ]
]
