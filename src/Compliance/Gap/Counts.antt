-- ===== src/Compliance/Gap/Counts.antt =====
-- The counts in a summary of gaps.
use devsec.Base.{
  ℕ, suc, ◌+◌, ◌≡◌, refl, ◌∙◌, List, [], ◌∷◌, String, length, arith, text_eq, text_eq_iff,
  if◌then◌else◌,
}
use devsec.Compliance.Types.{Gap}
use devsec.Compliance.Gap.{
  GapSummary, count_framework, tally_severity, tally_gap, tally_gaps, summarize_gaps,
  get_critical_gaps, get_high_gaps,
}

-- The count of a framework in a summary, 0 without an entry.
abbrev pub count_of : String → List (String × ℕ) → ℕ
count_of f [] = 0
count_of f ((g, n) ∷ m) = if text_eq g f then n else count_of f m

-- The gaps of a framework.
abbrev pub gaps_in : String → List Gap → ℕ
gaps_in f [] = 0
gaps_in f (g ∷ gs) =
    let rest = gaps_in f gs in if text_eq g.control.framework f then suc rest else rest

count_of-count_framework :
    (f g : String) (m : List (String × ℕ))
    → count_of f (count_framework g m) ≡ (if text_eq g f then suc (count_of f m) else count_of f m)
unfolding count_framework
count_of-count_framework f g [] = ground arith
count_of-count_framework f g ((h, n) ∷ m) =
    ground
      (arith, count_of-count_framework f g m, text_eq_iff g f, text_eq_iff h g, text_eq_iff h f)

record Adds (s s' : GapSummary) (gs : List Gap) : Type 0 where
  total : s'.total_gaps ≡ s.total_gaps
  criticals : s'.critical_count ≡ s.critical_count + length (get_critical_gaps gs)
  highs :
      s'.critical_count + s'.high_count
      ≡ s.critical_count + s.high_count + length (get_high_gaps gs)
  all :
      s'.critical_count + s'.high_count + s'.medium_count + s'.low_count
      ≡ s.critical_count + s.high_count + s.medium_count + s.low_count + length gs
  by_framework :
      (f : String) → count_of f s'.by_framework ≡ count_of f s.by_framework + gaps_in f gs

tally_gaps-Adds : (gs : List Gap) (s : GapSummary) → Adds s (tally_gaps gs s) gs
unfolding tally_gaps tally_gap tally_severity get_critical_gaps get_high_gaps
tally_gaps-Adds [] s = record {
  total = refl;
  criticals = ground arith;
  highs = ground arith;
  all = ground arith;
  by_framework = λ f. ground arith;
}
tally_gaps-Adds (g ∷ gs) s =
    let rest = tally_gaps-Adds gs (tally_gap g s) in
    record {
      total = rest.total ∙ ground arith;
      criticals = ground (arith, rest.criticals);
      highs = ground (arith, rest.highs);
      all = ground (arith, rest.all);
      by_framework = λ f. ground (
        arith,
        rest.by_framework f,
        count_of-count_framework f g.control.framework s.by_framework,
      );
    }

-- What a summary says of the gaps.
pub record IsGapSummary (s : GapSummary) (gs : List Gap) : Type 0 where
  pub total : s.total_gaps ≡ length gs
  pub criticals : s.critical_count ≡ length (get_critical_gaps gs)
  pub highs : s.critical_count + s.high_count ≡ length (get_high_gaps gs)
  pub all : s.critical_count + s.high_count + s.medium_count + s.low_count ≡ s.total_gaps
  pub by_framework : (f : String) → count_of f s.by_framework ≡ gaps_in f gs

-- A summary of gaps counts all of them. Its counts by severity agree with the lists of the critical
-- and of the high gaps and add up to the total, and its count for each framework is that of the gaps
-- of the framework.
pub summarize_gaps-IsGapSummary : (gs : List Gap) → IsGapSummary (summarize_gaps gs) gs
unfolding summarize_gaps
summarize_gaps-IsGapSummary gs =
    let counted = tally_gaps-Adds gs (record {
      by_framework = [];
      total_gaps = length gs;
      critical_count = 0;
      high_count = 0;
      medium_count = 0;
      low_count = 0;
    }) in
    record {
      total = counted.total;
      criticals = ground (arith, counted.criticals);
      highs = ground (arith, counted.highs);
      all = ground (arith, counted.all, counted.total);
      by_framework = λ f. ground (arith, counted.by_framework f);
    }
