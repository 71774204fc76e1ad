-- ===== src/Report/Severities/Laws.antt =====
-- Normalized severities, and the counts of a summary.
use devsec.Base.{
  ℕ, suc, ◌+◌, ◌≡◌, refl, ◌∙◌, ap, Bool, true, false, List, [], ◌∷◌, String, length, arith,
  if◌then◌else◌, inl, inr, ◌⊎◌,
}
use devsec.Model.{Finding, Severity, critical, high, medium, low, info, other, Summary}
use devsec.Report.Severities.{
  severity_text, severity_of_text, normalize_severity, count_severity, count_all, calculate_summary,
}

abbrev pub is_named : Severity → Bool
is_named (other s) = false
is_named _ = true

severity_of_text-cases :
    (s : String) → (is_named (severity_of_text s) ≡ true) ⊎ (severity_of_text s ≡ other s)
unfolding severity_of_text
severity_of_text-cases s = ground arith

-- The findings that no count of a summary holds.
abbrev pub unnamed : List Finding → ℕ
unnamed [] = 0
unnamed (f ∷ fs) = if is_named f.severity then unnamed fs else suc (unnamed fs)

record Adds (s s' : Summary) (fs : List Finding) : Type 0 where
  total : s'.total ≡ s.total
  all :
      s'.critical + s'.high + s'.medium + s'.low + s'.info + unnamed fs
      ≡ s.critical + s.high + s.medium + s.low + s.info + length fs

count_all-Adds : (fs : List Finding) (s : Summary) → Adds s (count_all fs s) fs
unfolding count_all count_severity
count_all-Adds [] s = record { total = refl; all = ground arith }
count_all-Adds (f ∷ fs) s =
    let rest = count_all-Adds fs (count_severity f.severity s) in
    record { total = rest.total ∙ ground arith; all = ground (arith, rest.all) }

-- What a summary says of the findings.
pub record IsCounted (s : Summary) (fs : List Finding) : Type 0 where
  pub total : s.total ≡ length fs
  pub all : s.critical + s.high + s.medium + s.low + s.info + unnamed fs ≡ s.total

-- A summary counts all findings, and its counts by severity together miss only the findings whose
-- severity is none of the five constants.
pub calculate_summary-IsCounted : (fs : List Finding) → IsCounted (calculate_summary fs) fs
unfolding calculate_summary
calculate_summary-IsCounted fs =
    let counted =
      count_all-Adds fs
        (record { total = length fs; critical = 0; high = 0; medium = 0; low = 0; info = 0 }) in
    record { total = counted.total; all = ground (arith, counted.all, counted.total) }

module _ (fold : String → String) where
  named-normalize :
      (s : Severity)
      → ((t : Severity) → is_named t ≡ true → fold (severity_text t) ≡ severity_text t)
      → is_named s ≡ true
      → normalize_severity fold s ≡ s
  unfolding normalize_severity severity_text severity_of_text
  named-normalize critical plain named = ap severity_of_text (plain critical refl)
  named-normalize high plain named = ap severity_of_text (plain high refl)
  named-normalize medium plain named = ap severity_of_text (plain medium refl)
  named-normalize low plain named = ap severity_of_text (plain low refl)
  named-normalize info plain named = ap severity_of_text (plain info refl)
  named-normalize (other s) plain named = cc

  text_of_other :
      (t : String) → severity_of_text (fold (severity_text (other t))) ≡ severity_of_text (fold t)
  unfolding severity_text
  text_of_other t = refl

  kept :
      (s : Severity)
      → is_named (severity_of_text (fold (severity_text s))) ≡ true
      → is_named (normalize_severity fold s) ≡ true
  unfolding normalize_severity
  kept s named = named

  other-normalize :
      (s : Severity)
      → ((t : String) → fold (fold t) ≡ fold t)
      → severity_of_text (fold (severity_text s)) ≡ other (fold (severity_text s))
      → normalize_severity fold (normalize_severity fold s) ≡ normalize_severity fold s
  unfolding normalize_severity
  other-normalize s twice same =
      let text = fold (severity_text s) in
      ap (λ x. severity_of_text (fold (severity_text x))) same
      ∙ text_of_other text
      ∙ ap severity_of_text (twice (severity_text s))

  -- If folding a text twice is folding it once, and the names of the five severities are folded, then
  -- normalizing a severity twice is normalizing it once.
  pub normalize_severity-idempotent :
      (s : Severity)
      → ((t : String) → fold (fold t) ≡ fold t)
      → ((t : Severity) → is_named t ≡ true → fold (severity_text t) ≡ severity_text t)
      → normalize_severity fold (normalize_severity fold s) ≡ normalize_severity fold s
  normalize_severity-idempotent s twice plain =
      elim (severity_of_text-cases (fold (severity_text s))) [
        | inl named ↦ named-normalize (normalize_severity fold s) plain (kept s named)
        | inr same ↦ other-normalize s twice same
      ]
