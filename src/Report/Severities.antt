-- ===== src/Report/Severities.antt =====
-- internal/report/aggregator.go: normalizeSeverity and calculateSummary. `fold` is ToLower of
-- TrimSpace on texts.
pub mod Laws
use devsec.Base.{◌+◌, ◌||◌, List, [], ◌∷◌, String, length, if◌then◌else◌, text_eq}
use devsec.Model.{Finding, Severity, critical, high, medium, low, info, other, Summary}

-- The text of a severity.
unfoldable pub severity_text : Severity → String
severity_text critical = "critical"
severity_text high = "high"
severity_text medium = "medium"
severity_text low = "low"
severity_text info = "info"
severity_text (other s) = s

-- The switch on the folded text. The empty text and any other are left to `default`.
unfoldable pub severity_of_text : String → Severity
severity_of_text s =
    if text_eq s "critical" || text_eq s "crit"
    then critical
    else if text_eq s "high" || text_eq s "error"
    then high
    else if text_eq s "medium" || text_eq s "med" || text_eq s "moderate" || text_eq s "warning"
    then medium
    else if text_eq s "low"
    then low
    else if text_eq s "info" || text_eq s "informational" || text_eq s "note"
    then info
    else if text_eq s ""
    then info
    else other s

-- normalizeSeverity
unfoldable pub normalize_severity : (fold : String → String) → Severity → Severity
unfolding severity_text severity_of_text
normalize_severity fold s = severity_of_text (fold (severity_text s))

-- normalizeSeverities
unfoldable pub normalize_severities : (fold : String → String) → List Finding → List Finding
unfolding normalize_severity
normalize_severities fold [] = []
normalize_severities fold (f ∷ fs) =
    record f { severity = normalize_severity fold f.severity } ∷ normalize_severities fold fs

-- The switch of calculateSummary on a severity.
count_severity : Severity → Summary → Summary
count_severity critical s = record s { critical = s.critical + 1 }
count_severity high s = record s { high = s.high + 1 }
count_severity medium s = record s { medium = s.medium + 1 }
count_severity low s = record s { low = s.low + 1 }
count_severity info s = record s { info = s.info + 1 }
count_severity (other _) s = s

count_all : List Finding → Summary → Summary
unfolding count_severity
count_all [] s = s
count_all (f ∷ fs) s = count_all fs (count_severity f.severity s)

-- calculateSummary
unfoldable pub calculate_summary : List Finding → Summary
unfolding count_all
calculate_summary fs =
    count_all fs
      (record { total = length fs; critical = 0; high = 0; medium = 0; low = 0; info = 0 })
