-- ===== src/Runners/Markdown.antt =====
-- internal/pipeline/runner.go, formatMarkdown: the report as a text. `decimal` is the verb %d.
use Prim.Native.String.{◌++◌ as text_append}
use devsec.Base.{ℕ, List, [], ◌∷◌, ◌++◌, String}
use devsec.Model.{Finding, Summary}
use devsec.Report.Aggregator.{Aggregate}
use devsec.Report.Severities.{severity_text}

-- The texts one behind the other.
concat : List String → String
concat [] = ""
concat (t ∷ ts) = text_append t (concat ts)

line : List String → String
unfolding concat
line ts = concat (ts ++ "\n" ∷ [])

module _ (decimal : ℕ → String) where
  count_line : String → ℕ → String
  unfolding line
  count_line label n = line ("- " ∷ label ∷ ": " ∷ decimal n ∷ [])

  summary_text : Summary → String
  unfolding count_line concat
  summary_text s = concat (
      count_line "Total" s.total
      ∷ count_line "Critical" s.critical
      ∷ count_line "High" s.high
      ∷ count_line "Medium" s.medium
      ∷ count_line "Low" s.low
      ∷ count_line "Info" s.info
      ∷ "\n"
      ∷ [])

  finding_text : Finding → String
  unfolding line concat severity_text
  finding_text f = concat (
      line ("### " ∷ f.title ∷ "\n" ∷ [])
      ∷ line ("- **Severity**: " ∷ severity_text f.severity ∷ [])
      ∷ line ("- **Rule**: " ∷ f.rule ∷ [])
      ∷ line ("- **File**: " ∷ f.location.file ∷ ":" ∷ decimal f.location.start_line ∷ [])
      ∷ line ("- **Description**: " ∷ f.description ∷ "\n" ∷ [])
      ∷ [])

  finding_texts : List Finding → String
  unfolding finding_text
  finding_texts [] = ""
  finding_texts (f ∷ fs) = text_append (finding_text f) (finding_texts fs)

  findings_text : List Finding → String
  unfolding finding_texts
  findings_text [] = ""
  findings_text (f ∷ fs) = text_append "## Findings\n\n" (finding_texts (f ∷ fs))

  -- formatMarkdown
  unfoldable pub format_markdown : (timestamp : String) → Aggregate → String
  unfolding concat line summary_text findings_text
  format_markdown timestamp report = concat (
      "# Security Report\n\n"
      ∷ line ("Generated: " ∷ timestamp ∷ "\n" ∷ [])
      ∷ "## Summary\n\n"
      ∷ summary_text report.summary
      ∷ findings_text report.findings
      ∷ [])
