-- ===== src/Runners/Scan.antt =====
-- internal/pipeline/runner.go: ScanRunner.Run. The scanners and the reporter are functions on the
-- world.
use Prim.Native.String.{◌++◌ as text_append}
use devsec.Base.{
  ◌≡◌, ◌⊎◌, inl, inr, refl, false, List, [], ◌∷◌, String, if◌then◌else◌, text_eq, arith, Bool-cases,
  ◌++◌, ◌≢◌, ◌∙◌, ap, sym, append_assoc, text_eq_iff,
}
use devsec.Base.Int.{ℤ}
use devsec.Model.{Finding}
use devsec.Pipeline.Types.{Stage, stage_get_timeout}
use devsec.Pipeline.Result.{StageResult, findings_artifact, other_artifact}
use devsec.Pipeline.Completed.{Completed, extract_findings, findings_in, find_artifact, findings_of}
use devsec.Pipeline.Runner.{RunnerInput}
use devsec.Runners.Common.{
  Tools, config_value, or_default, Ran, fail, cancel, succeed, IsCoherent, fail-IsCoherent,
  cancel-IsCoherent, succeed-IsCoherent, create_result,
}
use devsec.Runners.Threshold.{FindingCount, count_findings_by_severity}

-- filepath.Abs, with the text of its error; Registry.RunScanner; and ReportFindingCount of the reporter
-- of the input, which does nothing where that is nil.
pub record Scanning (W : Type 0) : Type 0 where
  pub abs : String → W → String ⊎ String
  pub run_scanner : (scanner path : String) → (timeout : ℤ) → W → (String ⊎ List Finding) × W
  pub report_count : FindingCount → W → W

-- The findings of a result stand between those of the results around it.
extract_findings-around :
    (before after : Completed) (n : String) (r : StageResult) (fs : List Finding)
    → findings_in r.artifacts ≡ fs
    → extract_findings (before ++ (n, r) ∷ after)
      ≡ extract_findings before ++ (fs ++ extract_findings after)
unfolding extract_findings
extract_findings-around [] after n r fs own = ap (λ l. l ++ extract_findings after) own
extract_findings-around ((m, q) ∷ before) after n r fs own =
    ap (λ l. findings_in q.artifacts ++ l) (extract_findings-around before after n r fs own)
    ∙ sym (
        append_assoc (findings_in q.artifacts) (extract_findings before)
          (fs ++ extract_findings after))

module _ {W : Type 0} (tools : Tools W) (scanning : Scanning W) (s : Stage) where
  report_findings : List Finding → W → W
  unfolding count_findings_by_severity
  report_findings [] w = w
  report_findings (f ∷ fs) w = scanning.report_count (count_findings_by_severity (f ∷ fs)) w

  -- Behind the scan.
  scanned : String → (String ⊎ List Finding) × W → Ran W
  unfolding fail succeed report_findings
  scanned scanner (inl e, w) =
      fail tools s (text_append (text_append (text_append "scanner " scanner) " failed: ") e) w
  scanned scanner (inr findings, w) =
      succeed tools s
        (("scanner", other_artifact)
          ∷ ("path", other_artifact)
          ∷ ("findings", findings_artifact findings)
          ∷ ("finding_count", other_artifact)
          ∷ [])
        (report_findings findings w)

  scan_path : String → String ⊎ String → W → Ran W
  unfolding fail scanned
  scan_path scanner (inl e) w = fail tools s (text_append "failed to resolve path: " e) w
  scan_path scanner (inr path) w =
      scanned scanner (scanning.run_scanner scanner path (stage_get_timeout s) w)

  -- Behind the test of the context.
  scan_with : String → RunnerInput → W → Ran W
  unfolding fail scan_path config_value or_default
  scan_with scanner input w =
      if text_eq scanner ""
      then fail tools s "scanner type not specified" w
      else scan_path scanner
          (scanning.abs (or_default (config_value "path" s.config) input.work_dir) w) w

  -- ScanRunner.Run
  unfoldable pub run_scan : RunnerInput → W → Ran W
  unfolding cancel scan_with
  run_scan input w =
      if tools.done w then cancel tools s w else scan_with (config_value "scanner" s.config) input w

  scanned-IsCoherent :
      (scanner : String) (o : String ⊎ List Finding) (w : W)
      → IsCoherent tools s (scanned scanner (o, w))
  unfolding scanned
  scanned-IsCoherent scanner (inl e) w = fail-IsCoherent tools s _ w
  scanned-IsCoherent scanner (inr findings) w = succeed-IsCoherent tools s _ _

  scan_path-IsCoherent :
      (scanner : String) (path : String ⊎ String) (w : W)
      → IsCoherent tools s (scan_path scanner path w)
  unfolding scan_path
  scan_path-IsCoherent scanner (inl e) w = fail-IsCoherent tools s _ w
  scan_path-IsCoherent scanner (inr path) w =
      let ran = scanning.run_scanner scanner path (stage_get_timeout s) w in
      scanned-IsCoherent scanner ran.0 ran.1

  -- Whatever the scanner returns, the result of a scan stage is a success exactly when there is no
  -- error.
  pub run_scan-IsCoherent : (input : RunnerInput) (w : W) → IsCoherent tools s (run_scan input w)
  unfolding run_scan scan_with
  run_scan-IsCoherent input w = elim (Bool-cases (tools.done w)) [
    | inl e ↦ rw e (cancel-IsCoherent tools s w)
    | inr e ↦ rw e (elim (Bool-cases (text_eq (config_value "scanner" s.config) "")) [
      | inl none_given ↦ rw none_given (fail-IsCoherent tools s _ w)
      | inr given ↦ rw given (scan_path-IsCoherent (config_value "scanner" s.config) _ w)
    ])
  ]

  scan_path-scanned :
      (scanner path : String) (findings : List Finding) (w : W)
      → (scanning.run_scanner scanner path (stage_get_timeout s) w).0 ≡ inr findings
      → findings_in (scan_path scanner (inr path) w).0.artifacts ≡ findings
  unfolding scan_path findings_in find_artifact findings_of scanned succeed create_result
  scan_path-scanned scanner path findings w e = rw (e, scanned) refl

  -- Where the scanner returns findings, extractFindingsFromCompleted finds exactly these in the result
  -- of the scan stage, whatever the results of other stages: behind the findings of the results that it
  -- meets before, and before those of the results that it meets after. It loses none of them.
  pub run_scan-extract_findings :
      (input : RunnerInput) (path : String) (findings : List Finding) (w : W)
      (before after : Completed)
      → tools.done w ≡ false
      → config_value "scanner" s.config ≢ ""
      → scanning.abs (or_default (config_value "path" s.config) input.work_dir) w ≡ inr path
      → (scanning.run_scanner (config_value "scanner" s.config) path (stage_get_timeout s) w).0
        ≡ inr findings
      → extract_findings (before ++ (s.name, (run_scan input w).0) ∷ after)
        ≡ extract_findings before ++ (findings ++ extract_findings after)
  unfolding run_scan scan_with
  run_scan-extract_findings input path findings w before after live given found scans =
      let test : text_eq (config_value "scanner" s.config) "" ≡ false =
        ground (arith, text_eq_iff (config_value "scanner" s.config) "") in
      let own : findings_in (run_scan input w).0.artifacts ≡ findings =
        rw (live, test, found)
          (scan_path-scanned (config_value "scanner" s.config) path findings w scans) in
      extract_findings-around before after s.name (run_scan input w).0 findings own
