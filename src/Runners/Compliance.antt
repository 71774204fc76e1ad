-- ===== src/Runners/Compliance.antt =====
-- internal/pipeline/runner.go: ComplianceRunner.Run, which enriches the findings and assesses the
-- frameworks. `errors` are the texts of the mapper's errors.
use Prim.Native.String.{◌++◌ as text_append}
use devsec.Base.{
  ℕ, ◌⊎◌, inl, inr, Bool, false, List, [], ◌∷◌, String, Bool-cases, Option, map, if◌then◌else◌,
}
use devsec.Pipeline.Types.{Stage}
use devsec.Pipeline.Result.{Artifact, other_artifact}
use devsec.Pipeline.Runner.{RunnerInput}
use devsec.Compliance.Types.{EnrichedFinding, ControlAssessment}
use devsec.Compliance.Cwe.{CweMapper}
use devsec.Compliance.Mapper.{Framework, MapperError, enrich, map_to_controls}
use devsec.Runners.Common.{
  Tools, config_value, or_default, Ran, fail, cancel, succeed, IsCoherent, fail-IsCoherent,
  cancel-IsCoherent, succeed-IsCoherent,
}
use devsec.Runners.Frameworks.{FrameworkId, framework_text, parse_frameworks}

-- strings.Split at commas and ToLower with TrimSpace; ToUpper with TrimSpace; the order of a set's
-- iteration; the test of the context in the rounds of both loops of the mapper; and the mapper.
pub record Mapping : Type 0 where
  pub split : String → List String
  pub lower : String → String
  pub upper : String → String
  pub order : List String → List String
  pub stopped : ℕ → Bool
  pub frameworks : List (String × Framework)
  pub cwes : CweMapper
  pub error_text : MapperError → String

module _ {W : Type 0} (tools : Tools W) (m : Mapping) (s : Stage) where
  artifacts : List (String × Artifact)
  artifacts =
      ("frameworks", other_artifact)
      ∷ ("framework_ids", other_artifact)
      ∷ ("assessments", other_artifact)
      ∷ ("enriched_findings", other_artifact)
      ∷ ("summary", other_artifact)
      ∷ []

  assessed : MapperError ⊎ List (String × List ControlAssessment) → W → Ran W
  unfolding fail succeed artifacts
  assessed (inl e) w = fail tools s (text_append "failed to map to controls: " (m.error_text e)) w
  assessed (inr assessments) w = succeed tools s artifacts w

  enriched : List FrameworkId → MapperError ⊎ Option (List EnrichedFinding) → W → Ran W
  unfolding fail assessed map_to_controls framework_text
  enriched ids (inl e) w =
      fail tools s (text_append "failed to enrich findings: " (m.error_text e)) w
  enriched ids (inr es) w =
      assessed (map_to_controls false m.stopped m.frameworks es (map framework_text ids)) w

  assess : List FrameworkId → RunnerInput → W → Ran W
  unfolding fail enriched enrich
  assess [] input w = fail tools s "no valid frameworks specified" w
  assess (id ∷ ids) input w =
      enriched (id ∷ ids) (enrich m.order m.upper m.cwes false m.stopped input.findings) w

  -- ComplianceRunner.Run
  unfoldable pub run_compliance : RunnerInput → W → Ran W
  unfolding cancel assess parse_frameworks config_value or_default
  run_compliance input w =
      if tools.done w
      then cancel tools s w
      else assess
          (parse_frameworks m.split m.lower
            (or_default (config_value "frameworks" s.config) "soc2,iso27001,gdpr"))
          input w

  assessed-IsCoherent :
      (o : MapperError ⊎ List (String × List ControlAssessment)) (w : W)
      → IsCoherent tools s (assessed o w)
  unfolding assessed
  assessed-IsCoherent (inl e) w = fail-IsCoherent tools s _ w
  assessed-IsCoherent (inr assessments) w = succeed-IsCoherent tools s artifacts w

  enriched-IsCoherent :
      (ids : List FrameworkId) (o : MapperError ⊎ Option (List EnrichedFinding)) (w : W)
      → IsCoherent tools s (enriched ids o w)
  unfolding enriched
  enriched-IsCoherent ids (inl e) w = fail-IsCoherent tools s _ w
  enriched-IsCoherent ids (inr es) w = assessed-IsCoherent _ w

  assess-IsCoherent :
      (ids : List FrameworkId) (input : RunnerInput) (w : W)
      → IsCoherent tools s (assess ids input w)
  unfolding assess
  assess-IsCoherent [] input w = fail-IsCoherent tools s _ w
  assess-IsCoherent (id ∷ ids) input w =
      enriched-IsCoherent (id ∷ ids) (enrich m.order m.upper m.cwes false m.stopped input.findings)
        w

  -- The result of a compliance stage is a success exactly when there is no error.
  pub run_compliance-IsCoherent :
      (input : RunnerInput) (w : W) → IsCoherent tools s (run_compliance input w)
  unfolding run_compliance
  run_compliance-IsCoherent input w = elim (Bool-cases (tools.done w)) [
    | inl e ↦ rw e (cancel-IsCoherent tools s w)
    | inr e ↦ rw e (
        assess-IsCoherent
          (parse_frameworks m.split m.lower
            (or_default (config_value "frameworks" s.config) "soc2,iso27001,gdpr"))
          input w)
  ]
