-- ===== src/Compliance/Mapper.antt =====
-- internal/compliance/mapper.go and framework.go: DefaultMapper, which enriches findings and maps them
-- to controls. `order` is the order in which a loop meets the members of a set. `stopped n` is the
-- test of the context in the loop's round n.
pub mod Laws
use devsec.Base.{
  ℕ, ◌+◌, Bool, true, false, Option, none, some, List, [], ◌∷◌, ◌++◌, String, length, if◌then◌else◌,
  text_eq, has, ltb, inl, inr, ◌⊎◌,
}
use devsec.Model.{Finding}
use devsec.Compliance.Types.{Control, EnrichedFinding, ControlAssessment}
use devsec.Compliance.Assess.{assess_framework}
use devsec.Compliance.Extract.{extract_cwe_from_string, extract_cve_from_string}
use devsec.Compliance.Cwe.{ControlRef, ref_key, CweMapper, get_controls}

abbrev pub max_findings : ℕ
max_findings = 100000

pub record Framework : Type 0 where
  pub id : String
  pub controls : List Control
  pub categories : List String

-- Framework.AddControl
unfoldable pub add_control : Control → Framework → Framework
add_control c f = record f { controls = f.controls ++ (record c { framework = f.id }) ∷ [] }

unfoldable pub find_control : String → List Control → Option Control
find_control id [] = none
find_control id (c ∷ cs) = if text_eq c.id id then some c else find_control id cs

-- Framework.GetControl
unfoldable pub get_control : String → Framework → Option Control
unfolding find_control
get_control id f = find_control id f.controls

-- Framework.GetControlsByCategory
unfoldable pub get_controls_by_category : String → List Control → List Control
get_controls_by_category category [] = []
get_controls_by_category category (c ∷ cs) =
    let rest = get_controls_by_category category cs in
    if text_eq c.category category then c ∷ rest else rest

-- Framework.GetControlsByCWE
unfoldable pub get_controls_by_cwe : String → List Control → List Control
get_controls_by_cwe cwe [] = []
get_controls_by_cwe cwe (c ∷ cs) =
    let rest = get_controls_by_cwe cwe cs in if has cwe c.cwe_mappings then c ∷ rest else rest

-- set[name] = true
unfoldable pub insert : String → List String → List String
insert name names = if has name names then names else names ++ name ∷ []

-- A name found by the extraction, which returns the empty text for none.
unfoldable pub insert_found : String → List String → List String
unfolding insert
insert_found found names = if text_eq found "" then names else insert found names

-- m.frameworks[id]
unfoldable pub find_framework : String → List (String × Framework) → Option Framework
find_framework id [] = none
find_framework id ((k, f) ∷ fs) = if text_eq k id then some f else find_framework id fs

-- SupportedFrameworks
abbrev pub supported_frameworks : List String
supported_frameworks = "soc2" ∷ "iso27001" ∷ "gdpr" ∷ []

pub data MapperError : Type 0 where
  nil_context findings_limit_exceeded enriched_limit_exceeded context_error : MapperError

-- m.result[id] = assessments
set_assessments :
    String
    → List ControlAssessment
    → List (String × List ControlAssessment)
    → List (String × List ControlAssessment)
set_assessments id as' [] = (id, as') ∷ []
set_assessments id as' ((k, bs) ∷ m) =
    if text_eq k id then (id, as') ∷ m else (k, bs) ∷ set_assessments id as' m

unfoldable pub insert_refs : List ControlRef → List String → List String
unfolding insert
insert_refs [] keys = keys
insert_refs (r ∷ rs) keys = insert_refs rs (insert (ref_key r) keys)

module _ (fold : String → String) (cwes : CweMapper) where
  unfoldable pub insert_all : List String → List String → List String
  unfolding insert_refs get_controls
  insert_all [] keys = keys
  insert_all (cwe ∷ ids) keys = insert_all ids (insert_refs (get_controls fold cwe cwes) keys)

module _ (order : List String → List String) where
  -- extractCWEsFromFinding
  unfoldable pub extract_cwes_from_finding : Finding → List String
  unfolding insert_found extract_cwe_from_string
  extract_cwes_from_finding f = order (
      insert_found (extract_cwe_from_string f.description)
        (insert_found (extract_cwe_from_string f.rule) []))

  -- extractCVEsFromFinding
  unfoldable pub extract_cves_from_finding : Finding → List String
  unfolding insert_found extract_cve_from_string
  extract_cves_from_finding f = order (
      insert_found (extract_cve_from_string f.description) (
        insert_found (extract_cve_from_string f.id)
          (insert_found (extract_cve_from_string f.rule) [])))

  module _ (fold : String → String) (cwes : CweMapper) where
    -- mapCWEsToControls
    unfoldable pub map_cwes_to_controls : List String → List String
    unfolding insert_all
    map_cwes_to_controls ids = order (insert_all fold cwes ids [])

    -- The body of the loop of Enrich. Without a weakness, the controls stay nil.
    unfoldable pub enrich_finding : Finding → EnrichedFinding
    unfolding extract_cwes_from_finding extract_cves_from_finding map_cwes_to_controls
    enrich_finding f =
        let ids = extract_cwes_from_finding f in
        record {
          control_ids = if ltb 0 (length ids) then map_cwes_to_controls ids else [];
          cwe_ids = ids;
          cve_ids = extract_cves_from_finding f;
          finding = f;
        }

    unfoldable pub enrich_from :
        (stopped : ℕ → Bool) → ℕ → List Finding → Option (List EnrichedFinding)
    unfolding enrich_finding
    enrich_from stopped n [] = some []
    enrich_from stopped n (f ∷ fs) =
        let rest = enrich_from stopped (n + 1) fs in
        if stopped n
        then none
        else elim rest [ none ↦ none | some es ↦ some (enrich_finding f ∷ es) ]

    -- Enrich. A nil slice is the empty one among the findings, and none in the result.
    unfoldable pub enrich :
        (context_is_nil : Bool)
        → (stopped : ℕ → Bool) → List Finding
        → MapperError ⊎ Option (List EnrichedFinding)
    unfolding enrich_from
    enrich true stopped fs = inl nil_context
    enrich false stopped [] = inr none
    enrich false stopped (f ∷ fs) =
        if ltb max_findings (length (f ∷ fs))
        then inl findings_limit_exceeded
        else elim (enrich_from stopped 0 (f ∷ fs)) [
          | none ↦ inl context_error
          | some es ↦ inr (some es)
        ]

-- The body of the loop of MapToControls.
assess_one :
    Option Framework
    → String
    → List EnrichedFinding
    → List (String × List ControlAssessment)
    → List (String × List ControlAssessment)
unfolding set_assessments assess_framework
assess_one none id es m = m
assess_one (some f) id es m = set_assessments id (assess_framework f.controls es) m

map_from :
    (stopped : ℕ → Bool)
    → List (String × Framework)
    → ℕ
    → List String
    → List EnrichedFinding
    → List (String × List ControlAssessment)
    → MapperError ⊎ List (String × List ControlAssessment)
unfolding assess_one find_framework
map_from stopped fs n [] es m = inr m
map_from stopped fs n (id ∷ ids) es m =
    let rest = map_from stopped fs (n + 1) ids es (assess_one (find_framework id fs) id es m) in
    if stopped n then inl context_error else rest

or_supported : List String → List String
or_supported [] = supported_frameworks
or_supported (id ∷ ids) = id ∷ ids

-- MapToControls. `none` is the nil slice of findings.
unfoldable pub map_to_controls :
    (context_is_nil : Bool)
    → (stopped : ℕ → Bool) → List (String × Framework)
    → Option (List EnrichedFinding)
    → List String
    → MapperError ⊎ List (String × List ControlAssessment)
unfolding map_from or_supported
map_to_controls true stopped fs es ids = inl nil_context
map_to_controls false stopped fs none ids = inr []
map_to_controls false stopped fs (some es) ids =
    if ltb max_findings (length es)
    then inl enriched_limit_exceeded
    else map_from stopped fs 0 (or_supported ids) es []

-- GetControlByID
unfoldable pub get_control_by_id : List (String × Framework) → String → String → Option Control
unfolding find_framework get_control
get_control_by_id fs framework id =
    if text_eq framework ""
    then none
    else if text_eq id ""
    then none
    else elim (find_framework framework fs) [ none ↦ none | some f ↦ get_control id f ]

-- ListControls
unfoldable pub list_controls : List (String × Framework) → String → List Control
unfolding find_framework
list_controls fs framework =
    if text_eq framework ""
    then []
    else elim (find_framework framework fs) [ none ↦ [] | some f ↦ f.controls ]
