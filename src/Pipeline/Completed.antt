-- ===== src/Pipeline/Completed.antt =====
-- internal/pipeline/executor.go: the results of the stages so far, and the findings in them.
use devsec.Base.{Option, none, some, List, [], ◌∷◌, ◌++◌, String, if◌then◌else◌, text_eq}
use devsec.Model.{Finding}
use devsec.Pipeline.Result.{
  Item, finding_item, other_item, Artifact, findings_artifact, items_artifact, other_artifact,
  StageResult,
}

-- The map `completed`: the latest result of each name.
abbrev pub Completed : Type 0
Completed = List (String × StageResult)

-- completed[name] = result
unfoldable pub set_completed : String → StageResult → Completed → Completed
set_completed n r [] = (n, r) ∷ []
set_completed n r ((m, q) ∷ c) = if text_eq m n then (n, r) ∷ c else (m, q) ∷ set_completed n r c

abbrev pub completed_names : Completed → List String
completed_names [] = []
completed_names ((n, r) ∷ c) = n ∷ completed_names c

unfoldable pub find_artifact : String → List (String × Artifact) → Option Artifact
find_artifact key [] = none
find_artifact key ((k, a) ∷ as') = if text_eq k key then some a else find_artifact key as'

unfoldable pub findings_of_items : List Item → List Finding
findings_of_items [] = []
findings_of_items (finding_item f ∷ items) = f ∷ findings_of_items items
findings_of_items (other_item ∷ items) = findings_of_items items

unfoldable pub findings_of : Option Artifact → List Finding
unfolding findings_of_items
findings_of none = []
findings_of (some (findings_artifact fs)) = fs
findings_of (some (items_artifact items)) = findings_of_items items
findings_of (some other_artifact) = []

unfoldable pub findings_in : Option (List (String × Artifact)) → List Finding
unfolding find_artifact findings_of
findings_in none = []
findings_in (some artifacts) = findings_of (find_artifact "findings" artifacts)

-- extractFindingsFromCompleted, over the results in the order in which the loop meets them.
unfoldable pub extract_findings : Completed → List Finding
unfolding findings_in
extract_findings [] = []
extract_findings ((n, r) ∷ c) = findings_in r.artifacts ++ extract_findings c
