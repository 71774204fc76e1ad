-- ===== src/Pipeline/Cycle.antt =====
-- internal/pipeline/pipeline.go, hasCycle and hasCycleDFS: the search for a circular dependency.
-- The adjacency list, `visited` and `recStack` are Go maps whose missing keys read as nil and false.
-- `none` means that the fuel, which bounds the depth of the recursion, has run out.
pub mod Path
pub mod Outcome
pub mod Edges
pub mod Laws
pub mod NoPath
use devsec.Base.{
  ℕ, zero, suc, ◌+◌, Bool, true, false, Option, none, some, List, [], ◌∷◌, String, length, update,
  if◌then◌else◌, string_discrete,
}
use devsec.Pipeline.Types.{Stage}

abbrev pub Graph : Type 0
Graph = String → List String

-- The first loop of hasCycle.
unfoldable pub build_graph : Graph → List Stage → Graph
build_graph g [] = g
build_graph g (s ∷ ss) = build_graph (update g s.name s.depends_on) ss

pub record Marks : Type 0 where
  pub visited : String → Bool
  pub rec_stack : String → Bool

-- The loop over the neighbours, which stops at the first cycle found. `search` is the recursive call.
pub search_neighbors :
    (String → Marks → Option (Bool × Marks)) → List String → Marks → Option (Bool × Marks)
search_neighbors search [] m = some (false, m)
search_neighbors search (n ∷ ns) m = elim (search n m) [
  | none ↦ none
  | some (true, m') ↦ some (true, m')
  | some (false, m') ↦ search_neighbors search ns m'
]

enter : String → Marks → Marks
enter node m = record {
  visited = update m.visited node true;
  rec_stack = update m.rec_stack node true;
}

leave : String → Marks → Marks
leave node m = record m { rec_stack = update m.rec_stack node false }

finish : String → Option (Bool × Marks) → Option (Bool × Marks)
unfolding leave
finish node none = none
finish node (some (true, m)) = some (true, m)
finish node (some (false, m)) = some (false, leave node m)

unfoldable pub has_cycle_dfs : Graph → ℕ → String → Marks → Option (Bool × Marks)
unfolding search_neighbors enter finish string_discrete
has_cycle_dfs g zero node m = none
has_cycle_dfs g (suc fuel) node m =
    let below = finish node (search_neighbors (has_cycle_dfs g fuel) (g node) (enter node m)) in
    if m.rec_stack node then some (true, m) else if m.visited node then some (false, m) else below

-- The loop over the keys of the graph, in the order in which Go meets them.
unfoldable pub search_keys : Graph → ℕ → List String → Marks → Option Bool
search_keys g fuel [] m = some false
search_keys g fuel (n ∷ ns) m = elim (has_cycle_dfs g fuel n m) [
  | none ↦ none
  | some (true, m') ↦ some true
  | some (false, m') ↦ search_keys g fuel ns m'
]

abbrev pub unmarked : Marks
unmarked = record { visited = λ _. false; rec_stack = λ _. false }

-- hasCycle, with the order in which the loop over the map meets its keys.
unfoldable pub has_cycle : List String → List Stage → Option Bool
unfolding build_graph search_keys has_cycle_dfs
has_cycle keys stages = search_keys (build_graph (λ _. []) stages) (length stages + 1) keys unmarked
