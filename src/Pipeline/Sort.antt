-- ===== src/Pipeline/Sort.antt =====
-- internal/pipeline/executor.go, topologicalSort: the execution order of the stages.
-- `keys` is the order in which the loop over the in-degree map meets its keys.
pub mod Pending
pub mod Settled
pub mod Start
pub mod Laws
use devsec.Base.{
  ℕ, zero, suc, ◌+◌, Option, none, some, List, [], ◌∷◌, ◌++◌, String, length, update, if◌then◌else◌,
  string_discrete, ite, ◌==◌,
}
use devsec.Base.Int.{ℤ, pos, decrement, is_zero}
use devsec.Pipeline.Types.{Stage}

abbrev pub InDegree : Type 0
InDegree = String → ℤ

-- The first loop: the number of dependencies of each stage.
pub build_in_degree : InDegree → List Stage → InDegree
build_in_degree d [] = d
build_in_degree d (s ∷ ss) = build_in_degree (update d s.name (pos (length s.depends_on))) ss

-- The second loop: the stages that can run first.
pub initial_queue : InDegree → List String → List String
initial_queue d [] = []
initial_queue d (n ∷ ns) = if is_zero (d n) then n ∷ initial_queue d ns else initial_queue d ns

pub record Progress : Type 0 where
  pub in_degree : InDegree
  pub queue : List String

-- The body of the innermost loop, for a stage `name` that depends on the finished node.
release : String → Progress → Progress
release name p =
    let d = update p.in_degree name (decrement (p.in_degree name)) in
    record { in_degree = d; queue = if is_zero (d name) then p.queue ++ name ∷ [] else p.queue }

visit_deps : (node name : String) → List String → Progress → Progress
unfolding release string_discrete
visit_deps node name [] p = p
visit_deps node name (dep ∷ deps) p =
    visit_deps node name deps (ite (string_discrete dep node) (release name p) p)

pub visit_stages : String → List Stage → Progress → Progress
unfolding visit_deps
visit_stages node [] p = p
visit_stages node (s ∷ ss) p = visit_stages node ss (visit_deps node s.name s.depends_on p)

-- The loop that empties the queue. `none` means that the fuel has run out.
pub drain : ℕ → List Stage → InDegree → List String → List String → Option (List String)
unfolding visit_stages
drain zero stages d queue order = none
drain (suc fuel) stages d [] order = some order
drain (suc fuel) stages d (node ∷ queue) order =
    let p = visit_stages node stages (record { in_degree = d; queue = queue }) in
    drain fuel stages p.in_degree p.queue (order ++ node ∷ [])

pub data Sorted : Type 0 where
  out_of_fuel : Sorted
  circular : Sorted
  sorted : List String → Sorted

-- The last test: `circular` is ErrCircularDependency.
pub check_complete : List Stage → Option (List String) → Sorted
check_complete stages none = out_of_fuel
check_complete stages (some order) =
    if length order == length stages then sorted order else circular

unfoldable pub topological_sort : List String → List Stage → Sorted
unfolding build_in_degree initial_queue drain check_complete string_discrete
topological_sort keys stages =
    let d = build_in_degree (λ _. pos 0) stages in
    check_complete stages (drain (length stages + 1) stages d (initial_queue d keys) [])
