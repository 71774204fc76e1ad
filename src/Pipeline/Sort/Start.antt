-- ===== src/Pipeline/Sort/Start.antt =====
-- topologicalSort from its first queue to its last test.
use mathlib.Core.List.{filter}
use mathlib.Core.Bool.{Bool-discrete}
use mathlib.Core.List.Perm
use devsec.Base.{
  suc, ◌+◌, ◌≡◌, refl, true, false, some, List, [], ◌∷◌, String, has, length, arith, IsDistinct,
  update, ap, Perm, subst,
}
use devsec.Base.Int.{pos, is_zero}
use devsec.Pipeline.Types.{Stage, names}
use devsec.Pipeline.Order.{Respects}
use devsec.Pipeline.Sort.{
  InDegree, build_in_degree, initial_queue, check_complete, topological_sort,
}
use devsec.Pipeline.Sort.Pending.{pending, Tracks}
use devsec.Pipeline.Sort.Settled.{settled, Inv, drain_lem, length-settled-le}

pending-nil : (ds : List String) → pending [] ds ≡ length ds
pending-nil [] = refl
pending-nil (d ∷ ds) = ap suc (pending-nil ds)

build_in_degree-absent :
    (d : InDegree) (ss : List Stage) (j : String)
    → has j (names ss) ≡ false
    → build_in_degree d ss j ≡ d j
unfolding build_in_degree
build_in_degree-absent d [] j h = refl
build_in_degree-absent d (s ∷ ss) j h =
    ground (arith, build_in_degree-absent (update d s.name (pos (length s.depends_on))) ss j)

build_in_degree-Tracks :
    (d : InDegree) (ss : List Stage) → IsDistinct (names ss) → Tracks (build_in_degree d ss) [] ss
unfolding build_in_degree
build_in_degree-Tracks d [] u = tt
build_in_degree-Tracks d (s ∷ ss) u =
    let d' = update d s.name (pos (length s.depends_on)) in
    (
      ground (arith, build_in_degree-absent d' ss s.name u.0, pending-nil s.depends_on),
      build_in_degree-Tracks d' ss u.1,
    )

initial_queue-names :
    (d : InDegree) (ss : List Stage) → Tracks d [] ss → initial_queue d (names ss) ≡ settled [] ss
unfolding initial_queue
initial_queue-names d [] t = refl
initial_queue-names d (s ∷ ss) t = ground (arith, initial_queue-names d ss t.1)

initial_queue-filter :
    (d : InDegree) (ns : List String)
    → initial_queue d ns ≡ filter (λ n. Bool-discrete (is_zero (d n)) true) ns
unfolding initial_queue
initial_queue-filter d [] = refl
initial_queue-filter d (n ∷ ns) = ground (arith, initial_queue-filter d ns)

initial_queue-perm :
    (d : InDegree) {xs ys : List String}
    → Perm xs ys
    → Perm (initial_queue d xs) (initial_queue d ys)
initial_queue-perm d {xs} {ys} p =
    rw (initial_queue-filter d xs, initial_queue-filter d ys)
      (Perm.filter (λ n. Bool-discrete (is_zero (d n)) true) p)

initial_Inv :
    (keys : List String) (stages : List Stage)
    → IsDistinct (names stages)
    → Perm keys (names stages)
    → let d = build_in_degree (λ _. pos 0) stages in Inv stages d (initial_queue d keys) []
initial_Inv keys stages u p =
    let d = build_in_degree (λ _. pos 0) stages in
    let t = build_in_degree-Tracks (λ _. pos 0) stages u in
    record {
      tracks = t;
      perm =
          subst (Perm (initial_queue d keys)) (initial_queue-names d stages t)
            (initial_queue-perm d p);
      respects = tt;
    }

pub settled_all :
    (done : List String) (ss : List Stage)
    → length (settled done ss) ≡ length ss
    → settled done ss ≡ names ss
settled_all done [] h = refl
settled_all done (s ∷ ss) h = ground (arith, settled_all done ss, length-settled-le done ss)

-- The order that the loop ends with.
abbrev pub Drained : List String → List Stage → Type 0
Drained keys stages =
    (order : List String) × (topological_sort keys stages ≡ check_complete stages (some order))
    × Perm order (settled order stages)
    × Respects stages [] order

pub topological_sort-Drained :
    (keys : List String) (stages : List Stage)
    → IsDistinct (names stages)
    → Perm keys (names stages)
    → Drained keys stages
unfolding topological_sort
topological_sort-Drained keys stages u p =
    let d = build_in_degree (λ _. pos 0) stages in
    let (order, e, perm, r) =
      drain_lem stages u (length stages + 1) d (initial_queue d keys) [] (omega arith)
        (initial_Inv keys stages u p) in
    (order, ap (check_complete stages) e, perm, r)
