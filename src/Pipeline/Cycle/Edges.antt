-- ===== src/Pipeline/Cycle/Edges.antt =====
-- The graph that hasCycle builds holds exactly the dependencies of the stages.
use mathlib.Core.Bool.{false≢true}
use devsec.Base.{
  ◌≡◌, ◌⊎◌, refl, true, false, List, [], ◌∷◌, ◌++◌, String, has, update, All, string_discrete,
  arith, subst, sym, ap, inl, inr, ◌∙◌, IsDistinct,
}
use devsec.Pipeline.Types.{Stage, names}
use devsec.Pipeline.Order.{Satisfied, Ready, Respects}
use devsec.Pipeline.Cycle.{Graph, build_graph}
use devsec.Pipeline.Cycle.Path.{Reach, edge, step, Ranks}

-- One of the stages of name `a` depends on `b`.
abbrev pub DependsOn : List Stage → String → String → Type 0
DependsOn [] a b = ⊥
DependsOn (s ∷ ss) a b = ((s.name ≡ a) × (has b s.depends_on ≡ true)) ⊎ DependsOn ss a b

-- A chain of one or more dependencies.
pub data DependsPath (stages : List Stage) (a : String) : String → Type 0 where
  direct : {b : String} → DependsOn stages a b → DependsPath stages a b
  further : {b c : String} → DependsPath stages a b → DependsOn stages b c → DependsPath stages a c

build_graph-edge :
    (g : Graph) (ss : List Stage) (a b : String)
    → has b (build_graph g ss a) ≡ true
    → DependsOn ss a b ⊎ (has b (g a) ≡ true)
unfolding build_graph
build_graph-edge g [] a b h = inr h
build_graph-edge g (s ∷ ss) a b h =
    elim (build_graph-edge (update g s.name s.depends_on) ss a b h) [
      | inl d ↦ inl (inr d)
      | inr e ↦ elim (string_discrete a s.name) [
        | yes q ↦ inl (inl (sym q, ground arith))
        | no ne ↦ inr (ground arith)
      ]
    ]

edge-DependsOn :
    (ss : List Stage) (a b : String) → has b (build_graph (λ _. []) ss a) ≡ true → DependsOn ss a b
edge-DependsOn ss a b h = elim (build_graph-edge (λ _. []) ss a b h) [
  | inl d ↦ d
  | inr e ↦ absurd (false≢true e)
]

pub Reach-DependsPath :
    (ss : List Stage) {a b : String} → Reach (build_graph (λ _. []) ss) a b → DependsPath ss a b
Reach-DependsPath ss (edge h) = direct (edge-DependsOn ss _ _ h)
Reach-DependsPath ss (step r h) = further (Reach-DependsPath ss r) (edge-DependsOn ss _ _ h)

build_graph-absent :
    (g : Graph) (ss : List Stage) (j : String) → has j (names ss) ≡ false → build_graph g ss j ≡ g j
unfolding build_graph
build_graph-absent g [] j h = refl
build_graph-absent g (s ∷ ss) j h =
    ground (arith, build_graph-absent (update g s.name s.depends_on) ss j)

-- The graph holds the dependencies of each stage.
abbrev pub Holds : Graph → List Stage → Type 0
Holds g ss = All (λ s. g s.name ≡ s.depends_on) ss

pub build_graph-Holds :
    (g : Graph) (ss : List Stage) → IsDistinct (names ss) → Holds (build_graph g ss) ss
unfolding build_graph
build_graph-Holds g [] u = tt
build_graph-Holds g (s ∷ ss) u =
    let g' = update g s.name s.depends_on in
    (ground (arith, build_graph-absent g' ss s.name u.0), build_graph-Holds g' ss u.1)

Ready-of_Satisfied :
    (g : Graph) (ss : List Stage) (before : List String) (n : String)
    → Holds g ss
    → Satisfied before (g n)
    → Ready ss before n
Ready-of_Satisfied g [] before n h sat = tt
Ready-of_Satisfied g (s ∷ ss) before n h sat = (
  λ e. subst (Satisfied before) (ap g (sym e) ∙ h.0) sat,
  Ready-of_Satisfied g ss before n h.1 sat,
)

pub Respects_of_Ranks :
    (g : Graph) (ss : List Stage) (before rest : List String)
    → Holds g ss
    → Ranks g before rest
    → Respects ss before rest
Respects_of_Ranks g ss before [] h r = tt
Respects_of_Ranks g ss before (n ∷ rest) h r =
    (Ready-of_Satisfied g ss before n h r.0, Respects_of_Ranks g ss (before ++ n ∷ []) rest h r.1)

pub Closed_graph :
    (g : Graph) (ks : List String) (ss : List Stage)
    → Holds g ss
    → All (λ s. Satisfied ks s.depends_on) ss
    → (k : String) → has k (names ss) ≡ true
    → Satisfied ks (g k)
Closed_graph g ks [] h c k m = absurd (false≢true m)
Closed_graph g ks (s ∷ ss) h c k m = elim (string_discrete k s.name) [
  | yes e ↦ subst (Satisfied ks) (sym (ap g e ∙ h.0)) c.0
  | no ne ↦ Closed_graph g ks ss h.1 c.1 k (ground arith)
]
