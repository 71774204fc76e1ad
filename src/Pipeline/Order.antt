-- ===== src/Pipeline/Order.antt =====
-- What an execution order of stages is, independently of the code that computes it.
use devsec.Base.{
  ◌≡◌, sym, subst, true, List, [], ◌∷◌, ◌++◌, String, All, has, append-nil, append_assoc,
}
use devsec.Pipeline.Types.{Stage, names}

-- Every dependency is among `before`.
abbrev pub Satisfied : List String → List String → Type 0
Satisfied before deps = All (λ d. has d before ≡ true) deps

-- Every stage of that name depends only on `before`.
abbrev pub Ready : List Stage → List String → String → Type 0
Ready stages before n = All (λ s. s.name ≡ n → Satisfied before s.depends_on) stages

-- Each name of `order` stands behind the dependencies of the stages that it names.
abbrev pub Respects : List Stage → List String → List String → Type 0
Respects stages before [] = Unit
Respects stages before (n ∷ order) =
    Ready stages before n × Respects stages (before ++ n ∷ []) order

-- Some order of names, among them those of all stages, respects the dependencies.
pub record IsAcyclic (stages : List Stage) : Type 0 where
  pub order : List String
  pub complete : All (λ s. has s.name order ≡ true) stages
  pub respects : Respects stages [] order

-- Every dependency is the name of a stage.
abbrev pub Closed : List Stage → Type 0
Closed stages = All (λ s. Satisfied (names stages) s.depends_on) stages

pub Respects-snoc :
    (stages : List Stage) (before order : List String) (n : String)
    → Respects stages before order
    → Ready stages (before ++ order) n
    → Respects stages before (order ++ n ∷ [])
Respects-snoc stages before [] n r h = (subst (λ l. Ready stages l n) (append-nil before) h, tt)
Respects-snoc stages before (m ∷ order) n r h = (
  r.0,
  Respects-snoc stages (before ++ m ∷ []) order n r.1
      (subst (λ l. Ready stages l n) (sym (append_assoc before (m ∷ []) order)) h),
)
