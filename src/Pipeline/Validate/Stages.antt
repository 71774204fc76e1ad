-- ===== src/Pipeline/Validate/Stages.antt =====
-- The loops of Pipeline.Validate over the stages and over their dependencies.
use mathlib.Core.Path.{fun_ext}
use devsec.Base.{
  ◌≡◌, ◌↔◌, refl, Bool, true, false, ◌||◌, Option, none, List, [], ◌∷◌, String, All, arith,
  text_eq_iff, update, has, IsDistinct, subst,
}
use devsec.Pipeline.Types.{Stage, names, PipelineError, duplicate_stage_name}
use devsec.Pipeline.Validate.{
  refuse, or_else, validate_fields, validate_stages, seen_names, validate_deps,
  validate_dependencies,
}
use devsec.Pipeline.Validate.Config.{IsValidStage, validate_fields_iff}

or_else-none : (a b : Option PipelineError) → (or_else a b ≡ none) ↔ ((a ≡ none) × (b ≡ none))
or_else-none a b = ground arith

refuse-none :
    (t : Bool) (e : PipelineError) (b : Option PipelineError)
    → (refuse t e b ≡ none) ↔ ((t ≡ false) × (b ≡ none))
refuse-none t e b = ground arith

abbrev Unseen : (String → Bool) → List Stage → Type 0
Unseen seen ss = All (λ s. seen s.name ≡ false) ss

Unseen-update :
    (seen : String → Bool) (n : String) (ss : List Stage)
    → Unseen (update seen n true) ss ↔ (Unseen seen ss × (has n (names ss) ≡ false))
Unseen-update seen n [] = (λ _. (tt, refl), λ _. tt)
Unseen-update seen n (s ∷ ss) =
    let ih = Unseen-update seen n ss in (λ h. ground (arith, ih.0 h.1), λ h. ground (arith, ih.1))

-- The loop accepts exactly distinct names, none of them seen before, of valid stages.
validate_stages_seen :
    (seen : String → Bool) (ss : List Stage)
    → (validate_stages seen ss ≡ none)
      ↔ (Unseen seen ss × IsDistinct (names ss) × All IsValidStage ss)
unfolding validate_stages
validate_stages_seen seen [] = (λ _. (tt, tt, tt), λ _. refl)
validate_stages_seen seen (s ∷ ss) =
    let ih = validate_stages_seen (update seen s.name true) ss in
    let fresh = Unseen-update seen s.name ss in
    let valid = validate_fields_iff s in
    (
      λ h.
          let (new, rest) = (refuse-none (seen s.name) duplicate_stage_name _).0 h in
          let (ok, others) = (or_else-none (validate_fields s) _).0 rest in
          let (unseen, distinct, all_ok) = ih.0 others in
          let (unseen', absent) = fresh.0 unseen in
          ((new, unseen'), (absent, distinct), (valid.0 ok, all_ok)),
      λ ((new, unseen), (absent, distinct), (ok, all_ok)).
          (refuse-none (seen s.name) duplicate_stage_name _).1 (
            new,
            (or_else-none (validate_fields s) _).1
                (valid.1 ok, ih.1 (fresh.1 (unseen, absent), distinct, all_ok)),
          ),
    )

Unseen-none : (ss : List Stage) → Unseen (λ _. false) ss
Unseen-none [] = tt
Unseen-none (s ∷ ss) = (refl, Unseen-none ss)

pub validate_stages_iff :
    (ss : List Stage)
    → (validate_stages (λ _. false) ss ≡ none) ↔ (IsDistinct (names ss) × All IsValidStage ss)
validate_stages_iff ss =
    let e = validate_stages_seen (λ _. false) ss in
    (λ h. ((e.0 h).1, (e.0 h).2), λ (d, v). e.1 (Unseen-none ss, d, v))

seen_names-has :
    (seen : String → Bool) (ss : List Stage) (j : String)
    → seen_names seen ss j ≡ (seen j || has j (names ss))
unfolding seen_names
seen_names-has seen [] j = ground arith
seen_names-has seen (s ∷ ss) j = ground (arith, seen_names-has (update seen s.name true) ss j)

-- The dependencies of a stage are names of stages, and not its own.
abbrev pub DepsKnown : (String → Bool) → Stage → Type 0
DepsKnown known s = All (λ d. known d ≡ true) s.depends_on × (has s.name s.depends_on ≡ false)

validate_deps_iff :
    (known : String → Bool) (name : String) (ds : List String)
    → (validate_deps known name ds ≡ none) ↔ (All (λ d. known d ≡ true) ds × (has name ds ≡ false))
unfolding validate_deps
validate_deps_iff known name [] = (λ _. (tt, refl), λ _. refl)
validate_deps_iff known name (d ∷ ds) =
    let ih = validate_deps_iff known name ds in
    (λ h. ground (arith, ih.0, text_eq_iff d name), λ h. ground (arith, ih.1, text_eq_iff d name))

validate_dependencies_known :
    (known : String → Bool) (ss : List Stage)
    → (validate_dependencies known ss ≡ none) ↔ All (DepsKnown known) ss
unfolding validate_dependencies
validate_dependencies_known known [] = (λ _. tt, λ _. refl)
validate_dependencies_known known (s ∷ ss) =
    let ih = validate_dependencies_known known ss in
    let deps = validate_deps_iff known s.name s.depends_on in
    (
      λ h.
          let (a, b) = (or_else-none (validate_deps known s.name s.depends_on) _).0 h in
          (deps.0 a, ih.0 b),
      λ (a, b). (or_else-none (validate_deps known s.name s.depends_on) _).1 (deps.1 a, ih.1 b),
    )

pub validate_dependencies_iff :
    (ss : List Stage)
    → (validate_dependencies (seen_names (λ _. false) ss) ss ≡ none)
      ↔ All (DepsKnown (λ j. has j (names ss))) ss
validate_dependencies_iff ss =
    subst
      (λ known.
        (validate_dependencies (seen_names (λ _. false) ss) ss ≡ none) ↔ All (DepsKnown known) ss)
      (fun_ext (seen_names-has (λ _. false) ss))
      (validate_dependencies_known (seen_names (λ _. false) ss) ss)
