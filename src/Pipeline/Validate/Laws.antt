-- ===== src/Pipeline/Validate/Laws.antt =====
-- Pipeline.Validate accepts exactly the well-formed pipelines, and those can be ordered.
use Prim.Native.String.{len}
use devsec.Base.{
  ◌≤◌, ◌<◌, ◌≡◌, ◌≢◌, ◌↔◌, Bool, false, Option, none, some, List, [], ◌∷◌, String, All, length,
  arith, ltb, text_eq, text_eq_iff, has, IsDistinct, Perm, inl, inr, ap, ◌==◌,
}
use devsec.Pipeline.Types.{
  Stage, names, Pipeline, PipelineError, max_pipeline_name_len, max_stages, max_metadata_entries,
}
use devsec.Pipeline.Order.{Satisfied, Closed, IsAcyclic, Respects}
use devsec.Pipeline.Sort.{sorted, topological_sort}
use devsec.Pipeline.Sort.Laws.{topological_sort_complete, topological_sort_sound}
use devsec.Pipeline.Cycle.{has_cycle}
use devsec.Pipeline.Cycle.Laws.{has_cycle_decides}
use devsec.Pipeline.Cycle.NoPath.{IsAcyclic-DependsPath}
use devsec.Pipeline.Validate.{
  refuse, or_else, validate_stages, seen_names, validate_dependencies, refuse_cycle, validate,
}
use devsec.Pipeline.Validate.Config.{IsValidStage}
use devsec.Pipeline.Validate.Stages.{validate_stages_iff, validate_dependencies_iff, DepsKnown}

pub record IsWellFormed (p : Pipeline) : Type 0 where
  pub named : p.name ≢ ""
  pub name_within : len p.name ≤ max_pipeline_name_len
  pub some_stage : 0 < length p.stages
  pub stages_within : length p.stages ≤ max_stages
  pub metadata_within : length p.metadata ≤ max_metadata_entries
  pub distinct : IsDistinct (names p.stages)
  pub stages_valid : All IsValidStage p.stages
  pub deps_known : All (DepsKnown (λ j. has j (names p.stages))) p.stages
  pub acyclic : IsAcyclic p.stages

Closed_of_DepsKnown :
    (known : List String) (ss : List Stage)
    → All (DepsKnown (λ j. has j known)) ss
    → All (λ s. Satisfied known s.depends_on) ss
Closed_of_DepsKnown known [] h = tt
Closed_of_DepsKnown known (s ∷ ss) h = (h.0.0, Closed_of_DepsKnown known ss h.1)

module _ (keys : List String) (ss : List Stage) (distinct : IsDistinct (names ss))
    (perm : Perm keys (names ss)) (closed : Closed ss) where
  refuse_cycle_sound : refuse_cycle (has_cycle keys ss) ≡ none → IsAcyclic ss
  unfolding refuse_cycle
  refuse_cycle_sound h = elim (has_cycle_decides keys ss distinct perm closed) [
    | inl (x, e, path) ↦ cc (ap refuse_cycle e)
    | inr (e, acyclic) ↦ acyclic
  ]

  refuse_cycle_complete : IsAcyclic ss → refuse_cycle (has_cycle keys ss) ≡ none
  unfolding refuse_cycle
  refuse_cycle_complete acyclic = elim (has_cycle_decides keys ss distinct perm closed) [
    | inl (x, e, path) ↦ absurd (IsAcyclic-DependsPath ss acyclic x path)
    | inr (e, _) ↦ ap refuse_cycle e
  ]

-- The checks of Pipeline.Validate in their order, the loops left whole.
abbrev Checks : List String → Pipeline → Type 0
Checks keys p =
    (text_eq p.name "" ≡ false)
    × (ltb max_pipeline_name_len (len p.name) ≡ false)
    × ((length p.stages == 0) ≡ false)
    × (ltb max_stages (length p.stages) ≡ false)
    × (ltb max_metadata_entries (length p.metadata) ≡ false)
    × (validate_stages (λ _. false) p.stages ≡ none)
    × (validate_dependencies (seen_names (λ _. false) p.stages) p.stages ≡ none)
    × (refuse_cycle (has_cycle keys p.stages) ≡ none)

ladder :
    (a b c d e : Bool) (x y z w v : PipelineError) (f g h : Option PipelineError)
    → (refuse a x (refuse b y (refuse c z (refuse d w (refuse e v (or_else f (or_else g h))))))
        ≡ none)
      ↔ ((a ≡ false)
          × (b ≡ false)
          × (c ≡ false)
          × (d ≡ false)
          × (e ≡ false)
          × (f ≡ none)
          × (g ≡ none)
          × (h ≡ none))
ladder a b c d e x y z w v f g h = ground arith

validate-Checks :
    (keys : List String) (p : Pipeline) → (validate keys (some p) ≡ none) ↔ Checks keys p
unfolding validate
validate-Checks keys p = ladder _ _ _ _ _ _ _ _ _ _ _ _ _

text_eq-false : (s t : String) → s ≢ t → text_eq s t ≡ false
text_eq-false s t h = ground (arith, text_eq_iff s t)

-- Pipeline.Validate accepts a pipeline exactly when it is well formed: its name, the number of its
-- stages and its metadata are within the limits, the names of its stages are distinct, each stage is
-- valid, each dependency names another stage, and some order of the stages respects them all. This
-- holds whatever the order in which hasCycle meets the keys of its graph, the names of the stages.
pub validate_iff :
    (keys : List String) (p : Pipeline)
    → Perm keys (names p.stages)
    → (validate keys (some p) ≡ none) ↔ IsWellFormed p
validate_iff keys p perm = (sound, complete)
  where
    sound : validate keys (some p) ≡ none → IsWellFormed p
    sound h =
        let c = (validate-Checks keys p).0 h in
        let stages_ok = (validate_stages_iff p.stages).0 c.5 in
        let known = (validate_dependencies_iff p.stages).0 c.6 in
        record {
          named = λ e. cc ((text_eq_iff p.name "").1 e, c.0);
          name_within = ground arith;
          some_stage = ground arith;
          stages_within = ground arith;
          metadata_within = ground arith;
          distinct = stages_ok.0;
          stages_valid = stages_ok.1;
          deps_known = known;
          acyclic =
              refuse_cycle_sound keys p.stages stages_ok.0 perm
                (Closed_of_DepsKnown (names p.stages) p.stages known) c.7;
        }

    complete : IsWellFormed p → validate keys (some p) ≡ none
    complete w = (validate-Checks keys p).1 (
      text_eq-false p.name "" w.named,
      ground arith,
      ground arith,
      ground arith,
      ground arith,
      (validate_stages_iff p.stages).1 (w.distinct, w.stages_valid),
      (validate_dependencies_iff p.stages).1 w.deps_known,
      refuse_cycle_complete keys p.stages w.distinct perm
          (Closed_of_DepsKnown (names p.stages) p.stages w.deps_known) w.acyclic,
    )

-- A pipeline that Pipeline.Validate accepts is ordered by topologicalSort: it returns an order that
-- holds each stage once, behind its dependencies, whatever the iteration orders of the two maps.
pub validate-topological_sort :
    (keys keys' : List String) (p : Pipeline)
    → Perm keys (names p.stages)
    → Perm keys' (names p.stages)
    → validate keys (some p) ≡ none
    → (order : List String) × (topological_sort keys' p.stages ≡ sorted order)
      × Perm order (names p.stages)
      × Respects p.stages [] order
validate-topological_sort keys keys' p perm perm' h =
    let w = (validate_iff keys p perm).0 h in
    let closed = Closed_of_DepsKnown (names p.stages) p.stages w.deps_known in
    let (order, e) = topological_sort_complete keys' p.stages w.distinct perm' closed w.acyclic in
    let (once, behind) = topological_sort_sound keys' p.stages order w.distinct perm' e in
    (order, e, once, behind)
