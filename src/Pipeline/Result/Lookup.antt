-- ===== src/Pipeline/Result/Lookup.antt =====
-- Looking a stage up by name.
use mathlib.Core.Bool.{false≢true}
use devsec.Base.{
  ◌≡◌, true, some, List, [], ◌∷◌, String, text_eq, text_eq_iff, has, arith, Bool-cases, inl, inr,
  refl,
}
use devsec.Pipeline.Types.{Stage, Pipeline, names}
use devsec.Pipeline.Result.{get_stage, get_stage_in}

get_stage_in-has :
    (ss : List Stage) (n : String)
    → has n (names ss) ≡ true
    → (s : Stage) × (get_stage_in ss n ≡ some s)
unfolding get_stage_in
get_stage_in-has [] n h = absurd (false≢true h)
get_stage_in-has (s ∷ ss) n h = elim (Bool-cases (text_eq s.name n)) [
  | inl e ↦ (s, rw e refl)
  | inr e ↦ let (r, q) = get_stage_in-has ss n (ground (arith, text_eq_iff s.name n)) in (r, rw e q)
]

-- GetStage finds a stage of each name that the pipeline has.
pub get_stage-has :
    (p : Pipeline) (n : String)
    → has n (names p.stages) ≡ true
    → (s : Stage) × (get_stage p n ≡ some s)
unfolding get_stage
get_stage-has p n h = get_stage_in-has p.stages n h

get_stage_in-name :
    (ss : List Stage) (n : String) (s : Stage) → get_stage_in ss n ≡ some s → s.name ≡ n
unfolding get_stage_in
get_stage_in-name [] n s h = ground arith
get_stage_in-name (t ∷ ss) n s h = ground (arith, get_stage_in-name ss n s, text_eq_iff t.name n)

pub get_stage-name : (p : Pipeline) (n : String) (s : Stage) → get_stage p n ≡ some s → s.name ≡ n
unfolding get_stage
get_stage-name p n s h = get_stage_in-name p.stages n s h
