-- ===== src/Pipeline/Parallel/Ready.antt =====
-- What findReadyStages finds, and what launching a stage does to the pending ones.
use devsec.Base.{
  ◌≡◌, refl, true, false, ◌&&◌, List, [], ◌∷◌, String, has, arith, string_discrete, ite, Bool-cases,
  inl, inr, All, IsDistinct,
}
use devsec.Pipeline.Types.{Pipeline}
use devsec.Pipeline.Order.{Satisfied}
use devsec.Pipeline.Completed.{Completed, completed_names}
use devsec.Pipeline.Parallel.{deps_of, find_ready_stages, all_deps_complete, delete}
use devsec.Pipeline.Parallel.Keeps.{MayStart}

pub all_deps_complete-Satisfied :
    (c : Completed) (ds : List String)
    → all_deps_complete c ds ≡ true
    → Satisfied (completed_names c) ds
unfolding all_deps_complete
all_deps_complete-Satisfied c [] h = tt
all_deps_complete-Satisfied c (d ∷ ds) h =
    (ground arith, all_deps_complete-Satisfied c ds (ground arith))

pub all_deps_complete-of_Satisfied :
    (c : Completed) (ds : List String)
    → Satisfied (completed_names c) ds
    → all_deps_complete c ds ≡ true
unfolding all_deps_complete
all_deps_complete-of_Satisfied c [] h = refl
all_deps_complete-of_Satisfied c (d ∷ ds) (h, hs) = rw h (all_deps_complete-of_Satisfied c ds hs)

find_ready_stages-has :
    (n : String) (ks : List String) (deps : String → List String) (c : Completed)
    → has n (find_ready_stages ks deps c) ≡ true
    → has n ks ≡ true
unfolding find_ready_stages
find_ready_stages-has n [] deps c h = h
find_ready_stages-has n (k ∷ ks) deps c h = ground (arith, find_ready_stages-has n ks deps c)

pub find_ready_stages-IsDistinct :
    (ks : List String) (deps : String → List String) (c : Completed)
    → IsDistinct ks
    → IsDistinct (find_ready_stages ks deps c)
unfolding find_ready_stages
find_ready_stages-IsDistinct [] deps c d = tt
find_ready_stages-IsDistinct (k ∷ ks) deps c (new, d) =
    let rest = find_ready_stages-IsDistinct ks deps c d in
    elim (Bool-cases (all_deps_complete c (deps k))) [
      | inl e ↦ rw e (ground (arith, find_ready_stages-has k ks deps c), rest)
      | inr e ↦ rw e rest
    ]

-- Every stage found may be launched.
pub find_ready_stages-MayStart :
    (p : Pipeline) (ks pending : List String) (c : Completed)
    → ((n : String) → has n ks ≡ true → has n pending ≡ true)
    → All (MayStart p c pending) (find_ready_stages ks (deps_of p.stages) c)
unfolding find_ready_stages
find_ready_stages-MayStart p [] pending c in_pending = tt
find_ready_stages-MayStart p (k ∷ ks) pending c in_pending =
    let rest = find_ready_stages-MayStart p ks pending c (λ n h. in_pending n (ground arith)) in
    elim (Bool-cases (all_deps_complete c (deps_of p.stages k))) [
      | inl e ↦ rw e (
        (in_pending k (ground arith), all_deps_complete-Satisfied c (deps_of p.stages k) e),
        rest,
      )
      | inr e ↦ rw e rest
    ]

pub has-delete :
    (m n : String) (xs : List String)
    → has m (delete n xs) ≡ (ite (string_discrete m n) false true && has m xs)
unfolding delete
has-delete m n [] = ground arith
has-delete m n (x ∷ xs) = ground (arith, has-delete m n xs)

pub IsDistinct-delete : (n : String) (xs : List String) → IsDistinct xs → IsDistinct (delete n xs)
unfolding delete
IsDistinct-delete n [] d = tt
IsDistinct-delete n (x ∷ xs) (new, d) =
    elim (string_discrete x n) as (λ e. IsDistinct (ite e (delete n xs) (x ∷ delete n xs))) [
      | yes e ↦ IsDistinct-delete n xs d
      | no ne ↦ (ground (arith, has-delete x n xs), IsDistinct-delete n xs d)
    ]

-- The stages behind the one that is launched can still be launched.
pub MayStart-delete :
    (p : Pipeline) (c : Completed) (n : String) (pending ready : List String)
    → has n ready ≡ false
    → All (MayStart p c pending) ready
    → All (MayStart p c (delete n pending)) ready
MayStart-delete p c n pending [] new h = tt
MayStart-delete p c n pending (m ∷ ready) new ((here, deps), rest) = (
  (ground (arith, has-delete m n pending), deps),
  MayStart-delete p c n pending ready (ground arith) rest,
)
