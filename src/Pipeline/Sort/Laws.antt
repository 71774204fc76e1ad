-- ===== src/Pipeline/Sort/Laws.antt =====
-- What topologicalSort computes: an order that respects the dependencies, whenever there is one.
use mathlib.Core.Bool.{false≢true}
use devsec.Base.{
  ◌≡◌, ◌≢◌, refl, true, some, List, [], ◌∷◌, ◌++◌, String, All, has, length, string_discrete, arith,
  IsDistinct, Perm, length-perm, has-perm, has-append, append_assoc, append-nil, subst, sym, ◌∙◌,
}
use devsec.Pipeline.Types.{Stage, names}
use devsec.Pipeline.Order.{Satisfied, Ready, Respects, IsAcyclic, Closed}
use devsec.Pipeline.Sort.{out_of_fuel, sorted, check_complete, topological_sort}
use devsec.Pipeline.Sort.Pending.{pending_of_Satisfied}
use devsec.Pipeline.Sort.Settled.{settled}
use devsec.Pipeline.Sort.Start.{settled_all, topological_sort-Drained}

-- For stages of distinct names, and whatever the iteration order of the in-degree map, the loop never
-- runs out of fuel: topologicalSort always returns.
pub topological_sort-ne-out_of_fuel :
    (keys : List String) (stages : List Stage)
    → IsDistinct (names stages)
    → Perm keys (names stages)
    → topological_sort keys stages ≢ out_of_fuel
unfolding check_complete
topological_sort-ne-out_of_fuel keys stages u p =
    let (order, e, _, _) = topological_sort-Drained keys stages u p in ground arith

check_complete-sorted :
    (stages : List Stage) (xs order : List String)
    → check_complete stages (some xs) ≡ sorted order
    → (length xs ≡ length stages) × (xs ≡ order)
unfolding check_complete
check_complete-sorted stages xs order h = ground arith

-- For stages of distinct names, and whatever the iteration order of the in-degree map, an order that
-- topologicalSort returns holds each stage exactly once, and each stage behind its dependencies.
pub topological_sort_sound :
    (keys : List String) (stages : List Stage) (order : List String)
    → IsDistinct (names stages)
    → Perm keys (names stages)
    → topological_sort keys stages ≡ sorted order
    → Perm order (names stages) × Respects stages [] order
topological_sort_sound keys stages order u p h =
    let (xs, e, perm, r) = topological_sort-Drained keys stages u p in
    let (full, same) = check_complete-sorted stages xs order (sym e ∙ h) in
    (
      subst (λ l. Perm l (names stages)) same
          (subst (Perm xs) (settled_all xs stages (sym (length-perm perm) ∙ full)) perm),
      subst (Respects stages []) same r,
    )

-- Each stage of which all dependencies are done is done.
abbrev Done : List String → List Stage → Type 0
Done order ss = All (λ s. Satisfied order s.depends_on → has s.name order ≡ true) ss

Done-of_settled :
    (order : List String) (ss : List Stage)
    → ((n : String) → has n (settled order ss) ≡ true → has n order ≡ true)
    → Done order ss
Done-of_settled order [] h = tt
Done-of_settled order (s ∷ ss) h = (
  λ ready. ground (arith, pending_of_Satisfied order s.depends_on ready, h s.name),
  Done-of_settled order ss (λ n m. ground (arith, h n)),
)

Satisfied-mono :
    (xs ys zs ds : List String)
    → ((n : String) → has n xs ≡ true → has n ys ≡ true → has n zs ≡ true)
    → Satisfied xs ds
    → Satisfied ys ds
    → Satisfied zs ds
Satisfied-mono xs ys zs [] h a b = tt
Satisfied-mono xs ys zs (d ∷ ds) h a b = (h d a.0 b.0, Satisfied-mono xs ys zs ds h a.1 b.1)

-- A set of names is closed under a list of stages if it has what is ready.
module _ (all order : List String) where
  Done-next :
      (n : String) (before : List String) (ss : List Stage)
      → ((m : String) → has m before ≡ true → has m all ≡ true → has m order ≡ true)
      → Ready ss before n
      → All (λ s. Satisfied all s.depends_on) ss
      → Done order ss
      → has n (names ss) ≡ true
      → has n order ≡ true
  Done-next n before [] known ready closed done h = absurd (false≢true h)
  Done-next n before (s ∷ ss) known ready closed done h = elim (string_discrete n s.name) [
    | yes e ↦
        subst (λ m. has m order ≡ true) (sym e)
          (done.0 (Satisfied-mono before all order s.depends_on known (ready.0 (sym e)) closed.0))
    | no ne ↦ Done-next n before ss known ready.1 closed.1 done.1 (ground arith)
  ]

module _ (stages : List Stage) (order : List String) (closed : Closed stages)
    (done : Done order stages) where
  -- What holds of the names seen so far holds of the rest of an order that respects them.
  spread :
      (before rest : List String)
      → Respects stages before rest
      → ((m : String) → has m before ≡ true → has m (names stages) ≡ true → has m order ≡ true)
      → (m : String) → has m (before ++ rest) ≡ true
      → has m (names stages) ≡ true
      → has m order ≡ true
  spread before [] r known m h = known m (subst (λ l. has m l ≡ true) (append-nil before) h)
  spread before (n ∷ rest) r known m h =
      spread (before ++ n ∷ []) rest r.1
        (λ j hj nj. elim (string_discrete j n) [
          | yes e ↦
              subst (λ i. has i order ≡ true) (sym e)
                (Done-next (names stages) order n before stages known r.0 closed done
                  (subst (λ i. has i (names stages) ≡ true) e nj))
          | no ne ↦ known j (ground (arith, has-append j before (n ∷ []))) nj
        ])
        m (subst (λ l. has m l ≡ true) (sym (append_assoc before (n ∷ []) rest)) h)

  full :
      (ss : List Stage)
      → ((m : String) → has m (names stages) ≡ true → has m order ≡ true)
      → All (λ s. Satisfied (names stages) s.depends_on) ss
      → length (settled order ss) ≡ length ss
  full [] known c = refl
  full (s ∷ ss) known c = ground (
    arith,
    full ss known c.1,
    pending_of_Satisfied order s.depends_on (
        Satisfied-mono (names stages) (names stages) order s.depends_on (λ m h _. known m h) c.0
          c.0),
  )

acyclic_known :
    (stages : List Stage) (order : List String) (ss : List Stage)
    → All (λ s. has s.name order ≡ true) ss
    → (m : String) → has m (names ss) ≡ true
    → has m order ≡ true
acyclic_known stages order [] c m h = absurd (false≢true h)
acyclic_known stages order (s ∷ ss) c m h = ground (arith, acyclic_known stages order ss c.1 m)

-- For stages of distinct names, if every dependency names a stage and some order respects the
-- dependencies, topologicalSort returns an order, whatever the iteration order of the in-degree map.
pub topological_sort_complete :
    (keys : List String) (stages : List Stage)
    → IsDistinct (names stages)
    → Perm keys (names stages)
    → Closed stages
    → IsAcyclic stages
    → (order : List String) × (topological_sort keys stages ≡ sorted order)
unfolding check_complete
topological_sort_complete keys stages u p closed acyclic =
    let (xs, e, perm, _) = topological_sort-Drained keys stages u p in
    let done = Done-of_settled xs stages (λ n h. has-perm n perm ∙ h) in
    let known = λ (m : String) (h : has m (names stages) ≡ true).
      spread stages xs closed done [] acyclic.order acyclic.respects (λ _ b. absurd (false≢true b))
        m (acyclic_known stages acyclic.order stages acyclic.complete m h) h in
    (xs, ground (arith, e, full stages xs closed done stages known closed, length-perm perm))
