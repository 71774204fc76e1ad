-- ===== src/Pipeline/Sort/Settled.antt =====
-- The loop of topologicalSort: what it has put in order and what waits in the queue are together
-- the stages with no pending dependency.
use mathlib.Core.List.Perm
use mathlib.Core.List.{perm_middle}
use devsec.Base.{
  ℕ, zero, suc, ◌+◌, ◌≤◌, ◌<◌, ◌≡◌, refl, sym, Bool, true, false, some, List, [], ◌∷◌, ◌++◌, String,
  has, length, if◌then◌else◌, string_discrete, arith, has-append, ◌==◌, append_assoc, append-nil,
  IsDistinct, ◌∙◌, Perm, length-perm, has-perm, IsDistinct-perm, has-before, subst, length-append,
}
use devsec.Pipeline.Types.{Stage, names}
use devsec.Pipeline.Order.{Ready, Respects, Respects-snoc}
use devsec.Pipeline.Sort.{InDegree, Progress, visit_stages, drain}
use devsec.Pipeline.Sort.Pending.{
  pending, pending-snoc-le, Satisfied-of_pending, released, Tracks, visit_stages-Tracks,
  visit_stages_queue,
}

abbrev pub settled : List String → List Stage → List String
settled done [] = []
settled done (s ∷ ss) =
    let rest = settled done ss in if pending done s.depends_on == 0 then s.name ∷ rest else rest

settle-perm :
    (n : String) (before after : Bool) (xs ys zs : List String)
    → (before ≡ true → after ≡ true)
    → Perm zs (xs ++ ys)
    → Perm (if after then n ∷ zs else zs) (
        (if before then n ∷ xs else xs)
        ++ ((if after then (if before then [] else n ∷ []) else []) ++ ys))
settle-perm n true true xs ys zs h p = Perm.cons n p
settle-perm n true false xs ys zs h p = cc (h refl)
settle-perm n false true xs ys zs h p = Perm.trans (Perm.cons n p) (Perm.symm (perm_middle xs ys))
settle-perm n false false xs ys zs h p = p

zero_of_le : (a b : ℕ) → a ≤ b → (b == 0) ≡ true → (a == 0) ≡ true
zero_of_le a b h e = ground arith

pub settled-snoc-perm :
    (node : String) (done : List String) (ss : List Stage)
    → Perm (settled (done ++ node ∷ []) ss) (settled done ss ++ released node done ss)
settled-snoc-perm node done [] = Perm.refl []
settled-snoc-perm node done (s ∷ ss) =
    settle-perm s.name (pending done s.depends_on == 0)
      (pending (done ++ node ∷ []) s.depends_on == 0) (settled done ss) (released node done ss)
      (settled (done ++ node ∷ []) ss) (zero_of_le _ _ (pending-snoc-le node done s.depends_on))
      (settled-snoc-perm node done ss)

has-settled-names :
    (n : String) (done : List String) (ss : List Stage)
    → has n (settled done ss) ≡ true
    → has n (names ss) ≡ true
has-settled-names n done [] h = h
has-settled-names n done (s ∷ ss) h = ground (arith, has-settled-names n done ss)

settled-IsDistinct :
    (done : List String) (ss : List Stage) → IsDistinct (names ss) → IsDistinct (settled done ss)
settled-IsDistinct done [] d = tt
settled-IsDistinct done (s ∷ ss) d =
    ground (arith, settled-IsDistinct done ss d.1, has-settled-names s.name done ss)

pub length-settled-le :
    (done : List String) (ss : List Stage) → length (settled done ss) ≤ length ss
length-settled-le done [] = omega arith
length-settled-le done (s ∷ ss) = ground (arith, length-settled-le done ss)

Ready-of_settled_absent :
    (n : String) (done : List String) (ss : List Stage) → has n (names ss) ≡ false → Ready ss done n
Ready-of_settled_absent n done [] h = tt
Ready-of_settled_absent n done (s ∷ ss) h =
    (λ e. absurd (ground arith), Ready-of_settled_absent n done ss (ground arith))

Ready-of_settled :
    (n : String) (done : List String) (ss : List Stage)
    → IsDistinct (names ss)
    → has n (settled done ss) ≡ true
    → Ready ss done n
Ready-of_settled n done [] d h = tt
Ready-of_settled n done (s ∷ ss) d h = elim (string_discrete n s.name) [
  | yes e ↦ (
    λ _. Satisfied-of_pending done s.depends_on (ground (arith, has-settled-names n done ss)),
    Ready-of_settled_absent n done ss (ground arith),
  )
  | no ne ↦ (λ e. absurd (ne (sym e)), Ready-of_settled n done ss d.1 (ground arith))
]

regroup : (xs ys zs ws : List String) → (xs ++ ys) ++ (zs ++ ws) ≡ (xs ++ (ys ++ zs)) ++ ws
regroup xs ys zs ws = simp append_assoc

has-middle : (n : String) (xs ys : List String) → has n (xs ++ n ∷ ys) ≡ true
has-middle n xs ys = ground (arith, has-append n xs (n ∷ ys))

-- What holds at the head of the loop.
pub record Inv (stages : List Stage) (d : InDegree) (queue order : List String) : Type 0 where
  pub tracks : Tracks d order stages
  pub perm : Perm (order ++ queue) (settled order stages)
  pub respects : Respects stages [] order

module _ (stages : List Stage) (distinct : IsDistinct (names stages)) where
  Inv-next :
      (d : InDegree) (node : String) (queue order : List String)
      → Inv stages d (node ∷ queue) order
      → let p = visit_stages node stages (record { in_degree = d; queue = queue }) in
        Inv stages p.in_degree p.queue (order ++ node ∷ [])
  Inv-next d node queue order inv =
      let p : Progress = record { in_degree = d; queue = queue } in
      let apart = IsDistinct-perm (Perm.symm inv.perm) (settled-IsDistinct order stages distinct) in
      let new = has-before node order queue apart in
      record {
        tracks = visit_stages-Tracks node order new stages p distinct inv.tracks;
        perm =
            subst (λ q. Perm ((order ++ node ∷ []) ++ q) (settled (order ++ node ∷ []) stages))
              (sym (visit_stages_queue node order new stages p distinct inv.tracks))
              (Perm.symm (
                Perm.trans (settled-snoc-perm node order stages) (
                  Perm.trans (Perm.append_right (released node order stages) (Perm.symm inv.perm)) (
                    subst
                      (λ l. Perm l ((order ++ node ∷ []) ++ (queue ++ released node order stages)))
                      (regroup order (node ∷ []) queue (released node order stages))
                      (Perm.refl _)))));
        respects = Respects-snoc stages [] order node inv.respects (
            Ready-of_settled node order stages distinct
              (sym (has-perm node inv.perm) ∙ has-middle node order queue));
      }

  length-Inv :
      (d : InDegree) (queue order : List String)
      → Inv stages d queue order
      → length (order ++ queue) ≤ length stages
  length-Inv d queue order inv = omega (arith, length-perm inv.perm, length-settled-le order stages)

  -- With one round of fuel more than there are stages left to order, the loop ends by its test.
  pub drain_lem :
      (fuel : ℕ) (d : InDegree) (queue order : List String)
      → length stages < fuel + length order
      → Inv stages d queue order
      → (order' : List String) × (drain fuel stages d queue order ≡ some order')
        × Perm order' (settled order' stages)
        × Respects stages [] order'
  unfolding drain
  drain_lem zero d queue order h inv =
      absurd (omega (arith, length-Inv d queue order inv, length-append order queue))
  drain_lem (suc fuel) d [] order h inv = (
    order,
    refl,
    subst (λ l. Perm l (settled order stages)) (append-nil order) inv.perm,
    inv.respects,
  )
  drain_lem (suc fuel) d (node ∷ queue) order h inv =
      drain_lem fuel _ _ (order ++ node ∷ []) (omega (arith, length-append order (node ∷ [])))
        (Inv-next d node queue order inv)
