-- ===== src/Pipeline/Sort/Pending.antt =====
-- The in-degree of a stage counts its dependencies that are not yet done.
use devsec.Base.{
  ℕ, suc, ◌+◌, ◌≤◌, ◌≡◌, ◌≢◌, refl, sym, false, ◌||◌, List, [], ◌∷◌, ◌++◌, String, All, has,
  if◌then◌else◌, string_discrete, arith, has-append, ◌==◌, append_assoc, append-nil, IsDistinct, ap,
  ◌∙◌,
}
use devsec.Base.Int.{pos}
use devsec.Pipeline.Types.{Stage, names}
use devsec.Pipeline.Order.{Satisfied}
use devsec.Pipeline.Sort.{InDegree, Progress, release, visit_deps, visit_stages}

abbrev pub pending : List String → List String → ℕ
pending done [] = 0
pending done (d ∷ ds) = let rest = pending done ds in if has d done then rest else suc rest

pub Satisfied-of_pending : (done ds : List String) → pending done ds ≡ 0 → Satisfied done ds
Satisfied-of_pending done [] h = tt
Satisfied-of_pending done (d ∷ ds) h = ground (arith, Satisfied-of_pending done ds)

pub pending_of_Satisfied : (done ds : List String) → Satisfied done ds → pending done ds ≡ 0
pending_of_Satisfied done [] h = refl
pending_of_Satisfied done (d ∷ ds) h = ground (arith, pending_of_Satisfied done ds)

pub pending-snoc-le :
    (node : String) (done ds : List String) → pending (done ++ node ∷ []) ds ≤ pending done ds
pending-snoc-le node done [] = omega arith
pending-snoc-le node done (d ∷ ds) =
    ground (arith, pending-snoc-le node done ds, has-append d done (node ∷ []))

-- The stage joins the queue when its last pending dependency is done.
abbrev pub fresh : String → ℕ → ℕ → List String
fresh name before after = if after == 0 then (if before == 0 then [] else name ∷ []) else []

has-snoc :
    (d node : String) (done : List String)
    → has d (done ++ node ∷ []) ≡ (has d done || has d (node ∷ []))
has-snoc d node done = has-append d done (node ∷ [])

release_degree :
    (name : String) (p : Progress) (n : ℕ)
    → p.in_degree name ≡ pos (suc n)
    → (release name p).in_degree name ≡ pos n
unfolding release
release_degree name p n h = ground arith

release_queue :
    (name : String) (p : Progress) (n : ℕ)
    → p.in_degree name ≡ pos (suc n)
    → (release name p).queue ≡ p.queue ++ fresh name (suc n) n
unfolding release
release_queue name p n h = ground (arith, append-nil p.queue)

release_other :
    (name : String) (p : Progress) (j : String)
    → j ≢ name
    → (release name p).in_degree j ≡ p.in_degree j
unfolding release
release_other name p j h = ground arith

module _ (node name : String) (done : List String) (new : has node done ≡ false) where
  visit_deps_degree :
      (ds : List String) (p : Progress) (a : ℕ)
      → p.in_degree name ≡ pos (a + pending done ds)
      → (visit_deps node name ds p).in_degree name ≡ pos (a + pending (done ++ node ∷ []) ds)
  unfolding visit_deps
  visit_deps_degree [] p a h = h
  visit_deps_degree (d ∷ ds) p a h = elim (string_discrete d node) [
    | yes e ↦ ground (
      arith,
      has-snoc d node done,
      release_degree name p (a + pending done ds),
      visit_deps_degree ds (release name p) a,
    )
    | no ne ↦
        ground
          (arith, has-snoc d node done, visit_deps_degree ds p a, visit_deps_degree ds p (suc a))
  ]

  visit_deps_queue :
      (ds : List String) (p : Progress) (a : ℕ)
      → p.in_degree name ≡ pos (a + pending done ds)
      → (visit_deps node name ds p).queue
        ≡ p.queue ++ fresh name (a + pending done ds) (a + pending (done ++ node ∷ []) ds)
  unfolding visit_deps
  visit_deps_queue [] p a h = ground (arith, append-nil p.queue)
  visit_deps_queue (d ∷ ds) p a h = elim (string_discrete d node) [
    | yes e ↦ ground (
      arith,
      has-snoc d node done,
      release_degree name p (a + pending done ds),
      release_queue name p (a + pending done ds),
      visit_deps_queue ds (release name p) a,
      append-nil p.queue,
      append-nil (p.queue ++ name ∷ []),
      pending-snoc-le node done ds,
    )
    | no ne ↦
        ground (arith, has-snoc d node done, visit_deps_queue ds p a, visit_deps_queue ds p (suc a))
  ]

  visit_deps_other :
      (ds : List String) (p : Progress) (j : String)
      → j ≢ name
      → (visit_deps node name ds p).in_degree j ≡ p.in_degree j
  unfolding visit_deps
  visit_deps_other [] p j ne = refl
  visit_deps_other (d ∷ ds) p j ne = ground (
    arith,
    release_other name p j ne,
    visit_deps_other ds p j ne,
    visit_deps_other ds (release name p) j ne,
  )

-- Each stage's in-degree is the number of its pending dependencies.
abbrev pub Tracks : InDegree → List String → List Stage → Type 0
Tracks d done stages = All (λ s. d s.name ≡ pos (pending done s.depends_on)) stages

-- The stages whose last pending dependency is `node`.
abbrev pub released : String → List String → List Stage → List String
released node done [] = []
released node done (s ∷ ss) =
    fresh s.name (pending done s.depends_on) (pending (done ++ node ∷ []) s.depends_on)
    ++ released node done ss

module _ (node : String) (done : List String) (new : has node done ≡ false) where
  visit_stages_other :
      (ss : List Stage) (p : Progress) (j : String)
      → has j (names ss) ≡ false
      → (visit_stages node ss p).in_degree j ≡ p.in_degree j
  unfolding visit_stages
  visit_stages_other [] p j h = refl
  visit_stages_other (s ∷ ss) p j h = ground (
    arith,
    visit_stages_other ss (visit_deps node s.name s.depends_on p) j,
    visit_deps_other node s.name done new s.depends_on p j,
  )

  Tracks-other :
      (ss : List Stage) (p : Progress) (s : Stage)
      → has s.name (names ss) ≡ false
      → Tracks p.in_degree done ss
      → Tracks (visit_deps node s.name s.depends_on p).in_degree done ss
  Tracks-other [] p s h t = tt
  Tracks-other (r ∷ ss) p s h t = (
    ground (arith, visit_deps_other node s.name done new s.depends_on p r.name),
    Tracks-other ss p s (ground arith) t.1,
  )

  visit_own :
      (s : Stage) (p : Progress)
      → p.in_degree s.name ≡ pos (pending done s.depends_on)
      → (visit_deps node s.name s.depends_on p).in_degree s.name
        ≡ pos (pending (done ++ node ∷ []) s.depends_on)
  visit_own s p h = ground (arith, visit_deps_degree node s.name done new s.depends_on p 0)

  visit_own_queue :
      (s : Stage) (p : Progress)
      → p.in_degree s.name ≡ pos (pending done s.depends_on)
      → (visit_deps node s.name s.depends_on p).queue
        ≡ p.queue
          ++ fresh s.name (pending done s.depends_on) (pending (done ++ node ∷ []) s.depends_on)
  visit_own_queue s p h = ground (arith, visit_deps_queue node s.name done new s.depends_on p 0)

  pub visit_stages-Tracks :
      (ss : List Stage) (p : Progress)
      → IsDistinct (names ss)
      → Tracks p.in_degree done ss
      → Tracks (visit_stages node ss p).in_degree (done ++ node ∷ []) ss
  unfolding visit_stages
  visit_stages-Tracks [] p u t = tt
  visit_stages-Tracks (s ∷ ss) p u t =
      let p' = visit_deps node s.name s.depends_on p in
      (
        visit_stages_other ss p' s.name u.0 ∙ visit_own s p t.0,
        visit_stages-Tracks ss p' u.1 (Tracks-other ss p s u.0 t.1),
      )

  pub visit_stages_queue :
      (ss : List Stage) (p : Progress)
      → IsDistinct (names ss)
      → Tracks p.in_degree done ss
      → (visit_stages node ss p).queue ≡ p.queue ++ released node done ss
  unfolding visit_stages
  visit_stages_queue [] p u t = sym (append-nil p.queue)
  visit_stages_queue (s ∷ ss) p u t =
      let p' = visit_deps node s.name s.depends_on p in
      visit_stages_queue ss p' u.1 (Tracks-other ss p s u.0 t.1)
      ∙ ap (λ q. q ++ released node done ss) (visit_own_queue s p t.0)
      ∙ append_assoc p.queue _ (released node done ss)
