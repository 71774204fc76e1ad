-- ===== src/Pipeline/Cycle/Laws.antt =====
-- hasCycle decides whether the dependencies of the stages are circular.
use mathlib.Core.Bool.{false≢true}
use devsec.Base.{
  ℕ, suc, ◌+◌, ◌≡◌, ◌⊎◌, refl, Bool, true, false, Option, some, none, List, [], ◌∷◌, String, has,
  All, arith, sym, ap, inl, inr, ◌∙◌, IsDistinct, length, Perm, has-perm,
}
use devsec.Pipeline.Types.{Stage, names}
use devsec.Pipeline.Order.{Satisfied, IsAcyclic, Closed}
use devsec.Pipeline.Cycle.{
  Graph, Marks, build_graph, search_neighbors, search_keys, unmarked, has_cycle_dfs, has_cycle,
}
use devsec.Pipeline.Cycle.Path.{unvisited}
use devsec.Pipeline.Cycle.Edges.{
  DependsPath, Reach-DependsPath, build_graph-Holds, Respects_of_Ranks, Closed_graph,
}
use devsec.Pipeline.Cycle.Outcome.{
  Outcome, found, clear, Leads, search_neighbors-Outcome, has_cycle_dfs-Outcome,
}

-- The loop over the keys is the loop over the neighbours, less the marks.
result : Option (Bool × Marks) → Option Bool
result none = none
result (some (b, m)) = some b

keys_step :
    (g : Graph) (fuel : ℕ) (n : String) (ns : List String) (m : Marks)
    → ((m' : Marks)
        → search_keys g fuel ns m' ≡ result (search_neighbors (has_cycle_dfs g fuel) ns m'))
    → (r : Option (Bool × Marks)) → has_cycle_dfs g fuel n m ≡ r
    → search_keys g fuel (n ∷ ns) m ≡ result (search_neighbors (has_cycle_dfs g fuel) (n ∷ ns) m)
unfolding search_keys search_neighbors result
keys_step g fuel n ns m ih none e = rw (e, search_keys, search_neighbors)
keys_step g fuel n ns m ih (some (true, m')) e = rw (e, search_keys, search_neighbors)
keys_step g fuel n ns m ih (some (false, m')) e = rw (e, search_keys, search_neighbors) (ih m')

search_keys-eq :
    (g : Graph) (fuel : ℕ) (ns : List String) (m : Marks)
    → search_keys g fuel ns m ≡ result (search_neighbors (has_cycle_dfs g fuel) ns m)
unfolding search_keys search_neighbors result
search_keys-eq g fuel [] m = refl
search_keys-eq g fuel (n ∷ ns) m =
    keys_step g fuel n ns m (search_keys-eq g fuel ns) (has_cycle_dfs g fuel n m) refl

Satisfied-lookup :
    (xs ns : List String) (n : String) → Satisfied xs ns → has n ns ≡ true → has n xs ≡ true
Satisfied-lookup xs [] n sat h = absurd (false≢true h)
Satisfied-lookup xs (d ∷ ns) n sat h = ground (arith, Satisfied-lookup xs ns n sat.1)

Satisfied-of_Keeps :
    (xs ns : List String) → ((n : String) → has n ns ≡ true → has n xs ≡ true) → Satisfied xs ns
Satisfied-of_Keeps xs [] h = tt
Satisfied-of_Keeps xs (n ∷ ns) h =
    (h n (ground arith), Satisfied-of_Keeps xs ns (λ j k. h j (ground arith)))

complete_of_Keeps :
    (xs : List String) (ss : List Stage)
    → ((n : String) → has n (names ss) ≡ true → has n xs ≡ true)
    → All (λ s. has s.name xs ≡ true) ss
complete_of_Keeps xs [] h = tt
complete_of_Keeps xs (s ∷ ss) h =
    (h s.name (ground arith), complete_of_Keeps xs ss (λ j k. h j (ground arith)))

unvisited-names : (ss : List Stage) → unvisited (λ _. false) (names ss) ≡ length ss
unvisited-names [] = refl
unvisited-names (s ∷ ss) = ap suc (unvisited-names ss)

module _ (keys : List String) (stages : List Stage) (distinct : IsDistinct (names stages))
    (perm : Perm keys (names stages)) (closed : Closed stages) where
  abbrev graph : Graph
  graph = build_graph (λ _. []) stages

  start :
      Outcome graph
        (names stages)
        keys
        unmarked
        []
        (search_neighbors (has_cycle_dfs graph (length stages + 1)) keys unmarked)
  start =
      search_neighbors-Outcome graph (names stages) (length stages + 1)
        (has_cycle_dfs graph (length stages + 1))
        (has_cycle_dfs-Outcome graph (names stages)
          (Closed_graph graph (names stages) stages (build_graph-Holds (λ _. []) stages distinct)
            closed)
          (length stages + 1))
        keys unmarked [] (Satisfied-of_Keeps (names stages) keys (λ n h. sym (has-perm n perm) ∙ h))
        (omega (arith, unvisited-names stages)) (record { shape = λ j. refl; ranks = tt })
        (none_lead keys)
    where
      none_lead : (ns : List String) → All (Leads graph unmarked) ns
      none_lead [] = tt
      none_lead (n ∷ ns) = (λ j h. absurd (false≢true h), none_lead ns)

  -- For stages of distinct names whose dependencies name stages, and whatever the iteration order of
  -- the graph, hasCycle returns: with true if some stage depends on itself through a chain of
  -- dependencies, and with false if some order respects them all.
  pub has_cycle_decides :
      ((x : String) × (has_cycle keys stages ≡ some true) × DependsPath stages x x)
      ⊎ ((has_cycle keys stages ≡ some false) × IsAcyclic stages)
  unfolding has_cycle result
  has_cycle_decides = elim start [
    | found m' x e r ↦ inl (
      x,
      search_keys-eq graph (length stages + 1) keys unmarked ∙ ap result e,
      Reach-DependsPath stages r,
    )
    | clear m' finished e inv keeps done same le ↦ inr (
      search_keys-eq graph (length stages + 1) keys unmarked ∙ ap result e,
      record {
        order = finished;
        complete =
            complete_of_Keeps finished stages
              (λ n h. Satisfied-lookup finished keys n done (has-perm n perm ∙ h));
        respects =
            Respects_of_Ranks graph stages [] finished (build_graph-Holds (λ _. []) stages distinct)
              inv.ranks;
      },
    )
  ]
