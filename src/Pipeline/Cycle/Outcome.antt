-- ===== src/Pipeline/Cycle/Outcome.antt =====
-- What one call of hasCycleDFS, and the loop over the neighbours, come to.
use devsec.Base.{
  ℕ, zero, suc, ◌≤◌, ◌<◌, ◌≡◌, refl, Bool, true, false, ◌||◌, Option, some, List, [], ◌∷◌, ◌++◌,
  String, has, All, string_discrete, arith, subst, sym, Bool-cases, inl, inr, has-append, ◌∙◌,
}
use devsec.Pipeline.Order.{Satisfied}
use devsec.Pipeline.Cycle.{Graph, Marks, search_neighbors, enter, leave, finish, has_cycle_dfs}
use devsec.Pipeline.Cycle.Path.{
  Reach, edge, step, Ranks, Ranks-snoc, unvisited, unvisited-update-lt,
}

-- `finished` holds the names that were left without a cycle: each is visited and off the stack, and
-- its dependencies were finished before it.
pub record Inv (g : Graph) (m : Marks) (finished : List String) : Type 0 where
  pub shape : (j : String) → m.visited j ≡ (has j finished || m.rec_stack j)
  pub ranks : Ranks g [] finished

abbrev pub Keeps : List String → List String → Type 0
Keeps xs ys = (j : String) → has j xs ≡ true → has j ys ≡ true

-- Either there is a cycle, or all targets are finished and the stack is as it was.
pub data Outcome (g : Graph) (ks targets : List String) (m : Marks) (finished : List String)
    (r : Option (Bool × Marks)) : Type 0 where
  found :
      (m' : Marks) (x : String)
      → r ≡ some (true, m')
      → Reach g x x
      → Outcome g ks targets m finished r
  clear :
      (m' : Marks) (finished' : List String)
      → r ≡ some (false, m')
      → Inv g m' finished'
      → Keeps finished finished'
      → Satisfied finished' targets
      → ((j : String) → m'.rec_stack j ≡ m.rec_stack j)
      → unvisited m'.visited ks ≤ unvisited m.visited ks
      → Outcome g ks targets m finished r

-- Every name on the stack leads to n.
abbrev pub Leads : Graph → Marks → String → Type 0
Leads g m n = (j : String) → m.rec_stack j ≡ true → Reach g j n

-- A call at any of the names, with this much left to visit.
abbrev pub Calls : Graph → List String → ℕ → (String → Marks → Option (Bool × Marks)) → Type 0
Calls g ks fuel search =
    (n : String) (m : Marks) (finished : List String)
    → has n ks ≡ true
    → unvisited m.visited ks < fuel
    → Inv g m finished
    → Leads g m n
    → Outcome g ks (n ∷ []) m finished (search n m)

Leads-same :
    (g : Graph) (m m' : Marks) (ns : List String)
    → ((j : String) → m'.rec_stack j ≡ m.rec_stack j)
    → All (Leads g m) ns
    → All (Leads g m') ns
Leads-same g m m' [] same leads = tt
Leads-same g m m' (n ∷ ns) same leads =
    (λ j h. leads.0 j (sym (same j) ∙ h), Leads-same g m m' ns same leads.1)

neighbors-cons :
    (search : String → Marks → Option (Bool × Marks)) (n : String) (ns : List String) (m m' : Marks)
    → search n m ≡ some (false, m')
    → search_neighbors search (n ∷ ns) m ≡ search_neighbors search ns m'
unfolding search_neighbors
neighbors-cons search n ns m m' e = rw (e, search_neighbors)

-- The outcome of the rest of the loop, once the first neighbour is finished.
after_clear :
    (g : Graph) (ks : List String) (n : String) (ns : List String) (m m' : Marks)
    (finished finished' : List String) (r r' : Option (Bool × Marks))
    → r ≡ r'
    → Keeps finished finished'
    → has n finished' ≡ true
    → ((j : String) → m'.rec_stack j ≡ m.rec_stack j)
    → unvisited m'.visited ks ≤ unvisited m.visited ks
    → Outcome g ks ns m' finished' r'
    → Outcome g ks (n ∷ ns) m finished r
after_clear g ks n ns m m' f f' r r' e keeps done same le (found m'' x e' cyc) =
    found m'' x (e ∙ e') cyc
after_clear g ks n ns m m' f f' r r' e keeps done same le
      (clear m'' f'' e' inv keeps' done' same' le') =
    clear m'' f'' (e ∙ e') inv (λ j h. keeps' j (keeps j h)) (keeps' n done, done')
      (λ j. same' j ∙ same j) (omega arith)

module _ (g : Graph) (ks : List String) (fuel : ℕ) (search : String → Marks → Option (Bool × Marks))
    (calls : Calls g ks fuel search) where
  pub search_neighbors-Outcome :
      (ns : List String) (m : Marks) (finished : List String)
      → Satisfied ks ns
      → unvisited m.visited ks < fuel
      → Inv g m finished
      → All (Leads g m) ns
      → Outcome g ks ns m finished (search_neighbors search ns m)
  unfolding search_neighbors
  search_neighbors-Outcome [] m finished c lt inv leads =
      clear m finished refl inv (λ j h. h) tt (λ j. refl) (omega arith)
  search_neighbors-Outcome (n ∷ ns) m finished c lt inv leads =
      elim (calls n m finished c.0 lt inv leads.0) [
        | found m' x e cyc ↦ found m' x (rw (e, search_neighbors) refl) cyc
        | clear m' finished' e inv' keeps done same le ↦
            after_clear g ks n ns m m' finished finished' _ _ (neighbors-cons search n ns m m' e)
              keeps done.0 same le
              (search_neighbors-Outcome ns m' finished' c.1 (omega arith) inv'
                (Leads-same g m m' ns same leads.1))
      ]

-- A node that is neither on the stack nor visited is entered.
enter-Inv :
    (g : Graph) (m : Marks) (finished : List String) (n : String)
    → Inv g m finished
    → Inv g (enter n m) finished
unfolding enter
enter-Inv g m finished n inv = record {
  shape = λ j. ground (arith, inv.shape j);
  ranks = inv.ranks;
}

enter-lt :
    (n : String) (m : Marks) (ks : List String)
    → has n ks ≡ true
    → m.visited n ≡ false
    → unvisited (enter n m).visited ks < unvisited m.visited ks
unfolding enter
enter-lt n m ks h new = unvisited-update-lt m.visited n ks h new

leave-Inv :
    (g : Graph) (m m' : Marks) (finished : List String) (n : String)
    → Inv g m' finished
    → ((j : String) → m'.rec_stack j ≡ (enter n m).rec_stack j)
    → Satisfied finished (g n)
    → Inv g (leave n m') (finished ++ n ∷ [])
unfolding enter leave
leave-Inv g m m' finished n inv same deps = record {
  shape = λ j. ground (arith, inv.shape j, same j, has-append j finished (n ∷ []));
  ranks = Ranks-snoc g [] finished n inv.ranks deps;
}

-- The outcome of a call, from that of the loop over the neighbours of the node that it entered.
left_node :
    (g : Graph) (ks : List String) (n : String) (m : Marks) (finished : List String)
    (r : Option (Bool × Marks))
    → m.rec_stack n ≡ false
    → unvisited (enter n m).visited ks ≤ unvisited m.visited ks
    → Outcome g ks (g n) (enter n m) finished r
    → Outcome g ks (n ∷ []) m finished (finish n r)
unfolding enter leave finish
left_node g ks n m finished r off le (found m' x e cyc) = found m' x (rw (e, finish) refl) cyc
left_node g ks n m finished r off le (clear m' f e inv keeps deps same le') =
    clear (leave n m') (f ++ n ∷ []) (rw (e, finish) refl) (leave-Inv g m m' f n inv same deps)
      (λ j h. ground (arith, keeps j h, has-append j f (n ∷ [])))
      (ground (arith, has-append n f (n ∷ [])), tt) (λ j. ground (arith, same j)) (omega arith)

module _ (g : Graph) (ks : List String)
    (closed : (k : String) → has k ks ≡ true → Satisfied ks (g k)) where
  Leads-enter :
      (m : Marks) (n : String) (ns : List String)
      → Leads g m n
      → ((j : String) → has j ns ≡ true → has j (g n) ≡ true)
      → All (Leads g (enter n m)) ns
  unfolding enter
  Leads-enter m n [] leads sub = tt
  Leads-enter m n (d ∷ ns) leads sub = (
    λ j h. elim (string_discrete j n) [
      | yes e ↦ subst (λ i. Reach g i d) (sym e) (edge (sub d (ground arith)))
      | no ne ↦ step (leads j (ground arith)) (sub d (ground arith))
    ],
    Leads-enter m n ns leads (λ j h. sub j (ground arith)),
  )

  -- With more fuel than there are names to visit, hasCycleDFS returns.
  pub has_cycle_dfs-Outcome : (fuel : ℕ) → Calls g ks fuel (has_cycle_dfs g fuel)
  unfolding has_cycle_dfs
  has_cycle_dfs-Outcome zero n m finished h lt inv leads = absurd (omega arith)
  has_cycle_dfs-Outcome (suc fuel) n m finished h lt inv leads = elim (Bool-cases (m.rec_stack n)) [
    | inl on ↦ found m n (ground arith) (leads n on)
    | inr off ↦ elim (Bool-cases (m.visited n)) [
      | inl old ↦
          clear m finished (ground arith) inv (λ j k. k) (ground (arith, inv.shape n), tt)
            (λ j. refl) (omega arith)
      | inr new ↦
          rw (off, new)
            (left_node g ks n m finished _ off (omega (arith, enter-lt n m ks h new)) (
              search_neighbors-Outcome g ks fuel (has_cycle_dfs g fuel) (has_cycle_dfs-Outcome fuel)
                (g n) (enter n m) finished (closed n h) (omega (arith, enter-lt n m ks h new))
                (enter-Inv g m finished n inv) (Leads-enter m n (g n) leads (λ j k. k))))
    ]
  ]
