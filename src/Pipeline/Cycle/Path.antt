-- ===== src/Pipeline/Cycle/Path.antt =====
-- Paths of dependencies, and the measure of the depth-first search: the names not yet visited.
use devsec.Base.{
  ℕ, suc, ◌≤◌, ◌<◌, ◌≡◌, Bool, true, false, List, [], ◌∷◌, ◌++◌, String, has, update, if◌then◌else◌,
  string_discrete, arith, append-nil, append_assoc, subst, sym,
}
use devsec.Pipeline.Order.{Satisfied}
use devsec.Pipeline.Cycle.{Graph}

-- A path of one or more dependencies.
pub data Reach (g : Graph) (a : String) : String → Type 0 where
  edge : {b : String} → has b (g a) ≡ true → Reach g a b
  step : {b c : String} → Reach g a b → has c (g b) ≡ true → Reach g a c

-- Each name stands behind those that it depends on.
abbrev pub Ranks : Graph → List String → List String → Type 0
Ranks g before [] = Unit
Ranks g before (n ∷ rest) = Satisfied before (g n) × Ranks g (before ++ n ∷ []) rest

pub Ranks-snoc :
    (g : Graph) (before rest : List String) (n : String)
    → Ranks g before rest
    → Satisfied (before ++ rest) (g n)
    → Ranks g before (rest ++ n ∷ [])
Ranks-snoc g before [] n r h = (subst (λ l. Satisfied l (g n)) (append-nil before) h, tt)
Ranks-snoc g before (m ∷ rest) n r h = (
  r.0,
  Ranks-snoc g (before ++ m ∷ []) rest n r.1
      (subst (λ l. Satisfied l (g n)) (sym (append_assoc before (m ∷ []) rest)) h),
)

abbrev pub unvisited : (String → Bool) → List String → ℕ
unvisited v [] = 0
unvisited v (k ∷ ks) = let rest = unvisited v ks in if v k then rest else suc rest

unvisited-update-le :
    (v : String → Bool) (n : String) (ks : List String)
    → unvisited (update v n true) ks ≤ unvisited v ks
unvisited-update-le v n [] = omega arith
unvisited-update-le v n (k ∷ ks) = ground (arith, unvisited-update-le v n ks)

pub unvisited-update-lt :
    (v : String → Bool) (n : String) (ks : List String)
    → has n ks ≡ true
    → v n ≡ false
    → unvisited (update v n true) ks < unvisited v ks
unvisited-update-lt v n [] h f = cc
unvisited-update-lt v n (k ∷ ks) h f = elim (string_discrete n k) [
  | yes e ↦ ground (arith, unvisited-update-le v n ks)
  | no ne ↦ ground (arith, unvisited-update-lt v n ks)
]
