-- ===== src/Pipeline/Cycle/NoPath.antt =====
-- An order that respects the dependencies leaves no circular one: each dependency has a lower place.
use mathlib.Core.Bool.{false≢true}
use devsec.Base.{
  ℕ, suc, ◌<◌, ◌≡◌, refl, true, false, List, [], ◌∷◌, ◌++◌, String, has, All, inl, inr,
  string_discrete, arith, subst, sym, ite, has-append, append_assoc, length,
}
use devsec.Pipeline.Types.{Stage, names}
use devsec.Pipeline.Order.{Satisfied, Ready, Respects, IsAcyclic}
use devsec.Pipeline.Cycle.Edges.{DependsOn, DependsPath, direct, further}

abbrev place : String → List String → ℕ
place n [] = 0
place n (x ∷ xs) = ite (string_discrete n x) 0 (suc (place n xs))

place_left : (n : String) (xs ys : List String) → has n xs ≡ true → place n (xs ++ ys) < length xs
place_left n [] ys h = absurd (false≢true h)
place_left n (x ∷ xs) ys h = ground (arith, place_left n xs ys)

place_right :
    (n : String) (xs ys : List String) → has n xs ≡ false → place n (xs ++ n ∷ ys) ≡ length xs
place_right n [] ys h = ground arith
place_right n (x ∷ xs) ys h = ground (arith, place_right n xs ys)

Satisfied-has :
    (xs ds : List String) (d : String) → Satisfied xs ds → has d ds ≡ true → has d xs ≡ true
Satisfied-has xs [] d sat h = absurd (false≢true h)
Satisfied-has xs (e ∷ ds) d sat h = ground (arith, Satisfied-has xs ds d sat.1)

DependsOn-Ready :
    (ss : List Stage) (before : List String) (n d : String)
    → Ready ss before n
    → DependsOn ss n d
    → has d before ≡ true
DependsOn-Ready [] before n d ready on = absurd on
DependsOn-Ready (s ∷ ss) before n d ready (inl (e, h)) =
    Satisfied-has before s.depends_on d (ready.0 e) h
DependsOn-Ready (s ∷ ss) before n d ready (inr on) = DependsOn-Ready ss before n d ready.1 on

DependsOn-names : (ss : List Stage) (n d : String) → DependsOn ss n d → has n (names ss) ≡ true
DependsOn-names [] n d on = absurd on
DependsOn-names (s ∷ ss) n d (inl (e, _)) = ground (arith, sym e)
DependsOn-names (s ∷ ss) n d (inr on) = ground (arith, DependsOn-names ss n d on)

complete-has :
    (order : List String) (ss : List Stage) (n : String)
    → All (λ s. has s.name order ≡ true) ss
    → has n (names ss) ≡ true
    → has n order ≡ true
complete-has order [] n c h = absurd (false≢true h)
complete-has order (s ∷ ss) n c h = ground (arith, complete-has order ss n c.1)

place-DependsOn :
    (ss : List Stage) (before rest : List String) (n d : String)
    → Respects ss before rest
    → has n before ≡ false
    → has n rest ≡ true
    → DependsOn ss n d
    → place d (before ++ rest) < place n (before ++ rest)
place-DependsOn ss before [] n d r absent h on = absurd (false≢true h)
place-DependsOn ss before (m ∷ rest) n d r absent h on = elim (string_discrete n m) [
  | yes e ↦
      subst (λ i. place d (before ++ i ∷ rest) < place n (before ++ i ∷ rest)) e
        (omega (
          arith,
          place_right n before rest absent,
          place_left d before (n ∷ rest)
              (DependsOn-Ready ss before n d (subst (Ready ss before) (sym e) r.0) on),
        ))
  | no ne ↦
      subst (λ l. place d l < place n l) (append_assoc before (m ∷ []) rest)
        (place-DependsOn ss (before ++ m ∷ []) rest n d r.1
          (ground (arith, has-append n before (m ∷ []))) (ground arith) on)
]

module _ (ss : List Stage) (acyclic : IsAcyclic ss) where
  place-DependsPath :
      {a b : String} → DependsPath ss a b → place b acyclic.order < place a acyclic.order
  place-DependsPath {a} {b} (direct on) =
      place-DependsOn ss [] acyclic.order a b acyclic.respects refl
        (complete-has acyclic.order ss a acyclic.complete (DependsOn-names ss a b on)) on
  place-DependsPath {a} {b = c} (further {b = b} p on) = omega (
    arith,
    place-DependsPath p,
    place-DependsOn ss [] acyclic.order b c acyclic.respects refl
        (complete-has acyclic.order ss b acyclic.complete (DependsOn-names ss b c on)) on,
  )

  pub IsAcyclic-DependsPath : (x : String) → ¬ DependsPath ss x x
  IsAcyclic-DependsPath x p = omega (arith, place-DependsPath p)
