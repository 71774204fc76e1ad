-- ===== src/Base/Names.antt =====
-- Names are Go strings. Their equality is decided by the native test, and a Go map whose missing
-- keys read as a zero value is a function.
use mathlib.Core.Path.{◌≡◌, refl}
use mathlib.Core.Logic.Or
use mathlib.Core.Logic.{◌↔◌, ite}
use mathlib.Core.Bool.{Bool, true, false, ◌||◌, false≢true}
use mathlib.Core.List.{List, [], ◌∷◌, ◌++◌, Mem, mem-cons, not-mem-nil, mem-cons_of_mem}
use native.Mathlib.Omega.{arith}
use text.Mathlib.Text.{◌==◌ as str_eq}
use text.Mathlib.TextEquality.{eq_iff}
pub use Prim.Native.String.{String}

abbrev pub text_eq : String → String → Bool
text_eq s t = str_eq s t

pub text_eq_iff : (s t : String) → (text_eq s t ≡ true) ↔ (s ≡ t)
text_eq_iff s t = eq_iff s t

decide_by : {s t : String} (b : Bool) → (b ≡ true) ↔ (s ≡ t) → Dec (s ≡ t)
decide_by true e = yes (e.0 refl)
decide_by false e = no (λ p. false≢true (e.1 p))

unfoldable pub string_discrete : Discrete String
unfolding decide_by
string_discrete s t = decide_by (str_eq s t) (eq_iff s t)

abbrev pub has : String → List String → Bool
has n [] = false
has n (m ∷ ms) = ite (string_discrete n m) true (has n ms)

pub has-append : (n : String) (xs ys : List String) → has n (xs ++ ys) ≡ (has n xs || has n ys)
has-append n [] ys = refl
has-append n (x ∷ xs) ys = ground (arith, has-append n xs ys)

pub has_iff_mem : (n : String) (xs : List String) → (has n xs ≡ true) ↔ Mem n xs
has_iff_mem n [] = (λ h. absurd (false≢true h), λ m. absurd (not-mem-nil m))
has_iff_mem n (x ∷ xs) =
    elim (string_discrete n x) as (λ d. (ite d true (has n xs) ≡ true) ↔ Mem n (x ∷ xs)) [
      | yes p ↦ (λ _. mem-cons.1 (Or.inl p), λ _. refl)
      | no q ↦ (
        λ h. mem-cons_of_mem x ((has_iff_mem n xs).0 h),
        λ m. Or.elim (hlevel) (mem-cons.0 m) (λ e. absurd (q e)) ((has_iff_mem n xs).1),
      )
    ]

-- No name occurs twice.
abbrev pub IsDistinct : List String → Type 0
IsDistinct [] = Unit
IsDistinct (n ∷ ns) = (has n ns ≡ false) × IsDistinct ns

module _ {ℓ} {V : Type ℓ} where
  -- m[k] = v
  abbrev pub update : (String → V) → String → V → String → V
  update m k v j = ite (string_discrete j k) v (m j)
