-- ===== src/Base/Perms.antt =====
-- Permutations of lists of names: they keep the length, the members and distinctness.
use Prim.Native.Nat.{suc}
use mathlib.Core.Path.{◌≡◌, refl, sym, ap, ◌∙◌}
use mathlib.Core.Bool.{Bool, true, false}
use mathlib.Core.Logic.{◌↔◌, inl, inr}
use mathlib.Core.List
use mathlib.Core.List.Perm
use mathlib.Core.List.{List, [], ◌∷◌, ◌++◌, Nodup, Nodup-cons, Nodup-nil, Perm}
use native.Mathlib.Bridge.{from_ℕ}
use native.Mathlib.Omega.{arith}
use devsec.Base.Lists.{length}
use devsec.Base.Tests.{Bool-cases}
use devsec.Base.Names.{String, has, has-append, has_iff_mem, IsDistinct}

from_length {ℓ} : {A : Type ℓ} (xs : List A) → from_ℕ (List.length xs) ≡ length xs
from_length [] = refl
from_length (x ∷ xs) = ap suc (from_length xs)

pub length-perm {ℓ} : {A : Type ℓ} {xs ys : List A} → Perm xs ys → length xs ≡ length ys
length-perm {xs} {ys} p = sym (from_length xs) ∙ ap from_ℕ (Perm.length-eq p) ∙ from_length ys

bool_iff : (a b : Bool) → (a ≡ true) ↔ (b ≡ true) → a ≡ b
bool_iff a b e = ground arith

pub has-perm : {xs ys : List String} (n : String) → Perm xs ys → has n xs ≡ has n ys
has-perm {xs} {ys} n p = bool_iff (has n xs) (has n ys) (
  λ h. (has_iff_mem n ys).1 ((Perm.mem_iff p).0 ((has_iff_mem n xs).0 h)),
  λ h. (has_iff_mem n xs).1 ((Perm.mem_iff p).1 ((has_iff_mem n ys).0 h)),
)

Nodup-of_IsDistinct : (xs : List String) → IsDistinct xs → Nodup xs
Nodup-of_IsDistinct [] d = Nodup-nil
Nodup-of_IsDistinct (x ∷ xs) d =
    Nodup-cons.1 (λ m. cc ((has_iff_mem x xs).1 m, d.0), Nodup-of_IsDistinct xs d.1)

IsDistinct-of_Nodup : (xs : List String) → Nodup xs → IsDistinct xs
IsDistinct-of_Nodup [] d = tt
IsDistinct-of_Nodup (x ∷ xs) d = (
  elim (Bool-cases (has x xs)) [
    | inl h ↦ absurd ((Nodup-cons.0 d).0 ((has_iff_mem x xs).0 h))
    | inr h ↦ h
  ],
  IsDistinct-of_Nodup xs (Nodup-cons.0 d).1,
)

pub IsDistinct-perm : {xs ys : List String} → Perm xs ys → IsDistinct xs → IsDistinct ys
IsDistinct-perm {xs} {ys} p d = IsDistinct-of_Nodup ys (Perm.nodup p (Nodup-of_IsDistinct xs d))

-- A name in the middle of a list of distinct names does not occur before.
pub has-before : (n : String) (xs ys : List String) → IsDistinct (xs ++ n ∷ ys) → has n xs ≡ false
has-before n [] ys d = refl
has-before n (x ∷ xs) ys d = ground (arith, has-append x xs (n ∷ ys), has-before n xs ys d.1)
