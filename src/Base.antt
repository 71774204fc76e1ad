-- ===== src/Base.antt =====
-- The names that the other modules share: the libraries', passed on, and those of the children.
mod Tests
mod Lists
mod Names
mod Perms
pub mod Int
pub use Tests.*
pub use Perms.{length-perm, has-perm, IsDistinct-perm, has-before}
pub use Lists.*
unfoldable pub use Names.{string_discrete}
pub use Names.{String, text_eq, text_eq_iff, has, has-append, has_iff_mem, IsDistinct, update}
pub use Prim.Native.Nat.{ℕ, zero, suc, ◌+◌, ◌-◌, ◌*◌, ◌/◌, ◌%◌, ◌^◌, ◌≤◌, ◌<◌}
pub use mathlib.Core.Path.{◌≡◌, refl, sym, ap, ◌∙◌, subst}
pub use mathlib.Core.Logic.{◌≢◌, ◌↔◌, ◌⊎◌, inl, inr, ite}
pub use mathlib.Core.Bool.{Bool, true, false, ◌&&◌, ◌||◌, not}
pub use mathlib.Core.Option.{Option, none, some}
pub use mathlib.Core.List.{
  List, [], ◌∷◌, ◌++◌, map, Mem, Nodup, Perm, append-nil, append_assoc, mem-cons_self,
  mem-cons_of_mem,
}
pub use native.Mathlib.Omega.{arith}
