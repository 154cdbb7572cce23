-- ===== src/Prelude.antt =====
-- The names that the other modules share: the libraries', passed on, and those of the children.
mod Tests
mod Lists
mod Equality
mod Dict
mod Members
mod Results
pub mod Int
pub use Tests.*
pub use Lists.*
pub use Prim.Native.Nat.{ℕ, zero, suc, ◌+◌, ◌-◌, ◌*◌, ◌≤◌, ◌<◌}
pub use Prim.Native.String.{String}
pub use mathlib.Core.Path.{◌≡◌, refl, sym, ap, subst, ◌∙◌}
pub use mathlib.Core.Logic.{◌≢◌, ◌↔◌, ◌⊎◌, inl, inr}
pub use mathlib.Core.Bool.{Bool, true, false, ◌&&◌, ◌||◌, not}
pub use mathlib.Core.Option.{Option, none, some, some_inj}
pub use mathlib.Core.List.{List, [], ◌∷◌, ◌++◌, map}
pub use native.Mathlib.Omega.{arith}
pub use Equality.{Comparable, ◌==◌, nat_eq, string_eq, beq_self, beq_false}
unfoldable pub use Dict.{lookup, insert, remove}
pub use Dict.{
  count-keys-insert, contains-keys, has_key, keys, lookup-insert, lookup-remove, lookup-insert_self,
}
pub use Members.{contains, erase, length-erase, contains-append, contains-erase}
pub use Members.{
  count, count-append, contains-count, total, total-count, total-le, total-full, total-ones,
  total_mono, total-drop, count-filter,
}
pub use Results.{Result, ok, err, Result-cases, guard-eq-ok, test-eq-ok, ok_inj}
