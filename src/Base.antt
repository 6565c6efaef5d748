-- ===== src/Base.antt =====
-- The names that the other modules share: those of the libraries, passed on, and those of the
-- children (tests on numbers, lists of native length, integers, and the results of calls).
mod Tests
mod Lists
mod Int
mod Results
mod Dicts
pub use Tests.*
pub use Lists.*
pub use Int.*
pub use Results.*
unfoldable pub use Dicts.{lookup, insert, remove, keep_values, sum_values}
pub use Dicts.{
  Dict, weight_of, Entries, lookup-insert, lookup-remove, sum_values-insert, sum_values-keep,
  Entries-insert, Entries-keep, Entries-lookup,
}
pub use text.Mathlib.Text.{◌==◌ as str_eq}
pub use text.Mathlib.TextEquality.{eq_iff}
pub use native.Mathlib.Nat.{zero-add}
pub use Prim.Native.Nat.{ℕ, zero, suc, ◌+◌, ◌-◌, ◌*◌, ◌/◌, ◌%◌, ◌^◌, ◌≤◌, ◌<◌, min, max}
pub use Prim.Native.String.{String}
pub use mathlib.Core.Path.{◌≡◌, refl, sym, ap, ap₂, ◌∙◌, subst}
pub use mathlib.Core.Logic.{◌≢◌, ◌↔◌, ◌⊎◌, inl, inr}
pub use mathlib.Core.Bool.{Bool, true, false, not, ◌&&◌, ◌||◌}
pub use mathlib.Core.Option.{Option, none, some, some-injective, map as map_some}
pub use mathlib.Core.List.{List, [], ◌∷◌, ◌++◌, map, append-nil, append_assoc}
pub use native.Mathlib.Omega.{arith}
