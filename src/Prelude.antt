-- ===== src/Prelude.antt =====
-- The names that every component shares: the libraries', passed on, and those of the children.
mod Tests
mod Lists
mod Assoc
mod Ordered
mod Texts
mod Pairs
pub mod Sort
pub use Tests.*
pub use Lists.*
pub use Ordered.*
pub use Pairs.{Pair, PairDict, pair_eq_iff, get_pair-set_pair, count-set_pair}
unfoldable pub use Pairs.{pair_eq, get_pair, set_pair}
pub use Texts.{or_text}
unfoldable pub use Texts.{clip, join}
pub use Assoc.{
  Dict, lookup-insert, lookup-insert_self, lookup-insert_ne, lookup-erase, length-insert,
  length-insert-le, All-insert, All-lookup, by_key, dict_laws,
}
unfoldable pub use Assoc.{lookup, insert, erase}
pub use Prim.Native.Nat.{ℕ, zero, suc, ◌+◌, ◌-◌, ◌*◌, ◌/◌, ◌%◌, ◌^◌, ◌≤◌, ◌<◌, min, max}
pub use Prim.Native.String.{String}
pub use mathlib.Core.Path.{◌≡◌, refl, sym, ap, ◌∙◌, subst}
pub use mathlib.Core.Logic.{◌≢◌, ◌↔◌, ◌⊎◌, inl, inr}
pub use mathlib.Core.Bool.{Bool, true, false, ◌&&◌, ◌||◌, not}
pub use mathlib.Core.Option.{Option, none, some}
pub use mathlib.Core.List.{Mem, mem-cons_self, mem-cons_of_mem}
pub use mathlib.Core.List.{List, [], ◌∷◌, ◌++◌, map, append-nil, append_assoc, reverse}
pub use native.Mathlib.Omega.{arith}
pub use text.Mathlib.Text.{◌==◌ as str_eq}
pub use text.Mathlib.TextEquality.{eq_iff}
