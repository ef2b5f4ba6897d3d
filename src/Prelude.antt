-- ===== src/Prelude.antt =====
-- The names that all the other modules share: the libraries', passed on, and those of the children.
mod Tests
mod Lists
mod Panic
pub use Tests.*
pub use Panic.*
pub use Lists.{
  length, get_or, take, drop, replicate, All, slice, length-append, length-take, length-drop,
  length-replicate, length-map, take-append, drop-append, take-append_le, drop-append_le, drop-drop,
  take_all, drop_all, take-append-drop, drop-replicate, copy_at-append, length-copy_at, All-append,
  All-mono, All-take, All-drop, All-replicate, IsAmong, IsAmong-snoc, IsAmong-last,
}
unfoldable pub use Lists.{copy_at}
pub use Prim.Native.Nat.{ℕ, zero, suc, ◌+◌, ◌-◌, ◌*◌, ◌/◌, ◌%◌, ◌^◌, ◌≤◌, ◌<◌, min, max}
pub use mathlib.Core.Path.{◌≡◌, refl, sym, ap, ◌∙◌, subst}
pub use mathlib.Core.Logic.{◌≢◌, ◌↔◌, ◌⊎◌, inl, inr}
pub use mathlib.Core.Bool.{Bool, true, false, not, ◌&&◌, ◌||◌}
pub use mathlib.Core.Option.{Option, none, some}
pub use mathlib.Core.List.{List, [], ◌∷◌, ◌++◌, map, foldl, append-nil, append_assoc}
pub use native.Mathlib.Omega.{arith}
