-- ===== src/Base.antt =====
-- Names, tests on numbers and texts, and list functions that every other module uses.
mod Tests
pub mod Map
mod Lists
mod Text
pub use Tests.*
pub use Lists.*
pub use Map.{HashMap, get-insert, get-remove, get-empty, map_laws}
unfoldable pub use Text.*
pub use Prim.Native.String.{◌++◌ as text_append}
pub use Prim.Native.Nat.{ℕ, zero, suc, ◌+◌, ◌-◌, ◌*◌, ◌≤◌, ◌<◌, ◌^◌}
pub use Prim.Native.String.{String}
pub use mathlib.Core.Path.{◌≡◌, refl, sym, ap, ◌∙◌, subst, fun_ext}
pub use mathlib.Core.Logic.{◌≢◌, ◌⊎◌, inl, inr, ◌↔◌}
pub use mathlib.Core.Bool.{Bool, true, false, not, ◌&&◌, ◌||◌, false≢true}
pub use mathlib.Core.Option.{Option, none, some}
pub use mathlib.Core.List.{List, [], ◌∷◌, ◌++◌, map, append-nil, append_assoc}
pub use native.Mathlib.Omega.{arith}
