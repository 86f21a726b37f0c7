-- ===== src/Common.antt =====
-- The names that the other modules share: the libraries', passed on, and those of the children.
mod Tests
mod Texts
mod Lists
pub mod Int
pub mod Equality
pub mod Actions
pub use Int.{ℤ, pos, negsuc}
pub use Tests.*
pub use Lists.*
pub use Texts.{text_less, text_less-asym}
pub use Actions.{
  Error, runtime_error, key_error, value_error, type_error, not_a_directory, operational_error,
  index_error, not_implemented_error, transport_error, http_status_error, decoding_error,
  pickling_error, attribute_error, out_of_rounds, Result, ok, err, Exec, pure, lift, ◌>>=◌, ◌>>◌,
}
pub use Equality.{Keys, ◌==◌, ℕ_keys, text_keys, ==_refl}
pub use Prim.Native.Nat.{ℕ, zero, suc, ◌+◌, ◌-◌, ◌*◌, ◌/◌, ◌%◌, ◌≤◌, ◌<◌}
pub use Prim.Native.String.{String}
pub use mathlib.Core.Path.{◌≡◌, refl, sym, ap, ◌∙◌}
pub use mathlib.Core.Logic.{◌≢◌, ◌↔◌, ◌⊎◌, inl, inr}
pub use mathlib.Core.Bool.{Bool, true, false, not, ◌&&◌, ◌||◌}
pub use mathlib.Core.Option.{Option, none, some}
pub use mathlib.Core.List.{List, [], ◌∷◌, ◌++◌, map}
pub use native.Mathlib.Omega.{arith}
