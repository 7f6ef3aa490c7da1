-- ===== src/Common.antt =====
-- The names that the other modules share: the libraries', passed on, Boolean tests, lists measured
-- by native numbers, bytes and machine words.
mod Tests
mod Lists
mod Words
mod Text
mod Int
pub use Tests.*
pub use Lists.*
pub use Words.*
pub use Int.{ℤ, pos, negsuc, pos_part, neg_part, sub_ℕ, ltb_ℤ}
unfoldable pub use Int.{◌+ℤ◌, ◌-ℤ◌}
unfoldable pub use Text.{bytes_eq}
pub use Text.{Bytes, bytes_eq_iff, bytes_eq_refl, bytes_eq_sym, bytes_eq_trans, codes}
pub use Prim.Native.Nat.{ℕ, zero, suc, ◌+◌, ◌-◌, ◌*◌, ◌/◌, ◌%◌, ◌^◌, ◌≤◌, ◌<◌, min, max}
pub use mathlib.Core.Path.{◌≡◌, refl, sym, ap, ap₂, subst, ◌∙◌, fun_ext}
pub use mathlib.Core.Logic.{◌≢◌, ◌↔◌, ◌⊎◌, inl, inr, ite, dite}
pub use mathlib.Core.Bool.{Bool, true, false, not, ◌&&◌, ◌||◌}
pub use mathlib.Core.Option.{Option, none, some}
pub use mathlib.Core.List.{List, [], ◌∷◌, ◌++◌, map, append-nil, append_assoc}
pub use native.Mathlib.Omega.{arith}
unfoldable pub use native.Mathlib.Decide.{dec_lt, dec_le, ℕ_discrete}
