-- ===== src/Common/Text.antt =====
-- `std::string` and C byte buffers as lists of byte values, with `operator==`.
use Prim.Native.Nat.{ℕ}
use Prim.Native.Char.{code}
use Prim.Native.String.{String}
use mathlib.Core.Path.{◌≡◌, refl, ◌∙◌}
use mathlib.Core.Logic.{◌↔◌}
use mathlib.Core.Bool.{Bool, true, false, ◌&&◌}
use mathlib.Core.List.{List, [], ◌∷◌}
use native.Mathlib.Omega.{arith}
use bd_tarantul.Common.Tests.{◌==◌}

abbrev pub Bytes : Type 0
Bytes = List ℕ

-- The bytes of an ASCII literal.
abbrev pub codes : String → Bytes
codes String.[] = []
codes (String.◌∷◌ c s) = code c ∷ codes s

unfoldable pub bytes_eq : Bytes → Bytes → Bool
bytes_eq [] [] = true
bytes_eq [] (_ ∷ _) = false
bytes_eq (_ ∷ _) [] = false
bytes_eq (a ∷ as') (b ∷ bs) = a == b && bytes_eq as' bs

bytes_eq_sound : (x y : Bytes) → bytes_eq x y ≡ true → x ≡ y
unfolding bytes_eq
bytes_eq_sound [] [] h = refl
bytes_eq_sound [] (b ∷ bs) h = cc
bytes_eq_sound (a ∷ as') [] h = cc
bytes_eq_sound (a ∷ as') (b ∷ bs) h = ground (arith, bytes_eq_sound as' bs)

pub bytes_eq_refl : (x : Bytes) → bytes_eq x x ≡ true
unfolding bytes_eq
bytes_eq_refl [] = refl
bytes_eq_refl (a ∷ as') = ground (arith, bytes_eq_refl as')

pub bytes_eq_iff : (x y : Bytes) → (bytes_eq x y ≡ true) ↔ (x ≡ y)
bytes_eq_iff x y = (bytes_eq_sound x y, λ e. rw e (bytes_eq_refl y))

pub bytes_eq_sym : (x y : Bytes) → bytes_eq x y ≡ bytes_eq y x
unfolding bytes_eq
bytes_eq_sym [] [] = refl
bytes_eq_sym [] (b ∷ bs) = refl
bytes_eq_sym (a ∷ as') [] = refl
bytes_eq_sym (a ∷ as') (b ∷ bs) = ground (arith, bytes_eq_sym as' bs)

pub bytes_eq_trans :
    (x y z : Bytes) → bytes_eq x y ≡ true → bytes_eq y z ≡ true → bytes_eq x z ≡ true
bytes_eq_trans x y z p q = (bytes_eq_iff x z).1 ((bytes_eq_iff x y).0 p ∙ (bytes_eq_iff y z).0 q)
