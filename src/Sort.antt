-- ===== src/Sort.antt =====
-- sysprog/1/hw_sort.cpp: the arrays of several files are sorted one by one and merged.
pub mod Merge
pub mod Quick
pub mod Files
mod Tests
use bd_tarantul.Common.{ℕ, ◌+◌, ◌≤◌, Bool, ℤ, pos_part, neg_part, leb, List, [], ◌∷◌}

-- `<=` of two numbers of the files.
abbrev pub leb_ℤ : ℤ → ℤ → Bool
leb_ℤ a b = leb (pos_part a + neg_part b) (pos_part b + neg_part a)

abbrev pub AtMost : ℤ → ℤ → Type 0
AtMost a b = pos_part a + neg_part b ≤ pos_part b + neg_part a

abbrev pub Each : {A : Type 0} → (A → Type 0) → List A → Type 0
Each P [] = Unit {0}
Each P (x ∷ xs) = P x × Each P xs

abbrev pub IsAscending : List ℤ → Type 0
IsAscending [] = Unit {0}
IsAscending (x ∷ xs) = Each (AtMost x) xs × IsAscending xs
