-- ===== src/Sort/Tests.antt =====
-- Numbers of files sorted, and the theorems on the sort applied there.
use bd_tarantul.Common.{◌≡◌, refl, arith, none, some, List, [], ◌∷◌, ℤ, pos, negsuc}
use mathlib.Core.List.{Perm}
use bd_tarantul.Sort.{IsAscending}
use bd_tarantul.Sort.Merge.{merge_two, merge_all, flatten}
use bd_tarantul.Sort.Quick.{swap, part_loop, partition, sort_loop, q_sort}
use bd_tarantul.Sort.Quick.Sorts
use bd_tarantul.Sort.Files
use bd_tarantul.Sort.Files.{sort_all, sort_files}

program : Unit {0}
unfolding merge_two merge_all swap part_loop partition sort_loop q_sort sort_all sort_files
program = tt

abbrev numbers : List ℤ
numbers = pos 4 ∷ negsuc 2 ∷ pos 9 ∷ pos 1 ∷ pos 4 ∷ []

abbrev files : List (List ℤ)
files = numbers ∷ (pos 2 ∷ pos 0 ∷ []) ∷ []

sorted : q_sort numbers ≡ some (negsuc 2 ∷ pos 1 ∷ pos 4 ∷ pos 4 ∷ pos 9 ∷ [])
unfolding program
sorted = refl

-- The stack of an array of one number has room for one of the two entries that `main` pushes.
too_short : q_sort (pos 3 ∷ []) ≡ none
unfolding program
too_short = refl

written : sort_files files ≡ some (negsuc 2 ∷ pos 0 ∷ pos 1 ∷ pos 2 ∷ pos 4 ∷ pos 4 ∷ pos 9 ∷ [])
unfolding program
written = refl

q_sort-sorts_example : (ys : List ℤ) × (q_sort numbers ≡ some ys) × IsAscending ys × Perm ys numbers
q_sort-sorts_example = Sorts.q_sort-sorts numbers (omega arith)

sort_files-sorts_example :
    (out : List ℤ) × (sort_files files ≡ some out) × IsAscending out × Perm out (flatten files)
sort_files-sorts_example = Files.sort_files-sorts files (omega arith) (omega arith)
