-- ===== src/Sort/Quick.antt =====
-- sysprog/1/hw_sort.cpp, `q_sort_coro`: the sort of one array, with its own stack of ranges. What the
-- coroutines hand over between its lines does not touch the fields of another task.
mod Swaps
mod Within
mod Partition
mod Pending
pub mod Sorts
use bd_tarantul.Common.{
  ℕ, zero, suc, ◌+◌, ◌-◌, ◌*◌, Bool, true, false, Option, none, some, List, [], ◌∷◌, length, ℤ, ltb,
  leb, if◌then◌else◌, ◌>>=◌,
}
use bd_tarantul.Sort.{leb_ℤ}
use bd_tarantul.Sort.Merge.{at_index, put_at}

-- `t = arr[i]; arr[i] = arr[j]; arr[j] = t`
unfoldable pub swap : ℕ → ℕ → List ℤ → Option (List ℤ)
swap i j arr = at_index i arr >>= λ t. at_index j arr >>= λ b. some (put_at j t (put_at i b arr))

-- `while (j <= h - 1) {...}` with `n` rounds to come; `i` is one more than in the source, where it
-- starts below `l`.
unfoldable pub part_loop : ℕ → ℤ → ℕ → ℕ → List ℤ → Option (ℕ × List ℤ)
unfolding swap
part_loop zero x i j arr = some (i, arr)
part_loop (suc n) x i j arr = at_index j arr >>= λ a. elim (leb_ℤ a x) [
  | true ↦ swap i j arr >>= λ arr'. part_loop n x (i + 1) (j + 1) arr'
  | false ↦ part_loop n x i (j + 1) arr
]

-- The place of the pivot, and the array with the pivot there.
unfoldable pub partition : ℕ → ℕ → List ℤ → Option (ℕ × List ℤ)
unfolding part_loop
partition l h arr = at_index h arr >>= λ x.
    part_loop (h - l) x l l arr >>= λ r. swap r.0 h r.1 >>= λ arr'. some (r.0, arr')

-- The ranges on the stack, of two entries each; there is room for as many entries as numbers.
abbrev pub Stack : Type 0
Stack = List (ℕ × ℕ)

abbrev pub push : ℕ → ℕ → ℕ → Stack → Option Stack
push size l h st = if leb (2 * length st + 2) size then some ((l, h) ∷ st) else none

-- `if (p-1 > l) {...}`
abbrev pub push_left : ℕ → ℕ → ℕ → Stack → Option Stack
push_left size l p st = if ltb (l + 1) p then push size l (p - 1) st else some st

-- `if (p+1 < h) {...}`
abbrev pub push_right : ℕ → ℕ → ℕ → Stack → Option Stack
push_right size p h st = if ltb (p + 1) h then push size (p + 1) h st else some st

-- `while (top >= 0) {...}`: each round takes a pivot out of the ranges, so there are at most as many
-- rounds as numbers.
unfoldable pub sort_loop : ℕ → ℕ → Stack → List ℤ → Option (List ℤ)
unfolding partition
sort_loop fuel size [] arr = some arr
sort_loop zero size (_ ∷ _) arr = none
sort_loop (suc fuel) size ((l, h) ∷ st) arr = partition l h arr >>= λ r.
    push_left size l r.0 st >>= λ st1.
    push_right size r.0 h st1 >>= λ st2. sort_loop fuel size st2 r.1

-- The array of a task, from the stack that `main` makes.
unfoldable pub q_sort : List ℤ → Option (List ℤ)
unfolding sort_loop
q_sort arr = let size = length arr in push size 0 (size - 1) [] >>= λ st. sort_loop size size st arr
