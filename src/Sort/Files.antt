-- ===== src/Sort/Files.antt =====
-- sysprog/1/hw_sort.cpp, `main`: the numbers of the files are sorted and merged.
use bd_tarantul.Common.{
  suc, ◌-◌, ◌≤◌, ◌≡◌, refl, ap, ◌∙◌, Option, some, List, [], ◌∷◌, length, ℤ, arith, ◌>>=◌,
}
use mathlib.Core.List.{Perm}
use mathlib.Core.List.Perm
use bd_tarantul.Sort.{Each, IsAscending}
use bd_tarantul.Sort.Merge.{merge_all, flatten, merge_all-sorts}
use bd_tarantul.Sort.Quick.{q_sort}
use bd_tarantul.Sort.Quick.Sorts.{q_sort-sorts}

-- The coroutines, each with the array of one file, one run to its end after the other.
unfoldable pub sort_all : List (List ℤ) → Option (List (List ℤ))
unfolding q_sort
sort_all [] = some []
sort_all (xs ∷ xss) = q_sort xs >>= λ ys. sort_all xss >>= λ yss. some (ys ∷ yss)

-- What `main` writes to out.txt.
unfoldable pub sort_files : List (List ℤ) → Option (List ℤ)
unfolding sort_all merge_all
sort_files arrs = sort_all arrs >>= λ sorted. merge_all (length sorted) sorted

abbrev pub IsLong : List ℤ → Type 0
IsLong xs = 2 ≤ length xs

sort_all-sorts :
    (xss : List (List ℤ))
    → Each IsLong xss
    → (yss : List (List ℤ)) × (sort_all xss ≡ some yss)
      × Each IsAscending yss
      × Perm (flatten yss) (flatten xss)
      × (length yss ≡ length xss)
unfolding sort_all
sort_all-sorts [] h = ([], refl, tt, Perm.rfl, refl)
sort_all-sorts (xs ∷ xss) h =
    let (ys, e, a, p) = q_sort-sorts xs h.0 in
    let (yss, es, as_, ps, n) = sort_all-sorts xss h.1 in
    (
      ys ∷ yss,
      ap (λ o. o >>= λ ys. sort_all xss >>= λ yss. some (ys ∷ yss)) e
          ∙ ap (λ o. o >>= λ yss. some (ys ∷ yss)) es,
      (a, as_),
      Perm.append p ps,
      ap suc n,
    )

-- For the arrays of one file or more, each with two numbers or more, where each array is sorted whole
-- before the merges: no access goes beyond an array, and what is written are the numbers of all the
-- arrays, each as often as it was read, in ascending order.
pub sort_files-sorts :
    (arrs : List (List ℤ))
    → 1 ≤ length arrs
    → Each IsLong arrs
    → (out : List ℤ) × (sort_files arrs ≡ some out) × IsAscending out × Perm out (flatten arrs)
unfolding sort_files
sort_files-sorts arrs some_file h =
    let (sorted, e, a, p, n) = sort_all-sorts arrs h in
    let k : length sorted ≡ suc (length sorted - 1) = omega (arith, n, some_file) in
    let (out, eo, ao, po) = merge_all-sorts (length sorted - 1) sorted k a in
    (
      out,
      ap (λ o. o >>= λ sorted. merge_all (length sorted) sorted) e
          ∙ ap (λ k. merge_all k sorted) k
          ∙ eo,
      ao,
      Perm.trans po p,
    )
