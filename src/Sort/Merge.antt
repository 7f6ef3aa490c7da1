-- ===== src/Sort/Merge.antt =====
-- sysprog/1/hw_sort.cpp, `merge`: the sorted arrays are merged into one.
use bd_tarantul.Common.{
  ℕ, zero, suc, ◌≡◌, ◌<◌, refl, sym, ap, ◌∙◌, subst, true, false, Option, none, some, List, [], ◌∷◌,
  ◌++◌, append-nil, append_assoc, length, ℤ, arith, ◌>>=◌, Bool-cases, inl, inr,
}
use mathlib.Core.Option.{some-injective}
use mathlib.Core.List.{Perm, perm_middle}
use mathlib.Core.List.Perm
use bd_tarantul.Sort.{leb_ℤ, AtMost, Each, IsAscending}

-- The first loop from `a` and `b` on, which are what is left of the two arrays, and the loop over the
-- one that is left: what is written to `tmp`.
unfoldable pub merge_two : List ℤ → List ℤ → List ℤ
merge_two [] ys = ys
merge_two (x ∷ xs) [] = x ∷ xs
merge_two (x ∷ xs) (y ∷ ys) = elim (leb_ℤ x y) [
  | true ↦ x ∷ merge_two xs (y ∷ ys)
  | false ↦ y ∷ merge_two (x ∷ xs) ys
]

module _ {A : Type 0} where
  abbrev pub at_index : ℕ → List A → Option A
  at_index n [] = none
  at_index zero (x ∷ xs) = some x
  at_index (suc n) (x ∷ xs) = at_index n xs

  abbrev pub put_at : ℕ → A → List A → List A
  put_at n v [] = []
  put_at zero v (x ∷ xs) = v ∷ xs
  put_at (suc n) v (x ∷ xs) = x ∷ put_at n v xs

-- `merge(k, arrs)`, and the array that it leaves at the last place. The last array takes the place of
-- the second one, and what is merged the place of the last one.
unfoldable pub merge_all : ℕ → List (List ℤ) → Option (List ℤ)
unfolding merge_two
merge_all zero arrs = none
merge_all (suc zero) arrs = at_index 0 arrs
merge_all (suc (suc k)) [] = none
merge_all (suc (suc k)) (x ∷ []) = none
merge_all (suc (suc k)) (x ∷ y ∷ rest) = at_index k (y ∷ rest) >>= λ last.
    merge_all (suc k) (put_at k (merge_two x y) (put_at 0 last (y ∷ rest)))

abbrev pub flatten : List (List ℤ) → List ℤ
flatten [] = []
flatten (xs ∷ xss) = xs ++ flatten xss

merge_two-left :
    (x y : ℤ) (xs ys : List ℤ)
    → leb_ℤ x y ≡ true
    → merge_two (x ∷ xs) (y ∷ ys) ≡ x ∷ merge_two xs (y ∷ ys)
unfolding merge_two
merge_two-left x y xs ys e = rw (e, merge_two) refl

merge_two-right :
    (x y : ℤ) (xs ys : List ℤ)
    → leb_ℤ x y ≡ false
    → merge_two (x ∷ xs) (y ∷ ys) ≡ y ∷ merge_two (x ∷ xs) ys
unfolding merge_two
merge_two-right x y xs ys e = rw (e, merge_two) refl

merge_two-Each :
    (P : ℤ → Type 0) (xs ys : List ℤ) → Each P xs → Each P ys → Each P (merge_two xs ys)
unfolding merge_two
merge_two-Each P [] ys h k = k
merge_two-Each P (x ∷ xs) [] h k = h
merge_two-Each P (x ∷ xs) (y ∷ ys) h k = elim (Bool-cases (leb_ℤ x y)) [
  | inl e ↦
      subst (Each P) (sym (merge_two-left x y xs ys e)) (h.0, merge_two-Each P xs (y ∷ ys) h.1 k)
  | inr e ↦
      subst (Each P) (sym (merge_two-right x y xs ys e)) (k.0, merge_two-Each P (x ∷ xs) ys h k.1)
]

Each-below : (a b : ℤ) (xs : List ℤ) → AtMost a b → Each (AtMost b) xs → Each (AtMost a) xs
Each-below a b [] h k = tt
Each-below a b (x ∷ xs) h k = (omega (arith, h, k.0), Each-below a b xs h k.1)

merge_two-IsAscending :
    (xs ys : List ℤ) → IsAscending xs → IsAscending ys → IsAscending (merge_two xs ys)
unfolding merge_two
merge_two-IsAscending [] ys h k = k
merge_two-IsAscending (x ∷ xs) [] h k = h
merge_two-IsAscending (x ∷ xs) (y ∷ ys) h k = elim (Bool-cases (leb_ℤ x y)) [
  | inl e ↦
      let l : AtMost x y = ground (arith, e) in
      subst IsAscending (sym (merge_two-left x y xs ys e)) (
        merge_two-Each (AtMost x) xs (y ∷ ys) h.0 (l, Each-below x y ys l k.0),
        merge_two-IsAscending xs (y ∷ ys) h.1 k,
      )
  | inr e ↦
      let l : AtMost y x = ground (arith, e) in
      subst IsAscending (sym (merge_two-right x y xs ys e)) (
        merge_two-Each (AtMost y) (x ∷ xs) ys (l, Each-below y x xs l h.0) k.0,
        merge_two-IsAscending (x ∷ xs) ys h k.1,
      )
]

merge_two-perm : (xs ys : List ℤ) → Perm (merge_two xs ys) (xs ++ ys)
unfolding merge_two
merge_two-perm [] ys = Perm.rfl
merge_two-perm (x ∷ xs) [] = subst (Perm (x ∷ xs)) (sym (append-nil (x ∷ xs))) Perm.rfl
merge_two-perm (x ∷ xs) (y ∷ ys) = elim (Bool-cases (leb_ℤ x y)) [
  | inl e ↦
      subst (λ zs. Perm zs (x ∷ xs ++ y ∷ ys)) (sym (merge_two-left x y xs ys e))
        (Perm.cons x (merge_two-perm xs (y ∷ ys)))
  | inr e ↦
      subst (λ zs. Perm zs (x ∷ xs ++ y ∷ ys)) (sym (merge_two-right x y xs ys e))
        (Perm.trans (Perm.cons y (merge_two-perm (x ∷ xs) ys))
          (Perm.symm (perm_middle (x ∷ xs) ys)))
]

-- Two runs of a list that are exchanged.
perm_exchange : (xs ys zs : List ℤ) → Perm (xs ++ (ys ++ zs)) (ys ++ (xs ++ zs))
perm_exchange [] ys zs = Perm.rfl
perm_exchange (x ∷ xs) ys zs =
    Perm.trans (Perm.cons x (perm_exchange xs ys zs)) (Perm.symm (perm_middle ys (xs ++ zs)))

-- What is put in the place of `z`.
flatten-put_at :
    (n : ℕ) (z v : List ℤ) (xss : List (List ℤ))
    → at_index n xss ≡ some z
    → Perm (z ++ flatten (put_at n v xss)) (v ++ flatten xss)
flatten-put_at n z v [] h = absurd (cc)
flatten-put_at zero z v (xs ∷ xss) h =
    subst (λ ws. Perm (ws ++ (v ++ flatten xss)) (v ++ (xs ++ flatten xss))) (some-injective xs z h)
      (perm_exchange xs v (flatten xss))
flatten-put_at (suc n) z v (xs ∷ xss) h =
    Perm.trans (perm_exchange z xs (flatten (put_at n v xss))) (
      Perm.trans (Perm.append_left xs (flatten-put_at n z v xss h))
        (perm_exchange xs v (flatten xss)))

put_at-Each :
    (n : ℕ) (v : List ℤ) (xss : List (List ℤ))
    → IsAscending v
    → Each IsAscending xss
    → Each IsAscending (put_at n v xss)
put_at-Each n v [] h k = k
put_at-Each zero v (xs ∷ xss) h k = (h, k.1)
put_at-Each (suc n) v (xs ∷ xss) h k = (k.0, put_at-Each n v xss h k.1)

length-put_at : (n : ℕ) (v : List ℤ) (xss : List (List ℤ)) → length (put_at n v xss) ≡ length xss
length-put_at n v [] = refl
length-put_at zero v (xs ∷ xss) = refl
length-put_at (suc n) v (xs ∷ xss) = omega (arith, length-put_at n v xss)

at_index-some :
    (n : ℕ) (xss : List (List ℤ))
    → n < length xss
    → Each IsAscending xss
    → (z : List ℤ) × (at_index n xss ≡ some z) × IsAscending z
at_index-some n [] h k = absurd (omega (arith, h))
at_index-some zero (xs ∷ xss) h k = (xs, refl, k.0)
at_index-some (suc n) (xs ∷ xss) h k = at_index-some n xss (omega (arith, h)) k.1

-- A round keeps the numbers of the arrays.
round-perm :
    (k : ℕ) (x y z v : List ℤ) (rest : List (List ℤ))
    → length rest ≡ k
    → at_index k (y ∷ rest) ≡ some z
    → Perm v (x ++ y)
    → Perm (flatten (put_at k v (put_at 0 z (y ∷ rest)))) (x ++ flatten (y ∷ rest))
round-perm zero x y z v [] l h p =
    subst (Perm (v ++ [])) (append_assoc x y []) (Perm.append_right [] p)
round-perm zero x y z v (w ∷ rest) l h p = absurd (omega (arith, l))
round-perm (suc k) x y z v rest l h p = Perm.trans (flatten-put_at k z v rest h) (
    subst (Perm (v ++ flatten rest)) (append_assoc x y (flatten rest))
      (Perm.append_right (flatten rest) p))

-- Sorted arrays are merged into one sorted array of all their numbers.
pub merge_all-sorts :
    (k : ℕ) (arrs : List (List ℤ))
    → length arrs ≡ suc k
    → Each IsAscending arrs
    → (out : List ℤ) × (merge_all (suc k) arrs ≡ some out)
      × IsAscending out
      × Perm out (flatten arrs)
unfolding merge_all
merge_all-sorts k [] l h = absurd (omega (arith, l))
merge_all-sorts zero (x ∷ []) l h = (x, refl, h.0, subst (Perm x) (sym (append-nil x)) Perm.rfl)
merge_all-sorts zero (x ∷ y ∷ rest) l h = absurd (omega (arith, l))
merge_all-sorts (suc k) (x ∷ []) l h = absurd (omega (arith, l))
merge_all-sorts (suc k) (x ∷ y ∷ rest) l h =
    let (z, at_last, z_asc) = at_index-some k (y ∷ rest) (omega (arith, l)) h.1 in
    let tmp = merge_two x y in
    let next = put_at k tmp (put_at 0 z (y ∷ rest)) in
    let (out, e, asc, p) =
      merge_all-sorts k next
        (omega
          (arith, l, length-put_at k tmp (put_at 0 z (y ∷ rest)), length-put_at 0 z (y ∷ rest)))
        (put_at-Each k tmp (put_at 0 z (y ∷ rest)) (merge_two-IsAscending x y h.0 h.1.0)
          (put_at-Each 0 z (y ∷ rest) z_asc h.1)) in
    (
      out,
      ap (λ o. o >>= λ last. merge_all (suc k) (put_at k tmp (put_at 0 last (y ∷ rest)))) at_last
          ∙ e,
      asc,
      Perm.trans p (round-perm k x y z tmp rest (omega (arith, l)) at_last (merge_two-perm x y)),
    )
