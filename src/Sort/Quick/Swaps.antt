-- ===== src/Sort/Quick/Swaps.antt =====
-- What a swap of two entries of an array does to it.
use bd_tarantul.Common.{
  ℕ, zero, suc, ◌<◌, ◌≡◌, ◌≢◌, refl, sym, ap, ◌∙◌, subst, some, List, [], ◌∷◌, length, ℤ, arith,
  ◌>>=◌, ℕ_discrete,
}
use mathlib.Core.Option.{some-injective}
use mathlib.Core.List.{Perm}
use mathlib.Core.List.Perm
use bd_tarantul.Sort.Merge.{at_index, put_at}
use bd_tarantul.Sort.Quick.{swap}

pub at_index-has : (n : ℕ) (xs : List ℤ) → n < length xs → (z : ℤ) × (at_index n xs ≡ some z)
at_index-has n [] h = absurd (omega (arith, h))
at_index-has zero (x ∷ xs) h = (x, refl)
at_index-has (suc n) (x ∷ xs) h = at_index-has n xs (omega (arith, h))

pub at_index-bound : (n : ℕ) (z : ℤ) (xs : List ℤ) → at_index n xs ≡ some z → n < length xs
at_index-bound n z [] h = absurd (cc)
at_index-bound zero z (x ∷ xs) h = omega arith
at_index-bound (suc n) z (x ∷ xs) h = omega (arith, at_index-bound n z xs h)

pub length-put : (n : ℕ) (v : ℤ) (xs : List ℤ) → length (put_at n v xs) ≡ length xs
length-put n v [] = refl
length-put zero v (x ∷ xs) = refl
length-put (suc n) v (x ∷ xs) = omega (arith, length-put n v xs)

at_put : (n : ℕ) (v : ℤ) (xs : List ℤ) → n < length xs → at_index n (put_at n v xs) ≡ some v
at_put n v [] h = absurd (omega (arith, h))
at_put zero v (x ∷ xs) h = refl
at_put (suc n) v (x ∷ xs) h = at_put n v xs (omega (arith, h))

at_other : (n k : ℕ) (v : ℤ) (xs : List ℤ) → k ≢ n → at_index k (put_at n v xs) ≡ at_index k xs
at_other n k v [] h = refl
at_other zero zero v (x ∷ xs) h = absurd (h refl)
at_other zero (suc k) v (x ∷ xs) h = refl
at_other (suc n) zero v (x ∷ xs) h = refl
at_other (suc n) (suc k) v (x ∷ xs) h = at_other n k v xs (λ e. h (ap suc e))

put-perm :
    (n : ℕ) (z v : ℤ) (xs : List ℤ) → at_index n xs ≡ some z → Perm (z ∷ put_at n v xs) (v ∷ xs)
put-perm n z v [] h = absurd (cc)
put-perm zero z v (x ∷ xs) h =
    subst (λ y. Perm (y ∷ v ∷ xs) (v ∷ x ∷ xs)) (some-injective x z h) (Perm.swap v x xs)
put-perm (suc n) z v (x ∷ xs) h =
    Perm.trans (Perm.swap x z (put_at n v xs))
      (Perm.trans (Perm.cons x (put-perm n z v xs h)) (Perm.swap v x xs))

pub record Swapped (i j : ℕ) (xs ys : List ℤ) : Type 0 where
  pub first : ℤ
  pub second : ℤ
  pub first_was : at_index i xs ≡ some first
  pub second_was : at_index j xs ≡ some second
  pub first_is : at_index i ys ≡ some second
  pub second_is : at_index j ys ≡ some first
  pub others : (k : ℕ) → k ≢ i → k ≢ j → at_index k ys ≡ at_index k xs
  pub perm : Perm ys xs
  pub same_length : length ys ≡ length xs

pub swap-Swapped :
    (i j : ℕ) (xs : List ℤ)
    → i < length xs
    → j < length xs
    → (ys : List ℤ) × (swap i j xs ≡ some ys) × Swapped i j xs ys
unfolding swap
swap-Swapped i j xs hi hj =
    let (a, ea) = at_index-has i xs hi in
    let (b, eb) = at_index-has j xs hj in
    let mid = put_at i b xs in
    let ys = put_at j a mid in
    let second_mid : at_index j mid ≡ some b = elim (ℕ_discrete j i) [
      | yes e ↦ subst (λ k. at_index k mid ≡ some b) (sym e) (at_put i b xs hi)
      | no n ↦ at_other i j b xs n ∙ eb
    ] in
    let hj' : j < length mid = omega (arith, hj, length-put i b xs) in
    (
      ys,
      ap (λ o. o >>= λ t. at_index j xs >>= λ b. some (put_at j t (put_at i b xs))) ea
          ∙ ap (λ o. o >>= λ b. some (put_at j a (put_at i b xs))) eb,
      record {
        first = a;
        second = b;
        first_was = ea;
        second_was = eb;
        first_is = elim (ℕ_discrete i j) [
          | yes e ↦
              subst (λ k. at_index k ys ≡ some b) (sym e)
                (at_put j a mid hj' ∙ sym ea ∙ ap (λ k. at_index k xs) e ∙ eb)
          | no n ↦ at_other j i a mid n ∙ at_put i b xs hi
        ];
        second_is = at_put j a mid hj';
        others = λ k ni nj. at_other j k a mid nj ∙ at_other i k b xs ni;
        perm = Perm.cons_inv (Perm.trans (put-perm j b a mid second_mid) (put-perm i a b xs ea));
        same_length = length-put j a mid ∙ length-put i b xs;
      },
    )
