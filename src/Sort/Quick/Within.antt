-- ===== src/Sort/Quick/Within.antt =====
-- Exchanges inside a part of the array keep what is outside it.
use bd_tarantul.Common.{
  ℕ, ◌≤◌, ◌<◌, ◌≡◌, refl, sym, ap, ◌∙◌, some, List, length, ℤ, arith, ℕ_discrete, inl, inr, ◌⊎◌,
}
use mathlib.Core.List.{Perm}
use mathlib.Core.List.Perm
use bd_tarantul.Sort.Merge.{at_index}
use bd_tarantul.Sort.Quick.Swaps.{Swapped}

-- `ys` is `xs` with its numbers from `l` to `h` permuted.
pub record Within (l h : ℕ) (xs ys : List ℤ) : Type 0 where
  pub outside : (p : ℕ) → (p < l) ⊎ (h < p) → at_index p ys ≡ at_index p xs
  pub from :
      (p : ℕ) (a : ℤ)
      → l ≤ p
      → p ≤ h
      → at_index p ys ≡ some a
      → (q : ℕ) × (l ≤ q) × (q ≤ h) × (at_index q xs ≡ some a)
  pub perm : Perm ys xs
  pub same_length : length ys ≡ length xs

pub Within-refl : (l h : ℕ) (xs : List ℤ) → Within l h xs xs
Within-refl l h xs = record {
  outside = λ p o. refl;
  from = λ p a lp ph e. (p, lp, ph, e);
  perm = Perm.rfl;
  same_length = refl;
}

pub Within-swap :
    (l h i j : ℕ) (xs ys zs : List ℤ)
    → Within l h xs ys
    → Swapped i j ys zs
    → l ≤ i
    → i ≤ h
    → l ≤ j
    → j ≤ h
    → Within l h xs zs
Within-swap l h i j xs ys zs w s li ih lj jh = record {
  outside = λ p o.
      s.others p (λ e. absurd (apart p i li ih o e)) (λ e. absurd (apart p j lj jh o e))
      ∙ w.outside p o;
  from = λ p a lp ph e. elim (ℕ_discrete p i) [
    | yes pi ↦
        w.from j a lj jh (s.second_was ∙ sym s.first_is ∙ ap (λ k. at_index k zs) (sym pi) ∙ e)
    | no ni ↦ elim (ℕ_discrete p j) [
      | yes pj ↦
          w.from i a li ih (s.first_was ∙ sym s.second_is ∙ ap (λ k. at_index k zs) (sym pj) ∙ e)
      | no nj ↦ w.from p a lp ph (sym (s.others p ni nj) ∙ e)
    ]
  ];
  perm = Perm.trans s.perm w.perm;
  same_length = s.same_length ∙ w.same_length;
}
  where
    apart : (p k : ℕ) → l ≤ k → k ≤ h → (p < l) ⊎ (h < p) → p ≡ k → ⊥
    apart p k lk kh (inl o) e = omega (arith, o, e, lk)
    apart p k lk kh (inr o) e = omega (arith, o, e, kh)
