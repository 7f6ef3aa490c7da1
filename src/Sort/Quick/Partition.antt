-- ===== src/Sort/Quick/Partition.antt =====
-- A partition puts the pivot between the numbers that are at most it and those that are at least it.
use bd_tarantul.Common.{
  ℕ, zero, suc, ◌+◌, ◌-◌, ◌≤◌, ◌<◌, ◌≡◌, refl, sym, ap, ◌∙◌, subst, Bool, true, false, Option, some,
  List, length, ℤ, arith, ◌>>=◌, ℕ_discrete, Bool-cases, inl, inr,
}
use mathlib.Core.Option.{some-injective}
use bd_tarantul.Sort.{leb_ℤ, AtMost}
use bd_tarantul.Sort.Merge.{at_index}
use bd_tarantul.Sort.Quick.{swap, part_loop, partition}
use bd_tarantul.Sort.Quick.Swaps.{Swapped, swap-Swapped, at_index-has}
use bd_tarantul.Sort.Quick.Within.{Within, Within-refl, Within-swap}

-- The loop at `j`: below `i` at most the pivot, from there to `j` at least it.
record Parted (l h i j : ℕ) (x : ℤ) (xs ys : List ℤ) : Type 0 where
  l_i : l ≤ i
  i_j : i ≤ j
  j_h : j ≤ h
  in_array : h < length ys
  low : (p : ℕ) (a : ℤ) → l ≤ p → p < i → at_index p ys ≡ some a → AtMost a x
  high : (p : ℕ) (a : ℤ) → i ≤ p → p < j → at_index p ys ≡ some a → AtMost x a
  pivot : at_index h ys ≡ some x
  within : Within l h xs ys

pub value_same : {o : Option ℤ} {a b : ℤ} → o ≡ some a → o ≡ some b → a ≡ b
value_same {o} {a} {b} e f = some-injective a b (sym e ∙ f)

module _ (l h i j : ℕ) (x : ℤ) (xs ys : List ℤ) (t : Parted l h i j x xs ys) (jh : j < h) where
  -- A number that is more than the pivot stays.
  Parted-keep : (a : ℤ) → at_index j ys ≡ some a → leb_ℤ a x ≡ false → Parted l h i (j + 1) x xs ys
  Parted-keep a e b = record {
    l_i = t.l_i;
    i_j = omega (arith, t.i_j);
    j_h = omega (arith, jh);
    in_array = t.in_array;
    low = t.low;
    high = λ p c ip pj f. elim (ℕ_discrete p j) [
      | yes pj ↦
          let same : a ≡ c = value_same e (ap (λ k. at_index k ys) (sym pj) ∙ f) in
          subst (AtMost x) same (ground (arith, b))
      | no n ↦ t.high p c ip (omega (arith, pj, n)) f
    ];
    pivot = t.pivot;
    within = t.within;
  }

  -- Another one is exchanged with the first that is more.
  Parted-swap :
      (a : ℤ) (zs : List ℤ)
      → at_index j ys ≡ some a
      → leb_ℤ a x ≡ true
      → Swapped i j ys zs
      → Parted l h (i + 1) (j + 1) x xs zs
  Parted-swap a zs e b s = record {
    l_i = omega (arith, t.l_i);
    i_j = omega (arith, t.i_j);
    j_h = omega (arith, jh);
    in_array = omega (arith, t.in_array, s.same_length);
    low = λ p c lp pi f. elim (ℕ_discrete p i) [
      | yes q ↦
          let same : a ≡ c =
            value_same (s.first_is ∙ sym s.second_was ∙ e) (ap (λ k. at_index k zs) (sym q) ∙ f) in
          subst (λ v. AtMost v x) same (ground (arith, b))
      | no n ↦
          t.low p c lp (omega (arith, pi, n))
            (sym (s.others p n (λ q. absurd (omega (arith, q, pi, n, t.i_j)))) ∙ f)
    ];
    high = λ p c ip pj f. elim (ℕ_discrete p j) [
      | yes q ↦
          t.high i c (omega arith) (omega (arith, ip, q))
            (s.first_was ∙ sym s.second_is ∙ ap (λ k. at_index k zs) (sym q) ∙ f)
      | no n ↦
          t.high p c (omega (arith, ip)) (omega (arith, pj, n))
            (sym (s.others p (λ q. absurd (omega (arith, q, ip))) n) ∙ f)
    ];
    pivot =
        s.others h (λ q. absurd (omega (arith, q, jh, t.i_j))) (λ q. absurd (omega (arith, q, jh)))
        ∙ t.pivot;
    within =
        Within-swap l h i j xs ys zs t.within s t.l_i (omega (arith, t.i_j, jh))
          (omega (arith, t.l_i, t.i_j)) (omega (arith, jh));
  }

-- A round of the loop, by the comparison.
abbrev round : ℕ → ℤ → ℕ → ℕ → List ℤ → ℤ → Bool → Option (ℕ × List ℤ)
round n x i j ys a true = swap i j ys >>= λ zs. part_loop n x (i + 1) (j + 1) zs
round n x i j ys a false = part_loop n x i (j + 1) ys

part_loop-Parted :
    (n l h i j : ℕ) (x : ℤ) (xs ys : List ℤ)
    → j + n ≡ h
    → Parted l h i j x xs ys
    → (r : ℕ × List ℤ) × (part_loop n x i j ys ≡ some r) × Parted l h r.0 h x xs r.1
unfolding part_loop
part_loop-Parted zero l h i j x xs ys e t =
    let jh : j ≡ h = omega (arith, e) in ((i, ys), refl, subst (λ k. Parted l h i k x xs ys) jh t)
part_loop-Parted (suc n) l h i j x xs ys e t =
    let jh : j < h = omega (arith, e) in
    let (a, ea) = at_index-has j ys (omega (arith, jh, t.in_array)) in
    let next : j + 1 + n ≡ h = omega (arith, e) in
    elim (Bool-cases (leb_ℤ a x)) [
      | inl b ↦
          let (zs, ez, s) =
            swap-Swapped i j ys (omega (arith, jh, t.i_j, t.in_array))
              (omega (arith, jh, t.in_array)) in
          let (r, er, tr) =
            part_loop-Parted n l h (i + 1) (j + 1) x xs zs next
              (Parted-swap l h i j x xs ys t jh a zs ea b s) in
          (
            r,
            ap (λ o. o >>= λ a. round n x i j ys a (leb_ℤ a x)) ea
                ∙ ap (round n x i j ys a) b
                ∙ ap (λ o. o >>= λ zs. part_loop n x (i + 1) (j + 1) zs) ez
                ∙ er,
            tr,
          )
      | inr b ↦
          let (r, er, tr) =
            part_loop-Parted n l h i (j + 1) x xs ys next
              (Parted-keep l h i j x xs ys t jh a ea b) in
          (
            r,
            ap (λ o. o >>= λ a. round n x i j ys a (leb_ℤ a x)) ea ∙ ap (round n x i j ys a) b ∙ er,
            tr,
          )
    ]

-- The pivot `x` is at `k`, what is before it is at most `x`, and what is after it at least.
pub record Split (l h k : ℕ) (xs ys : List ℤ) : Type 0 where
  pub l_k : l ≤ k
  pub k_h : k ≤ h
  pub x : ℤ
  pub at_k : at_index k ys ≡ some x
  pub below : (p : ℕ) (a : ℤ) → l ≤ p → p < k → at_index p ys ≡ some a → AtMost a x
  pub above : (p : ℕ) (a : ℤ) → k < p → p ≤ h → at_index p ys ≡ some a → AtMost x a
  pub within : Within l h xs ys

Parted-start :
    (l h : ℕ) (x : ℤ) (xs : List ℤ)
    → l ≤ h
    → h < length xs
    → at_index h xs ≡ some x
    → Parted l h l l x xs xs
Parted-start l h x xs lh hn e = record {
  l_i = omega arith;
  i_j = omega arith;
  j_h = lh;
  in_array = hn;
  low = λ p a lp pl f. absurd (omega (arith, lp, pl));
  high = λ p a lp pl f. absurd (omega (arith, lp, pl));
  pivot = e;
  within = Within-refl l h xs;
}

-- The pivot takes its place.
Parted-Split :
    (l h i : ℕ) (x : ℤ) (xs ys zs : List ℤ)
    → Parted l h i h x xs ys
    → Swapped i h ys zs
    → Split l h i xs zs
Parted-Split l h i x xs ys zs t s = record {
  l_k = t.l_i;
  k_h = t.i_j;
  x = x;
  at_k = s.first_is ∙ sym s.second_was ∙ t.pivot;
  below = λ p a lp pi f. t.low p a lp pi (
      sym (
        s.others p (λ q. absurd (omega (arith, q, pi))) (λ q. absurd (omega (arith, q, pi, t.i_j))))
      ∙ f);
  above = λ p a ip ph f. elim (ℕ_discrete p h) [
    | yes q ↦
        t.high i a (omega arith) (omega (arith, q, ip))
          (s.first_was ∙ sym s.second_is ∙ ap (λ k. at_index k zs) (sym q) ∙ f)
    | no n ↦
        t.high p a (omega (arith, ip)) (omega (arith, ph, n))
          (sym (s.others p (λ q. absurd (omega (arith, q, ip))) n) ∙ f)
  ];
  within =
      Within-swap l h i h xs ys zs t.within s t.l_i t.i_j (omega (arith, t.l_i, t.i_j))
        (omega arith);
}

pub partition-Split :
    (l h : ℕ) (xs : List ℤ)
    → l ≤ h
    → h < length xs
    → (r : ℕ × List ℤ) × (partition l h xs ≡ some r) × Split l h r.0 xs r.1
unfolding partition
partition-Split l h xs lh hn =
    let (x, ex) = at_index-has h xs hn in
    let (r, er, t) =
      part_loop-Parted (h - l) l h l l x xs xs (omega (arith, lh))
        (Parted-start l h x xs lh hn ex) in
    let (zs, ez, s) = swap-Swapped r.0 h r.1 (omega (arith, t.i_j, t.in_array)) t.in_array in
    (
      (r.0, zs),
      ap
            (λ o. o >>= λ x.
              part_loop (h - l) x l l xs >>= λ r. swap r.0 h r.1 >>= λ zs. some (r.0, zs))
            ex
          ∙ ap (λ o. o >>= λ r. swap r.0 h r.1 >>= λ zs. some (r.0, zs)) er
          ∙ ap (λ o. o >>= λ zs. some (r.0, zs)) ez,
      Parted-Split l h r.0 x xs r.1 zs t s,
    )
