-- ===== src/Sort/Quick/Sorts.antt =====
-- The sort of one array ends, stays within its stack, and sorts.
use bd_tarantul.Common.{
  ℕ, zero, suc, ◌+◌, ◌-◌, ◌*◌, ◌≤◌, ◌<◌, ◌≡◌, refl, ap, ◌∙◌, Bool, true, false, Option, none, some,
  List, [], ◌∷◌, length, ℤ, arith, ltb, leb, if◌then◌else◌, ◌>>=◌, inl, inr, ◌⊎◌,
}
use mathlib.Core.List.{Perm}
use mathlib.Core.List.Perm
use bd_tarantul.Sort.{AtMost, Each, IsAscending}
use bd_tarantul.Sort.Merge.{at_index}
use bd_tarantul.Sort.Quick.{Stack, push, push_left, push_right, sort_loop, q_sort}
use bd_tarantul.Sort.Quick.Swaps.{at_index-bound}
use bd_tarantul.Sort.Quick.Partition.{partition-Split}
use bd_tarantul.Sort.Quick.Pending.{
  Disjoint, Ordered, with_left, with_right, Disjoint-split, Ordered-split,
}

-- The numbers in the ranges of a stack.
abbrev room_of : Stack → ℕ
room_of [] = 0
room_of ((l, h) ∷ st) = h + 1 - l + room_of st

-- Each range has two numbers or more of the array.
abbrev Wide : ℕ → Stack → Type 0
Wide size [] = Unit {0}
Wide size ((l, h) ∷ st) = (l < h) × (h < size) × Wide size st

Wide-room : (size : ℕ) (st : Stack) → Wide size st → 2 * length st ≤ room_of st
Wide-room size [] w = omega arith
Wide-room size ((l, h) ∷ st) w = omega (arith, w.0, Wide-room size st w.2)

-- The stack after a range is split, by the tests of the two parts: its entries fit, and it has lost
-- the pivot.
record Smaller (size l h k : ℕ) (st : Stack) (z y : Bool) : Type 0 where
  pushed :
      ((if z then push size l (k - 1) st else some st) >>= λ st1.
      if y then push size (k + 1) h st1 else some st1)
      ≡ some (
          if y
          then (k + 1, h) ∷ (if z then (l, k - 1) ∷ st else st)
          else if z
          then (l, k - 1) ∷ st
          else st)
  wide : Wide size (
      if y
      then (k + 1, h) ∷ (if z then (l, k - 1) ∷ st else st)
      else if z
      then (l, k - 1) ∷ st
      else st)
  less :
      room_of (
        if y
        then (k + 1, h) ∷ (if z then (l, k - 1) ∷ st else st)
        else if z
        then (l, k - 1) ∷ st
        else st)
      < room_of ((l, h) ∷ st)

push-fits :
    (size l h : ℕ) (st : Stack) → 2 * length st + 2 ≤ size → push size l h st ≡ some ((l, h) ∷ st)
push-fits size l h st r =
    let e : leb (2 * length st + 2) size ≡ true = ground (arith, r) in rw e refl

module _ (size l h k : ℕ) (st : Stack) (lk : l ≤ k) (kh : k ≤ h) (w : Wide size ((l, h) ∷ st))
    (r : room_of ((l, h) ∷ st) ≤ size) where
  Smaller-split : (z y : Bool) → ltb (l + 1) k ≡ z → ltb (k + 1) h ≡ y → Smaller size l h k st z y
  Smaller-split true true e g =
      let left : l + 1 < k = ground (arith, e) in
      let right : k + 1 < h = ground (arith, g) in
      record {
        pushed =
            ap (λ o. o >>= λ st1. push size (k + 1) h st1)
              (push-fits size l (k - 1) st (omega (arith, left, kh, r, Wide-room size st w.2)))
            ∙ push-fits size (k + 1) h ((l, k - 1) ∷ st)
                (omega (arith, left, right, r, Wide-room size st w.2));
        wide = (right, w.1, (omega (arith, left), omega (arith, kh, w.1), w.2));
        less = omega (arith, left, right);
      }
  Smaller-split true false e g =
      let left : l + 1 < k = ground (arith, e) in
      record {
        pushed =
            ap (λ (o : Option Stack). o >>= λ st1. some st1)
              (push-fits size l (k - 1) st (omega (arith, left, kh, r, Wide-room size st w.2)));
        wide = (omega (arith, left), omega (arith, kh, w.1), w.2);
        less = omega (arith, left, kh);
      }
  Smaller-split false true e g =
      let right : k + 1 < h = ground (arith, g) in
      record {
        pushed = push-fits size (k + 1) h st (omega (arith, right, lk, r, Wide-room size st w.2));
        wide = (right, w.1, w.2);
        less = omega (arith, right, lk);
      }
  Smaller-split false false e g = record { pushed = refl; wide = w.2; less = omega (arith, w.0) }

Option-assoc :
    {A B C : Type 0} (o : Option A) (f : A → Option B) (g : B → Option C)
    → (o >>= λ a. f a >>= g) ≡ (o >>= f >>= g)
Option-assoc none f g = refl
Option-assoc (some a) f g = refl

sort_loop-sorts :
    (fuel size : ℕ) (st : Stack) (xs : List ℤ)
    → room_of st ≤ fuel
    → room_of st ≤ size
    → length xs ≡ size
    → Wide size st
    → Disjoint st
    → Ordered xs st
    → (ys : List ℤ) × (sort_loop fuel size st xs ≡ some ys) × Ordered ys [] × Perm ys xs
unfolding sort_loop
sort_loop-sorts zero size [] xs f r n w d o = (xs, refl, o, Perm.rfl)
sort_loop-sorts (suc fuel) size [] xs f r n w d o = (xs, refl, o, Perm.rfl)
sort_loop-sorts zero size ((l, h) ∷ st) xs f r n w d o = absurd (omega (arith, f, w.0))
sort_loop-sorts (suc fuel) size ((l, h) ∷ st) xs f r n w d o =
    let (q, eq, s) = partition-Split l h xs (omega (arith, w.0)) (omega (arith, w.1, n)) in
    let m =
      Smaller-split size l h q.0 st s.l_k s.k_h w r (ltb (l + 1) q.0) (ltb (q.0 + 1) h) refl refl in
    let (ys, ey, oy, py) =
      sort_loop-sorts fuel size (with_right q.0 h (with_left l q.0 st)) q.1
        (omega (arith, m.less, f)) (omega (arith, m.less, r)) (s.within.same_length ∙ n) m.wide
        (Disjoint-split l h q.0 st s.l_k s.k_h d) (Ordered-split l h q.0 st xs q.1 s d.0 o) in
    (
      ys,
      ap
            (λ o. o >>= λ r. push_left size l r.0 st >>= λ st1.
              push_right size r.0 h st1 >>= λ st2. sort_loop fuel size st2 r.1)
            eq
          ∙ Option-assoc (push_left size l q.0 st) (push_right size q.0 h)
              (λ st2. sort_loop fuel size st2 q.1)
          ∙ ap (λ o. o >>= λ st2. sort_loop fuel size st2 q.1) m.pushed
          ∙ ey,
      oy,
      Perm.trans py s.within.perm,
    )

Each-of :
    (P : ℤ → Type 0) (xs : List ℤ) → ((q : ℕ) (b : ℤ) → at_index q xs ≡ some b → P b) → Each P xs
Each-of P [] f = tt
Each-of P (x ∷ xs) f = (f 0 x refl, Each-of P xs (λ q b e. f (suc q) b e))

no_range : {P : Type 0} → P ⊎ ⊥ → P
no_range (inl p) = p
no_range (inr e) = absurd e

Ordered-IsAscending : (xs : List ℤ) → Ordered xs [] → IsAscending xs
Ordered-IsAscending [] o = tt
Ordered-IsAscending (x ∷ xs) o = (
  Each-of (AtMost x) xs (λ q b e. no_range (o 0 (suc q) x b (omega arith) refl e)),
  Ordered-IsAscending xs (λ p q a b pq ea eb. o (suc p) (suc q) a b (omega (arith, pq)) ea eb),
)

-- An array of two numbers or more is sorted: the loop ends, never leaves the array or its stack, and
-- its array is in ascending order and has the same numbers.
pub q_sort-sorts :
    (xs : List ℤ)
    → 2 ≤ length xs
    → (ys : List ℤ) × (q_sort xs ≡ some ys) × IsAscending ys × Perm ys xs
unfolding q_sort
q_sort-sorts xs h =
    let size = length xs in
    let (ys, e, o, p) =
      sort_loop-sorts size size ((0, size - 1) ∷ []) xs (omega arith) (omega arith) refl
        (omega (arith, h), omega (arith, h), tt) (tt, tt)
        (λ p q a b pq ea eb. inr (inl (omega arith, omega (arith, at_index-bound q b xs eb)))) in
    (
      ys,
      ap (λ o. o >>= λ st. sort_loop size size st xs)
            (push-fits size 0 (size - 1) [] (omega (arith, h)))
          ∙ e,
      Ordered-IsAscending ys o,
      p,
    )
