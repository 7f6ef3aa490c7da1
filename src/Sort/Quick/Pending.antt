-- ===== src/Sort/Quick/Pending.antt =====
-- The numbers that are out of order are within the ranges on the stack.
use bd_tarantul.Common.{
  ℕ, ◌+◌, ◌-◌, ◌≤◌, ◌<◌, ◌≡◌, refl, sym, ap, ◌∙◌, subst, Bool, true, false, some, List, [], ◌∷◌, ℤ,
  arith, ltb, if◌then◌else◌, ℕ_discrete, dec_lt, inl, inr, ◌⊎◌,
}
use bd_tarantul.Sort.{AtMost}
use bd_tarantul.Sort.Merge.{at_index}
use bd_tarantul.Sort.Quick.{Stack}
use bd_tarantul.Sort.Quick.Partition.{Split, value_same}

-- Both places are in one range of the stack.
abbrev pub InRange : Stack → ℕ → ℕ → Type 0
InRange [] p q = ⊥
InRange ((l, h) ∷ st) p q = ((l ≤ p) × (q ≤ h)) ⊎ InRange st p q

-- The range from `l` to `h` meets no range of the stack.
abbrev pub Away : ℕ → ℕ → Stack → Type 0
Away l h [] = Unit {0}
Away l h ((l', h') ∷ st) = ((h' < l) ⊎ (h < l')) × Away l h st

abbrev pub Disjoint : Stack → Type 0
Disjoint [] = Unit {0}
Disjoint ((l, h) ∷ st) = Away l h st × Disjoint st

-- A number before another is at most it, but within a range of the stack.
abbrev pub Ordered : List ℤ → Stack → Type 0
Ordered xs st =
    (p q : ℕ) (a b : ℤ)
    → p < q
    → at_index p xs ≡ some a
    → at_index q xs ≡ some b
    → AtMost a b ⊎ InRange st p q

-- The stack after a range is split at `k`: each part that has two numbers or more.
abbrev pub with_left : ℕ → ℕ → Stack → Stack
with_left l k st = if ltb (l + 1) k then (l, k - 1) ∷ st else st

abbrev pub with_right : ℕ → ℕ → Stack → Stack
with_right k h st = if ltb (k + 1) h then (k + 1, h) ∷ st else st

InRange-later :
    (z : Bool) (l h : ℕ) (st : Stack) (p q : ℕ)
    → InRange st p q
    → InRange (if z then (l, h) ∷ st else st) p q
InRange-later true l h st p q r = inr r
InRange-later false l h st p q r = r

InRange-left : (l k p q : ℕ) (st : Stack) → l ≤ p → p < q → q < k → InRange (with_left l k st) p q
InRange-left l k p q st lp pq qk =
    let e : ltb (l + 1) k ≡ true = ground (arith, lp, pq, qk) in rw e (inl (lp, omega (arith, qk)))

InRange-right : (k h p q : ℕ) (st : Stack) → k < p → p < q → q ≤ h → InRange (with_right k h st) p q
InRange-right k h p q st kp pq qh =
    let e : ltb (k + 1) h ≡ true = ground (arith, kp, pq, qh) in rw e (inl (omega (arith, kp), qh))

-- A range that starts outside of an own range does not reach into it.
Away-not :
    (l h : ℕ) (st : Stack) (p q r : ℕ)
    → Away l h st
    → InRange st p q
    → l ≤ r
    → r ≤ h
    → p ≤ r
    → r ≤ q
    → ⊥
Away-not l h [] p q r a i lr rh pr rq = i
Away-not l h ((l', h') ∷ st) p q r (inl o, a) (inl i) lr rh pr rq = omega (arith, o, i.1, lr, rq)
Away-not l h ((l', h') ∷ st) p q r (inr o, a) (inl i) lr rh pr rq = omega (arith, o, i.0, rh, pr)
Away-not l h ((l', h') ∷ st) p q r (o, a) (inr i) lr rh pr rq =
    Away-not l h st p q r a i lr rh pr rq

Away-part : (l h l' h' : ℕ) (st : Stack) → l ≤ l' → h' ≤ h → Away l h st → Away l' h' st
Away-part l h l' h' [] ll hh a = a
Away-part l h l' h' ((m, n) ∷ st) ll hh (inl o, a) =
    (inl (omega (arith, o, ll)), Away-part l h l' h' st ll hh a)
Away-part l h l' h' ((m, n) ∷ st) ll hh (inr o, a) =
    (inr (omega (arith, o, hh)), Away-part l h l' h' st ll hh a)

pub Disjoint-split :
    (l h k : ℕ) (st : Stack)
    → l ≤ k
    → k ≤ h
    → Disjoint ((l, h) ∷ st)
    → Disjoint (with_right k h (with_left l k st))
Disjoint-split l h k st lk kh (a, d) = by_tests (ltb (l + 1) k) (ltb (k + 1) h) refl
  where
    by_tests :
        (z y : Bool)
        → ltb (l + 1) k ≡ z
        → Disjoint (
            if y
            then (k + 1, h) ∷ (if z then (l, k - 1) ∷ st else st)
            else if z
            then (l, k - 1) ∷ st
            else st)
    by_tests true true e = (
      (inl (omega arith), Away-part l h (k + 1) h st (omega (arith, lk)) (omega arith) a),
      (Away-part l h l (k - 1) st (omega arith) (omega (arith, kh)) a, d),
    )
    by_tests true false e = (Away-part l h l (k - 1) st (omega arith) (omega (arith, kh)) a, d)
    by_tests false true e = (Away-part l h (k + 1) h st (omega (arith, lk)) (omega arith) a, d)
    by_tests false false e = d

module _ (l h k : ℕ) (st : Stack) (xs ys : List ℤ) (s : Split l h k xs ys) (away : Away l h st)
    (ordered : Ordered xs ((l, h) ∷ st)) where
  abbrev after : Stack
  after = with_right k h (with_left l k st)

  lifted : (p q : ℕ) → InRange st p q → InRange after p q
  lifted p q r =
      InRange-later (ltb (k + 1) h) (k + 1) h (with_left l k st) p q
        (InRange-later (ltb (l + 1) k) l (k - 1) st p q r)

  -- Both places within the range.
  ordered-inside :
      (p q : ℕ) (a b : ℤ)
      → p < q
      → l ≤ p
      → q ≤ h
      → at_index p ys ≡ some a
      → at_index q ys ≡ some b
      → AtMost a b ⊎ InRange after p q
  ordered-inside p q a b pq lp qh ea eb = elim (dec_lt q k) [
    | yes qk ↦ inr (
        InRange-later (ltb (k + 1) h) (k + 1) h (with_left l k st) p q
          (InRange-left l k p q st lp pq qk))
    | no kq ↦ elim (dec_lt k p) [
      | yes kp ↦ inr (InRange-right k h p q (with_left l k st) kp pq qh)
      | no pk ↦ inl (across (omega (arith, pk)) (omega (arith, kq)))
    ]
  ]
    where
      first : p ≤ k → AtMost a s.x
      first pk = elim (ℕ_discrete p k) [
        | yes e ↦
            let same : s.x ≡ a = value_same s.at_k (ap (λ n. at_index n ys) (sym e) ∙ ea) in
            subst (λ v. AtMost v s.x) same (omega arith)
        | no n ↦ s.below p a lp (omega (arith, pk, n)) ea
      ]

      second : k ≤ q → AtMost s.x b
      second kq = elim (ℕ_discrete q k) [
        | yes e ↦
            let same : s.x ≡ b = value_same s.at_k (ap (λ n. at_index n ys) (sym e) ∙ eb) in
            subst (AtMost s.x) same (omega arith)
        | no n ↦ s.above q b (omega (arith, kq, n)) qh eb
      ]

      across : p ≤ k → k ≤ q → AtMost a b
      across pk kq = omega (arith, first pk, second kq)

  -- The place before, or the one after, outside of the range.
  ordered-before :
      (p q : ℕ) (a b : ℤ)
      → p < l
      → l ≤ q
      → q ≤ h
      → at_index p ys ≡ some a
      → at_index q ys ≡ some b
      → AtMost a b
  ordered-before p q a b pl lq qh ea eb =
      let (r, lr, rh, er) = s.within.from q b lq qh eb in
      only r (ordered p r a b (omega (arith, pl, lr)) (sym (s.within.outside p (inl pl)) ∙ ea) er)
        lr rh
    where
      only : (r : ℕ) → AtMost a b ⊎ InRange ((l, h) ∷ st) p r → l ≤ r → r ≤ h → AtMost a b
      only r (inl o) lr rh = o
      only r (inr (inl i)) lr rh = absurd (omega (arith, i.0, pl))
      only r (inr (inr i)) lr rh =
          absurd (Away-not l h st p r r away i lr rh (omega (arith, pl, lr)) (omega arith))

  ordered-after :
      (p q : ℕ) (a b : ℤ)
      → l ≤ p
      → p ≤ h
      → h < q
      → at_index p ys ≡ some a
      → at_index q ys ≡ some b
      → AtMost a b
  ordered-after p q a b lp ph hq ea eb =
      let (r, lr, rh, er) = s.within.from p a lp ph ea in
      only r (ordered r q a b (omega (arith, hq, rh)) er (sym (s.within.outside q (inr hq)) ∙ eb))
        lr rh
    where
      only : (r : ℕ) → AtMost a b ⊎ InRange ((l, h) ∷ st) r q → l ≤ r → r ≤ h → AtMost a b
      only r (inl o) lr rh = o
      only r (inr (inl i)) lr rh = absurd (omega (arith, i.1, hq))
      only r (inr (inr i)) lr rh =
          absurd (Away-not l h st r q r away i lr rh (omega arith) (omega (arith, hq, rh)))

  ordered-outside :
      (p q : ℕ) (a b : ℤ)
      → p < q
      → (p < l) ⊎ (h < p)
      → (q < l) ⊎ (h < q)
      → at_index p ys ≡ some a
      → at_index q ys ≡ some b
      → AtMost a b ⊎ InRange after p q
  ordered-outside p q a b pq op oq ea eb =
      still
        (ordered p q a b pq (sym (s.within.outside p op) ∙ ea) (sym (s.within.outside q oq) ∙ eb))
        op
    where
      still :
          AtMost a b ⊎ InRange ((l, h) ∷ st) p q
          → (p < l) ⊎ (h < p)
          → AtMost a b ⊎ InRange after p q
      still (inl o) op = inl o
      still (inr (inl i)) (inl o) = absurd (omega (arith, i.0, o))
      still (inr (inl i)) (inr o) = absurd (omega (arith, i.1, o, pq))
      still (inr (inr i)) op = inr (lifted p q i)

  pub Ordered-split : Ordered ys after
  Ordered-split p q a b pq ea eb = elim (dec_lt p l) [
    | yes pl ↦ elim (dec_lt q l) [
      | yes ql ↦ ordered-outside p q a b pq (inl pl) (inl ql) ea eb
      | no lq ↦ elim (dec_lt h q) [
        | yes hq ↦ ordered-outside p q a b pq (inl pl) (inr hq) ea eb
        | no qh ↦ inl (ordered-before p q a b pl (omega (arith, lq)) (omega (arith, qh)) ea eb)
      ]
    ]
    | no lp ↦ elim (dec_lt h p) [
      | yes hp ↦ ordered-outside p q a b pq (inr hp) (inr (omega (arith, hp, pq))) ea eb
      | no ph ↦ elim (dec_lt h q) [
        | yes hq ↦ inl (ordered-after p q a b (omega (arith, lp)) (omega (arith, ph)) hq ea eb)
        | no qh ↦ ordered-inside p q a b pq (omega (arith, lp)) (omega (arith, qh)) ea eb
      ]
    ]
  ]
