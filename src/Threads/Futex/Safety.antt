-- ===== src/Threads/Futex/Safety.antt =====
-- 8_futex.c: mutual exclusion, the final counter, and no lost wake-up.
use bd_tarantul.Common.{
  ℕ, zero, suc, ◌+◌, ◌*◌, ◌≤◌, ◌<◌, ◌≡◌, refl, sym, ap, subst, ◌∙◌, arith, Bool, true, false, ◌⊎◌,
  inl, inr, some, List, [], ◌∷◌, ◌++◌, length,
}
use bd_tarantul.Threads.Totals.{total, total-le, total_put, total_at}
use bd_tarantul.Threads.Futex.{
  Pc, at_start, at_lock, at_wait, asleep, at_read, at_write, at_unlock, at_wake, at_return, Thread,
  World, View, put_view, advance, sleeps, not_returned, sleeper, woken, Wakes, nobody, one,
  IsAtWake, Step, turn, wake, spurious, begin, print, created, Reaches, here, after,
}
use bd_tarantul.Threads.Futex.Invariant.{
  Inv, holds, counted, astray, awake, IsWatched, holds-le-awake, sleeps-le-astray,
}
use bd_tarantul.Threads.Futex.Preserved.{Step-Inv, Reaches-Inv, total-created}

-- A thread that is put for another leaves the number of threads as it is.
length_put :
    {A : Type 0} (xs : List A) (x y : A) (ys : List A)
    → length (xs ++ x ∷ ys) ≡ length (xs ++ y ∷ ys)
length_put [] x y ys = refl
length_put (z ∷ xs) x y ys = ap suc (length_put xs x y ys)

Wakes-length : {ts ts' : List Thread} → Wakes ts ts' → length ts' ≡ length ts
Wakes-length (nobody _ _) = refl
Wakes-length (one xs i seen ys) = length_put xs (woken i seen) (sleeper i seen) ys

Step-length : {n : ℕ} {w w' : World} → Step n w w' → length w'.threads ≡ length w.threads
Step-length (turn xs t ys e _) = length_put xs _ t ys ∙ sym (ap length e)
Step-length (wake xs t ys ts e _ ws) = Wakes-length ws ∙ length_put xs _ t ys ∙ sym (ap length e)
Step-length (spurious xs i seen ys e) =
    length_put xs (woken i seen) (sleeper i seen) ys ∙ sym (ap length e)
Step-length begin = refl
Step-length (print _) = refl

length-created : (k : ℕ) → length (created k) ≡ k
length-created zero = refl
length-created (suc k) = ap suc (length-created k)

Reaches-length : {k n : ℕ} {w : World} → Reaches k n w → length w.threads ≡ k
Reaches-length {k} here = length-created k
Reaches-length (after r s) = Step-length s ∙ Reaches-length r

-- Whatever the order of the steps, spurious wake-ups included, at most one thread stands between
-- `futex_lock` and the release in `futex_unlock`, and the futex is 1 exactly while one does.
pub Reaches-excludes :
    {k n : ℕ} {w : World}
    → Reaches k n w
    → (total holds w.threads ≤ 1) × (w.futex ≡ total holds w.threads)
Reaches-excludes r = let inv = Reaches-Inv r in (omega (arith, inv.held, inv.free), inv.held)

returned-counted :
    (n : ℕ) (ts : List Thread)
    → total not_returned ts ≡ 0
    → total (astray n) ts ≡ 0
    → total counted ts ≡ length ts * n
returned-counted n [] h a = omega arith
returned-counted n (t ∷ ts) h a = ground (
  arith,
  returned-counted n ts (omega (arith, h)) (omega (arith, a)),
  returned_one t.pc t.i t.seen (omega (arith, h)) (omega (arith, a)),
)
  where
    returned_one :
        (p : Pc) (i seen : ℕ)
        → not_returned (record { pc = p; i = i; seen = seen }) ≡ 0
        → astray n (record { pc = p; i = i; seen = seen }) ≡ 0
        → counted (record { pc = p; i = i; seen = seen }) ≡ n
    returned_one p i seen h a = ground arith

Step-printed :
    {k n : ℕ} {w w' : World}
    → Step n w w'
    → Inv n w
    → length w.threads ≡ k
    → ((c : ℕ) → w.printed ≡ some c → c ≡ k * n)
    → (c : ℕ) → w'.printed ≡ some c
    → c ≡ k * n
Step-printed (turn _ _ _ _ _) inv l old = old
Step-printed (wake _ _ _ _ _ _ _) inv l old = old
Step-printed (spurious _ _ _ _ _) inv l old = old
Step-printed begin inv l old = old
Step-printed {k} {n} {w} (print h) inv l old = λ c e.
    ground (arith, e, inv.written, returned-counted n w.threads h inv.rounds, ap (λ m. m * n) l)

-- No update of the counter is lost: what `main` prints is the number of threads times the number of
-- rounds of each.
pub Reaches-printed :
    {k n : ℕ} {w : World} → Reaches k n w → (c : ℕ) → w.printed ≡ some c → c ≡ k * n
Reaches-printed here c e = cc
Reaches-printed (after r s) c e =
    Step-printed s (Reaches-Inv r) (Reaches-length r) (Reaches-printed r) c e

no_rounds : (n : ℕ) (ts : List Thread) → total (astray n) ts ≡ 0 → n ≡ 0 → total sleeps ts ≡ 0
no_rounds n ts a e =
    omega (arith, total-le sleeps-le-astray ts, subst (λ m. total (astray m) ts ≡ 0) e a)

-- What a step of a thread leaves for those that sleep: the thread itself can still run, somebody
-- holds the lock, nothing changes, or nobody ever sleeps.
abbrev Watches : (n : ℕ) → Thread → View → Type 0
Watches n t v =
    (awake v.thread ≡ 1)
    ⊎ ((v.futex ≡ 1) ⊎ (((sleeps v.thread ≡ sleeps t) × (awake v.thread ≡ awake t)) ⊎ (n ≡ 0)))

advance-Watches :
    (n i seen futex counter : ℕ) (start : Bool) (p : Pc)
    → astray n (record { pc = p; i = i; seen = seen }) ≡ 0
    → ¬ IsAtWake p
    → Watches n
        (record { pc = p; i = i; seen = seen })
        (advance n start p (record {
          thread = record { pc = p; i = i; seen = seen };
          futex = futex;
          counter = counter;
        }))
advance-Watches n i seen futex counter false at_start a m = inr (inr (inl (refl, refl)))
advance-Watches n i seen futex counter true at_start a m = ground arith
advance-Watches n i seen futex counter start at_lock a m = ground arith
advance-Watches n i seen futex counter start at_wait a m = ground arith
advance-Watches n i seen futex counter start asleep a m = inr (inr (inl (refl, refl)))
advance-Watches n i seen futex counter start at_read a m = inl refl
advance-Watches n i seen futex counter start at_write a m = inl refl
advance-Watches n i seen futex counter start at_unlock a m = inl refl
advance-Watches n i seen futex counter start at_wake a m = absurd (m tt)
advance-Watches n i seen futex counter start at_return a m = inr (inr (inl (refl, refl)))

put-IsWatched :
    (n : ℕ) (w : World) (xs : List Thread) (t : Thread) (ys : List Thread) (v : View)
    → w.threads ≡ xs ++ t ∷ ys
    → Inv n (put_view xs v ys w)
    → Watches n t v
    → IsWatched w.threads
    → IsWatched (xs ++ v.thread ∷ ys)
put-IsWatched n w xs t ys v old inv c h s = elim c [
  | inl e ↦ omega (arith, e, total_put awake xs v.thread ys)
  | inr (inl e) ↦ omega (arith, e, inv.held, total-le holds-le-awake (xs ++ v.thread ∷ ys))
  | inr (inr (inl (e, f))) ↦ ground (
    arith,
    e,
    f,
    s,
    h,
    total_at awake xs t ys old,
    total_put awake xs v.thread ys,
    total_at sleeps xs t ys old,
    total_put sleeps xs v.thread ys,
  )
  | inr (inr (inr e)) ↦ absurd (omega (arith, s, no_rounds n (xs ++ v.thread ∷ ys) inv.rounds e))
]

Wakes-IsWatched : {ts ts' : List Thread} → Wakes ts ts' → IsWatched ts'
Wakes-IsWatched (nobody ts e) s = absurd (omega (arith, e, s))
Wakes-IsWatched (one xs i seen ys) s = omega (arith, total_put awake xs (woken i seen) ys)

Step-IsWatched :
    {n : ℕ} {w w' : World} → Step n w w' → Inv n w → IsWatched w.threads → IsWatched w'.threads
Step-IsWatched {n} {w} (turn xs t ys e m) inv h =
    put-IsWatched n w xs t ys
      (advance n w.start t.pc (record { thread = t; futex = w.futex; counter = w.counter })) e
      (Step-Inv (turn xs t ys e m) inv)
      (advance-Watches n t.i t.seen w.futex w.counter w.start t.pc
        (omega (arith, inv.rounds, total_at (astray n) xs t ys e)) m)
      h
Step-IsWatched (wake _ _ _ _ _ _ ws) inv h = Wakes-IsWatched ws
Step-IsWatched (spurious xs i seen ys _) inv h = Wakes-IsWatched (one xs i seen ys)
Step-IsWatched begin inv h = h
Step-IsWatched (print _) inv h = h

Reaches-IsWatched : {k n : ℕ} {w : World} → Reaches k n w → IsWatched w.threads
Reaches-IsWatched {k} here = λ s. absurd (omega (arith, s, total-created sleeps refl k))
Reaches-IsWatched (after r s) = Step-IsWatched s (Reaches-Inv r) (Reaches-IsWatched r)

returned-le : (t : Thread) → not_returned t ≤ awake t + sleeps t
returned-le t = ground arith

total-plus : (ts : List Thread) → total not_returned ts ≤ total awake ts + total sleeps ts
total-plus [] = omega arith
total-plus (t ∷ ts) = omega (arith, returned-le t, total-plus ts)

-- No wake-up is lost: as long as a thread has not returned, some thread can run, so the threads never
-- all sleep on a free futex.
pub Reaches-runs :
    {k n : ℕ} {w : World}
    → Reaches k n w
    → 0 < total not_returned w.threads
    → 0 < total awake w.threads
Reaches-runs {k} {n} {w} r h = ground (arith, h, total-plus w.threads, Reaches-IsWatched r)
