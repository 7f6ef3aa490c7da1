-- ===== src/Threads/Condvar/Once.antt =====
-- 14_condvar.c: every signal is processed exactly once.
use bd_tarantul.Common.{
  ℕ, zero, suc, ◌+◌, ◌≤◌, ◌≡◌, refl, arith, Bool, List, ◌∷◌, ◌++◌, if◌then◌else◌,
}
use bd_tarantul.Threads.Totals.{total, total-le, total_put, total_at}
use bd_tarantul.Threads.Condvar.{
  Main, reading, unlocking, spinning, locking, Waiter, at_add, at_lock, at_test, at_clear, at_sub,
  at_return, at_retry, World, Step, main_count, main_set, main_unlock, main_spin, main_lock,
  main_clear, add, lock, test, clear, sub, return, retry, created, Reaches, here, after,
}

abbrev count : Bool → ℕ
count b = if b then 1 else 0

-- Whether the main thread has the mutex, and whether it has set the flag and not yet seen it cleared.
abbrev main_holds : Main → ℕ
main_holds spinning = 0
main_holds locking = 0
main_holds _ = 1

abbrev expects : Main → ℕ
expects unlocking = 1
expects spinning = 1
expects _ = 0

abbrev holds : Waiter → ℕ
holds at_add = 0
holds at_lock = 0
holds _ = 1

abbrev clears : Waiter → ℕ
clears at_clear = 1
clears _ = 0

-- Whether a thread has taken the event and is about to return.
abbrev pub takes : Waiter → ℕ
takes at_sub = 1
takes at_return = 1
takes _ = 0

-- Whether a thread is counted as a waiter.
abbrev pub waits : Waiter → ℕ
waits at_add = 0
waits at_return = 0
waits _ = 1

clears-le-holds : (p : Waiter) → clears p ≤ holds p
clears-le-holds p = ground arith

record Inv (w : World) : Type 0 where
  mutex : count w.is_locked ≡ main_holds w.main + total holds w.waiters
  cleared : total clears w.waiters ≤ count w.is_event_set
  expected : count w.is_event_set ≤ expects w.main
  balanced : w.signaled ≡ w.processed + count w.is_event_set + total takes w.waiters
  counted : w.wait_count ≡ total waits w.waiters

-- What a step of a waiter from `p` to `q` does to the totals.
moved :
    {ws : List Waiter} (xs : List Waiter) (p q : Waiter) (ys : List Waiter)
    → ws ≡ xs ++ p ∷ ys
    → (f : Waiter → ℕ) → total f (xs ++ q ∷ ys) + f p ≡ total f ws + f q
moved xs p q ys e f = omega (arith, total_at f xs p ys e, total_put f xs q ys)

Step-Inv : {w w' : World} → Step w w' → Inv w → Inv w'
Step-Inv (main_count e) inv = ground arith
Step-Inv (main_set e) inv = ground arith
Step-Inv (main_unlock e) inv = ground arith
Step-Inv (main_spin e) inv = ground arith
Step-Inv (main_lock e free) inv = ground arith
Step-Inv (main_clear e) inv = ground arith
Step-Inv (add xs ys e) inv =
    let m = moved xs at_add at_lock ys e in ground (arith, m holds, m clears, m takes, m waits)
Step-Inv (lock xs ys e free) inv =
    let m = moved xs at_lock at_test ys e in ground (arith, m holds, m clears, m takes, m waits)
Step-Inv (clear xs ys e) inv =
    let m = moved xs at_clear at_sub ys e in ground (arith, m holds, m clears, m takes, m waits)
Step-Inv (sub xs ys e) inv =
    let m = moved xs at_sub at_return ys e in ground (arith, m holds, m clears, m takes, m waits)
Step-Inv (return xs ys e) inv =
    let m = moved xs at_return at_add ys e in ground (arith, m holds, m clears, m takes, m waits)
Step-Inv (retry xs ys e) inv =
    let m = moved xs at_retry at_lock ys e in ground (arith, m holds, m clears, m takes, m waits)
Step-Inv {w} (test xs ys e) inv =
    let m = moved xs at_test (if w.is_event_set then at_clear else at_retry) ys e in
    ground (
      arith,
      m holds,
      m clears,
      m takes,
      m waits,
      total_at holds xs at_test ys e,
      total_at clears xs at_test ys e,
      total-le clears-le-holds (xs ++ ys),
    )

total-created : (f : Waiter → ℕ) → f at_add ≡ 0 → (n : ℕ) → total f (created n) ≡ 0
total-created f e zero = refl
total-created f e (suc n) = omega (arith, e, total-created f e n)

Reaches-Inv : {n : ℕ} {w : World} → Reaches n w → Inv w
Reaches-Inv {n} here = record {
  mutex = omega (arith, total-created holds refl n);
  cleared = omega (arith, total-created clears refl n);
  expected = omega arith;
  balanced = omega (arith, total-created takes refl n);
  counted = omega (arith, total-created waits refl n);
}
Reaches-Inv (after r st) = Step-Inv st (Reaches-Inv r)

-- Every signal is processed by exactly one thread: when `condvar_signal` has returned, as many events
-- were processed, or are about to be, as were signaled. It finds no waiters only when no thread is
-- counted in `condvar_wait`.
pub Reaches-processed :
    {n : ℕ} {w : World}
    → Reaches n w
    → w.main ≡ reading
    → (w.signaled ≡ w.processed + total takes w.waiters) × (w.wait_count ≡ total waits w.waiters)
Reaches-processed r e =
    let inv = Reaches-Inv r in (ground (arith, e, inv.balanced, inv.expected), inv.counted)
