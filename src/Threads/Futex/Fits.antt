-- ===== src/Threads/Futex/Fits.antt =====
-- 8_futex.c: what a step of a thread owes to the others.
use bd_tarantul.Common.{ℕ, ◌+◌, ◌≤◌, ◌≡◌, arith, Bool, ◌⊎◌}
use bd_tarantul.Threads.Futex.{
  Pc, at_start, at_lock, at_wait, asleep, at_read, at_write, at_unlock, at_wake, at_return, Thread,
  View, loop, advance, IsAtWake,
}
use bd_tarantul.Threads.Futex.Invariant.{holds, counted, stale, astray}

-- What a step of a thread owes to the others.
pub record Fits (n : ℕ) (t : Thread) (futex counter : ℕ) (v : View) : Type 0 where
  pub holding : v.futex + holds t ≡ futex + holds v.thread
  pub one_bit : v.futex ≤ 1
  pub counting : v.counter + counted t ≡ counter + counted v.thread
  pub fresh_view : stale v.counter v.thread ≡ 0
  pub alone : (v.counter ≡ counter) ⊎ (holds t ≡ 1)
  pub in_rounds : astray n v.thread ≡ 0

module _ (n : ℕ) (i seen futex counter : ℕ) (start : Bool) where
  pub advance-Fits :
      (p : Pc)
      → futex ≤ 1
      → holds (record { pc = p; i = i; seen = seen }) ≤ futex
      → stale counter (record { pc = p; i = i; seen = seen }) ≡ 0
      → astray n (record { pc = p; i = i; seen = seen }) ≡ 0
      → ¬ IsAtWake p
      → Fits n
          (record { pc = p; i = i; seen = seen })
          futex
          counter
          (advance n start p (record {
            thread = record { pc = p; i = i; seen = seen };
            futex = futex;
            counter = counter;
          }))
  advance-Fits at_start f h s a w = ground arith
  advance-Fits at_lock f h s a w = ground arith
  advance-Fits at_wait f h s a w = ground arith
  advance-Fits asleep f h s a w = ground arith
  advance-Fits at_read f h s a w = ground arith
  advance-Fits at_write f h s a w = ground arith
  advance-Fits at_unlock f h s a w = ground arith
  advance-Fits at_return f h s a w = ground arith
  advance-Fits at_wake f h s a w = absurd (w tt)

pub wake-Fits :
    (n : ℕ) (t : Thread) (futex counter : ℕ)
    → futex ≤ 1
    → IsAtWake t.pc
    → astray n t ≡ 0
    → Fits n t futex counter
        (record { thread = loop n (record t { i = t.i + 1 }); futex = futex; counter = counter })
wake-Fits n t futex counter f m a = returns t.pc t.i t.seen m a
  where
    returns :
        (p : Pc) (i seen : ℕ)
        → IsAtWake p
        → astray n (record { pc = p; i = i; seen = seen }) ≡ 0
        → Fits n
            (record { pc = p; i = i; seen = seen })
            futex
            counter
            (record {
              thread = loop n (record { pc = p; i = i + 1; seen = seen });
              futex = futex;
              counter = counter;
            })
    returns p i seen m a = ground arith
