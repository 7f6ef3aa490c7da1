-- ===== src/Threads/Futex.antt =====
-- sysprog/lecture_examples/6_threads/8_futex.c: threads that count under a lock made of a futex. A
-- step is one access to shared memory or one call of the system.
pub mod Invariant
pub mod Fits
pub mod Preserved
pub mod Safety
mod Tests
use bd_tarantul.Common.{
  ℕ, zero, suc, ◌+◌, ◌≡◌, Bool, true, false, Option, none, some, List, [], ◌∷◌, ◌++◌, if◌then◌else◌,
  ltb, ◌==◌,
}
use bd_tarantul.Threads.Totals.{total}

-- Where a thread stands in `thread_f`, `futex_lock` and `futex_unlock`.
pub data Pc : Type 0 where
  at_start : Pc  -- while (! start)
  at_lock : Pc  -- __sync_val_compare_and_swap(futex, 0, 1)
  at_wait : Pc  -- futex_wait(futex, 1)
  asleep : Pc  -- in the kernel, on the futex
  at_read : Pc  -- counter + 1
  at_write : Pc  -- counter = ...
  at_unlock : Pc  -- __sync_bool_compare_and_swap(futex, 1, 0)
  at_wake : Pc  -- futex_wake(futex)
  at_return : Pc

pub record Thread : Type 0 where
  pub pc : Pc
  pub i : ℕ  -- of the loop
  pub seen : ℕ  -- the counter as read

pub record World : Type 0 where
  pub threads : List Thread
  pub futex : ℕ
  pub counter : ℕ
  pub start : Bool
  pub printed : Option ℕ

-- The test `i < n` of the loop.
abbrev pub loop : ℕ → Thread → Thread
loop n t = record t { pc = if ltb t.i n then Pc.at_lock else Pc.at_return }

-- What a step of a thread sees and changes.
pub record View : Type 0 where
  pub thread : Thread
  pub futex : ℕ
  pub counter : ℕ

-- A step of a thread. `FUTEX_WAIT` sleeps only if the futex still holds the value expected.
abbrev pub advance : (n : ℕ) → Bool → Pc → View → View
advance n go at_start v = record v { thread = if go then loop n v.thread else v.thread }
advance n go at_lock v = record v {
  thread = record v.thread { pc = if v.futex == 0 then at_read else at_wait };
  futex = if v.futex == 0 then 1 else v.futex;
}
advance n go at_wait v = record v {
  thread = record v.thread { pc = if v.futex == 1 then asleep else at_lock };
}
advance n go asleep v = v
advance n go at_read v = record v { thread = record v.thread { pc = at_write; seen = v.counter } }
advance n go at_write v = record v {
  thread = record v.thread { pc = at_unlock };
  counter = v.thread.seen + 1;
}
advance n go at_unlock v = record v {
  thread = record v.thread { pc = at_wake };
  futex = if v.futex == 1 then 0 else v.futex;
}
advance n go at_wake v = record v { thread = loop n (record v.thread { i = v.thread.i + 1 }) }
advance n go at_return v = v

abbrev pub sleeps : Thread → ℕ
sleeps t = elim t.pc [ asleep ↦ 1 | _ ↦ 0 ]

abbrev pub not_returned : Thread → ℕ
not_returned t = elim t.pc [ at_return ↦ 0 | _ ↦ 1 ]

-- A thread that slept tries the lock again.
abbrev pub sleeper : ℕ → ℕ → Thread
sleeper i seen = record { pc = Pc.asleep; i = i; seen = seen }

abbrev pub woken : ℕ → ℕ → Thread
woken i seen = record { pc = Pc.at_lock; i = i; seen = seen }

-- What `FUTEX_WAKE` of one thread does: it wakes any one sleeper, if there is one.
pub data Wakes : List Thread → List Thread → Type 0 where
  nobody : (ts : List Thread) → total sleeps ts ≡ 0 → Wakes ts ts
  one :
      (xs : List Thread) (i seen : ℕ) (ys : List Thread)
      → Wakes (xs ++ sleeper i seen ∷ ys) (xs ++ woken i seen ∷ ys)

abbrev pub IsAtWake : Pc → Type 0
IsAtWake at_wake = Unit {0}
IsAtWake _ = ⊥

-- The thread after its step, with what it has changed.
abbrev pub put_view : List Thread → View → List Thread → World → World
put_view xs v ys w = record w {
  threads = xs ++ v.thread ∷ ys;
  futex = v.futex;
  counter = v.counter;
}

pub data Step (n : ℕ) (w : World) : World → Type 0 where
  -- A thread goes on, but for a call of `futex_wake`.
  turn :
      (xs : List Thread) (t : Thread) (ys : List Thread)
      → w.threads ≡ xs ++ t ∷ ys
      → ¬ IsAtWake t.pc
      → Step n w (
          put_view xs
            (advance n w.start t.pc (record { thread = t; futex = w.futex; counter = w.counter }))
            ys
            w)
  -- A call of `futex_wake`.
  wake :
      (xs : List Thread) (t : Thread) (ys ts : List Thread)
      → w.threads ≡ xs ++ t ∷ ys
      → IsAtWake t.pc
      → Wakes (xs ++ loop n (record t { i = t.i + 1 }) ∷ ys) ts
      → Step n w (record w { threads = ts })
  -- `futex_wait` may return without a call of `futex_wake`.
  spurious :
      (xs : List Thread) (i seen : ℕ) (ys : List Thread)
      → w.threads ≡ xs ++ sleeper i seen ∷ ys
      → Step n w (record w { threads = xs ++ woken i seen ∷ ys })
  -- `main` sets `start`, and prints the counter after it has joined every thread.
  begin : Step n w (record w { start = true })
  print : total not_returned w.threads ≡ 0 → Step n w (record w { printed = some w.counter })

abbrev pub fresh : Thread
fresh = record { pc = Pc.at_start; i = 0; seen = 0 }

abbrev pub created : ℕ → List Thread
created zero = []
created (suc k) = fresh ∷ created k

abbrev pub initial : ℕ → World
initial k = record { threads = created k; futex = 0; counter = 0; start = false; printed = none }

-- What `k` threads with loops of `n` rounds reach.
pub data Reaches (k n : ℕ) : World → Type 0 where
  here : Reaches k n (initial k)
  after : {w w' : World} → Reaches k n w → Step n w w' → Reaches k n w'
