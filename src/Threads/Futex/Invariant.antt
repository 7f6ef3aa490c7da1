-- ===== src/Threads/Futex/Invariant.antt =====
-- 8_futex.c: what holds between the steps of the threads.
use bd_tarantul.Common.{ℕ, ◌+◌, ◌≤◌, ◌<◌, ◌≡◌, arith, List, if◌then◌else◌, ltb, ◌==◌}
use bd_tarantul.Threads.Totals.{total}
use bd_tarantul.Threads.Futex.{
  at_start, asleep, at_read, at_write, at_unlock, at_wake, at_return, Thread, World, sleeps,
}

-- Whether a thread holds the lock.
abbrev pub holds : Thread → ℕ
holds t = elim t.pc [ at_read ↦ 1 | at_write ↦ 1 | at_unlock ↦ 1 | _ ↦ 0 ]

-- How often a thread has written the counter.
abbrev pub counted : Thread → ℕ
counted t = elim t.pc [ at_unlock ↦ t.i + 1 | at_wake ↦ t.i + 1 | _ ↦ t.i ]

-- Whether a thread is about to write from an old value of the counter.
abbrev pub stale : ℕ → Thread → ℕ
stale counter t = elim t.pc [ at_write ↦ (if t.seen == counter then 0 else 1) | _ ↦ 0 ]

-- Whether a thread is out of its loop's rounds.
abbrev pub astray : ℕ → Thread → ℕ
astray n t = elim t.pc [
  | at_start ↦ (if t.i == 0 then 0 else 1)
  | at_return ↦ (if t.i == n then 0 else 1)
  | _ ↦ (if ltb t.i n then 0 else 1)
]

-- Whether a thread can run.
abbrev pub awake : Thread → ℕ
awake t = elim t.pc [ asleep ↦ 0 | at_return ↦ 0 | _ ↦ 1 ]

pub record Inv (n : ℕ) (w : World) : Type 0 where
  pub held : w.futex ≡ total holds w.threads
  pub free : w.futex ≤ 1
  pub written : w.counter ≡ total counted w.threads
  pub current : total (stale w.counter) w.threads ≡ 0
  pub rounds : total (astray n) w.threads ≡ 0

-- Nobody sleeps where nobody can run.
abbrev pub IsWatched : List Thread → Type 0
IsWatched ts = 0 < total sleeps ts → 0 < total awake ts

pub stale-le-holds : (c : ℕ) (t : Thread) → stale c t ≤ holds t
stale-le-holds c t = ground arith

pub holds-le-awake : (t : Thread) → holds t ≤ awake t
holds-le-awake t = ground arith

pub sleeps-le-astray : (t : Thread) → sleeps t ≤ astray 0 t
sleeps-le-astray t = ground arith
