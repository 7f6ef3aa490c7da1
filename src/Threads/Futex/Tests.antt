-- ===== src/Threads/Futex/Tests.antt =====
-- 8_futex.c: one thread that counts to the end, and two that meet at the lock.
use bd_tarantul.Common.{
  ℕ, ◌*◌, ◌<◌, ◌≡◌, refl, arith, Bool, true, Option, none, some, List, [], ◌∷◌,
}
use bd_tarantul.Threads.Totals.{total}
use bd_tarantul.Threads.Futex.{
  Pc, at_start, at_lock, at_wait, asleep, at_read, at_write, at_unlock, at_wake, at_return, Thread,
  World, nobody, turn, wake, begin, print, Reaches, here, after,
}
use bd_tarantul.Threads.Futex.Invariant.{awake}
use bd_tarantul.Threads.Futex.Safety.{Reaches-printed, Reaches-runs}

abbrev thread : Pc → ℕ → ℕ → Thread
thread pc i seen = record { pc = pc; i = i; seen = seen }

abbrev world : List Thread → ℕ → ℕ → Bool → Option ℕ → World
world ts futex counter start printed = record {
  threads = ts;
  futex = futex;
  counter = counter;
  start = start;
  printed = printed;
}

abbrev single : Pc → ℕ → ℕ → ℕ → ℕ → World
single pc i seen futex counter = world (thread pc i seen ∷ []) futex counter true none

locked : Reaches 1 1 (single at_read 0 0 1 0)
locked =
    after (after (after here begin) (turn [] (thread at_start 0 0) [] refl (λ b. b)))
      (turn [] (thread at_lock 0 0) [] refl (λ b. b))

unlocked : Reaches 1 1 (single at_wake 0 0 0 1)
unlocked =
    after
      (after (after locked (turn [] (thread at_read 0 0) [] refl (λ b. b)))
        (turn [] (thread at_write 0 0) [] refl (λ b. b)))
      (turn [] (thread at_unlock 0 0) [] refl (λ b. b))

finished : Reaches 1 1 (world (thread at_return 1 0 ∷ []) 0 1 true (some 1))
finished =
    after
      (after unlocked
        (wake [] (thread at_wake 0 0) [] (thread at_return 1 0 ∷ []) refl tt (nobody _ refl)))
      (print refl)

-- The second thread sleeps while the first one holds the lock.
contended : Reaches 2 3 (world (thread at_read 0 0 ∷ thread asleep 0 0 ∷ []) 1 0 true none)
contended =
    after
      (after
        (after
          (after
            (after (after here begin)
              (turn [] (thread at_start 0 0) (thread at_start 0 0 ∷ []) refl (λ b. b)))
            (turn (thread at_lock 0 0 ∷ []) (thread at_start 0 0) [] refl (λ b. b)))
          (turn [] (thread at_lock 0 0) (thread at_lock 0 0 ∷ []) refl (λ b. b)))
        (turn (thread at_read 0 0 ∷ []) (thread at_lock 0 0) [] refl (λ b. b)))
      (turn (thread at_read 0 0 ∷ []) (thread at_wait 0 0) [] refl (λ b. b))

Reaches-printed_example : 1 ≡ 1 * 1
Reaches-printed_example = Reaches-printed finished 1 refl

Reaches-runs_example : 0 < total awake (thread at_read 0 0 ∷ thread asleep 0 0 ∷ [])
Reaches-runs_example = Reaches-runs contended (omega arith)
