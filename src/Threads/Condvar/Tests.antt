-- ===== src/Threads/Condvar/Tests.antt =====
-- 14_condvar.c: one thread that waits and is signaled.
use bd_tarantul.Common.{◌+◌, ◌≡◌, refl, [], ◌∷◌}
use bd_tarantul.Threads.Totals.{total}
use bd_tarantul.Threads.Condvar.{
  reading, spinning, at_return, World, main_count, main_set, main_unlock, main_spin, main_lock,
  main_clear, add, lock, test, clear, sub, return, Reaches, here, after,
}
use bd_tarantul.Threads.Condvar.Once.{takes, waits, Reaches-processed}

taken : (w : World) × Reaches 1 w × (w.main ≡ spinning) × (w.waiters ≡ at_return ∷ [])
taken = (
  _,
  after
      (after
        (after
          (after
            (after (after (after (after here (add [] [] refl)) (main_count refl)) (main_set refl))
              (main_unlock refl))
            (lock [] [] refl refl))
          (test [] [] refl))
        (clear [] [] refl))
      (sub [] [] refl),
  refl,
  refl,
)

-- The thread returns, and so does the signal.
signaled : (w : World) × Reaches 1 w × (w.main ≡ reading) × (w.processed ≡ 1)
unfolding taken
signaled = (
  _,
  after (after (after (after taken.1 (return [] [] refl)) (main_spin refl)) (main_lock refl refl))
      (main_clear refl),
  refl,
  refl,
)

Reaches-processed_example :
    (signaled.0.signaled ≡ signaled.0.processed + total takes signaled.0.waiters)
    × (signaled.0.wait_count ≡ total waits signaled.0.waiters)
Reaches-processed_example = Reaches-processed signaled.1 signaled.2
