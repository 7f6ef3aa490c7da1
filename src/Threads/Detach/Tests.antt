-- ===== src/Threads/Detach/Tests.antt =====
-- 12_cthread_detach.c: a detached thread and a joined one.
use bd_tarantul.Common.{◌≡◌, refl, ◌⊎◌, Bool, true, false, some, List, [], ◌∷◌, pos}
use bd_tarantul.Schedule.{alternate}
use bd_tarantul.Threads.Detach.{
  d_lock, j_wait, create, runner_at, runner_step, owner_at, owner_step, turn, run,
}
use bd_tarantul.Threads.Detach.Once.{IsOver, run-once}

-- The owner tests `is_finished` while the thread waits for the lock.
abbrev schedule : List Bool
schedule = false ∷ true ∷ true ∷ false ∷ false ∷ false ∷ true ∷ true ∷ true ∷ true ∷ []

run-once_example :
    (((run (pos 5) schedule (create d_lock)).destroyed ≡ 0)
      × ¬ IsOver
          (run (pos 5) schedule (create d_lock)).runner
          (run (pos 5) schedule (create d_lock)).owner)
    ⊎ ((run (pos 5) schedule (create d_lock)).destroyed ≡ 1)
run-once_example = run-once (pos 5) d_lock schedule tt

joined : (run (pos 5) (alternate 9) (create j_wait)).joined ≡ some (pos 5)
unfolding turn runner_step owner_step runner_at owner_at create alternate
joined = refl
