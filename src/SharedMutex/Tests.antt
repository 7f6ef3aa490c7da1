-- ===== src/SharedMutex/Tests.antt =====
-- shared_mutex.cpp: a writer that waits for a reader, and a reader that waits for the writer.
use bd_tarantul.Common.{◌+◌, ◌*◌, ◌≤◌, ◌<◌, ◌≡◌, ◌⊎◌, refl, arith, [], ◌∷◌}
use bd_tarantul.Threads.Totals.{total}
use bd_tarantul.SharedMutex.{
  write_entered, n_readers, unlock_shared, idle, asleep_gate2, asleep_shared, at_gate2, writing,
  reading, lock, lock_shared, none, one2, World, Step, turn, Reaches, here, after,
}
use bd_tarantul.SharedMutex.Counts.{enters, reads, writes, Reaches-one_writer}
use bd_tarantul.SharedMutex.Safety.{runs, Reaches-can_run}

abbrev waiting : World
waiting = record { threads = reading ∷ asleep_gate2 ∷ asleep_shared ∷ []; state = 2147483649 }

contended : Reaches 3 waiting
contended =
    after
      (after (after here (turn [] idle (idle ∷ idle ∷ []) _ lock_shared 0 (none _)))
        (turn (reading ∷ []) idle (idle ∷ []) _ lock 1 (none _)))
      (turn (reading ∷ asleep_gate2 ∷ []) idle [] _ lock_shared 2147483649 (none _))

unlocked :
    Step waiting (record { threads = idle ∷ at_gate2 ∷ asleep_shared ∷ []; state = 2147483648 })
unlocked =
    turn [] reading (asleep_gate2 ∷ asleep_shared ∷ []) _ lock 2147483649
      (one2 (idle ∷ []) asleep_gate2 (asleep_shared ∷ []) refl)

wrote : Reaches 3 (record { threads = idle ∷ writing ∷ asleep_shared ∷ []; state = 2147483648 })
wrote =
    after (after contended unlocked)
      (turn (idle ∷ []) at_gate2 (asleep_shared ∷ []) _ lock 2147483648 (none _))

-- An `unlock_shared` that nobody owes sets all the bits.
unlock_shared_wraps : (unlock_shared 0).state ≡ 4294967295
unlock_shared_wraps = refl

Reaches-one_writer_example :
    ((total writes (idle ∷ writing ∷ asleep_shared ∷ []) ≡ 0)
      ⊎ ((total writes (idle ∷ writing ∷ asleep_shared ∷ []) ≡ 1)
          × (total reads (idle ∷ writing ∷ asleep_shared ∷ []) ≡ 0)))
    × (2147483648
        ≡ write_entered * total enters (idle ∷ writing ∷ asleep_shared ∷ [])
          + total reads (idle ∷ writing ∷ asleep_shared ∷ []))
    × (total reads (idle ∷ writing ∷ asleep_shared ∷ []) ≤ n_readers)
Reaches-one_writer_example = Reaches-one_writer wrote

Reaches-can_run_example : 0 < total runs waiting.threads
Reaches-can_run_example = Reaches-can_run (omega arith) contended (omega arith)
