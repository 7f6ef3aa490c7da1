-- ===== src/Coroutine/Tests.antt =====
-- Routines that give up control, and the theorems on them applied there.
use bd_tarantul.Common.{◌≡◌, refl, arith, none, some, [], ◌∷◌, ◌>>=◌}
use bd_tarantul.Coroutine.{yield, yields, sched, run, start, finish}
use bd_tarantul.Coroutine.Yields

program : Unit {0}
unfolding yield yields sched run start finish
program = tt

-- The main routine makes two more, gives up control, and the one that gets it ends.
ended : (start 1 >>= λ e. yields 1 (run 3 (run 2 e)) >>= finish 3) ≡ none
unfolding program
ended = refl

yields-pair_example :
    (yields 5 (record { alive = 3 ∷ 2 ∷ 1 ∷ []; cur_routine = some 3 })
      ≡ some (record { alive = 3 ∷ 2 ∷ 1 ∷ []; cur_routine = some 2 }))
    × (yields 5 (record { alive = 3 ∷ 2 ∷ 1 ∷ []; cur_routine = some 2 })
        ≡ some (record { alive = 3 ∷ 2 ∷ 1 ∷ []; cur_routine = some 3 }))
yields-pair_example = Yields.yields-pair 3 2 (1 ∷ []) (omega arith) 5
