-- ===== src/Threads/Stacks/Tests.antt =====
-- 12_cthread_detach.c: three threads, of which the second is destroyed after the first is gone.
use bd_tarantul.Common.{ℕ, ◌≡◌, [], ◌∷◌}
use bd_tarantul.Threads.Totals.{total}
use bd_tarantul.Threads.Stacks.{
  Stack, free_exited, destroy, Stacks, exits, destroys, Reaches, here, after,
}
use bd_tarantul.Threads.Stacks.Freed.{is_block, in_use, everywhere, Reaches-freed}

abbrev stack : ℕ → ℕ → Stack
stack tid block = record { tid = tid; stack = block }

abbrev ended : Stacks
ended = record { threads = stack 9 3 ∷ []; stack_list = stack 8 2 ∷ []; freed = stack 0 1 ∷ [] }

second_destroyed : Reaches (stack 7 1 ∷ stack 8 2 ∷ stack 9 3 ∷ []) ended
unfolding destroy free_exited
second_destroyed =
    after
      (after (after here (destroys [] (stack 7 1) (stack 8 2 ∷ stack 9 3 ∷ []) [] []))
        (exits 1 (stack 8 2 ∷ stack 9 3 ∷ []) (stack 7 1 ∷ []) []))
      (destroys [] (stack 8 2) (stack 9 3 ∷ []) (stack 0 1 ∷ []) [])

Reaches-freed_example :
    (everywhere (is_block 1) ended ≡ total (is_block 1) (stack 7 1 ∷ stack 8 2 ∷ stack 9 3 ∷ []))
    × (total in_use ended.freed ≡ 0)
Reaches-freed_example = Reaches-freed 1 second_destroyed
