-- ===== src/Threads/BadDetach/Tests.antt =====
-- 11_cthread_bad_detach.c: a joined thread, and one that is detached and never destroyed.
use bd_tarantul.Common.{◌≡◌, refl, Bool, true, false, List, [], ◌∷◌, pos}
use bd_tarantul.Threads.BadDetach.{
  b_return, o_check, o_detached, create, runner_at, owner_at, turn, run,
}

abbrev join_schedule : List Bool
join_schedule = false ∷ true ∷ true ∷ true ∷ false ∷ false ∷ []

-- The owner tests `is_finished` before the thread tests `is_detached`, and sets its flag after that.
abbrev leak_schedule : List Bool
leak_schedule = false ∷ true ∷ true ∷ true ∷ false ∷ []

leaks :
    ((run (pos 5) leak_schedule (create o_check)).destroyed ≡ 0)
    × (((run (pos 5) leak_schedule (create o_check)).runner ≡ b_return)
        × ((run (pos 5) leak_schedule (create o_check)).owner ≡ o_detached))
unfolding turn runner_at owner_at create
leaks = (refl, (refl, refl))
