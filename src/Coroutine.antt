-- ===== src/Coroutine.antt =====
-- sysprog/afina/src/coroutine/Engine.cpp and include/afina/coroutine/Engine.h: which routine has
-- control. What `Store` and `Restore` copy of the stack is left out: control goes on in a routine
-- where it was stored.
pub mod Yields
mod Tests
use bd_tarantul.Common.{
  ℕ, zero, suc, Bool, true, false, Option, none, some, List, [], ◌∷◌, ◌==◌, if◌then◌else◌, ◌>>=◌,
}

-- `alive` and `cur_routine`, which is null (`none`) before the first routine and after one has ended.
pub record Engine : Type 0 where
  pub alive : List ℕ
  pub cur_routine : Option ℕ

abbrev pub is_current : ℕ → Option ℕ → Bool
is_current r none = false
is_current r (some c) = r == c

abbrev pub head_of : List ℕ → Option ℕ
head_of [] = none
head_of (r ∷ rs) = some r

-- `next_routine` of `yield`
abbrev pub next_routine : List ℕ → Option ℕ → Option ℕ
next_routine [] cur = none
next_routine (r ∷ rs) cur = if is_current r cur then head_of rs else some r

-- `yield`: with no current routine `Store` writes through a null pointer.
unfoldable pub yield : Engine → Option Engine
yield e = elim (next_routine e.alive e.cur_routine) [
  | none ↦ some e
  | some next ↦ elim e.cur_routine [
    | none ↦ none
    | some _ ↦ some (record e { cur_routine = some next })
  ]
]

unfoldable pub sched : Option ℕ → Engine → Option Engine
unfolding yield
sched none e = yield e
sched (some other) e =
    if is_current other e.cur_routine then some e else some (record e { cur_routine = some other })

-- `run`: the new routine is the first of `alive`.
unfoldable pub run : ℕ → Engine → Engine
run pc e = record e { alive = pc ∷ e.alive }

abbrev pub unlink : ℕ → List ℕ → List ℕ
unlink pc [] = []
unlink pc (r ∷ rs) = let rest = unlink pc rs in if r == pc then rs else r ∷ rest

-- The end of the function of a routine, in `run`, and the `yield` of `start` to which control goes.
unfoldable pub finish : ℕ → Engine → Option Engine
unfolding yield
finish pc e = yield (record { alive = unlink pc e.alive; cur_routine = none })

-- `start`: the main routine is the only one, and gets control.
unfoldable pub start : ℕ → Option Engine
unfolding run sched
start main = sched (some main) (run main (record { alive = []; cur_routine = none }))

-- `n` calls of `yield`, each by the routine that has control then.
unfoldable pub yields : ℕ → Engine → Option Engine
unfolding yield
yields zero e = some e
yields (suc n) e = yield e >>= yields n
