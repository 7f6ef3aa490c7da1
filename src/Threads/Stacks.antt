-- ===== src/Threads/Stacks.antt =====
-- sysprog/lecture_examples/6_threads/12_cthread_detach.c: the list of the stacks that
-- `cthread_destroy` leaves for a later call to free. A thread cannot free the stack it runs on: the
-- kernel clears its `tid` when it is gone.
pub mod Freed
mod Tests
use bd_tarantul.Common.{
  ℕ, ◌+◌, ◌≡◌, Bool, true, false, List, [], ◌∷◌, ◌++◌, map, if◌then◌else◌, ◌==◌,
}

pub record Stack : Type 0 where
  pub tid : ℕ
  pub stack : ℕ  -- the memory block

-- The loop of `cthread_destroy`: the blocks that it frees, and the list from the first stack on that
-- is still in use.
unfoldable pub free_exited : List Stack → List Stack × List Stack
free_exited [] = ([], [])
free_exited (iter ∷ next) =
    let (freed, rest) = free_exited next in
    if iter.tid == 0 then (iter ∷ freed, rest) else ([], iter ∷ next)

-- `cthread_destroy`: the blocks freed, and the new `stack_list`.
unfoldable pub destroy : Stack → List Stack → List Stack × List Stack
unfolding free_exited
destroy own stack_list = let (freed, iter) = free_exited stack_list in (freed, own ∷ iter)

-- The stacks of the threads that are not destroyed yet, the list, and what was freed.
pub record Stacks : Type 0 where
  pub threads : List Stack
  pub stack_list : List Stack
  pub freed : List Stack

-- The thread on block `b` is gone.
abbrev pub exit_of : ℕ → Stack → Stack
exit_of b s = record s { tid = if s.stack == b then 0 else s.tid }

pub data Step : Stacks → Stacks → Type 0 where
  exits :
      (b : ℕ) (threads stack_list freed : List Stack)
      → Step
          (record { threads = threads; stack_list = stack_list; freed = freed })
          (record {
            threads = map (exit_of b) threads;
            stack_list = map (exit_of b) stack_list;
            freed = freed;
          })
  destroys :
      (xs : List Stack) (own : Stack) (ys stack_list freed : List Stack)
      → Step
          (record { threads = xs ++ own ∷ ys; stack_list = stack_list; freed = freed })
          (record {
            threads = xs ++ ys;
            stack_list = (destroy own stack_list).1;
            freed = freed ++ (destroy own stack_list).0;
          })

-- What is reached from threads with the stacks `ts` and an empty list.
pub data Reaches (ts : List Stack) : Stacks → Type 0 where
  here : Reaches ts (record { threads = ts; stack_list = []; freed = [] })
  after : {s s' : Stacks} → Reaches ts s → Step s s' → Reaches ts s'
