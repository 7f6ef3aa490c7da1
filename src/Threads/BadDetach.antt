-- ===== src/Threads/BadDetach.antt =====
-- sysprog/lecture_examples/6_threads/11_cthread_bad_detach.c: the end of a thread and its owner, with
-- no lock between them. A step is one access to the fields that the two share.
pub mod Twice
mod Tests
use bd_tarantul.Common.{
  ℕ, ◌+◌, Bool, true, false, Option, none, some, List, [], ◌∷◌, if◌then◌else◌, ℤ,
}
use bd_tarantul.Schedule.{runs}

-- Where `cthread_runner` stands.
pub data RunnerPc : Type 0 where
  b_func : RunnerPc  -- returned_code = func(arg), or cthread_exit in it
  b_check : RunnerPc  -- if (is_detached) cthread_destroy(thread)
  b_finish : RunnerPc  -- is_finished = true
  b_return : RunnerPc

-- Where the owner stands, in `cthread_detach` or in `cthread_join`.
pub data OwnerPc : Type 0 where
  o_check : OwnerPc  -- if (is_finished) cthread_destroy(thread)
  o_set : OwnerPc  -- sleep(1), is_detached = true
  o_detached : OwnerPc
  o_wait : OwnerPc  -- while (! is_finished)
  o_destroy : OwnerPc  -- cthread_destroy(thread)
  o_joined : OwnerPc

pub record Cthread : Type 0 where
  pub is_finished : Bool
  pub is_detached : Bool
  pub returned_code : ℤ
  pub destroyed : ℕ  -- calls of cthread_destroy
  pub joined : Option ℤ  -- what cthread_join returned
  pub runner : RunnerPc
  pub owner : OwnerPc

-- `cthread_create`, with what the owner is going to do.
unfoldable pub create : OwnerPc → Cthread
create owner = record {
  is_finished = false;
  is_detached = false;
  returned_code = ℤ.pos 0;
  destroyed = 0;
  joined = none;
  runner = RunnerPc.b_func;
  owner = owner;
}

unfoldable pub runner_at : ℤ → RunnerPc → Cthread → Cthread
runner_at code b_func s = record s { returned_code = code; runner = b_check }
runner_at code b_check s = record s {
  destroyed = if s.is_detached then s.destroyed + 1 else s.destroyed;
  runner = b_finish;
}
runner_at code b_finish s = record s { is_finished = true; runner = b_return }
runner_at code b_return s = s

unfoldable pub owner_at : OwnerPc → Cthread → Cthread
owner_at o_check s = record s {
  destroyed = if s.is_finished then s.destroyed + 1 else s.destroyed;
  owner = o_set;
}
owner_at o_set s = record s { is_detached = true; owner = o_detached }
owner_at o_detached s = s
owner_at o_wait s = if s.is_finished then record s { owner = o_destroy } else s
owner_at o_destroy s = record s {
  destroyed = s.destroyed + 1;
  joined = some s.returned_code;
  owner = o_joined;
}
owner_at o_joined s = s

-- `true` is a step of `cthread_runner`, whose function ends with `code`.
unfoldable pub turn : ℤ → Bool → Cthread → Cthread
unfolding runner_at owner_at
turn code true s = runner_at code s.runner s
turn code false s = owner_at s.owner s

abbrev pub run : ℤ → List Bool → Cthread → Cthread
run code bs s = runs (turn code) bs s
