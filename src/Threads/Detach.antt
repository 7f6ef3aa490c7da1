-- ===== src/Threads/Detach.antt =====
-- sysprog/lecture_examples/6_threads/12_cthread_detach.c: the end of a thread, and its owner, who
-- either detaches it or joins it. A step is one access to the fields that the two share; what
-- `cthread_destroy` does under its own lock is one step.
pub mod Once
pub mod Ends
mod Tests
use bd_tarantul.Common.{
  ℕ, ◌+◌, ◌≡◌, Bool, true, false, Option, none, some, List, [], ◌∷◌, ◌++◌, if◌then◌else◌, ℤ,
}
use bd_tarantul.Schedule.{runs}

-- Where `cthread_runner` stands.
pub data RunnerPc : Type 0 where
  r_func : RunnerPc  -- returned_code = func(arg), or cthread_exit in it
  r_lock : RunnerPc  -- spin_lock(&thread->lock)
  r_check : RunnerPc  -- if (is_detached) cthread_destroy(thread)
  r_finish : RunnerPc  -- is_finished = true
  r_unlock : RunnerPc  -- spin_unlock(&thread->lock)
  r_return : RunnerPc

-- Where the owner stands, in `cthread_detach` or in `cthread_join`.
pub data OwnerPc : Type 0 where
  d_lock : OwnerPc  -- spin_lock(&thread->lock)
  d_check : OwnerPc  -- if (is_finished) cthread_destroy(thread)
  d_set : OwnerPc  -- is_detached = true
  d_unlock : OwnerPc  -- spin_unlock(&thread->lock)
  d_return : OwnerPc
  j_wait : OwnerPc  -- while (! is_finished)
  j_destroy : OwnerPc  -- cthread_destroy(thread)
  j_return : OwnerPc

pub record Cthread : Type 0 where
  pub lock : Bool
  pub is_finished : Bool
  pub is_detached : Bool
  pub returned_code : ℤ
  pub destroyed : ℕ  -- calls of cthread_destroy
  pub joined : Option ℤ  -- what cthread_join returned
  pub runner : RunnerPc
  pub owner : OwnerPc

-- `cthread_create`, with what the owner is going to do.
unfoldable pub create : OwnerPc → Cthread
create owner = record {
  lock = false;
  is_finished = false;
  is_detached = false;
  returned_code = ℤ.pos 0;
  destroyed = 0;
  joined = none;
  runner = RunnerPc.r_func;
  owner = owner;
}

module _ (code : ℤ) where
  unfoldable pub runner_at : RunnerPc → Cthread → Cthread
  runner_at r_func s = record s { returned_code = code; runner = r_lock }
  runner_at r_lock s = if s.lock then s else record s { lock = true; runner = r_check }
  runner_at r_check s = record s {
    destroyed = if s.is_detached then s.destroyed + 1 else s.destroyed;
    runner = r_finish;
  }
  runner_at r_finish s = record s { is_finished = true; runner = r_unlock }
  runner_at r_unlock s = record s { lock = false; runner = r_return }
  runner_at r_return s = s

  -- A step of `cthread_runner`, whose function ends with `code`.
  unfoldable pub runner_step : Cthread → Cthread
  unfolding runner_at
  runner_step s = runner_at s.runner s

unfoldable pub owner_at : OwnerPc → Cthread → Cthread
owner_at d_lock s = if s.lock then s else record s { lock = true; owner = d_check }
owner_at d_check s = record s {
  destroyed = if s.is_finished then s.destroyed + 1 else s.destroyed;
  owner = d_set;
}
owner_at d_set s = record s { is_detached = true; owner = d_unlock }
owner_at d_unlock s = record s { lock = false; owner = d_return }
owner_at d_return s = s
owner_at j_wait s = if s.is_finished then record s { owner = j_destroy } else s
owner_at j_destroy s = record s {
  destroyed = s.destroyed + 1;
  joined = some s.returned_code;
  owner = j_return;
}
owner_at j_return s = s

unfoldable pub owner_step : Cthread → Cthread
unfolding owner_at
owner_step s = owner_at s.owner s

unfoldable pub turn : ℤ → Bool → Cthread → Cthread
unfolding runner_step owner_step
turn code true s = runner_step code s
turn code false s = owner_step s

-- A run under a schedule: `true` is a step of the thread.
abbrev pub run : ℤ → List Bool → Cthread → Cthread
run code bs s = runs (turn code) bs s
