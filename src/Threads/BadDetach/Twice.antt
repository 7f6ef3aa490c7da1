-- ===== src/Threads/BadDetach/Twice.antt =====
-- 11_cthread_bad_detach.c: without the lock a thread is still never destroyed twice.
use bd_tarantul.Common.{ℕ, ◌≤◌, ◌≡◌, refl, arith, Bool, true, false, not, List, ℤ}
use bd_tarantul.Schedule.{runs-keeps}
use bd_tarantul.Threads.BadDetach.{
  RunnerPc, b_func, b_check, b_finish, b_return, OwnerPc, o_check, o_set, o_detached, o_wait,
  o_destroy, o_joined, Cthread, create, runner_at, owner_at, turn, run,
}

abbrev has_finished : RunnerPc → Bool
has_finished b_return = true
has_finished _ = false

abbrev has_detached : OwnerPc → Bool
has_detached o_detached = true
has_detached _ = false

-- At most how often a side can have destroyed the thread by then.
abbrev runner_past : RunnerPc → ℕ
runner_past b_func = 0
runner_past b_check = 0
runner_past _ = 1

abbrev owner_past : OwnerPc → ℕ
owner_past o_set = 1
owner_past o_detached = 1
owner_past o_joined = 1
owner_past _ = 0

-- How often a join has destroyed it.
abbrev pub joins : OwnerPc → ℕ
joins o_joined = 1
joins _ = 0

-- Whether a join is past its wait, and the thread has not finished.
abbrev unseen : RunnerPc → OwnerPc → Bool
unseen r o_destroy = not (has_finished r)
unseen r o_joined = not (has_finished r)
unseen r _ = false

pub record Inv (s : Cthread) : Type 0 where
  pub finished : s.is_finished ≡ has_finished s.runner
  pub detached : s.is_detached ≡ has_detached s.owner
  pub by_runner : s.destroyed ≤ runner_past s.runner
  pub by_owner : s.destroyed ≤ owner_past s.owner
  pub by_join : joins s.owner ≤ s.destroyed
  pub seen : unseen s.runner s.owner ≡ false

runner_at-Inv :
    (code : ℤ) (r : RunnerPc) (s : Cthread) → s.runner ≡ r → Inv s → Inv (runner_at code r s)
unfolding runner_at
runner_at-Inv code b_func s e v = ground arith
runner_at-Inv code b_check s e v = ground arith
runner_at-Inv code b_finish s e v = ground arith
runner_at-Inv code b_return s e v = v

owner_at-Inv : (o : OwnerPc) (s : Cthread) → s.owner ≡ o → Inv s → Inv (owner_at o s)
unfolding owner_at
owner_at-Inv o_check s e v = ground arith
owner_at-Inv o_set s e v = ground arith
owner_at-Inv o_detached s e v = v
owner_at-Inv o_wait s e v = ground arith
owner_at-Inv o_destroy s e v = ground arith
owner_at-Inv o_joined s e v = v

turn-Inv : (code : ℤ) (b : Bool) (s : Cthread) → Inv s → Inv (turn code b s)
unfolding turn
turn-Inv code true s v = runner_at-Inv code s.runner s refl v
turn-Inv code false s v = owner_at-Inv s.owner s refl v

-- An owner that is about to detach or to join.
abbrev pub IsOwner : OwnerPc → Type 0
IsOwner o_check = Unit {0}
IsOwner o_wait = Unit {0}
IsOwner _ = ⊥

create-Inv : (o : OwnerPc) → IsOwner o → Inv (create o)
unfolding create
create-Inv o i = ground arith

past-le : (r : RunnerPc) → runner_past r ≤ 1
past-le r = ground arith

-- However the steps are ordered, without a lock too, a thread is never destroyed twice, and one that
-- has been joined has been destroyed.
pub run-joins :
    (code : ℤ) (o : OwnerPc) (bs : List Bool)
    → IsOwner o
    → (joins (run code bs (create o)).owner ≤ (run code bs (create o)).destroyed)
      × ((run code bs (create o)).destroyed ≤ 1)
run-joins code o bs i =
    let v = runs-keeps (turn code) Inv (turn-Inv code) bs (create o) (create-Inv o i) in
    (v.by_join, omega (arith, v.by_runner, past-le (run code bs (create o)).runner))
