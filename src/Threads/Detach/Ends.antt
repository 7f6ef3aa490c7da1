-- ===== src/Threads/Detach/Ends.antt =====
-- 12_cthread_detach.c: the spin lock and the wait for `is_finished` always come to an end.
use bd_tarantul.Common.{
  ℕ, ◌+◌, ◌≤◌, ◌<◌, ◌≡◌, refl, ap, arith, Bool, true, false, ◌||◌, ◌⊎◌, inl, inr, List, ◌++◌, ℤ,
}
use bd_tarantul.Schedule.{alternate, runs-IsOver}
use bd_tarantul.Threads.Detach.{
  RunnerPc, r_func, r_lock, r_check, r_finish, r_unlock, r_return, OwnerPc, d_lock, d_check, d_set,
  d_unlock, d_return, j_wait, j_destroy, j_return, Cthread, create, runner_at, runner_step,
  owner_at, owner_step, turn, run,
}
use bd_tarantul.Threads.Detach.Once.{
  Inv, runner_holds, owner_holds, has_finished, IsOwner, IsOver, create-Inv, turn-Inv,
}

-- The steps that a side still has to make.
abbrev pub runner_left : RunnerPc → ℕ
runner_left r_func = 5
runner_left r_lock = 4
runner_left r_check = 3
runner_left r_finish = 2
runner_left r_unlock = 1
runner_left r_return = 0

abbrev pub owner_left : OwnerPc → ℕ
owner_left d_lock = 4
owner_left d_check = 3
owner_left d_set = 2
owner_left d_unlock = 1
owner_left d_return = 0
owner_left j_wait = 2
owner_left j_destroy = 1
owner_left j_return = 0

abbrev pub steps_left : Cthread → ℕ
steps_left s = runner_left s.runner + owner_left s.owner

-- Where a step leaves the state as it is.
abbrev RunnerWaits : RunnerPc → Bool → Type 0
RunnerWaits r_lock lock = lock ≡ true
RunnerWaits r_return lock = Unit {0}
RunnerWaits _ lock = ⊥

abbrev OwnerWaits : OwnerPc → Bool → Bool → Type 0
OwnerWaits d_lock lock is_finished = lock ≡ true
OwnerWaits d_return lock is_finished = Unit {0}
OwnerWaits j_wait lock is_finished = is_finished ≡ false
OwnerWaits j_return lock is_finished = Unit {0}
OwnerWaits _ lock is_finished = ⊥

runner_at-less :
    (code : ℤ) (r : RunnerPc) (s : Cthread)
    → s.runner ≡ r
    → (RunnerWaits r s.lock × (runner_at code r s ≡ s))
      ⊎ (steps_left (runner_at code r s) < steps_left s)
unfolding runner_at
runner_at-less code r_func s e = ground arith
runner_at-less code r_lock s e = ground arith
runner_at-less code r_check s e = ground arith
runner_at-less code r_finish s e = ground arith
runner_at-less code r_unlock s e = ground arith
runner_at-less code r_return s e = inl (tt, refl)

owner_at-less :
    (o : OwnerPc) (s : Cthread)
    → s.owner ≡ o
    → (OwnerWaits o s.lock s.is_finished × (owner_at o s ≡ s))
      ⊎ (steps_left (owner_at o s) < steps_left s)
unfolding owner_at
owner_at-less d_lock s e = ground arith
owner_at-less d_check s e = ground arith
owner_at-less d_set s e = ground arith
owner_at-less d_unlock s e = ground arith
owner_at-less d_return s e = inl (tt, refl)
owner_at-less j_wait s e = ground arith
owner_at-less j_destroy s e = ground arith
owner_at-less j_return s e = inl (tt, refl)

-- Both wait only where both have returned.
waits-IsOver :
    (r : RunnerPc) (o : OwnerPc) (lock is_finished : Bool)
    → lock ≡ (runner_holds r || owner_holds o)
    → is_finished ≡ has_finished r
    → RunnerWaits r lock
    → OwnerWaits o lock is_finished
    → IsOver r o
waits-IsOver r_return d_return lock is_finished l f hr ho = tt
waits-IsOver r_return j_return lock is_finished l f hr ho = tt
waits-IsOver r o lock is_finished l f hr ho = ground (arith, l, f, hr, ho)

runner_less :
    (code : ℤ) (s : Cthread)
    → (RunnerWaits s.runner s.lock × (runner_step code s ≡ s))
      ⊎ (steps_left (runner_step code s) < steps_left s)
unfolding runner_step
runner_less code s = runner_at-less code s.runner s refl

owner_less :
    (s : Cthread)
    → (OwnerWaits s.owner s.lock s.is_finished × (owner_step s ≡ s))
      ⊎ (steps_left (owner_step s) < steps_left s)
unfolding owner_step
owner_less s = owner_at-less s.owner s refl

turn_moves :
    (code : ℤ) (b : Bool) (s : Cthread)
    → (turn code b s ≡ s) ⊎ (steps_left (turn code b s) < steps_left s)
unfolding turn
turn_moves code true s = elim (runner_less code s) [ inl (_, e) ↦ inl e | inr h ↦ inr h ]
turn_moves code false s = elim (owner_less s) [ inl (_, e) ↦ inl e | inr h ↦ inr h ]

turn_ends :
    (code : ℤ) (s : Cthread)
    → Inv code s
    → turn code true s ≡ s
    → turn code false s ≡ s
    → IsOver s.runner s.owner
unfolding turn
turn_ends code s v e f = elim (runner_less code s) [
  | inl (hr, _) ↦ elim (owner_less s) [
    | inl (ho, _) ↦ waits-IsOver s.runner s.owner s.lock s.is_finished v.locked v.finished hr ho
    | inr h ↦ absurd (omega (arith, h, ap steps_left f))
  ]
  | inr h ↦ absurd (omega (arith, h, ap steps_left e))
]

over_left : (r : RunnerPc) (o : OwnerPc) → IsOver r o → runner_left r + owner_left o ≡ 0
over_left r o h = ground (arith, h)

turn_rests : (code : ℤ) (b : Bool) (s : Cthread) → IsOver s.runner s.owner → turn code b s ≡ s
turn_rests code b s o = elim (turn_moves code b s) [
  | inl e ↦ e
  | inr h ↦ absurd (omega (arith, h, over_left s.runner s.owner o))
]

start_left : (o : OwnerPc) → IsOwner o → steps_left (create o) ≤ 9
unfolding create
start_left o i = ground (arith, i)

-- Neither the spin lock nor the wait for `is_finished` goes on for ever: whatever steps the thread and
-- its owner have made, nine more turns of each in alternation make both return.
pub run-IsOver :
    (code : ℤ) (o : OwnerPc) (bs : List Bool)
    → IsOwner o
    → IsOver
        (run code (bs ++ alternate 9) (create o)).runner
        (run code (bs ++ alternate 9) (create o)).owner
run-IsOver code o bs i =
    runs-IsOver (turn code) steps_left (Inv code) (λ s. IsOver s.runner s.owner) (turn-Inv code)
      (turn_moves code) (turn_ends code) (turn_rests code) 9 bs (create o) (create-Inv code o i)
      (start_left o i)
