-- ===== src/Threads/Detach/Once.antt =====
-- 12_cthread_detach.c: a thread is destroyed exactly once, whoever comes second.
use bd_tarantul.Common.{
  ℕ, ◌≡◌, refl, sym, ◌∙◌, arith, Bool, true, false, not, ◌&&◌, ◌||◌, ◌⊎◌, inl, inr, Option, none,
  some, List, if◌then◌else◌, ℤ,
}
use bd_tarantul.Schedule.{runs-keeps}
use bd_tarantul.Threads.Detach.{
  RunnerPc, r_func, r_lock, r_check, r_finish, r_unlock, r_return, OwnerPc, d_lock, d_check, d_set,
  d_unlock, d_return, j_wait, j_destroy, j_return, Cthread, create, runner_at, runner_step,
  owner_at, owner_step, turn, run,
}

abbrev pub runner_holds : RunnerPc → Bool
runner_holds r_check = true
runner_holds r_finish = true
runner_holds r_unlock = true
runner_holds _ = false

abbrev pub owner_holds : OwnerPc → Bool
owner_holds d_check = true
owner_holds d_set = true
owner_holds d_unlock = true
owner_holds _ = false

abbrev pub has_finished : RunnerPc → Bool
has_finished r_unlock = true
has_finished r_return = true
has_finished _ = false

abbrev pub has_code : RunnerPc → Bool
has_code r_func = false
has_code _ = true

abbrev pub has_detached : OwnerPc → Bool
has_detached d_unlock = true
has_detached d_return = true
has_detached _ = false

-- Whether a side is past its call of `cthread_destroy`.
abbrev pub runner_past : RunnerPc → Bool
runner_past r_finish = true
runner_past r_unlock = true
runner_past r_return = true
runner_past _ = false

abbrev pub times : RunnerPc → OwnerPc → ℕ
times r d_lock = 0
times r d_check = 0
times r j_wait = 0
times r j_destroy = 0
times r j_return = 1
times r _ = if runner_past r then 1 else 0

abbrev pub result : ℤ → OwnerPc → Option ℤ
result code j_return = some code
result code _ = none

-- Whether a join is past its wait, and the thread has not finished.
abbrev pub unseen : RunnerPc → OwnerPc → Bool
unseen r j_destroy = not (has_finished r)
unseen r j_return = not (has_finished r)
unseen r _ = false

pub record Inv (code : ℤ) (s : Cthread) : Type 0 where
  pub locked : s.lock ≡ (runner_holds s.runner || owner_holds s.owner)
  pub excluded : (runner_holds s.runner && owner_holds s.owner) ≡ false
  pub finished : s.is_finished ≡ has_finished s.runner
  pub detached : s.is_detached ≡ has_detached s.owner
  pub once : s.destroyed ≡ times s.runner s.owner
  pub coded : has_code s.runner ≡ true → s.returned_code ≡ code
  pub answered : s.joined ≡ result code s.owner
  pub seen : unseen s.runner s.owner ≡ false

runner_at-Inv :
    (code : ℤ) (r : RunnerPc) (s : Cthread)
    → s.runner ≡ r
    → Inv code s
    → Inv code (runner_at code r s)
unfolding runner_at
runner_at-Inv code r_func s e v = ground arith
runner_at-Inv code r_lock s e v = ground arith
runner_at-Inv code r_check s e v = ground arith
runner_at-Inv code r_finish s e v = ground arith
runner_at-Inv code r_unlock s e v = ground arith
runner_at-Inv code r_return s e v = v

owner_at-Inv :
    (code : ℤ) (o : OwnerPc) (s : Cthread) → s.owner ≡ o → Inv code s → Inv code (owner_at o s)
unfolding owner_at
owner_at-Inv code d_lock s e v = ground arith
owner_at-Inv code d_check s e v = ground arith
owner_at-Inv code d_set s e v = ground arith
owner_at-Inv code d_unlock s e v = ground arith
owner_at-Inv code d_return s e v = v
owner_at-Inv code j_wait s e v = ground arith
owner_at-Inv code j_destroy s e v = ground arith
owner_at-Inv code j_return s e v = v

-- An owner that is about to detach or to join.
abbrev pub IsOwner : OwnerPc → Type 0
IsOwner d_lock = Unit {0}
IsOwner j_wait = Unit {0}
IsOwner _ = ⊥

pub create-Inv : (code : ℤ) (o : OwnerPc) → IsOwner o → Inv code (create o)
unfolding create
create-Inv code o i = ground arith

pub turn-Inv : (code : ℤ) (b : Bool) (s : Cthread) → Inv code s → Inv code (turn code b s)
unfolding turn runner_step owner_step
turn-Inv code true s v = runner_at-Inv code s.runner s refl v
turn-Inv code false s v = owner_at-Inv code s.owner s refl v

pub started-Inv :
    (code : ℤ) (o : OwnerPc) (bs : List Bool) → IsOwner o → Inv code (run code bs (create o))
started-Inv code o bs i =
    runs-keeps (turn code) (Inv code) (turn-Inv code) bs (create o) (create-Inv code o i)

abbrev pub IsOver : RunnerPc → OwnerPc → Type 0
IsOver r_return d_return = Unit {0}
IsOver r_return j_return = Unit {0}
IsOver _ _ = ⊥

once_or_pending : (r : RunnerPc) (o : OwnerPc) → ((times r o ≡ 0) × ¬ IsOver r o) ⊎ (times r o ≡ 1)
once_or_pending r o = ground arith

-- However the steps of the thread and of its owner, who detaches or joins it, are ordered: either the
-- thread is not yet destroyed, and then one of the two has not returned, or it is destroyed exactly
-- once. So it is never destroyed twice, and it is destroyed once both have returned.
pub run-once :
    (code : ℤ) (o : OwnerPc) (bs : List Bool)
    → IsOwner o
    → (((run code bs (create o)).destroyed ≡ 0)
        × ¬ IsOver (run code bs (create o)).runner (run code bs (create o)).owner)
      ⊎ ((run code bs (create o)).destroyed ≡ 1)
run-once code o bs i =
    let e = (started-Inv code o bs i).once in
    elim (once_or_pending (run code bs (create o)).runner (run code bs (create o)).owner) [
      | inl (z, n) ↦ inl (e ∙ z, n)
      | inr u ↦ inr (e ∙ u)
    ]

result-some :
    (code c : ℤ) (r : RunnerPc) (o : OwnerPc)
    → unseen r o ≡ false
    → result code o ≡ some c
    → (c ≡ code) × (has_finished r ≡ true)
result-some code c r o s e = ground arith

-- What `cthread_join` returns is the code with which the thread's function ended, and the thread has
-- set `is_finished` by then.
pub run-joined :
    (code c : ℤ) (o : OwnerPc) (bs : List Bool)
    → IsOwner o
    → (run code bs (create o)).joined ≡ some c
    → (c ≡ code) × ((run code bs (create o)).is_finished ≡ true)
run-joined code c o bs i e =
    let v = started-Inv code o bs i in
    let (f, g) =
      result-some code c (run code bs (create o)).runner (run code bs (create o)).owner v.seen
        (sym v.answered ∙ e) in
    (f, v.finished ∙ g)
