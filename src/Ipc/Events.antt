-- ===== src/Ipc/Events.antt =====
-- sysprog/lecture_examples/7_ipc/9_sem_event_source.c and 9_sem_event_cons.c: sources that put a
-- message in a queue and then raise their semaphore, and consumers that take one message of each
-- source once every semaphore is up.
pub mod Messages
pub mod Ready
mod Tests
use bd_tarantul.Common.{
  ℕ, zero, suc, ◌+◌, ◌-◌, ◌≤◌, ◌<◌, ◌≡◌, List, [], ◌∷◌, ◌++◌, Bool, ◌==◌, leb, if◌then◌else◌,
}

-- A consumer: before `lock_events`, before the message of type `k + 1` in `read_data`, and before
-- `unlock_events`.
pub data Consumer : Type 0 where
  at_lock : Consumer
  at_recv : ℕ → Consumer
  at_unlock : Consumer

-- By the number of a source, from 0 on: the messages in the queue, its semaphore, and how many
-- processes with this number have sent a message and not yet raised the semaphore. The semaphore
-- with number 3 lets one consumer in.
pub record System : Type 0 where
  pub queue : ℕ → ℕ
  pub sems : ℕ → ℕ
  pub sent : ℕ → ℕ
  pub entrance : ℕ
  pub consumers : List Consumer

abbrev pub add_at : ℕ → (ℕ → ℕ) → ℕ → ℕ
add_at i f j = if i == j then f j + 1 else f j

abbrev pub sub_at : ℕ → (ℕ → ℕ) → ℕ → ℕ
sub_at i f j = if i == j then f j - 1 else f j

-- The first three of the operations of `lock_events`.
abbrev pub sub_all : (ℕ → ℕ) → ℕ → ℕ
sub_all f j = if leb 3 j then f j else f j - 1

abbrev pub next_recv : ℕ → Consumer
next_recv k = if k == 2 then at_unlock else at_recv (k + 1)

-- `sem_inc` with the number `i + 1`: `i` is the number of the semaphore, and with one that is not
-- there `semop` fails.
abbrev pub raise : ℕ → System → System
raise i s = record s {
  sems = if leb 3 i then s.sems else add_at i s.sems;
  entrance = if i == 3 then s.entrance + 1 else s.entrance;
  sent = sub_at i s.sent;
}

-- `ids` tells which numbers, less 1, the sources were started with.
pub data Step (ids : ℕ → Bool) (s : System) : System → Type 0 where
  send_msg :
      (i : ℕ)
      → ids i ≡ Bool.true
      → Step ids s (record s { queue = add_at i s.queue; sent = add_at i s.sent })
  sem_inc : (i : ℕ) → ids i ≡ Bool.true → 0 < s.sent i → Step ids s (raise i s)
  -- `semop` takes all four down at once, when none of them is 0.
  lock_events :
      (xs ys : List Consumer)
      → s.consumers ≡ xs ++ at_lock ∷ ys
      → 0 < s.sems 0
      → 0 < s.sems 1
      → 0 < s.sems 2
      → 0 < s.entrance
      → Step ids s (record s {
        consumers = xs ++ at_recv 0 ∷ ys;
        sems = sub_all s.sems;
        entrance = s.entrance - 1;
      })
  recv_msg :
      (xs : List Consumer) (k : ℕ) (ys : List Consumer)
      → s.consumers ≡ xs ++ at_recv k ∷ ys
      → 0 < s.queue k
      → Step ids s (record s { consumers = xs ++ next_recv k ∷ ys; queue = sub_at k s.queue })
  unlock_events :
      (xs ys : List Consumer)
      → s.consumers ≡ xs ++ at_unlock ∷ ys
      → Step ids s (record s { consumers = xs ++ at_lock ∷ ys; entrance = s.entrance + 1 })

abbrev pub waiting : ℕ → List Consumer
waiting zero = []
waiting (suc n) = at_lock ∷ waiting n

-- The values {0, 0, 0, 1}, with `n` consumers.
abbrev pub created : ℕ → System
created n = record {
  queue = λ i. 0;
  sems = λ i. 0;
  sent = λ i. 0;
  entrance = 1;
  consumers = waiting n;
}

pub data Reaches (ids : ℕ → Bool) (n : ℕ) : System → Type 0 where
  here : Reaches ids n (created n)
  after : {s s' : System} → Reaches ids n s → Step ids s s' → Reaches ids n s'
