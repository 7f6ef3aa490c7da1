-- ===== src/SharedMutex.antt =====
-- sysprog/afina/materials/09-advanced-synchronization/code/shared_mutex.cpp: a mutex of one writer or
-- many readers, used by any number of threads. `mut_` is held from one wait to the next, so what a
-- thread does between two waits is one step.
pub mod Counts
pub mod Gates
pub mod Safety
mod Tests
use bd_tarantul.Common.{
  ℕ, zero, suc, ◌+◌, ◌-◌, ◌%◌, ◌≡◌, Bool, true, false, ◌&&◌, ◌||◌, not, List, [], ◌∷◌, ◌++◌, map,
  leb, ◌==◌, if◌then◌else◌,
}
use bd_tarantul.Threads.Totals.{total}

-- 1U << 31 and its complement, which is the mask of the readers and the largest number of them.
abbrev pub write_entered : ℕ
write_entered = 2147483648

abbrev pub n_readers : ℕ
n_readers = 2147483647

-- state_ & write_entered_, state_ & n_readers_
abbrev pub entered : ℕ → Bool
entered w = leb write_entered w

abbrev pub readers : ℕ → ℕ
readers w = w % write_entered

-- state_ &= ~n_readers_; state_ |= num
abbrev pub set_readers : ℕ → ℕ → ℕ
set_readers w num = (if entered w || entered num then write_entered else 0) + readers num

-- Where a thread stands.
pub data Pc : Type 0 where
  idle : Pc
  at_gate1 : Pc  -- lock, before its first loop
  asleep_gate1 : Pc
  at_gate2 : Pc  -- lock, before its second loop
  asleep_gate2 : Pc
  writing : Pc  -- after lock or try_lock
  at_notify : Pc  -- unlock, after its block
  at_shared : Pc  -- lock_shared, before its loop
  asleep_shared : Pc  -- on gate1_
  reading : Pc  -- after lock_shared or try_lock_shared

-- What an idle thread calls. `owned` is what `lk.owns_lock()` returns.
pub data Op : Type 0 where
  lock : Op
  try_lock : (owned : Bool) → Op
  lock_shared : Op
  try_lock_shared : (owned : Bool) → Op

pub data Signal : Type 0 where
  quiet : Signal
  one_gate1 : Signal
  all_gate1 : Signal
  one_gate2 : Signal

pub record Move : Type 0 where
  pub pc : Pc
  pub state : ℕ
  pub signal : Signal

abbrev pub still : Pc → ℕ → Move
still p w = record { pc = p; state = w; signal = quiet }

abbrev pub gate2 : ℕ → Move
gate2 w = if readers w == 0 then still writing w else still asleep_gate2 w

abbrev pub gate1 : ℕ → Move
gate1 w = if entered w then still asleep_gate1 w else gate2 (w + write_entered)

abbrev pub shared : ℕ → Move
shared w =
    if entered w || (readers w == n_readers)
    then still asleep_shared w
    else still reading (set_readers w (readers w + 1))

-- `(state_ & n_readers_) - 1` wraps.
abbrev pub unlock_shared : ℕ → Move
unlock_shared w =
    let num = (readers w + 4294967295) % 4294967296 in
    let state = set_readers w num in
    record {
      pc = idle;
      state = state;
      signal =
          if entered state
          then (if num == 0 then one_gate2 else quiet)
          else (if num == n_readers - 1 then one_gate1 else quiet);
    }

abbrev pub start : Op → ℕ → Move
start lock w = gate1 w
start (try_lock owned) w = if owned && (w == 0) then still writing write_entered else still idle w
start lock_shared w = shared w
start (try_lock_shared owned) w =
    if owned && not (entered w) && not (readers w == n_readers)
    then still reading (set_readers w (readers w + 1))
    else still idle w

-- A step of a thread; those that sleep take none.
abbrev pub advance : Op → Pc → ℕ → Move
advance op idle w = start op w
advance op at_gate1 w = gate1 w
advance op asleep_gate1 w = still asleep_gate1 w
advance op at_gate2 w = gate2 w
advance op asleep_gate2 w = still asleep_gate2 w
advance op writing w = still at_notify 0
advance op at_notify w = record { pc = idle; state = w; signal = all_gate1 }
advance op at_shared w = shared w
advance op asleep_shared w = still asleep_shared w
advance op reading w = unlock_shared w

-- How a thread goes on after its wait.
abbrev pub woken : Pc → Pc
woken asleep_gate1 = at_gate1
woken asleep_gate2 = at_gate2
woken asleep_shared = at_shared
woken p = p

abbrev pub on_gate1 : Pc → ℕ
on_gate1 asleep_gate1 = 1
on_gate1 asleep_shared = 1
on_gate1 _ = 0

abbrev pub on_gate2 : Pc → ℕ
on_gate2 asleep_gate2 = 1
on_gate2 _ = 0

abbrev pub wake_gate1 : Pc → Pc
wake_gate1 p = if on_gate1 p == 1 then woken p else p

pub data Wakes : Signal → List Pc → List Pc → Type 0 where
  none : (ts : List Pc) → Wakes quiet ts ts
  all1 : (ts : List Pc) → Wakes all_gate1 ts (map wake_gate1 ts)
  nobody1 : (ts : List Pc) → total on_gate1 ts ≡ 0 → Wakes one_gate1 ts ts
  one1 :
      (xs : List Pc) (p : Pc) (ys : List Pc)
      → on_gate1 p ≡ 1
      → Wakes one_gate1 (xs ++ p ∷ ys) (xs ++ woken p ∷ ys)
  nobody2 : (ts : List Pc) → total on_gate2 ts ≡ 0 → Wakes one_gate2 ts ts
  one2 :
      (xs : List Pc) (p : Pc) (ys : List Pc)
      → on_gate2 p ≡ 1
      → Wakes one_gate2 (xs ++ p ∷ ys) (xs ++ woken p ∷ ys)

pub record World : Type 0 where
  pub threads : List Pc
  pub state : ℕ

pub data Step : World → World → Type 0 where
  turn :
      (xs : List Pc) (p : Pc) (ys ts : List Pc) (op : Op) (w : ℕ)
      → Wakes (advance op p w).signal (xs ++ (advance op p w).pc ∷ ys) ts
      → Step
          (record { threads = xs ++ p ∷ ys; state = w })
          (record { threads = ts; state = (advance op p w).state })
  -- A wait may return by itself.
  spurious :
      (xs : List Pc) (p : Pc) (ys : List Pc) (w : ℕ)
      → Step
          (record { threads = xs ++ p ∷ ys; state = w })
          (record { threads = xs ++ woken p ∷ ys; state = w })

abbrev pub created : ℕ → List Pc
created zero = []
created (suc k) = idle ∷ created k

-- What `k` threads reach.
pub data Reaches (k : ℕ) : World → Type 0 where
  here : Reaches k (record { threads = created k; state = 0 })
  after : {w w' : World} → Reaches k w → Step w w' → Reaches k w'
