-- ===== src/Threads/Condvar.antt =====
-- sysprog/lecture_examples/6_threads/14_condvar.c: a condition variable made of a mutex and a flag. One
-- thread signals, any number of threads wait. A step is one access to shared memory.
pub mod Once
mod Tests
use bd_tarantul.Common.{
  ℕ, zero, suc, ◌+◌, ◌-◌, ◌≡◌, Bool, true, false, List, [], ◌∷◌, ◌++◌, if◌then◌else◌, ◌==◌,
}

-- Where the main thread stands in `condvar_signal`.
pub data Main : Type 0 where
  reading : Main  -- getchar(), then wait_count
  setting : Main  -- is_event_set = true
  unlocking : Main
  spinning : Main  -- while (condvar->is_event_set) {}
  locking : Main
  clearing : Main  -- is_event_set = false

-- Where a thread stands in `condvar_wait`.
pub data Waiter : Type 0 where
  at_add : Waiter  -- __sync_add_and_fetch(&condvar->wait_count, 1)
  at_lock : Waiter
  at_test : Waiter  -- if (condvar->is_event_set)
  at_clear : Waiter  -- is_event_set = false
  at_sub : Waiter  -- __sync_sub_and_fetch(&condvar->wait_count, 1)
  at_return : Waiter  -- the first pthread_mutex_unlock
  at_retry : Waiter  -- the second one

pub record World : Type 0 where
  pub is_locked : Bool
  pub is_event_set : Bool
  pub wait_count : ℕ
  pub main : Main
  pub waiters : List Waiter
  pub signaled : ℕ  -- how often is_event_set was set
  pub processed : ℕ  -- how often condvar_wait returned

abbrev pub main_at : Main → World → World
main_at m w = record w { main = m }

pub data Step (w : World) : World → Type 0 where
  main_count :
      w.main ≡ reading → Step w (main_at (if w.wait_count == 0 then reading else setting) w)
  main_set :
      w.main ≡ setting
      → Step w (record w { main = unlocking; is_event_set = true; signaled = w.signaled + 1 })
  main_unlock : w.main ≡ unlocking → Step w (record w { main = spinning; is_locked = false })
  main_spin : w.main ≡ spinning → Step w (main_at (if w.is_event_set then spinning else locking) w)
  main_lock :
      w.main ≡ locking
      → w.is_locked ≡ false
      → Step w (record w { main = clearing; is_locked = true })
  main_clear : w.main ≡ clearing → Step w (record w { main = reading; is_event_set = false })
  add :
      (xs ys : List Waiter)
      → w.waiters ≡ xs ++ at_add ∷ ys
      → Step w (record w { waiters = xs ++ at_lock ∷ ys; wait_count = w.wait_count + 1 })
  lock :
      (xs ys : List Waiter)
      → w.waiters ≡ xs ++ at_lock ∷ ys
      → w.is_locked ≡ false
      → Step w (record w { waiters = xs ++ at_test ∷ ys; is_locked = true })
  test :
      (xs ys : List Waiter)
      → w.waiters ≡ xs ++ at_test ∷ ys
      → Step w (record w { waiters = xs ++ (if w.is_event_set then at_clear else at_retry) ∷ ys })
  clear :
      (xs ys : List Waiter)
      → w.waiters ≡ xs ++ at_clear ∷ ys
      → Step w (record w { waiters = xs ++ at_sub ∷ ys; is_event_set = false })
  sub :
      (xs ys : List Waiter)
      → w.waiters ≡ xs ++ at_sub ∷ ys
      → Step w (record w { waiters = xs ++ at_return ∷ ys; wait_count = w.wait_count - 1 })
  return :
      (xs ys : List Waiter)
      → w.waiters ≡ xs ++ at_return ∷ ys
      → Step w
          (record w { waiters = xs ++ at_add ∷ ys; is_locked = false; processed = w.processed + 1 })
  retry :
      (xs ys : List Waiter)
      → w.waiters ≡ xs ++ at_retry ∷ ys
      → Step w (record w { waiters = xs ++ at_lock ∷ ys; is_locked = false })

abbrev pub created : ℕ → List Waiter
created zero = []
created (suc n) = at_add ∷ created n

-- After `condvar_create`, which takes the mutex.
abbrev pub initial : ℕ → World
initial n = record {
  is_locked = true;
  is_event_set = false;
  wait_count = 0;
  main = reading;
  waiters = created n;
  signaled = 0;
  processed = 0;
}

pub data Reaches (n : ℕ) : World → Type 0 where
  here : Reaches n (initial n)
  after : {w w' : World} → Reaches n w → Step w w' → Reaches n w'
