-- ===== src/Storage/Locked.antt =====
-- sysprog/afina/src/storage/ThreadSafeSimpleLRU.h: `SimpleLRU` behind a mutex, called by any number
-- of threads.
pub mod Serial
pub mod Serves
mod Tests
use bd_tarantul.Common.{
  ℕ, ◌≡◌, Bool, Option, none, some, is_some, List, [], ◌∷◌, Bytes, if◌then◌else◌, ◌==◌, ◌>>=◌,
}
use bd_tarantul.Storage.Lru.{Lru, put, put_if_absent, set, delete, get}
use bd_tarantul.Storage.History.{
  Call, put_call, put_if_absent_call, set_call, delete_call, get_call,
}

-- What a method returns, with what `Get` leaves in `value`.
pub record Answer : Type 0 where
  pub result : Bool
  pub value : Option Bytes

-- The method of the base class that a method calls once it has the lock.
unfoldable pub perform : Call → Lru → Option (Lru × Answer)
perform (put_call k v) s = put k v s >>= λ r. some (r.0, record { result = r.1; value = none })
perform (put_if_absent_call k v) s =
    put_if_absent k v s >>= λ r. some (r.0, record { result = r.1; value = none })
perform (set_call k v) s = set k v s >>= λ r. some (r.0, record { result = r.1; value = none })
perform (delete_call k) s = delete k s >>= λ r. some (r.0, record { result = r.1; value = none })
perform (get_call k) s = get k s >>= λ r. some (r.0, record { result = is_some r.1; value = r.1 })

-- Where a thread stands in a method. A base method that overlaps with another one works on what it
-- saw when it began: `seen`.
pub data Pc : Type 0 where
  outside : Pc
  locked : Pc  -- after `lock(_mutex)`
  inside : Lru → Pc  -- in the method of `SimpleLRU`
  leaving : Pc  -- before the end of `lock`

pub record Thread : Type 0 where
  pub pc : Pc
  pub todo : List Call
  pub done : List (Call × Answer)  -- the last one first

pub record World : Type 0 where
  pub store : Lru
  pub mutex : Bool
  pub threads : ℕ → Thread
  pub log : List (ℕ × Call × Answer)  -- the calls in the order in which they ended, the last first

abbrev pub put_thread : ℕ → Thread → (ℕ → Thread) → ℕ → Thread
put_thread i t ts j = if i == j then t else ts j

abbrev pub at_pc : ℕ → Pc → World → World
at_pc i p w = record w { threads = put_thread i (record (w.threads i) { pc = p }) w.threads }

-- A call that ends: its answer is the thread's, and the store is what the method made of `seen`.
abbrev pub finish : ℕ → Call → List Call → Lru → Answer → World → World
finish i c cs s a w = record w {
  store = s;
  threads =
      put_thread i (record { pc = leaving; todo = cs; done = (c, a) ∷ (w.threads i).done })
        w.threads;
  log = (i, c, a) ∷ w.log;
}

pub data Step (w : World) : World → Type 0 where
  lock :
      (i : ℕ) (c : Call) (cs : List Call)
      → (w.threads i).pc ≡ outside
      → (w.threads i).todo ≡ c ∷ cs
      → w.mutex ≡ Bool.false
      → Step w (record (at_pc i locked w) { mutex = Bool.true })
  enter : (i : ℕ) → (w.threads i).pc ≡ locked → Step w (at_pc i (inside w.store) w)
  leave :
      (i : ℕ) (c : Call) (cs : List Call) (seen s : Lru) (a : Answer)
      → (w.threads i).pc ≡ inside seen
      → (w.threads i).todo ≡ c ∷ cs
      → perform c seen ≡ some (s, a)
      → Step w (finish i c cs s a w)
  unlock :
      (i : ℕ)
      → (w.threads i).pc ≡ leaving
      → Step w (record (at_pc i outside w) { mutex = Bool.false })

abbrev pub initial : Lru → (ℕ → List Call) → World
initial s programs = record {
  store = s;
  mutex = Bool.false;
  threads = λ i. record { pc = outside; todo = programs i; done = [] };
  log = [];
}

-- What threads with these programs reach from a store.
pub data Reaches (s : Lru) (programs : ℕ → List Call) : World → Type 0 where
  here : Reaches s programs (initial s programs)
  after : {w w' : World} → Reaches s programs w → Step w w' → Reaches s programs w'
