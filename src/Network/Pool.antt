-- ===== src/Network/Pool.antt =====
-- sysprog/afina/src/network/mt_blocking/ServerImpl.cpp, the set of threads: `OnRun` accepts
-- connections and starts a thread for each, which takes itself out at its end; `Stop` and `Join`.
pub mod Kept
mod Tests
use bd_tarantul.Common.{
  ℕ, suc, ◌+◌, ◌≡◌, Bool, true, false, List, [], ◌∷◌, ◌++◌, length, leb, ◌==◌, if◌then◌else◌,
}
use bd_tarantul.Threads.Totals.{total}

-- The thread of a connection, by the number of its descriptor.
pub data Worker : Type 0 where
  serving : ℕ → Worker
  closed : ℕ → Worker  -- after close(client_socket), before the lock

pub data Acceptor : Type 0 where
  looping : Acceptor  -- while (running.load())
  accepting : Acceptor  -- in accept
  accepted : ℕ → Acceptor  -- before the lock
  returned : Acceptor

pub data Joiner : Type 0 where
  checking : Joiner  -- while (!_workers.empty())
  asleep : Joiner  -- in _join_threads.wait
  joining : Joiner  -- in _thread.join
  joined : Joiner

pub record Pool : Type 0 where
  pub running : Bool
  pub table : List ℕ  -- the keys of _workers
  pub live : List Worker  -- the threads that have not ended
  pub acceptor : Acceptor
  pub joiner : Joiner
  pub terminated : Bool

abbrev pub same : ℕ → ℕ → ℕ
same a b = if a == b then 1 else 0

-- Whether a thread is that of a descriptor, and whether it has it open.
abbrev pub owns : ℕ → Worker → ℕ
owns fd (serving n) = same fd n
owns fd (closed n) = same fd n

abbrev pub opens : ℕ → Worker → ℕ
opens fd (serving n) = same fd n
opens fd (closed n) = 0

abbrev pub held : ℕ → Acceptor → ℕ
held fd (accepted n) = same fd n
held fd _ = 0

unfoldable pub erase : ℕ → List ℕ → List ℕ
erase fd [] = []
erase fd (n ∷ ns) = if fd == n then ns else n ∷ erase fd ns

-- `_workers.emplace`: where the number is a key, the new thread is destroyed while it is joinable,
-- which ends the program.
unfoldable pub register : ℕ → ℕ → Pool → Pool
register max fd s =
    if leb max (length s.table)
    then record s { acceptor = looping }
    else if leb 1 (total (same fd) s.table)
    then record s { terminated = true }
    else record s { acceptor = looping; table = fd ∷ s.table; live = serving fd ∷ s.live }

-- `_join_threads.notify_one()` where the last thread leaves.
abbrev pub notify : List ℕ → Joiner → Joiner
notify [] asleep = checking
notify _ j = j

abbrev pub check : List ℕ → Joiner
check [] = joining
check (_ ∷ _) = asleep

pub data Step (max : ℕ) (s : Pool) : Pool → Type 0 where
  loop :
      s.acceptor ≡ looping
      → Step max s (record s { acceptor = if s.running then accepting else returned })
  fail : s.acceptor ≡ accepting → Step max s (record s { acceptor = looping })
  -- The system gives a number that is not open.
  accept :
      (fd : ℕ)
      → s.acceptor ≡ accepting
      → total (opens fd) s.live ≡ 0
      → Step max s (record s { acceptor = accepted fd })
  add : (fd : ℕ) → s.acceptor ≡ accepted fd → Step max s (register max fd s)
  close :
      (xs : List Worker) (fd : ℕ) (ys : List Worker)
      → s.live ≡ xs ++ serving fd ∷ ys
      → Step max s (record s { live = xs ++ closed fd ∷ ys })
  leave :
      (xs : List Worker) (fd : ℕ) (ys : List Worker)
      → s.live ≡ xs ++ closed fd ∷ ys
      → Step max s (
          let table = erase fd s.table in
          record s { live = xs ++ ys; table = table; joiner = notify table s.joiner })
  stop : Step max s (record s { running = false })
  join : s.joiner ≡ checking → Step max s (record s { joiner = check s.table })
  wake : s.joiner ≡ asleep → Step max s (record s { joiner = checking })
  finish : s.joiner ≡ joining → s.acceptor ≡ returned → Step max s (record s { joiner = joined })

abbrev pub initial : Pool
initial = record {
  running = true;
  table = [];
  live = [];
  acceptor = looping;
  joiner = checking;
  terminated = false;
}

-- What the server reaches before the program ends.
pub data Reaches (max : ℕ) : Pool → Type 0 where
  here : Reaches max initial
  after : {s s' : Pool} → Reaches max s → s.terminated ≡ false → Step max s s' → Reaches max s'
