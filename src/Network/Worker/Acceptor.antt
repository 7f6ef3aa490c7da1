-- ===== src/Network/Worker/Acceptor.antt =====
-- sysprog/afina/src/network/mt_nonblocking/ServerImpl.cpp, `OnRun`: an acceptor makes a connection,
-- has `epoll` watch it, and then puts it in `_connections`, where the workers leave the entries of
-- the connections that they delete. A worker may serve a connection before it is put there.
use bd_tarantul.Common.{
  ℕ, ◌≡◌, Bool, true, false, Option, none, some, List, [], ◌∷◌, ◌==◌, if◌then◌else◌, ◌>>=◌,
}
use bd_tarantul.Storage.Interface.{Storage}
use bd_tarantul.Network.Connection.{Connection}
use bd_tarantul.Network.Epoll.{Ready, find, erase}
use bd_tarantul.Network.Worker.{Pool, mt_start, worker_event}

-- `_connections.count(fd)`
abbrev pub is_key : ℕ → List ℕ → Bool
is_key fd [] = false
is_key fd (k ∷ ks) = if k == fd then true else is_key fd ks

module _ {A : Type 0} where
  -- At most one entry has the number.
  abbrev pub IsSingle : ℕ → List (ℕ × A) → Type 0
  IsSingle fd xs = find fd (erase fd xs) ≡ none

module _ (storage : Storage) where
  open storage use {State}

  -- `_connections.insert`: where the number is a key, the new connection is deleted with the pair, and
  -- its destructor closes the socket, which takes it from `epoll`; one that a worker has deleted is
  -- deleted twice.
  unfoldable pub insert_connection : ℕ → Pool State → Option (Pool State)
  insert_connection fd p =
      if is_key fd p.owned
      then (find fd p.objects >>= λ _.
          some (record p { objects = erase fd p.objects; armed = erase fd p.armed }))
      else some (record p { owned = fd ∷ p.owned })

  -- A connection accepted as `fd`, where `c` is what its constructor makes, once `epoll` watches it;
  -- where `epoll` does not it is deleted.
  unfoldable pub arm : ℕ → Bool → Connection State → Pool State → Pool State
  unfolding mt_start
  arm fd ctl_ok c p =
      let pc = mt_start c in
      if ctl_ok
      then record p { objects = (fd, pc) ∷ p.objects; armed = (fd, pc.events) ∷ p.armed }
      else p

  pub data Action : Type 0 where
    event : ℕ → Ready → Action
    arms : ℕ → Bool → Connection State → Action
    inserts : ℕ → Action

  -- What the workers and the acceptors do, one after the other.
  unfoldable pub rounds : List Action → Pool State → Option (Pool State)
  unfolding worker_event arm insert_connection
  rounds [] p = some p
  rounds (event fd e ∷ acts) p = worker_event storage fd e p >>= rounds acts
  rounds (arms fd ctl_ok c ∷ acts) p = rounds acts (arm fd ctl_ok c p)
  rounds (inserts fd ∷ acts) p = insert_connection fd p >>= rounds acts

  -- Events of connections, which workers serve.
  abbrev pub events_of : List (ℕ × Ready) → List Action
  events_of [] = []
  events_of ((fd, e) ∷ es) = event fd e ∷ events_of es

  -- No two connections have the number, and `epoll` watches it once.
  record Once (fd : ℕ) (p : Pool State) : Type 0 where
    object : IsSingle fd p.objects
    watch : IsSingle fd p.armed
