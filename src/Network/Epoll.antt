-- ===== src/Network/Epoll.antt =====
-- sysprog/afina/src/network/st_nonblocking/ServerImpl.cpp: the server's table of connections and
-- what `epoll` watches, through the events of `OnRun` and the connections that it accepts.
mod Tables
pub mod Tracked
use bd_tarantul.Common.{
  ℕ, Bool, true, false, not, ◌&&◌, ◌||◌, Option, none, some, is_some, List, [], ◌∷◌, Bytes, ◌==◌,
  if◌then◌else◌, ◌>>=◌,
}
use bd_tarantul.Storage.Interface.{Storage}
use bd_tarantul.Protocol.Parser.{Parser}
use bd_tarantul.Network.Session.{connected}
use bd_tarantul.Network.Connection.{
  Connection, Mask, Sent, start, on_close, on_error, do_read, do_write,
}

-- The events that `epoll_wait` reports of a descriptor, and what its calls return then.
pub record Ready : Type 0 where
  pub epollerr : Bool
  pub epollhup : Bool
  pub epollrdhup : Bool
  pub epollin : Bool
  pub epollout : Bool
  pub inputs : List Bytes  -- read
  pub well : Bool  -- the last read returned 0 or EAGAIN
  pub result : Sent  -- send
  pub ctl_ok : Bool  -- epoll_ctl

module _ {A : Type 0} where
  abbrev pub find : ℕ → List (ℕ × A) → Option A
  find fd [] = none
  find fd ((k, a) ∷ xs) = if k == fd then some a else find fd xs

  abbrev pub erase : ℕ → List (ℕ × A) → List (ℕ × A)
  erase fd [] = []
  erase fd ((k, a) ∷ xs) = let rest = erase fd xs in if k == fd then xs else (k, a) ∷ rest

  abbrev pub replace : ℕ → A → List (ℕ × A) → List (ℕ × A)
  replace fd b [] = []
  replace fd b ((k, a) ∷ xs) =
      let rest = replace fd b xs in if k == fd then (k, b) ∷ xs else (k, a) ∷ rest

abbrev pub same : Bool → Bool → Bool
same true b = b
same false b = not b

abbrev pub same_mask : Mask → Mask → Bool
same_mask a b =
    same a.epollin b.epollin
    && (same a.epollout b.epollout
        && (same a.epollrdhup b.epollrdhup && same a.epollerr b.epollerr))

-- The storage is shared by the connections. `watched` is what `epoll` watches.
pub record Server (S : Type 0) : Type 0 where
  pub store : S
  pub connections : List (ℕ × Connection S)
  pub watched : List (ℕ × Mask)

abbrev pub unset : Mask
unset = record { epollin = false; epollout = false; epollrdhup = false; epollerr = false }

-- `EPOLLIN | EPOLLRDHUP` and `EPOLLOUT | EPOLLIN | EPOLLRDHUP`
abbrev pub reads : Mask
reads = record { epollin = true; epollout = false; epollrdhup = true; epollerr = false }

abbrev pub reads_writes : Mask
reads_writes = record { epollin = true; epollout = true; epollrdhup = true; epollerr = false }

module _ (storage : Storage) where
  open storage use {State}

  abbrev pub with_store : State → Connection State → Connection State
  with_store store c = record c { session = record c.session { store = store } }

  -- What the connection does about the events: an error, the end of the input, or reads and writes.
  unfoldable pub on_ready : Ready → Connection State → Option (Connection State)
  unfolding on_error on_close do_read do_write
  on_ready e c =
      if e.epollerr || e.epollhup
      then some (on_error reads c)
      else if e.epollrdhup
      then some (on_close reads c)
      else ((if e.epollin then do_read storage reads reads_writes e.inputs e.well c else some c)
          >>= λ c'.
              some (if e.epollout then do_write storage reads reads_writes e.result c' else c'))

  -- What becomes of the connection that was `c`: one that is not alive is taken out of `epoll` and of
  -- the table, whether or not the call fails; one with other events is watched for them. Where that
  -- fails the connection is freed by `erase` and used after it.
  unfoldable pub settle : ℕ → Bool → Mask → Connection State → Server State → Option (Server State)
  settle fd ctl_ok old_mask c s =
      if not c.alive
      then some (record {
        store = c.session.store;
        connections = erase fd s.connections;
        watched = erase fd s.watched;
      })
      else if not (same_mask c.events old_mask)
      then (if ctl_ok
          then some (record {
            store = c.session.store;
            connections = replace fd c s.connections;
            watched = replace fd c.events s.watched;
          })
          else none)
      else some (record {
        store = c.session.store;
        connections = replace fd c s.connections;
        watched = s.watched;
      })

  -- An event of a connection, from `old_mask` on.
  unfoldable pub on_event : ℕ → Ready → Server State → Option (Server State)
  unfolding on_ready settle
  on_event fd e s = find fd s.connections >>= λ c.
      on_ready e (with_store s.store c) >>= λ c'. settle fd e.ctl_ok c.events c' s

  -- `new Connection(...)` and its `Start`
  unfoldable pub new_connection : Parser → State → Connection State
  unfolding start
  new_connection parser store =
      start reads (record { session = connected parser store; alive = false; events = unset })

  -- `OnNewConnection` for one descriptor that `accept4` returned: one that `epoll` refuses is
  -- freed. `insert` leaves an entry that is there, and frees the new connection, which `epoll` keeps.
  unfoldable pub on_new_connection : Parser → ℕ → Bool → Server State → Option (Server State)
  unfolding new_connection
  on_new_connection parser fd ctl_ok s =
      let pc : Connection State = new_connection parser s.store in
      if ctl_ok
      then (if is_some (find fd s.connections)
          then none
          else some (record s {
            connections = (fd, pc) ∷ s.connections;
            watched = (fd, pc.events) ∷ s.watched;
          }))
      else some s

-- What `epoll_wait` reports in `OnRun`: a connection, descriptors to accept with what `epoll_ctl`
-- says of each, or the signal to stop, which ends the loop only after the other reports.
pub data Report : Type 0 where
  ready : ℕ → Ready → Report
  incoming : List (ℕ × Bool) → Report
  stop_signal : Report

module _ (storage : Storage) (parser : Parser) where
  open storage use {State}

  -- The loop of `OnNewConnection`: a descriptor that `epoll` refuses ends it with an exception.
  unfoldable pub accept_all : List (ℕ × Bool) → Server State → Option (Server State)
  unfolding on_new_connection
  accept_all [] s = some s
  accept_all ((fd, ctl_ok) ∷ fds) s = on_new_connection storage parser fd ctl_ok s >>= λ s'.
      if ctl_ok then accept_all fds s' else some s'

  -- `for (int i = 0; i < nmod; i++) {...}` over the reports.
  unfoldable pub on_reports : List Report → Server State → Option (Server State)
  unfolding on_event accept_all
  on_reports [] s = some s
  on_reports (ready fd e ∷ rs) s = on_event storage fd e s >>= on_reports rs
  on_reports (incoming fds ∷ rs) s = accept_all fds s >>= on_reports rs
  on_reports (stop_signal ∷ rs) s = on_reports rs s
