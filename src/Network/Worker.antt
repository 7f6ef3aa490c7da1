-- ===== src/Network/Worker.antt =====
-- sysprog/afina/src/network/mt_nonblocking: the connections of the nonblocking server with workers
-- (Connection.cpp), an event that a worker takes (Worker.cpp), and the end of the server
-- (ServerImpl.cpp, `Stop`).
pub mod Freed
pub mod Acceptor
use bd_tarantul.Common.{
  ℕ, Bool, true, false, not, ◌||◌, Option, none, some, is_some, List, [], ◌∷◌, Bytes, ◌==◌,
  if◌then◌else◌, ◌>>=◌,
}
use bd_tarantul.Storage.Interface.{Storage}
use bd_tarantul.Network.Connection.{
  Connection, Mask, Sent, start, on_close, on_error, do_read, do_write,
}
use bd_tarantul.Network.Epoll.{Ready, find, erase, replace, with_store}

-- `EPOLLIN | EPOLLRDHUP | EPOLLERR` and `EPOLLOUT | EPOLLIN | EPOLLRDHUP | EPOLLERR`
abbrev pub mt_reads : Mask
mt_reads = record { epollin = true; epollout = false; epollrdhup = true; epollerr = true }

abbrev pub mt_reads_writes : Mask
mt_reads_writes = record { epollin = true; epollout = true; epollrdhup = true; epollerr = true }

-- The methods of this server's connections.
unfoldable pub mt_start : {S : Type 0} → Connection S → Connection S
unfolding start
mt_start c = start mt_reads c

unfoldable pub mt_on_close : {S : Type 0} → Connection S → Connection S
unfolding on_close
mt_on_close c = on_close mt_reads c

unfoldable pub mt_on_error : {S : Type 0} → Connection S → Connection S
unfolding mt_on_close
mt_on_error c = mt_on_close c

-- The connections that have not been freed, those that the server's map owns, and those that `epoll`
-- is armed for: with EPOLLONESHOT an event disarms it.
pub record Pool (S : Type 0) : Type 0 where
  pub store : S
  pub objects : List (ℕ × Connection S)
  pub owned : List ℕ
  pub armed : List (ℕ × Mask)

module _ (storage : Storage) where
  open storage use {State}

  unfoldable pub mt_do_read : List Bytes → Bool → Connection State → Option (Connection State)
  unfolding do_read
  mt_do_read inputs well c = do_read storage mt_reads mt_reads_writes inputs well c

  unfoldable pub mt_do_write : Sent → Connection State → Connection State
  unfolding do_write
  mt_do_write r c = do_write storage mt_reads mt_reads_writes r c

  unfoldable pub on_worker_ready : Ready → Connection State → Option (Connection State)
  unfolding mt_on_error mt_on_close mt_do_read mt_do_write
  on_worker_ready e c =
      if e.epollerr || e.epollhup
      then some (mt_on_error c)
      else if e.epollrdhup
      then some (mt_on_close c)
      else ((if e.epollin then mt_do_read e.inputs e.well c else some c) >>= λ c'.
          some (if e.epollout then mt_do_write e.result c' else c'))

  -- `Rearm connection`, or delete it.
  unfoldable pub rearm : ℕ → Bool → Connection State → Pool State → Pool State
  rearm fd ctl_ok c p =
      if c.alive
      then (if ctl_ok
          then record p {
            store = c.session.store;
            objects = replace fd c p.objects;
            armed = (fd, c.events) ∷ erase fd p.armed;
          }
          else record p {
            store = c.session.store;
            objects = erase fd p.objects;
            armed = erase fd p.armed;
          })
      else record p {
        store = c.session.store;
        objects = erase fd p.objects;
        armed = erase fd p.armed;
      }

  -- A worker's round for an event of a connection; one that was freed before is used after it.
  unfoldable pub worker_event : ℕ → Ready → Pool State → Option (Pool State)
  unfolding on_worker_ready rearm
  worker_event fd e p = find fd p.objects >>= λ c.
      on_worker_ready e (with_store storage p.store c) >>= λ c'. some (rearm fd e.ctl_ok c' p)

  -- `Stop`: every connection of the map is freed.
  unfoldable pub free_all :
      List ℕ → List (ℕ × Connection State) → Option (List (ℕ × Connection State))
  free_all [] objects = some objects
  free_all (fd ∷ fds) objects =
      let rest = free_all fds (erase fd objects) in if is_some (find fd objects) then rest else none

  unfoldable pub stop : Pool State → Option (Pool State)
  unfolding free_all
  stop p =
      free_all p.owned p.objects >>= λ objects. some (record p { objects = objects; owned = [] })
