-- ===== src/Network/Connection.antt =====
-- sysprog/afina/src/network/st_nonblocking/Connection.cpp and mt_nonblocking/Connection.cpp: a
-- connection that is read and written when `epoll` says so, with a buffer for its answers. The two
-- files differ in the events that a connection asks for.
pub mod Prefix
pub mod Delivery
pub mod Wants
mod Tests
use bd_tarantul.Common.{
  ℕ, ◌-◌, ◌^◌, Bool, true, false, Option, none, some, List, [], ◌∷◌, Bytes, length, drop, ltb, leb,
  if◌then◌else◌,
}
use bd_tarantul.Storage.Interface.{Storage}
use bd_tarantul.Network.Session.{Session, Served, done, failed, fault, serve}

-- The events of an `epoll_event`.
pub record Mask : Type 0 where
  pub epollin : Bool
  pub epollout : Bool
  pub epollrdhup : Bool
  pub epollerr : Bool

-- The connection's own fields, with those of the processing; `_results` is `session.out`.
pub record Connection (S : Type 0) : Type 0 where
  pub session : Session S
  pub alive : Bool  -- _connection_alive
  pub events : Mask

-- What `send` returns: the bytes it took, or -1.
pub data Sent : Type 0 where
  sent : ℕ → Sent
  refused : Sent

-- `unsigned long send_b = send(...)`
abbrev pub send_b : Sent → ℕ
send_b (sent n) = n
send_b refused = 2 ^ 64 - 1

abbrev pub crlf : Bytes
crlf = 13 ∷ 10 ∷ []

-- The buffer takes every answer.
abbrev pub buffer : Bytes → Bytes → Bool
buffer out answer = true

-- `reads` are the events of a connection that has nothing to send, `reads_writes` of one that has.
module _ {S : Type 0} (reads : Mask) where
  unfoldable pub start : Connection S → Connection S
  start c = record c { alive = true; events = reads }

  unfoldable pub on_close : Connection S → Connection S
  on_close c = record c { alive = false }

  unfoldable pub on_error : Connection S → Connection S
  unfolding on_close
  on_error c = on_close c

module _ (storage : Storage) (reads reads_writes : Mask) where
  open storage use {State}

  -- The events after the answers `after` follow `before` in the buffer: each one asks for EPOLLOUT.
  abbrev pub asked : Bytes → Bytes → Mask → Mask
  asked before after events = if ltb (length before) (length after) then reads_writes else events

  abbrev pub read_result :
      Bool → Connection State → Served State (Session State) → Option (Connection State)
  read_result well c (done s) = some (record {
    session = s;
    alive = if well then c.alive else false;
    events = asked c.session.out s.out c.events;
  })
  read_result well c (failed store out) = some (record {
    session = record c.session { store = store; out = out };
    alive = false;
    events = asked c.session.out out c.events;
  })
  read_result well c fault = none

  -- `DoRead` over what each `read` returns; `well` when the last one returned 0 or said EAGAIN.
  unfoldable pub do_read : List Bytes → Bool → Connection State → Option (Connection State)
  do_read inputs well c = read_result well c (serve storage crlf buffer inputs c.session)

  unfoldable pub do_write : Sent → Connection State → Connection State
  do_write r c =
      if leb (send_b r) 0
      then record c { alive = false }
      else if leb (length c.session.out) (send_b r)
      then record c { session = record c.session { out = [] }; events = reads }
      else record c {
        session = record c.session { out = drop (send_b r) c.session.out };
        events = reads_writes;
      }
