-- ===== src/EdgeServer.antt =====
-- sysprog/afina/materials/05-non-blocking-network/code/epoll-example.c: a server that prints what its
-- clients send, on an edge-triggered `epoll`.
pub mod Drains
mod Tests
use bd_tarantul.Common.{
  ℕ, zero, suc, ◌+◌, Bool, true, false, not, ◌||◌, Option, none, some, List, [], ◌∷◌, ◌++◌, Bytes,
  length, take, drop, if◌then◌else◌, ◌==◌, ◌>>=◌,
}
use bd_tarantul.Network.Epoll.{find, erase, replace}

-- What `read` returns once there are no bytes: EAGAIN, the end of the file, or another error.
pub data After : Type 0 where
  again : After
  eof : After
  failed : After

-- What the system holds of a connection.
pub record Socket : Type 0 where
  pub pending : Bytes
  pub rest : After

-- The descriptors that are open and watched, whether the listening socket is, and what was printed.
pub record Server : Type 0 where
  pub sockets : List (ℕ × Socket)
  pub is_listening : Bool
  pub out : Bytes

pub record Report : Type 0 where
  pub fd : ℕ
  pub epollerr : Bool
  pub epollhup : Bool
  pub epollin : Bool
  -- The connections that `accept` returns, with whether they could be made non-blocking and watched.
  pub incoming : List (ℕ × Socket × Bool)

-- `write(1, buf, count)` by what was printed before and the buffer: how many bytes it takes, or -1.
abbrev pub Write : Type 0
Write = Bytes → Bytes → Option ℕ

module _ (room : ℕ) (write : Write) where
  -- `while (1) { count = read(...); ... }` with a buffer of `room` bytes: what was printed, and `done`.
  -- A `write` that fails aborts: `none`; what a short one leaves is not written again.
  unfoldable pub read_all : ℕ → Bytes → After → Bytes → Option (Bytes × Bool)
  read_all fuel [] again out = some (out, false)
  read_all fuel [] eof out = some (out, true)
  read_all fuel [] failed out = some (out, true)
  read_all zero (b ∷ bs) rest out = some (out, false)
  read_all (suc fuel) (b ∷ bs) rest out = do
    let buf = take room (b ∷ bs)
    n ← write out buf
    read_all fuel (drop room (b ∷ bs)) rest (out ++ take n buf)

  -- The branch for data on a connection; one that is closed has none.
  unfoldable pub on_data : ℕ → Server → Option Server
  unfolding read_all
  on_data fd s = elim (find fd s.sockets) [
    | none ↦ some s
    | some k ↦ read_all (length k.pending) k.pending k.rest s.out >>= λ r. some (
        if r.1 then record s { sockets = erase fd s.sockets; out = r.0 } else record s {
          sockets = replace fd (record { pending = []; rest = k.rest }) s.sockets;
          out = r.0;
        })
  ]

  -- The connections that wait; `abort()` is `none`.
  unfoldable pub accept_all : List (ℕ × Socket × Bool) → Server → Option Server
  accept_all [] s = some s
  accept_all ((fd, k, ok) ∷ rest) s =
      let next = accept_all rest (record s { sockets = (fd, k) ∷ s.sockets }) in
      if ok then next else none

  -- An event; `sfd` is the listening socket.
  unfoldable pub on_report : (sfd : ℕ) → Report → Server → Option Server
  unfolding on_data accept_all
  on_report sfd e s =
      if e.epollerr || e.epollhup || not e.epollin
      then some (
          if e.fd == sfd
          then record s { is_listening = false }
          else record s { sockets = erase e.fd s.sockets })
      else if sfd == e.fd
      then accept_all e.incoming s
      else on_data e.fd s

  unfoldable pub on_reports : (sfd : ℕ) → List Report → Server → Option Server
  unfolding on_report
  on_reports sfd [] s = some s
  on_reports sfd (e ∷ es) s = on_report sfd e s >>= on_reports sfd es
