-- ===== src/Echo.antt =====
-- sysprog/afina/materials/05-non-blocking-network/code/echo.c: a server that sends back what it
-- receives, on epoll. What `read`, `write` and `epoll_wait` return is an input of the model.
pub mod Rounds
pub mod Watching
mod Tests
use bd_tarantul.Common.{
  ℕ, zero, suc, ◌+◌, ◌-◌, Bool, true, false, ◌&&◌, ◌||◌, Option, none, some, List, [], ◌∷◌, ◌++◌,
  if◌then◌else◌, ltb, ◌==◌, Bytes, length, take, drop,
}

pub data Interest : Type 0 where
  epollin : Interest
  epollout : Interest

-- struct EchoEvent, of a connection that is open; `data` has `maxlen` bytes.
pub record EchoEvent : Type 0 where
  pub echo_data : Bytes
  pub echo_length : ℕ
  pub echo_offset : ℕ

-- A connection: its EchoEvent, what epoll watches it for, and the bytes its socket took.
pub record Conn : Type 0 where
  pub echo : EchoEvent
  pub watched : Option Interest
  pub sent : Bytes

pub data Outcome : Type 0 where
  kept : Conn → Outcome
  closed : Outcome
  exited : Outcome  -- exit(1)
  fault : Outcome  -- a read past the end of `data`

-- `write`: -1, with whether errno is EINTR, or a count.
pub data Written : Type 0 where
  failed : Bool → Written
  wrote : ℕ → Written

-- epoll_ctl fails on a socket that is watched already, or not watched.
abbrev pub ctl_add : Interest → Conn → Outcome
ctl_add i c = elim c.watched [ none ↦ kept (record c { watched = some i }) | some _ ↦ exited ]

abbrev pub ctl_del : Conn → (Conn → Outcome) → Outcome
ctl_del c next = elim c.watched [ none ↦ exited | some _ ↦ next (record c { watched = none }) ]

-- `handle` for EPOLLIN, with what `read` returned: `none` is -1, no bytes the end of the stream.
abbrev pub handle_in : Option Bytes → Conn → Outcome
handle_in none c = closed
handle_in (some []) c = closed
handle_in (some (b ∷ bs)) c = ctl_add Interest.epollout (record c {
  echo = record {
    echo_data = (b ∷ bs) ++ drop (length (b ∷ bs)) c.echo.echo_data;
    echo_length = length (b ∷ bs);
    echo_offset = c.echo.echo_offset;
  };
})

-- ret < length, where ret may be -1
abbrev pub less_than : Written → ℕ → Bool
less_than (failed _) n = true
less_than (wrote k) n = ltb k n

abbrev pub is_eintr : Written → Bool
is_eintr (failed b) = b
is_eintr (wrote _) = false

-- What follows a partial write.
abbrev pub advance : Written → EchoEvent → EchoEvent
advance (failed _) e = e
advance (wrote k) e = record e { echo_length = e.echo_length - k; echo_offset = e.echo_offset + k }

abbrev pub took : Written → EchoEvent → Bytes
took (failed _) e = []
took (wrote k) e = take k (drop e.echo_offset e.echo_data)

abbrev pub is_past_end : Written → EchoEvent → Bool
is_past_end (failed _) e = false
is_past_end (wrote k) e = ltb (length e.echo_data) (e.echo_offset + k)

abbrev pub is_failed : Written → Bool
is_failed (failed _) = true
is_failed (wrote _) = false

-- `handle` for EPOLLOUT, with what `write` returned.
unfoldable pub handle_out : Written → Conn → Outcome
handle_out w c =
    if is_past_end w c.echo
    then fault
    else if is_eintr w || less_than w c.echo.echo_length
    then ctl_add Interest.epollout
        (record c { echo = advance w c.echo; sent = c.sent ++ took w c.echo })
    else if is_failed w
    then closed
    else ctl_add Interest.epollin (record c { sent = c.sent ++ took w c.echo })

-- What `epoll_wait` says of a connection.
pub data Ready : Type 0 where
  hup : Ready  -- EPOLLHUP or EPOLLERR
  readable : Option Bytes → Ready  -- EPOLLIN alone
  writable : Written → Ready  -- EPOLLOUT alone
  both : Ready  -- EPOLLIN and EPOLLOUT

-- The branch of the main loop for a connection.
unfoldable pub on_client : Ready → Conn → Outcome
unfolding handle_out
on_client hup c = closed
on_client (readable r) c = ctl_del c (handle_in r)
on_client (writable w) c = ctl_del c (handle_out w)
on_client both c = kept c

abbrev pub and_then : Outcome → (Conn → Outcome) → Outcome
and_then (kept c) f = f c
and_then closed f = closed
and_then exited f = exited
and_then fault f = fault

-- The events of one connection, one after the other.
unfoldable pub run : List Ready → Conn → Outcome
unfolding on_client
run [] c = kept c
run (r ∷ rs) c = and_then (on_client r c) (run rs)
