-- ===== src/Network/Connection/Tests.antt =====
-- Connections of the nonblocking servers at inputs, and the theorems on them applied there.
use bd_tarantul.Common.{◌≡◌, refl, true, false, some, [], ◌∷◌, ◌++◌, arith, codes, inl, take}
use bd_tarantul.Storage.Implementation.{simple_lru}
use bd_tarantul.Storage.Lru.{Lru}
use bd_tarantul.Network.Session.{done, serve}
use bd_tarantul.Network.Connection.{Connection, sent, refused, crlf, buffer, do_read, do_write}
use bd_tarantul.Network.Connection.Delivery
use bd_tarantul.Network.Connection.Delivery.{Delivers, stopped, reading, writing}
use bd_tarantul.Network.Connection.Wants
use bd_tarantul.Network.Connection.Wants.{Wants}
use bd_tarantul.Network.Epoll.{Ready, Server, reads, reads_writes, ready, incoming, stop_signal}
use bd_tarantul.Network.Worker.{Pool, mt_reads}
use bd_tarantul.Network.Worker.Acceptor
use bd_tarantul.Network.Epoll.Tracked
use bd_tarantul.Network.Epoll.Tracked.{IsTracked}
use bd_tarantul.Network.Inputs.{program, fresh, empty, at_first, get_line, opened, answered}

answered-read : do_read simple_lru reads reads_writes (get_line ∷ []) true opened ≡ some answered
unfolding program
answered-read = refl

-- The answer of a `get`, of which `send` takes three bytes.
abbrev part_sent : Connection Lru
part_sent = do_write simple_lru reads reads_writes (sent 3) answered

part-Delivers :
    Delivers simple_lru reads reads_writes opened
      ((get_line ∷ []) ++ [])
      (take 3 (codes "END" ++ crlf) ++ [])
      part_sent
part-Delivers =
    reading (get_line ∷ []) answered-read refl (writing 3 (omega arith) (omega arith) stopped)

delivered_example :
    serve simple_lru crlf buffer (get_line ∷ []) at_first
    ≡ done (record part_sent.session { out = codes "END" ++ part_sent.session.out })
delivered_example = Delivery.delivered simple_lru reads reads_writes part-Delivers refl

Delivers-Wants_example : Wants simple_lru reads reads_writes part_sent
Delivers-Wants_example =
    Wants.Delivers-Wants simple_lru reads reads_writes part-Delivers refl (inl (refl, refl))

-- A `send` that fails is taken for one that sent everything: the answer is lost, and the connection
-- goes on.
refused_loses :
    do_write simple_lru reads reads_writes refused answered
    ≡ record answered { session = record answered.session { out = [] }; events = reads }
unfolding program
refused_loses = refl

abbrev served : Server Lru
served = record {
  store = empty;
  connections = (5, opened) ∷ (6, opened) ∷ [];
  watched = (5, reads) ∷ (6, reads) ∷ [];
}

abbrev readable : Ready
readable = record {
  epollerr = false;
  epollhup = false;
  epollrdhup = false;
  epollin = true;
  epollout = false;
  inputs = get_line ∷ [];
  well = true;
  result = refused;
  ctl_ok = true;
}

abbrev served_next : Server Lru
served_next = record {
  store = empty;
  connections = (7, opened) ∷ (5, opened) ∷ (6, answered) ∷ [];
  watched = (7, reads) ∷ (5, reads) ∷ (6, reads_writes) ∷ [];
}

on_reports-IsTracked_example : IsTracked served_next
unfolding program
on_reports-IsTracked_example =
    Tracked.on_reports-IsTracked simple_lru fresh
      (ready 6 readable ∷ stop_signal ∷ incoming ((7, true) ∷ []) ∷ []) served served_next refl
      (record { tracked = refl; all_alive = (refl, (refl, tt)) })

abbrev pool : Pool Lru
pool = record {
  store = empty;
  objects = (5, opened) ∷ (6, opened) ∷ [];
  owned = 6 ∷ 5 ∷ [];
  armed = (5, mt_reads) ∷ (6, mt_reads) ∷ [];
}

-- The client of descriptor 7 hangs up, and the next client gets the number.
left_pool : Pool Lru
left_pool = record {
  store = empty;
  objects = (5, opened) ∷ (6, opened) ∷ [];
  owned = 7 ∷ 6 ∷ 5 ∷ [];
  armed = (5, mt_reads) ∷ (6, mt_reads) ∷ [];
}

-- The pool while a worker serves the second client of the number.
armed_pool : Pool Lru
armed_pool = record {
  store = empty;
  objects = (7, record opened { events = mt_reads }) ∷ (5, opened) ∷ (6, opened) ∷ [];
  owned = 7 ∷ 6 ∷ 5 ∷ [];
  armed = (7, mt_reads) ∷ (5, mt_reads) ∷ (6, mt_reads) ∷ [];
}
