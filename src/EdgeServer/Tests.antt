-- ===== src/EdgeServer/Tests.antt =====
-- epoll-example.c: a listening socket 3 and clients 4 and 5, with a buffer of four bytes.
use bd_tarantul.Common.{◌≡◌, refl, true, false, some, [], ◌∷◌, arith, codes, length}
use bd_tarantul.EdgeServer.{
  again, eof, Socket, Server, Report, Write, read_all, on_data, on_report, on_reports,
}
use bd_tarantul.EdgeServer.Drains.{on_report-drains}

-- The console takes what it is given.
abbrev takes_all : Write
takes_all out buf = some (length buf)

-- A short write loses the rest of its buffer.
loses : read_all 4 (λ out buf. some 3) 8 (codes "good bye") again [] ≡ some (codes "goo by", false)
unfolding read_all
loses = refl

abbrev leaving : Socket
leaving = record { pending = codes "good bye"; rest = eof }

abbrev server : Server
server = record {
  sockets = (4, leaving) ∷ (5, record { pending = codes "hello"; rest = again }) ∷ [];
  is_listening = true;
  out = [];
}

abbrev readable : Report
readable = record { fd = 4; epollerr = false; epollhup = false; epollin = true; incoming = [] }

both_read :
    on_reports 4 takes_all 3 (readable ∷ record readable { fd = 5 } ∷ []) server
    ≡ some (record {
      sockets = (5, record { pending = []; rest = again }) ∷ [];
      is_listening = true;
      out = codes "good byehello";
    })
unfolding on_reports on_report on_data read_all
both_read = refl

-- An error on the listening socket closes it, and the server goes on without it.
deaf :
    on_report 4 takes_all 3 (record readable { fd = 3; epollerr = true }) server
    ≡ some (record server { is_listening = false })
unfolding on_report
deaf = refl

on_report-drains_example :
    on_report 4 takes_all 3 readable server
    ≡ some (record {
      sockets = (5, record { pending = codes "hello"; rest = again }) ∷ [];
      is_listening = true;
      out = codes "good bye";
    })
on_report-drains_example =
    on_report-drains 4 (omega arith) takes_all (λ out buf. refl) 3 readable leaving server refl refl
      refl
