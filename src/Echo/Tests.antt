-- ===== src/Echo/Tests.antt =====
-- echo.c: a connection with a buffer of eight bytes that echoes "abc", in two writes.
use bd_tarantul.Common.{
  ◌-◌, ◌+◌, ◌≡◌, refl, arith, true, some, List, [], ◌∷◌, ◌++◌, map, Bytes, take, drop,
}
use bd_tarantul.Echo.{
  epollin, kept, Written, failed, wrote, readable, writable, on_client, handle_out, run,
}
use bd_tarantul.Echo.Rounds.{Sends, last, again, part, parts, conn, run-echo}

abbrev buffer : Bytes
buffer = 0 ∷ 0 ∷ 0 ∷ 0 ∷ 0 ∷ 0 ∷ 0 ∷ 0 ∷ []

abbrev answers : List Written
answers = failed true ∷ wrote 1 ∷ wrote 2 ∷ []

in_two : Sends 3 answers
in_two = again true (part (omega arith) (last 2))

run-echo_example :
    run
      (readable (some (97 ∷ 98 ∷ 99 ∷ [])) ∷ map writable answers)
      (conn buffer 0 2 (some epollin) [])
    ≡ kept (
        conn
          ((97 ∷ 98 ∷ 99 ∷ []) ++ drop 3 buffer)
          (3 - parts in_two)
          (2 + parts in_two)
          (some epollin)
          ([] ++ take 3 (drop 2 ((97 ∷ 98 ∷ 99 ∷ []) ++ drop 3 buffer))))
run-echo_example = run-echo 97 (98 ∷ 99 ∷ []) buffer 0 2 [] in_two (omega arith)

-- After a partial write of one byte, "de" comes back as "e" and a byte of the message before it.
stale_echo :
    run
      (readable (some (100 ∷ 101 ∷ [])) ∷ writable (wrote 2) ∷ [])
      (conn (97 ∷ 98 ∷ 99 ∷ []) 2 1 (some epollin) [])
    ≡ kept (conn (100 ∷ 101 ∷ 99 ∷ []) 2 1 (some epollin) (101 ∷ 99 ∷ []))
unfolding run on_client handle_out
stale_echo = refl
