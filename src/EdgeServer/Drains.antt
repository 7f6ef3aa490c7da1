-- ===== src/EdgeServer/Drains.antt =====
-- epoll-example.c: an event of a connection leaves nothing to read.
use bd_tarantul.Common.{
  ℕ, zero, suc, ◌<◌, ◌≤◌, ◌≡◌, arith, refl, ap, ◌∙◌, Bool, true, false, not, ◌||◌, some, [], ◌∷◌,
  ◌++◌, append_assoc, append-nil, Bytes, length, length-drop, take-append-drop, take, drop,
  if◌then◌else◌, ◌==◌, ◌>>=◌,
}
use bd_tarantul.Network.Epoll.{find, erase, replace}
use bd_tarantul.EdgeServer.{
  After, again, eof, failed, Socket, Server, Report, Write, read_all, on_data, on_report,
}

abbrev pub is_over : After → Bool
is_over again = false
is_over _ = true

take_all : (bs : Bytes) → take (length bs) bs ≡ bs
take_all [] = refl
take_all (b ∷ bs) = ap (λ t. b ∷ t) (take_all bs)

module _ (room : ℕ) (some_room : 0 < room) (write : Write)
    (takes_all : (out buf : Bytes) → write out buf ≡ some (length buf)) where
  read_all-all :
      (fuel : ℕ) (bs : Bytes) (rest : After) (out : Bytes)
      → length bs ≤ fuel
      → read_all room write fuel bs rest out ≡ some (out ++ bs, is_over rest)
  unfolding read_all
  read_all-all fuel [] again out h = rw (append-nil out)
  read_all-all fuel [] eof out h = rw (append-nil out)
  read_all-all fuel [] failed out h = rw (append-nil out)
  read_all-all zero (b ∷ bs) rest out h = absurd (omega (arith, h))
  read_all-all (suc fuel) (b ∷ bs) rest out h =
      ap
        (λ o. o >>= λ n.
          read_all room write fuel (drop room (b ∷ bs)) rest (out ++ take n (take room (b ∷ bs))))
        (takes_all out (take room (b ∷ bs)))
      ∙ ap (λ t. read_all room write fuel (drop room (b ∷ bs)) rest (out ++ t))
          (take_all (take room (b ∷ bs)))
      ∙ read_all-all fuel (drop room (b ∷ bs)) rest (out ++ take room (b ∷ bs))
          (omega (arith, h, length-drop room (b ∷ bs)))
      ∙ ap (λ t. some (t, is_over rest))
          (append_assoc out (take room (b ∷ bs)) (drop room (b ∷ bs))
            ∙ ap (λ t. out ++ t) (take-append-drop room (b ∷ bs)))

  on_data-drains :
      (fd : ℕ) (k : Socket) (s : Server)
      → find fd s.sockets ≡ some k
      → on_data room write fd s
        ≡ some (record s {
          sockets =
              if is_over k.rest
              then erase fd s.sockets
              else replace fd (record { pending = []; rest = k.rest }) s.sockets;
          out = s.out ++ k.pending;
        })
  unfolding on_data
  on_data-drains fd k s found =
      let all = read_all-all (length k.pending) k.pending k.rest s.out (omega arith) in
      rw (found, on_data) (rw all (ground arith))

  -- However small the buffer, where `write` takes all that it is given, an event of an open connection
  -- without error prints all the bytes that the connection holds, in order and once. It closes the
  -- connection exactly when it has ended or failed, and otherwise leaves nothing to read, so that no
  -- notification is missed.
  pub on_report-drains :
      (sfd : ℕ) (e : Report) (k : Socket) (s : Server)
      → (e.epollerr || e.epollhup || not e.epollin) ≡ false
      → (sfd == e.fd) ≡ false
      → find e.fd s.sockets ≡ some k
      → on_report room write sfd e s
        ≡ some (record s {
          sockets =
              if is_over k.rest
              then erase e.fd s.sockets
              else replace e.fd (record { pending = []; rest = k.rest }) s.sockets;
          out = s.out ++ k.pending;
        })
  unfolding on_report
  on_report-drains sfd e k s well other found = rw (well, other) (on_data-drains e.fd k s found)
