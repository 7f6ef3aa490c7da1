-- ===== src/Network/Connection/Delivery.antt =====
-- The answers of a connection with a buffer reach the client as those of a blocking server.
use bd_tarantul.Common.{
  ℕ, ◌≤◌, ◌<◌, ◌≡◌, refl, sym, ap, subst, ◌∙◌, Bool, true, false, Option, none, some, List, [],
  ◌++◌, append_assoc, Bytes, length, take, drop, take-append-drop, drop-beyond, arith, leb,
  if◌then◌else◌,
}
use bd_tarantul.Storage.Interface.{Storage}
use bd_tarantul.Network.Session.{Session, Served, done, failed, fault, ◌>>=◌, serve}
use bd_tarantul.Network.Session.Bytewise.{IsBetween}
use bd_tarantul.Network.Session.Rounds.{Leaves}
use bd_tarantul.Network.Session.Reads.{serve-Leaves, serve-append}
use bd_tarantul.Network.Connection.{
  Connection, Mask, sent, crlf, buffer, do_read, do_write, read_result,
}
use bd_tarantul.Network.Connection.Prefix.{prefixed, serve-prefix}

module _ (storage : Storage) (reads reads_writes : Mask) where
  open storage use {State as Store}

  -- Reads and writes of a connection that stays alive: what it read, what reached the client, and
  -- the connection that is left. `send` takes some bytes of the buffer, as many as it likes.
  pub data Delivers : Connection Store → List Bytes → Bytes → Connection Store → Type 0 where
    stopped : {c : Connection Store} → Delivers c [] [] c
    reading :
        {c c' c'' : Connection Store} {ins : List Bytes} {wire : Bytes}
        → (inputs : List Bytes) → do_read storage reads reads_writes inputs true c ≡ some c'
        → c'.alive ≡ true
        → Delivers c' ins wire c''
        → Delivers c (inputs ++ ins) wire c''
    writing :
        {c c' : Connection Store} {ins : List Bytes} {wire : Bytes}
        → (n : ℕ) → 0 < n
        → n ≤ length c.session.out
        → Delivers (do_write storage reads reads_writes (sent n) c) ins wire c'
        → Delivers c ins (take n c.session.out ++ wire) c'

  -- An accepted write leaves the rest of the buffer, and asks to write only when there is a rest.
  pub write-accepted :
      (n : ℕ) (c : Connection Store)
      → 0 < n
      → n ≤ length c.session.out
      → do_write storage reads reads_writes (sent n) c ≡ record c {
        session = record c.session { out = drop n c.session.out };
        events = if leb (length c.session.out) n then reads else reads_writes;
      }
  unfolding do_write
  write-accepted n c h l =
      let e : leb n 0 ≡ false = ground (arith, h) in
      rw e (written (leb (length c.session.out) n) refl)
    where
      written :
          (z : Bool)
          → leb (length c.session.out) n ≡ z
          → (if z
              then record c { session = record c.session { out = [] }; events = reads }
              else record c {
                session = record c.session { out = drop n c.session.out };
                events = reads_writes;
              })
            ≡ record c {
              session = record c.session { out = drop n c.session.out };
              events = if z then reads else reads_writes;
            }
      written true e =
          ap (λ out. record c { session = record c.session { out = out }; events = reads })
            (sym (drop-beyond n c.session.out (ground (arith, e))))
      written false e = refl

  read-done :
      (inputs : List Bytes) (c c' : Connection Store)
      → do_read storage reads reads_writes inputs true c ≡ some c'
      → c'.alive ≡ true
      → serve storage crlf buffer inputs c.session ≡ done c'.session
  unfolding do_read
  read-done inputs c c' e alive = of_result (serve storage crlf buffer inputs c.session) e
    where
      session_of : Option (Connection Store) → Served Store (Session Store)
      session_of none = fault
      session_of (some d) = done d.session

      alive_of : Option (Connection Store) → Bool
      alive_of none = false
      alive_of (some d) = d.alive

      of_result :
          (r : Served Store (Session Store))
          → read_result storage reads reads_writes true c r ≡ some c'
          → r ≡ done c'.session
      of_result (done s) e = ap session_of e
      of_result (failed store out) e = absurd (ground (arith, ap alive_of e ∙ alive))
      of_result fault e = absurd (ground (arith, ap alive_of e ∙ alive))

  pub read-IsBetween :
      (inputs : List Bytes) (c c' : Connection Store)
      → do_read storage reads reads_writes inputs true c ≡ some c'
      → c'.alive ≡ true
      → IsBetween storage crlf buffer c.session
      → IsBetween storage crlf buffer c'.session
  read-IsBetween inputs c c' e alive h =
      subst (Leaves (IsBetween storage crlf buffer)) (read-done inputs c c' e alive)
        (serve-Leaves storage crlf buffer inputs c.session h)

  -- For any reads, and any writes of which each takes some bytes of the buffer, of a connection that
  -- stays alive and was between two bytes at first, what it has sent with what is still in its buffer
  -- are the answers of a blocking server that reads the same bytes, and the storage and the state of
  -- the processing are that server's. A write that fails is not among them.
  pub delivered :
      {c c' : Connection Store} {ins : List Bytes} {wire : Bytes}
      → Delivers c ins wire c'
      → IsBetween storage crlf buffer c.session
      → serve storage crlf buffer ins c.session
        ≡ done (record c'.session { out = wire ++ c'.session.out })
  delivered stopped h = unfold serve in refl
  delivered (reading {c} {c'} {c''} {ins} {wire} inputs e alive d) h =
      serve-append storage crlf buffer inputs ins c.session
      ∙ ap (λ m. m >>= serve storage crlf buffer ins) (read-done inputs c c' e alive)
      ∙ delivered d (read-IsBetween inputs c c' e alive h)
  delivered (writing {c} {c'} {ins} {wire} n pos l d) h =
      let w = write-accepted n c pos l in
      let rest : Session Store = record c.session { out = drop n c.session.out } in
      let r : serve storage crlf buffer ins rest
          ≡ done (record c'.session { out = wire ++ c'.session.out }) =
        sym (ap (λ x. serve storage crlf buffer ins x.session) w)
        ∙ delivered d (subst (λ x. IsBetween storage crlf buffer x.session) (sym w) h) in
      ap (λ out. serve storage crlf buffer ins (record c.session { out = out }))
        (sym (take-append-drop n c.session.out))
      ∙ serve-prefix storage crlf (take n c.session.out) ins rest h
      ∙ ap (prefixed (take n c.session.out)) r
      ∙ ap (λ out. done (record c'.session { out = out }))
          (sym (append_assoc (take n c.session.out) wire c'.session.out))
