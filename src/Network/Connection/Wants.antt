-- ===== src/Network/Connection/Wants.antt =====
-- A connection asks to write exactly when it has answers in its buffer.
use bd_tarantul.Common.{
  ℕ, ◌≤◌, ◌<◌, ◌≡◌, refl, sym, ap, subst, ◌∙◌, Bool, true, false, Option, none, some, List, [], ◌∷◌,
  ◌++◌, append-nil, Bytes, length, drop, drop-beyond, length-drop, length-append, arith, ltb, leb,
  if◌then◌else◌, ◌⊎◌, inl, inr,
}
use bd_tarantul.Storage.Interface.{Storage}
use bd_tarantul.Network.Session.{Session, Served, done, failed, fault, serve}
use bd_tarantul.Network.Session.Bytewise.{IsBetween}
use bd_tarantul.Network.Connection.{
  Connection, Mask, sent, crlf, buffer, do_read, do_write, read_result, asked,
}
use bd_tarantul.Network.Connection.Delivery.{
  Delivers, stopped, reading, writing, read-IsBetween, write-accepted,
}
use bd_tarantul.Network.Connection.Prefix.{prefixed, serve-prefix}

module _ (storage : Storage) (reads reads_writes : Mask) where
  open storage use {State as Store}

  abbrev pub WantsOf : Bytes → Mask → Type 0
  WantsOf out events =
      ((out ≡ []) × (events ≡ reads)) ⊎ ((0 < length out) × (events ≡ reads_writes))

  abbrev pub Wants : Connection Store → Type 0
  Wants c = WantsOf c.session.out c.events

  abbrev WantsIfAlive : Option (Connection Store) → Type 0
  WantsIfAlive none = Unit {0}
  WantsIfAlive (some c) = c.alive ≡ true → Wants c

  asked-Wants :
      (out new : Bytes) (events : Mask)
      → WantsOf out events
      → WantsOf (out ++ new) (asked storage reads reads_writes out (out ++ new) events)
  asked-Wants out [] events w =
      let e : ltb (length out) (length out) ≡ false = ground arith in
      subst (λ o. WantsOf o (asked storage reads reads_writes out o events)) (sym (append-nil out))
        (rw e w)
  asked-Wants out (a ∷ new) events w =
      let e : ltb (length out) (length (out ++ a ∷ new)) ≡ true =
        ground (arith, length-append out (a ∷ new)) in
      rw e (inr (omega (arith, length-append out (a ∷ new)), refl))

  read-Wants :
      (inputs : List Bytes) (c : Connection Store)
      → IsBetween storage crlf buffer c.session
      → Wants c
      → WantsIfAlive (do_read storage reads reads_writes inputs true c)
  unfolding do_read
  read-Wants inputs c h w =
      subst (λ r. WantsIfAlive (read_result storage reads reads_writes true c r))
        (sym (
          ap (λ out. serve storage crlf buffer inputs (record c.session { out = out }))
            (sym (append-nil c.session.out))
          ∙ serve-prefix storage crlf c.session.out inputs (record c.session { out = [] }) h))
        (of_result (serve storage crlf buffer inputs (record c.session { out = [] })))
    where
      of_result :
          (r : Served Store (Session Store))
          → WantsIfAlive (read_result storage reads reads_writes true c (prefixed c.session.out r))
      of_result (done s) = λ alive. asked-Wants c.session.out s.out c.events w
      of_result (failed store out) = λ alive. absurd (ground (arith, alive))
      of_result fault = tt

  write-Wants :
      (n : ℕ) (c : Connection Store)
      → 0 < n
      → n ≤ length c.session.out
      → Wants (do_write storage reads reads_writes (sent n) c)
  write-Wants n c h l =
      subst Wants (sym (write-accepted storage reads reads_writes n c h l))
        (left (leb (length c.session.out) n) refl)
    where
      left :
          (z : Bool)
          → leb (length c.session.out) n ≡ z
          → WantsOf (drop n c.session.out) (if z then reads else reads_writes)
      left true e = inl (drop-beyond n c.session.out (ground (arith, e)), refl)
      left false e =
          let more : n < length c.session.out = ground (arith, e) in
          inr (omega (arith, more, length-drop n c.session.out), refl)

  -- Through reads and writes a connection that stays alive asks `epoll` for EPOLLOUT exactly when it
  -- has answers to send, so it neither leaves an answer behind nor is woken in vain.
  pub Delivers-Wants :
      {c c' : Connection Store} {ins : List Bytes} {wire : Bytes}
      → Delivers storage reads reads_writes c ins wire c'
      → IsBetween storage crlf buffer c.session
      → Wants c
      → Wants c'
  Delivers-Wants stopped h w = w
  Delivers-Wants (reading {c} {c'} inputs e alive d) h w =
      Delivers-Wants d (read-IsBetween storage reads reads_writes inputs c c' e alive h)
        (subst WantsIfAlive e (read-Wants inputs c h w) alive)
  Delivers-Wants (writing {c} n pos l d) h w =
      Delivers-Wants d
        (subst (λ x. IsBetween storage crlf buffer x.session)
          (sym (write-accepted storage reads reads_writes n c pos l)) h)
        (write-Wants n c pos l)
