-- ===== src/Poll/Passes.antt =====
-- 5_server_poll.c: the loop over the array, as a pass over a list.
use bd_tarantul.Common.{
  ℕ, zero, suc, ◌-◌, ◌≤◌, ◌<◌, ◌≡◌, refl, sym, ap, ap₂, ◌∙◌, arith, Bool, true, false, none, some,
  List, [], ◌∷◌, ◌++◌, append_assoc, append-nil, length-append, if◌then◌else◌, ◌==◌, length,
}
use bd_tarantul.Poll.{
  Pollfd, Rc, rc_error, rc_zero, rc_sent, get_elem?, on_rc, remove_client, loop, round,
}

get_elem?-append :
    (xs : List Pollfd) (p : Pollfd) (ps : List Pollfd)
    → get_elem? (xs ++ p ∷ ps) (length xs) ≡ some p
get_elem?-append [] p ps = refl
get_elem?-append (x ∷ xs) p ps = get_elem?-append xs p ps

get_elem?-end : (xs : List Pollfd) → get_elem? xs (length xs) ≡ none
get_elem?-end [] = refl
get_elem?-end (x ∷ xs) = get_elem?-end xs

get_elem?-past : (xs : List Pollfd) → get_elem? (xs ++ []) (suc (length xs)) ≡ none
get_elem?-past [] = refl
get_elem?-past (x ∷ xs) = get_elem?-past xs

remove_client-append :
    (xs : List Pollfd) (p : Pollfd) (ps : List Pollfd)
    → remove_client (xs ++ p ∷ ps) (length xs) ≡ xs ++ ps
remove_client-append [] p ps = refl
remove_client-append (x ∷ xs) p ps = ap (◌∷◌ x) (remove_client-append xs p ps)

-- The entries for which `poll` has reported input, and their number.
abbrev pub ready : List Pollfd → List ℕ
ready [] = []
ready (p ∷ ps) = if p.revents then p.fd ∷ ready ps else ready ps

module _ (interact : ℕ → Rc) where
  -- One pass over the entries. An entry behind one that is taken out moves to its place, and the loop,
  -- which goes on to the next index, passes it over: `skips`.
  abbrev pub pass : (skips : Bool) → ℕ → List Pollfd → List Pollfd × List ℕ
  pass skips nfds [] = ([], [])
  pass true nfds (p ∷ ps) = let (qs, seen) = pass false nfds ps in (p ∷ qs, seen)
  pass false nfds (p ∷ ps) =
      let sent = pass false (nfds - 1) ps in
      let idle = pass false nfds ps in
      let gone = pass true (nfds - 1) ps in
      if nfds == 0
      then (p ∷ ps, [])
      else if p.revents
      then on_rc (interact p.fd) (p ∷ ps, p.fd ∷ []) (gone.0, p.fd ∷ gone.1)
          (p ∷ sent.0, p.fd ∷ sent.1)
      else (p ∷ idle.0, idle.1)

  loop_past :
      (xs : List Pollfd) (fuel nfds : ℕ) (seen : List ℕ)
      → loop interact fuel (suc (length xs)) nfds (xs ++ []) seen ≡ (xs ++ [], seen ++ [])
  unfolding loop
  loop_past xs zero nfds seen = ap (λ b. (xs ++ [], b)) (sym (append-nil seen))
  loop_past xs (suc fuel) nfds seen = rw (get_elem?-past xs, append-nil seen)

  -- The next index, as the end of a longer list of entries that are done.
  loop_next :
      (xs : List Pollfd) (p : Pollfd) (ps qs : List Pollfd) (fuel nfds : ℕ) (seen ks : List ℕ)
      → loop interact fuel (length (xs ++ p ∷ [])) nfds ((xs ++ p ∷ []) ++ ps) seen
        ≡ ((xs ++ p ∷ []) ++ qs, ks)
      → loop interact fuel (suc (length xs)) nfds (xs ++ p ∷ ps) seen ≡ (xs ++ p ∷ qs, ks)
  loop_next xs p ps qs fuel nfds seen ks h =
      let e : suc (length xs) ≡ length (xs ++ p ∷ []) = omega (arith, length-append xs (p ∷ [])) in
      ap₂ (λ i fds. loop interact fuel i nfds fds seen) e (sym (append_assoc xs (p ∷ []) ps))
      ∙ h
      ∙ ap (λ t. (t, ks)) (append_assoc xs (p ∷ []) qs)

  -- The loop over the array, which gets shorter on the way, does what one pass does.
  pub loop-pass :
      (skips : Bool) (ps xs : List Pollfd) (fuel nfds : ℕ) (seen : List ℕ)
      → length ps ≤ fuel
      → loop interact fuel (if skips then suc (length xs) else length xs) nfds (xs ++ ps) seen
        ≡ (xs ++ (pass skips nfds ps).0, seen ++ (pass skips nfds ps).1)
  unfolding loop
  loop-pass true [] xs fuel nfds seen h = loop_past xs fuel nfds seen
  loop-pass true (p ∷ ps) xs fuel nfds seen h =
      loop_next xs p ps _ fuel nfds seen _
        (loop-pass false ps (xs ++ p ∷ []) fuel nfds seen (omega (arith, h)))
  loop-pass false [] xs zero nfds seen h = ap (λ b. (xs ++ [], b)) (sym (append-nil seen))
  loop-pass false (p ∷ ps) xs zero nfds seen h = absurd (omega (arith, h))
  loop-pass false [] xs (suc fuel) nfds seen h =
      rw (append-nil xs, get_elem?-end xs, append-nil seen)
  loop-pass false (p ∷ ps) xs (suc fuel) nfds seen h =
      at_entry p.fd p.revents (nfds == 0) (interact p.fd) refl refl
        (loop-pass false ps (xs ++ p ∷ []) fuel nfds seen (omega (arith, h)))
        (loop-pass true ps xs fuel (nfds - 1) (seen ++ p.fd ∷ []) (omega (arith, h)))
        (loop-pass false ps (xs ++ p ∷ []) fuel (nfds - 1) (seen ++ p.fd ∷ []) (omega (arith, h)))
    where
      after_one : (fd : ℕ) (ks : List ℕ) → (seen ++ fd ∷ []) ++ ks ≡ seen ++ fd ∷ ks
      after_one fd ks = append_assoc seen (fd ∷ []) ks

      at_entry :
          (fd : ℕ) (r z : Bool) (rc : Rc)
          → (nfds == 0) ≡ z
          → interact fd ≡ rc
          → loop interact fuel
              (length (xs ++ record { fd = fd; revents = r } ∷ []))
              nfds
              ((xs ++ record { fd = fd; revents = r } ∷ []) ++ ps)
              seen
            ≡ (
              (xs ++ record { fd = fd; revents = r } ∷ []) ++ (pass false nfds ps).0,
              seen ++ (pass false nfds ps).1,
            )
          → loop interact fuel (suc (length xs)) (nfds - 1) (xs ++ ps) (seen ++ fd ∷ [])
            ≡ (xs ++ (pass true (nfds - 1) ps).0, (seen ++ fd ∷ []) ++ (pass true (nfds - 1) ps).1)
          → loop interact fuel
              (length (xs ++ record { fd = fd; revents = r } ∷ []))
              (nfds - 1)
              ((xs ++ record { fd = fd; revents = r } ∷ []) ++ ps)
              (seen ++ fd ∷ [])
            ≡ (
              (xs ++ record { fd = fd; revents = r } ∷ []) ++ (pass false (nfds - 1) ps).0,
              (seen ++ fd ∷ []) ++ (pass false (nfds - 1) ps).1,
            )
          → loop interact
              (suc fuel)
              (length xs)
              nfds
              (xs ++ record { fd = fd; revents = r } ∷ ps)
              seen
            ≡ (
              xs ++ (pass false nfds (record { fd = fd; revents = r } ∷ ps)).0,
              seen ++ (pass false nfds (record { fd = fd; revents = r } ∷ ps)).1,
            )
      at_entry fd r true rc ez ec i g s =
          rw (get_elem?-append xs (record { fd = fd; revents = r }) ps, ez, append-nil seen)
      at_entry fd false false rc ez ec i g s =
          rw (get_elem?-append xs (record { fd = fd; revents = false }) ps, ez)
            (loop_next xs (record { fd = fd; revents = false }) ps _ fuel nfds seen _ i)
      at_entry fd true false rc_error ez ec i g s =
          rw (get_elem?-append xs (record { fd = fd; revents = true }) ps, ez, ec)
      at_entry fd true false rc_zero ez ec i g s =
          rw (get_elem?-append xs (record { fd = fd; revents = true }) ps, ez, ec)
            (ap (λ fds. loop interact fuel (suc (length xs)) (nfds - 1) fds (seen ++ fd ∷ []))
                (remove_client-append xs _ ps)
              ∙ g
              ∙ ap (λ t. (xs ++ (pass true (nfds - 1) ps).0, t)) (after_one fd _))
      at_entry fd true false rc_sent ez ec i g s =
          rw (get_elem?-append xs (record { fd = fd; revents = true }) ps, ez, ec)
            (loop_next xs (record { fd = fd; revents = true }) ps _ fuel (nfds - 1)
                (seen ++ fd ∷ []) _ s
              ∙ ap
                  (λ t.
                    (xs ++ record { fd = fd; revents = true } ∷ (pass false (nfds - 1) ps).0, t))
                  (after_one fd _))

  -- A round is one pass over the array, with the new client at its end where there is one, and with
  -- one entry less to serve; one step of fuel for each entry is enough.
  pub round-pass :
      (nfds : ℕ) (client server : Pollfd) (fds : List Pollfd)
      → round interact nfds (some client) (server ∷ fds) ≡ (
          if server.revents
          then some (pass false (nfds - 1) ((server ∷ fds) ++ client ∷ []))
          else some (pass false nfds (server ∷ fds)))
  unfolding round
  round-pass nfds client server fds = by_server server.fd server.revents
    where
      by_server :
          (fd : ℕ) (r : Bool)
          → round interact nfds (some client) (record { fd = fd; revents = r } ∷ fds) ≡ (
              if r
              then some
                  (pass false (nfds - 1) ((record { fd = fd; revents = r } ∷ fds) ++ client ∷ []))
              else some (pass false nfds (record { fd = fd; revents = r } ∷ fds)))
      by_server fd true = ap some (
          loop-pass false ((record { fd = fd; revents = true } ∷ fds) ++ client ∷ []) [] _
            (nfds - 1) []
            (omega (arith, length-append (record { fd = fd; revents = true } ∷ fds) (client ∷ []))))
      by_server fd false = ap some (
          loop-pass false (record { fd = fd; revents = false } ∷ fds) []
            (length (record { fd = fd; revents = false } ∷ fds)) nfds [] (omega arith))

  -- If a client connects while another one has sent something, the loop starts at the listening
  -- socket, whose `revents` is still set, and where `interact` fails on it, it stops: in that round no
  -- client is served.
  pub round_listener :
      (nfds : ℕ) (client : Pollfd) (server : ℕ) (fds : List Pollfd)
      → 1 < nfds
      → interact server ≡ rc_error
      → round interact nfds (some client) (record { fd = server; revents = true } ∷ fds)
        ≡ some ((record { fd = server; revents = true } ∷ fds) ++ client ∷ [], server ∷ [])
  round_listener nfds client server fds h e =
      let f : ((nfds - 1) == 0) ≡ false = ground (arith, h) in
      round-pass nfds client (record { fd = server; revents = true }) fds ∙ rw (f, e)

  pass-ready :
      ((fd : ℕ) → interact fd ≡ rc_sent)
      → (ps : List Pollfd) → pass false (length (ready ps)) ps ≡ (ps, ready ps)
  pass-ready h [] = refl
  pass-ready h (p ∷ ps) = at_entry p.fd p.revents (length (ready ps) == 0) refl (pass-ready h ps)
    where
      none_ready : (ks : List ℕ) → (length ks == 0) ≡ true → [] ≡ ks
      none_ready [] e = refl
      none_ready (k ∷ ks) e = absurd (ground (arith, e))

      at_entry :
          (fd : ℕ) (r z : Bool)
          → (length (ready ps) == 0) ≡ z
          → pass false (length (ready ps)) ps ≡ (ps, ready ps)
          → pass false
              (length (ready (record { fd = fd; revents = r } ∷ ps)))
              (record { fd = fd; revents = r } ∷ ps)
            ≡ (record { fd = fd; revents = r } ∷ ps, ready (record { fd = fd; revents = r } ∷ ps))
      at_entry fd false true e ih =
          rw e (ap (λ ks. (record { fd = fd; revents = false } ∷ ps, ks)) (none_ready (ready ps) e))
      at_entry fd false false e ih =
          rw e (ap (λ t. (record { fd = fd; revents = false } ∷ t.0, t.1)) ih)
      at_entry fd true z e ih =
          let f : (suc (length (ready ps)) == 0) ≡ false = ground arith in
          let g : suc (length (ready ps)) - 1 ≡ length (ready ps) = omega arith in
          rw (f, h fd)
            (ap (λ t. (record { fd = fd; revents = true } ∷ t.0, fd ∷ t.1))
              (ap (λ m. pass false m ps) g ∙ ih))

  -- A round with no new client, in which every answer is sent, serves exactly the clients that `poll`
  -- has reported, each once and in the order of the array, and keeps all of them.
  pub round-ready :
      (client : Pollfd) (server : ℕ) (fds : List Pollfd)
      → ((fd : ℕ) → interact fd ≡ rc_sent)
      → round interact
          (length (ready fds))
          (some client)
          (record { fd = server; revents = false } ∷ fds)
        ≡ some (record { fd = server; revents = false } ∷ fds, ready fds)
  round-ready client server fds h =
      round-pass (length (ready fds)) client (record { fd = server; revents = false }) fds
      ∙ ap some (pass-ready h (record { fd = server; revents = false } ∷ fds))
