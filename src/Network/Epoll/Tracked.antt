-- ===== src/Network/Epoll/Tracked.antt =====
-- What `epoll` watches and the server's table of connections agree.
use bd_tarantul.Common.{
  ℕ, ◌≡◌, refl, sym, ap, subst, ◌∙◌, Bool, true, false, not, is_some, Option, none, some, List, [],
  ◌∷◌, ◌==◌, if◌then◌else◌, >>=-eq-some,
}
use bd_tarantul.Storage.Interface.{Storage}
use bd_tarantul.Protocol.Parser.{Parser}
use bd_tarantul.Network.Connection.{Connection, Mask, start}
use bd_tarantul.Network.Epoll.{
  Ready, find, erase, replace, same_mask, new_connection, Server, reads, with_store, on_ready,
  settle, on_event, on_new_connection, accept_all, Report, ready, incoming, stop_signal, on_reports,
}
use bd_tarantul.Network.Epoll.Tables.{
  values, values-erase, values-replace, replace-same, same_mask-eq,
}

module _ {S : Type 0} where
  abbrev pub AllAlive : List (ℕ × Connection S) → Type 0
  AllAlive [] = Unit {0}
  AllAlive ((k, c) ∷ xs) = (c.alive ≡ true) × AllAlive xs

  AllAlive-erase : (fd : ℕ) (xs : List (ℕ × Connection S)) → AllAlive xs → AllAlive (erase fd xs)
  AllAlive-erase fd [] h = h
  AllAlive-erase fd ((k, c) ∷ xs) (a, h) = by_key (k == fd) (AllAlive-erase fd xs h)
    where
      by_key :
          (z : Bool) → AllAlive (erase fd xs) → AllAlive (if z then xs else (k, c) ∷ erase fd xs)
      by_key true rest = h
      by_key false rest = (a, rest)

  AllAlive-replace :
      (fd : ℕ) (d : Connection S) (xs : List (ℕ × Connection S))
      → d.alive ≡ true
      → AllAlive xs
      → AllAlive (replace fd d xs)
  AllAlive-replace fd d [] e h = h
  AllAlive-replace fd d ((k, c) ∷ xs) e (a, h) = by_key (k == fd) (AllAlive-replace fd d xs e h)
    where
      by_key :
          (z : Bool)
          → AllAlive (replace fd d xs)
          → AllAlive (if z then (k, d) ∷ xs else (k, c) ∷ replace fd d xs)
      by_key true rest = (e, h)
      by_key false rest = (a, rest)

abbrev pub events_of : {S : Type 0} → Connection S → Mask
events_of c = c.events

-- `epoll` watches the connections of the table, each for the events that it asks for, and all of
-- them are alive.
pub record IsTracked {S : Type 0} (s : Server S) : Type 0 where
  pub tracked : s.watched ≡ values events_of s.connections
  pub all_alive : AllAlive s.connections

module _ (storage : Storage) where
  open storage use {State as Store}

  abbrev TrackedIfSome : Option (Server Store) → Type 0
  TrackedIfSome none = Unit {0}
  TrackedIfSome (some s) = IsTracked s

  settle-IsTracked :
      (fd : ℕ) (ctl_ok : Bool) (c c' : Connection Store) (s : Server Store)
      → find fd s.connections ≡ some c
      → IsTracked s
      → TrackedIfSome (settle storage fd ctl_ok c.events c' s)
  unfolding settle
  settle-IsTracked fd ctl_ok c c' s found t =
      outcome c'.alive (same_mask c'.events c.events) ctl_ok refl refl
    where
      outcome :
          (z y w : Bool)
          → c'.alive ≡ z
          → same_mask c'.events c.events ≡ y
          → TrackedIfSome (
              if not z
              then some (record {
                store = c'.session.store;
                connections = erase fd s.connections;
                watched = erase fd s.watched;
              })
              else if not y
              then (if w
                  then some (record {
                    store = c'.session.store;
                    connections = replace fd c' s.connections;
                    watched = replace fd c'.events s.watched;
                  })
                  else none)
              else some (record {
                store = c'.session.store;
                connections = replace fd c' s.connections;
                watched = s.watched;
              }))
      outcome false y w a m = record {
        tracked = ap (erase fd) t.tracked ∙ sym (values-erase events_of fd s.connections);
        all_alive = AllAlive-erase fd s.connections t.all_alive;
      }
      outcome true false false a m = tt
      outcome true false true a m = record {
        tracked =
            ap (replace fd c'.events) t.tracked
            ∙ sym (values-replace events_of fd c' s.connections);
        all_alive = AllAlive-replace fd c' s.connections a t.all_alive;
      }
      outcome true true w a m = record {
        tracked =
            t.tracked
            ∙ sym (replace-same events_of fd c s.connections found)
            ∙ ap (λ e. replace fd e (values events_of s.connections))
                (sym (same_mask-eq c'.events c.events m))
            ∙ sym (values-replace events_of fd c' s.connections);
        all_alive = AllAlive-replace fd c' s.connections a t.all_alive;
      }

  on_event-IsTracked :
      (fd : ℕ) (e : Ready) (s s' : Server Store)
      → on_event storage fd e s ≡ some s'
      → IsTracked s
      → IsTracked s'
  unfolding on_event
  on_event-IsTracked fd e s s' h t =
      let (c, found, h1) = >>=-eq-some (find fd s.connections) _ h in
      let (c', handled, h2) =
        >>=-eq-some (on_ready storage e (with_store storage s.store c)) _ h1 in
      subst TrackedIfSome h2 (settle-IsTracked fd e.ctl_ok c c' s found t)

  on_new_connection-IsTracked :
      (parser : Parser) (fd : ℕ) (ctl_ok : Bool) (s s' : Server Store)
      → on_new_connection storage parser fd ctl_ok s ≡ some s'
      → IsTracked s
      → IsTracked s'
  unfolding on_new_connection new_connection start
  on_new_connection-IsTracked parser fd ctl_ok s s' h t =
      subst TrackedIfSome h (accepted ctl_ok (is_some (find fd s.connections)))
    where
      accepted :
          (z y : Bool)
          → TrackedIfSome (
              if z
              then (if y
                  then none
                  else some (record s {
                    connections = (fd, new_connection storage parser s.store) ∷ s.connections;
                    watched = (fd, reads) ∷ s.watched;
                  }))
              else some s)
      accepted false y = t
      accepted true true = tt
      accepted true false = record {
        tracked = ap (λ ys. (fd, reads) ∷ ys) t.tracked;
        all_alive = (refl, t.all_alive);
      }

  module _ (parser : Parser) where
    accept_all-IsTracked :
        (fds : List (ℕ × Bool)) (s s' : Server Store)
        → accept_all storage parser fds s ≡ some s'
        → IsTracked s
        → IsTracked s'
    unfolding accept_all
    accept_all-IsTracked [] s s' h t = subst TrackedIfSome h t
    accept_all-IsTracked ((fd, ctl_ok) ∷ fds) s s' h t =
        let (s1, h1, h2) = >>=-eq-some (on_new_connection storage parser fd ctl_ok s) _ h in
        let t1 = on_new_connection-IsTracked parser fd ctl_ok s s1 h1 t in
        after ctl_ok s1 h2 t1 (λ k. accept_all-IsTracked fds s1 s' k t1)
      where
        after :
            (z : Bool) (s1 : Server Store)
            → (if z then accept_all storage parser fds s1 else some s1) ≡ some s'
            → IsTracked s1
            → (accept_all storage parser fds s1 ≡ some s' → IsTracked s')
            → IsTracked s'
        after true s1 h t rest = rest h
        after false s1 h t rest = subst TrackedIfSome h t

    -- Through any reports of `epoll` of which none leads to undefined behaviour (as a change of the
    -- events of a live connection that `epoll` refuses does), it watches exactly the connections of the
    -- table, each for the events that it asks for, and all of them are alive, where it was so at first.
    pub on_reports-IsTracked :
        (rs : List Report) (s s' : Server Store)
        → on_reports storage parser rs s ≡ some s'
        → IsTracked s
        → IsTracked s'
    unfolding on_reports
    on_reports-IsTracked [] s s' h t = subst TrackedIfSome h t
    on_reports-IsTracked (ready fd e ∷ rs) s s' h t =
        let (s1, h1, h2) = >>=-eq-some (on_event storage fd e s) _ h in
        on_reports-IsTracked rs s1 s' h2 (on_event-IsTracked fd e s s1 h1 t)
    on_reports-IsTracked (incoming fds ∷ rs) s s' h t =
        let (s1, h1, h2) = >>=-eq-some (accept_all storage parser fds s) _ h in
        on_reports-IsTracked rs s1 s' h2 (accept_all-IsTracked fds s s1 h1 t)
    on_reports-IsTracked (stop_signal ∷ rs) s s' h t = on_reports-IsTracked rs s s' h t
