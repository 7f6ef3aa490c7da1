-- ===== src/Network/Worker/Freed.antt =====
-- The connections that a worker deletes are freed again when the server stops.
use bd_tarantul.Common.{
  ℕ, ◌≡◌, refl, ap, ◌∙◌, subst, Bool, true, false, ◌||◌, Option, none, some, is_some, List, [], ◌∷◌,
  ◌==◌, if◌then◌else◌, ◌>>=◌, arith, ◌⊎◌, inl, inr, if_false,
}
use bd_tarantul.Storage.Interface.{Storage}
use bd_tarantul.Network.Connection.{Connection, on_close}
use bd_tarantul.Network.Epoll.{Ready, find, erase, with_store}
use bd_tarantul.Network.Worker.{
  Pool, mt_on_close, mt_on_error, mt_do_read, mt_do_write, on_worker_ready, rearm, worker_event,
  free_all, stop,
}

abbrev pub IsOwned : ℕ → List ℕ → Type 0
IsOwned fd [] = ⊥
IsOwned fd (k ∷ ks) = (k ≡ fd) ⊎ IsOwned fd ks

module _ {A : Type 0} where
  -- No descriptor twice.
  abbrev pub AreDistinct : List (ℕ × A) → Type 0
  AreDistinct [] = Unit {0}
  AreDistinct ((k, a) ∷ xs) = (find k xs ≡ none) × AreDistinct xs

  find-none-erase : (fd k : ℕ) (xs : List (ℕ × A)) → find fd xs ≡ none → find fd (erase k xs) ≡ none
  find-none-erase fd k [] h = h
  find-none-erase fd k ((j, a) ∷ xs) h =
      pushed (j == k) (by_key (j == k) (j == fd) h (find-none-erase fd k xs))
    where
      pushed :
          (z : Bool)
          → (if z then find fd xs else if j == fd then some a else find fd (erase k xs)) ≡ none
          → find fd (if z then xs else (j, a) ∷ erase k xs) ≡ none
      pushed true e = e
      pushed false e = e

      by_key :
          (z y : Bool)
          → (if y then some a else find fd xs) ≡ none
          → (find fd xs ≡ none → find fd (erase k xs) ≡ none)
          → (if z then find fd xs else if y then some a else find fd (erase k xs)) ≡ none
      by_key true true h rest = absurd (cc)
      by_key true false h rest = h
      by_key false true h rest = h
      by_key false false h rest = rest h

  find-erased : (fd : ℕ) (xs : List (ℕ × A)) → AreDistinct xs → find fd (erase fd xs) ≡ none
  find-erased fd [] d = refl
  find-erased fd ((j, a) ∷ xs) d = by_key (j == fd) refl (find-erased fd xs d.1)
    where
      by_key :
          (z : Bool)
          → (j == fd) ≡ z
          → find fd (erase fd xs) ≡ none
          → find fd (if z then xs else (j, a) ∷ erase fd xs) ≡ none
      by_key true e rest = let q : j ≡ fd = ground (arith, e) in subst (λ n. find n xs ≡ none) q d.0
      by_key false e rest = if_false (j == fd) (some a) (find fd (erase fd xs)) e ∙ rest

module _ (storage : Storage) where
  open storage use {State as Store}

  free_all-none :
      (fd : ℕ) (owned : List ℕ) (objects : List (ℕ × Connection Store))
      → IsOwned fd owned
      → find fd objects ≡ none
      → free_all storage owned objects ≡ none
  unfolding free_all
  free_all-none fd [] objects o h = absurd o
  free_all-none fd (k ∷ ks) objects (inl q) h =
      ap (λ x. if is_some x then free_all storage ks (erase k objects) else none)
        (ap (λ n. find n objects) q ∙ h)
  free_all-none fd (k ∷ ks) objects (inr o) h =
      by_test (is_some (find k objects))
        (free_all-none fd ks (erase k objects) o (find-none-erase fd k objects h))
    where
      by_test :
          (z : Bool)
          → free_all storage ks (erase k objects) ≡ none
          → (if z then free_all storage ks (erase k objects) else none) ≡ none
      by_test true e = e
      by_test false e = refl

  -- When a client has hung up, or there was an error, a worker deletes the connection, which the
  -- server's map still owns: `Stop` frees it a second time.
  pub closed-stop :
      (fd : ℕ) (e : Ready) (c : Connection Store) (p : Pool Store)
      → (e.epollerr || e.epollhup || e.epollrdhup) ≡ true
      → find fd p.objects ≡ some c
      → AreDistinct p.objects
      → IsOwned fd p.owned
      → (worker_event storage fd e p >>= stop storage) ≡ none
  unfolding worker_event on_worker_ready
  closed-stop fd e c p hup found d o =
      ap
        (λ x.
          let p' : Option (Pool Store) = x >>= λ c.
          on_worker_ready storage e (with_store storage p.store c) >>= λ c'.
          some (rearm storage fd e.ctl_ok c' p) in
          p' >>= stop storage)
        found
      ∙ by_events (with_store storage p.store c) e.epollerr e.epollhup e.epollrdhup hup (
          (if e.epollin
            then mt_do_read storage e.inputs e.well (with_store storage p.store c)
            else some (with_store storage p.store c))
          >>= λ c'. some (if e.epollout then mt_do_write storage e.result c' else c'))
    where
      gone :
          (c' : Connection Store)
          → c'.alive ≡ false
          → stop storage (rearm storage fd e.ctl_ok c' p) ≡ none
      gone c' dead =
          unfold rearm stop in
          (rw dead (
            ap
              (λ x. x >>= λ objects. some (record p {
                store = c'.session.store;
                objects = objects;
                owned = [];
                armed = erase fd p.armed;
              }))
              (free_all-none fd p.owned (erase fd p.objects) o (find-erased fd p.objects d))))

      by_events :
          (c : Connection Store) (x y z : Bool)
          → (x || y || z) ≡ true
          → (other : Option (Connection Store))
          → (let p' : Option (Pool Store) =
                (if x || y then some (mt_on_error c) else if z then some (mt_on_close c) else other)
                >>= λ c'. some (rearm storage fd e.ctl_ok c' p) in
              p' >>= stop storage)
            ≡ none
      by_events c true y z h other =
          gone (mt_on_error c) (unfold mt_on_error mt_on_close on_close in refl)
      by_events c false true z h other =
          gone (mt_on_error c) (unfold mt_on_error mt_on_close on_close in refl)
      by_events c false false true h other =
          gone (mt_on_close c) (unfold mt_on_close on_close in refl)
      by_events c false false false h other = absurd (ground (arith, h))
