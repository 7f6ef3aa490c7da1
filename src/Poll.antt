-- ===== src/Poll.antt =====
-- sysprog/lecture_examples/9_aio/5_server_poll.c: a server that adds one to the numbers it receives,
-- on poll. What `poll`, `accept` and `interact` return is an input of the model.
pub mod Passes
mod Tests
use bd_tarantul.Common.{
  ℕ, zero, suc, ◌+◌, ◌-◌, Bool, true, false, Option, none, some, List, [], ◌∷◌, ◌++◌, if◌then◌else◌,
  ◌==◌, length, take, drop,
}

pub record Pollfd : Type 0 where
  pub fd : ℕ
  pub revents : Bool  -- revents & POLLIN

-- What `interact` returns: -1, 0, or the size sent.
pub data Rc : Type 0 where
  rc_error : Rc
  rc_zero : Rc
  rc_sent : Rc

abbrev pub get_elem? : List Pollfd → ℕ → Option Pollfd
get_elem? [] i = none
get_elem? (p ∷ ps) zero = some p
get_elem? (p ∷ ps) (suc i) = get_elem? ps i

-- The two calls of memcpy into an array of one entry less.
abbrev pub remove_client : List Pollfd → ℕ → List Pollfd
remove_client fds i = take i fds ++ drop (suc i) fds

-- The branches of the loop: past the end of the array, and on what `interact` returned.
abbrev pub entry {ℓ} : {A : Type ℓ} → Option Pollfd → A → (Pollfd → A) → A
entry none past f = past
entry (some p) past f = f p

abbrev pub on_rc {ℓ} : {A : Type ℓ} → Rc → (error zero sent : A) → A
on_rc rc_error e z s = e
on_rc rc_zero e z s = z
on_rc rc_sent e z s = s

module _ (interact : ℕ → Rc) where
  -- `for (int i = 0; i < fd_count && nfds > 0; ++i)`, from `i` on, with the entries that are left as
  -- fuel: the array afterwards, and the descriptors that were interacted with.
  unfoldable pub loop : ℕ → ℕ → ℕ → List Pollfd → List ℕ → List Pollfd × List ℕ
  loop zero i nfds fds seen = (fds, seen)
  loop (suc fuel) i nfds fds seen =
      entry (get_elem? fds i) (fds, seen)
        (λ p.
          let idle = loop fuel (suc i) nfds fds seen in
          let gone = loop fuel (suc i) (nfds - 1) (remove_client fds i) (seen ++ p.fd ∷ []) in
          let sent = loop fuel (suc i) (nfds - 1) fds (seen ++ p.fd ∷ []) in
          if nfds == 0
          then (fds, seen)
          else if p.revents
          then on_rc (interact p.fd) (fds, seen ++ p.fd ∷ []) gone sent
          else idle)

  -- A round of the main loop after `poll` has returned `nfds > 0`: `accepted` is the descriptor of
  -- the new client, or `none` where `accept` fails, and ends the server.
  unfoldable pub round :
      ℕ → (accepted : Option Pollfd) → List Pollfd → Option (List Pollfd × List ℕ)
  unfolding loop
  round nfds accepted [] = none
  round nfds accepted (server ∷ fds) = elim server.revents [
    | true ↦ elim accepted [
      | none ↦ none
      | some client ↦
          some (loop (length (server ∷ fds) + 1) 0 (nfds - 1) ((server ∷ fds) ++ client ∷ []) [])
    ]
    | false ↦ some (loop (length (server ∷ fds)) 0 nfds (server ∷ fds) [])
  ]
