-- ===== src/Poll/Tests.antt =====
-- 5_server_poll.c: a listening socket 3 and clients 4 to 6.
use bd_tarantul.Common.{
  ℕ, ◌-◌, ◌≡◌, refl, Bool, true, false, some, List, [], ◌∷◌, ◌++◌, if◌then◌else◌, ◌==◌,
}
use bd_tarantul.Poll.{Pollfd, Rc, rc_error, rc_zero, rc_sent, round, loop}
use bd_tarantul.Poll.Passes.{pass, round-pass}

abbrev entry_of : ℕ → Bool → Pollfd
entry_of fd revents = record { fd = fd; revents = revents }

-- Client 4 has closed its end, the listening socket cannot be read.
abbrev answer : ℕ → Rc
answer fd = if fd == 4 then rc_zero else if fd == 3 then rc_error else rc_sent

abbrev clients : List Pollfd
clients = entry_of 4 true ∷ entry_of 5 true ∷ entry_of 6 true ∷ []

-- Client 5 moves to the place of client 4 and is passed over.
passed_over :
    round answer 3 (some (entry_of 7 false)) (entry_of 3 false ∷ clients)
    ≡ some (entry_of 3 false ∷ entry_of 5 true ∷ entry_of 6 true ∷ [], 4 ∷ 6 ∷ [])
unfolding round loop
passed_over = refl

round-pass_example : round answer 3 (some (entry_of 7 false)) (entry_of 3 false ∷ clients) ≡ (
    if false
    then some (pass answer false (3 - 1) ((entry_of 3 false ∷ clients) ++ entry_of 7 false ∷ []))
    else some (pass answer false 3 (entry_of 3 false ∷ clients)))
round-pass_example = round-pass answer 3 (entry_of 7 false) (entry_of 3 false) clients
