-- ===== src/SharedLock/Tests.antt =====
-- `shared_lock`: a lock that is moved and unlocked, and one whose hold is released.
use bd_tarantul.Common.{◌+◌, ◌≡◌, refl, true, some, [], ◌∷◌}
use bd_tarantul.Threads.Totals.{total}
use bd_tarantul.SharedLock.{
  SharedLock, empty, no_lock, deadlock, not_owned, threw, blocking, construct, destroy, lock,
  unlock, release, member, World, constructs, uses, moves, Reaches, here, after,
}
use bd_tarantul.SharedLock.Owners.{owner, Reaches-owned}

abbrev owning : SharedLock
owning = record { pm = some 4; owns = true }

program : Unit {0}
unfolding construct member destroy
program = tt

lock_twice : member lock owning ≡ threw deadlock
unfolding program
lock_twice = refl

lock_moved : member lock empty ≡ threw no_lock
unfolding program
lock_moved = refl

unlock_moved : member unlock empty ≡ threw not_owned
unfolding program
unlock_moved = refl

-- One lock is moved and destroyed, another one releases its hold.
released : (w : World) × Reaches w × (w.locks ≡ empty ∷ owning ∷ empty ∷ [])
unfolding program
released = (
  _,
  after
      (after (after (after here (constructs (blocking 4) refl tt)) (moves [] owning [] refl))
        (constructs (blocking 4) refl tt))
      (uses [] owning (owning ∷ empty ∷ []) release refl refl),
  refl,
)

Reaches-owned_example : released.0.held 4 ≡ total (owner 4) released.0.locks + released.0.loose 4
Reaches-owned_example = Reaches-owned released.1 4
