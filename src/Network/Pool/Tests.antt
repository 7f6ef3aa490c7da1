-- ===== src/Network/Pool/Tests.antt =====
-- mt_blocking/ServerImpl.cpp: a connection that is served, and a number that comes back too early.
use bd_tarantul.Common.{◌≡◌, ◌≤◌, ◌<◌, ◌↔◌, refl, arith, true, false, [], ◌∷◌, length}
use bd_tarantul.Threads.Totals.{total}
use bd_tarantul.Network.Pool.{
  serving, closed, accepted, asleep, joined, Pool, same, owns, register, loop, accept, add, close,
  stop, join, finish, Reaches, here, after,
}
use bd_tarantul.Network.Pool.Kept.{closes, Reaches-bounded, register-terminates_iff}

-- Descriptor 5 is closed by its thread, which still waits for the lock, and given out again; `Join`
-- sleeps.
returned_early :
    (s : Pool) × Reaches 7 s
    × (s.terminated ≡ false)
    × (s.acceptor ≡ accepted 5)
    × (s.joiner ≡ asleep)
    × (s.live ≡ closed 5 ∷ [])
    × (s.table ≡ 5 ∷ [])
unfolding register
returned_early = (
  _,
  after
      (after
        (after
          (after
            (after (after (after here refl (loop refl)) refl (accept 5 refl refl)) refl
              (add 5 refl))
            refl (close [] 5 [] refl))
          refl (join refl))
        refl (loop refl))
      refl (accept 5 refl refl),
  refl,
  refl,
  refl,
  refl,
  refl,
)

-- After `Join` has found no thread the acceptor adds the connection that it had accepted before
-- `Stop`: `Join` returns while its thread is alive.
joined_early : (s : Pool) × Reaches 7 s × (s.joiner ≡ joined) × (s.live ≡ serving 5 ∷ [])
unfolding register
joined_early = (
  _,
  after
      (after
        (after
          (after (after (after (after here refl (loop refl)) refl (accept 5 refl refl)) refl stop)
            refl (join refl))
          refl (add 5 refl))
        refl (loop refl))
      refl (finish refl refl),
  refl,
  refl,
)

Reaches-bounded_example :
    (length (returned_early.0).live ≤ 7)
    × (total (owns 5) (returned_early.0).live ≤ 1)
    × (total (same 5) (returned_early.0).table ≡ total (owns 5) (returned_early.0).live)
Reaches-bounded_example = Reaches-bounded returned_early.1 5

register-terminates_iff_example :
    ((register 7 5 returned_early.0).terminated ≡ true)
    ↔ (0 < total (closes 5) (returned_early.0).live)
unfolding returned_early
register-terminates_iff_example =
    register-terminates_iff 5 returned_early.1 returned_early.2 returned_early.3 (omega arith)
