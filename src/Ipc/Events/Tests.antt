-- ===== src/Ipc/Events/Tests.antt =====
-- 9_sem_event_source.c, 9_sem_event_cons.c: one event of each source, and a consumer in the middle.
use bd_tarantul.Common.{
  ℕ, ◌==◌, Bool, ltb, ◌<◌, ◌≡◌, ◌>>=◌, refl, arith, some, [], ◌∷◌, Bytes, codes,
}
use bd_tarantul.Threads.Totals.{total}
use bd_tarantul.Ipc.Events.{
  at_lock, at_recv, System, send_msg, sem_inc, lock_events, recv_msg, Reaches, here, after,
}
use bd_tarantul.Ipc.Events.Messages
use bd_tarantul.Ipc.Events.Messages.{Message, send}
use bd_tarantul.Ipc.Events.Ready.{inside, Reaches-ready}

abbrev three : ℕ → Bool
three i = ltb i 3

-- The second of two consumers has received the message of the first source.
received : (s : System) × Reaches three 2 s × (s.consumers ≡ at_lock ∷ at_recv 1 ∷ [])
received = (
  _,
  after
      (after
        (after
          (after
            (after
              (after (after (after here (send_msg 0 refl)) (sem_inc 0 refl (omega arith)))
                (send_msg 1 refl))
              (sem_inc 1 refl (omega arith)))
            (send_msg 2 refl))
          (sem_inc 2 refl (omega arith)))
        (lock_events (at_lock ∷ []) [] refl (omega arith) (omega arith) (omega arith)
          (omega arith)))
      (recv_msg (at_lock ∷ []) 0 [] refl (omega arith)),
  refl,
)

Reaches-ready_example : (total inside received.0.consumers ≡ 1) × (1 < 3) × (0 < received.0.queue 1)
Reaches-ready_example =
    Reaches-ready (at_lock ∷ []) 1 [] (λ i on. ground arith) received.1 received.2

abbrev after_text : Bytes
after_text = codes "........"

recv_msg-send_example :
    (send 3 (codes "go") after_text >>= Messages.recv_msg)
    ≡ some (record { type = 3; text = codes "go........"; size = 2; next = 14 })
recv_msg-send_example = Messages.recv_msg-send 3 (codes "go") after_text (omega arith) (omega arith)

-- A source that is started with 4 raises the semaphore of the entrance, and a second consumer may get in.
two_entrances : (s : System) × Reaches (λ i. i == 3) 2 s × (s.entrance ≡ 2)
two_entrances = (_, after (after here (send_msg 3 refl)) (sem_inc 3 refl (omega arith)), refl)
