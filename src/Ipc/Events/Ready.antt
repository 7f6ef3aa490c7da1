-- ===== src/Ipc/Events/Ready.antt =====
-- 9_sem_event_source.c, 9_sem_event_cons.c: a consumer that has got in finds its messages.
use bd_tarantul.Common.{
  ℕ, zero, suc, ◌+◌, ◌<◌, ◌≡◌, refl, arith, Bool, true, List, ◌∷◌, ◌++◌, leb, if◌then◌else◌,
}
use bd_tarantul.Threads.Totals.{total, total_at}
use bd_tarantul.Ipc.Events.{
  Consumer, at_lock, at_recv, at_unlock, System, next_recv, Step, send_msg, sem_inc, lock_events,
  recv_msg, unlock_events, waiting, Reaches, here, after,
}

-- Whether a consumer has yet to receive the message of a source, and whether it has got in.
abbrev pub pending : ℕ → Consumer → ℕ
pending i (at_recv k) = if leb k i then 1 else 0
pending i _ = 0

abbrev pub inside : Consumer → ℕ
inside at_lock = 0
inside _ = 1

abbrev beyond : Consumer → ℕ
beyond (at_recv k) = if leb 3 k then 1 else 0
beyond _ = 0

record Inv (s : System) : Type 0 where
  counted : (i : ℕ) → i < 3 → s.queue i ≡ s.sems i + total (pending i) s.consumers + s.sent i
  one : s.entrance + total inside s.consumers ≡ 1
  bound : total beyond s.consumers ≡ 0

-- A consumer steps from `c` to `d`.
module _ (s : System) (xs : List Consumer) (c d : Consumer) (ys : List Consumer)
    (e : s.consumers ≡ xs ++ c ∷ ys) where
  moved : (f : Consumer → ℕ) → total f (xs ++ d ∷ ys) + f c ≡ total f s.consumers + f d
  moved f = omega (arith, total_at f xs c ys e, total_at f xs d ys refl)

Step-Inv :
    {ids : ℕ → Bool} {s s' : System}
    → ((i : ℕ) → ids i ≡ true → i < 3)
    → Step ids s s'
    → Inv s
    → Inv s'
Step-Inv few (send_msg i on) inv = let lt = few i on in ground arith
Step-Inv few (sem_inc i on more) inv = let lt = few i on in ground arith
Step-Inv {s = s} few (lock_events xs ys e a b c d) inv = record {
  counted = λ j h. ground (arith, inv.counted j h, moved s xs at_lock (at_recv 0) ys e (pending j));
  one = omega (arith, inv.one, moved s xs at_lock (at_recv 0) ys e inside);
  bound = omega (arith, inv.bound, moved s xs at_lock (at_recv 0) ys e beyond);
}
Step-Inv {s = s} few (recv_msg xs k ys e more) inv =
    let old : beyond (at_recv k) ≡ 0 =
      omega (arith, inv.bound, total_at beyond xs (at_recv k) ys e) in
    record {
      counted = λ j h.
          ground
            (arith, old, inv.counted j h, moved s xs (at_recv k) (next_recv k) ys e (pending j));
      one = ground (arith, inv.one, moved s xs (at_recv k) (next_recv k) ys e inside);
      bound = ground (arith, old, inv.bound, moved s xs (at_recv k) (next_recv k) ys e beyond);
    }
Step-Inv {s = s} few (unlock_events xs ys e) inv = record {
  counted = λ j h. omega (arith, inv.counted j h, moved s xs at_unlock at_lock ys e (pending j));
  one = omega (arith, inv.one, moved s xs at_unlock at_lock ys e inside);
  bound = omega (arith, inv.bound, moved s xs at_unlock at_lock ys e beyond);
}

total-waiting : (f : Consumer → ℕ) → f at_lock ≡ 0 → (n : ℕ) → total f (waiting n) ≡ 0
total-waiting f h zero = refl
total-waiting f h (suc n) = omega (arith, h, total-waiting f h n)

Reaches-Inv :
    {ids : ℕ → Bool} {n : ℕ} {s : System}
    → ((i : ℕ) → ids i ≡ true → i < 3)
    → Reaches ids n s
    → Inv s
Reaches-Inv {n = n} few here = record {
  counted = λ i h. omega (arith, total-waiting (pending i) refl n);
  one = omega (arith, total-waiting inside refl n);
  bound = total-waiting beyond refl n;
}
Reaches-Inv few (after r st) = Step-Inv few st (Reaches-Inv few r)

-- Where every source was started with 1, 2 or 3, in every interleaving of any number of sources and
-- consumers: while a consumer is about to receive a message it is the only one between `lock_events`
-- and `unlock_events`, and it does not wait: the message is in the queue.
pub Reaches-ready :
    {ids : ℕ → Bool} {n : ℕ} {s : System} (xs : List Consumer) (k : ℕ) (ys : List Consumer)
    → ((i : ℕ) → ids i ≡ true → i < 3)
    → Reaches ids n s
    → s.consumers ≡ xs ++ at_recv k ∷ ys
    → (total inside s.consumers ≡ 1) × (k < 3) × (0 < s.queue k)
Reaches-ready {s = s} xs k ys few r e =
    let inv = Reaches-Inv few r in
    let small : k < 3 = ground (arith, inv.bound, total_at beyond xs (at_recv k) ys e) in
    (
      ground (arith, inv.one, total_at inside xs (at_recv k) ys e),
      small,
      ground (arith, inv.counted k small, total_at (pending k) xs (at_recv k) ys e),
    )
