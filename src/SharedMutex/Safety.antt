-- ===== src/SharedMutex/Safety.antt =====
-- shared_mutex.cpp: no thread sleeps where none can wake it, and a writer that has entered keeps new
-- readers out.
use bd_tarantul.Common.{
  ℕ, zero, suc, ◌+◌, ◌≤◌, ◌<◌, ◌≡◌, inl, inr, refl, arith, List, [], ◌∷◌, ◌++◌,
}
use bd_tarantul.Threads.Totals.{total, total_put, total-le}
use bd_tarantul.SharedMutex.{
  n_readers, Pc, idle, at_gate1, asleep_gate1, at_gate2, asleep_gate2, writing, at_notify,
  at_shared, asleep_shared, reading, Op, advance, woken, on_gate1, on_gate2, Wakes, World, Step,
  turn, spurious, created, Reaches, here, after,
}
use bd_tarantul.SharedMutex.Counts.{
  enters, reads, Fits, Inv, Wakes-total, enters-woken, reads-woken, Inv-Fits, advance-Inv,
  total-created, Reaches-Inv,
}
use bd_tarantul.SharedMutex.Gates.{
  notifies, Watch1, on_gate2-le-enters, advance-gate1, advance-gate2, notifies-woken,
  on_gate1-woken, on_gate2-woken, Wakes-le, all_gate1-wakes, one_gate2-wakes, is_all_gate1,
  is_one_gate2,
}

abbrev each : Pc → ℕ
each p = 1

-- Whether a thread is in a call, or owns the mutex, and does not sleep.
abbrev pub runs : Pc → ℕ
runs idle = 0
runs asleep_gate1 = 0
runs asleep_gate2 = 0
runs asleep_shared = 0
runs _ = 1

reads-le-each : (p : Pc) → reads p ≤ each p
reads-le-each p = ground arith

record Watched (ts : List Pc) : Type 0 where
  gate1 : Watch1 (total on_gate1 ts) (total enters ts + total notifies ts)
  gate2 : Watch1 (total on_gate2 ts) (total reads ts)

module _ (xs : List Pc) (p : Pc) (ys ts : List Pc) (op : Op) (state : ℕ)
    (wk : Wakes (advance op p state).signal (xs ++ (advance op p state).pc ∷ ys) ts)
    (inv : Inv (xs ++ p ∷ ys) state) (old : Watched (xs ++ p ∷ ys)) where
  turn-gate1 :
      total each (xs ++ ys) < n_readers
      → Watch1 (total on_gate1 ts) (total enters ts + total notifies ts)
  turn-gate1 few h = elim (is_all_gate1 (advance op p state).signal) [
    | inl e ↦ absurd (omega (arith, h, all_gate1-wakes wk e))
    | inr ne ↦
        let q = (advance op p state).pc in
        let moved =
          advance-gate1 op state _ _ _ p (total on_gate1 (xs ++ ys)) (total notifies (xs ++ ys))
            (Inv-Fits xs p ys state inv) (omega (arith, few, total-le reads-le-each (xs ++ ys)))
            (λ s. omega (
              arith,
              old.gate1 (omega (arith, s, total_put on_gate1 xs p ys)),
              total_put enters xs p ys,
              total_put notifies xs p ys,
            ))
            ne
            (omega (arith, h, Wakes-le on_gate1 on_gate1-woken wk, total_put on_gate1 xs q ys)) in
        omega (
          arith,
          moved,
          Wakes-total enters enters-woken wk,
          Wakes-total notifies notifies-woken wk,
          total_put enters xs q ys,
          total_put notifies xs q ys,
        )
  ]

  turn-gate2 : Watch1 (total on_gate2 ts) (total reads ts)
  turn-gate2 h =
      let q = (advance op p state).pc in
      let one = (advance-Inv xs p ys op state inv).one in
      elim (is_one_gate2 (advance op p state).signal) [
        | inl e ↦ absurd (
            omega (
              arith,
              h,
              one_gate2-wakes wk e (omega (arith, one, total-le on_gate2-le-enters (xs ++ q ∷ ys))),
            ))
        | inr ne ↦
            let moved =
              advance-gate2 op state _ _ _ p (total on_gate2 (xs ++ ys))
                (Inv-Fits xs p ys state inv) (total-le on_gate2-le-enters (xs ++ ys))
                (λ s. omega (
                  arith,
                  old.gate2 (omega (arith, s, total_put on_gate2 xs p ys)),
                  total_put reads xs p ys,
                ))
                ne
                (omega
                  (arith, h, Wakes-le on_gate2 on_gate2-woken wk, total_put on_gate2 xs q ys)) in
            omega (arith, moved, Wakes-total reads reads-woken wk, total_put reads xs q ys)
      ]

Step-each : {w w' : World} → Step w w' → total each w'.threads ≡ total each w.threads
Step-each (turn xs p ys ts op w wk) = omega (
  arith,
  Wakes-total each (λ p. refl) wk,
  total_put each xs p ys,
  total_put each xs (advance op p w).pc ys,
)
Step-each (spurious xs p ys w) =
    omega (arith, total_put each xs p ys, total_put each xs (woken p) ys)

Step-Watched :
    {w w' : World}
    → Step w w'
    → total each w.threads ≤ n_readers
    → Inv w.threads w.state
    → Watched w.threads
    → Watched w'.threads
Step-Watched (turn xs p ys ts op w wk) few inv old = record {
  gate1 = turn-gate1 xs p ys ts op w wk inv old (omega (arith, few, total_put each xs p ys));
  gate2 = turn-gate2 xs p ys ts op w wk inv old;
}
Step-Watched (spurious xs p ys w) few inv old = record {
  gate1 = λ h. omega (
    arith,
    old.gate1 (
        omega (
          arith,
          h,
          on_gate1-woken p,
          total_put on_gate1 xs p ys,
          total_put on_gate1 xs (woken p) ys,
        )),
    enters-woken p,
    notifies-woken p,
    total_put enters xs p ys,
    total_put enters xs (woken p) ys,
    total_put notifies xs p ys,
    total_put notifies xs (woken p) ys,
  );
  gate2 = λ h. omega (
    arith,
    old.gate2 (
        omega (
          arith,
          h,
          on_gate2-woken p,
          total_put on_gate2 xs p ys,
          total_put on_gate2 xs (woken p) ys,
        )),
    reads-woken p,
    total_put reads xs p ys,
    total_put reads xs (woken p) ys,
  );
}

total-created-each : (k : ℕ) → total each (created k) ≡ k
total-created-each zero = refl
total-created-each (suc k) = omega (arith, total-created-each k)

Reaches-each : {k : ℕ} {w : World} → Reaches k w → total each w.threads ≡ k
Reaches-each {k} here = total-created-each k
Reaches-each (after r s) = omega (arith, Step-each s, Reaches-each r)

Reaches-Watched : {k : ℕ} {w : World} → k ≤ n_readers → Reaches k w → Watched w.threads
Reaches-Watched {k} few here = record {
  gate1 = λ h. absurd (omega (arith, h, total-created on_gate1 refl k));
  gate2 = λ h. absurd (omega (arith, h, total-created on_gate2 refl k));
}
Reaches-Watched few (after r s) =
    Step-Watched s (omega (arith, few, Reaches-each r)) (Reaches-Inv r) (Reaches-Watched few r)

entered-split :
    (ts : List Pc) → total enters ts + total notifies ts ≤ total on_gate2 ts + total runs ts
entered-split [] = omega arith
entered-split (p ∷ ts) = omega (arith, here_split p, entered-split ts)
  where
    here_split : (p : Pc) → enters p + notifies p ≤ on_gate2 p + runs p
    here_split p = ground arith

reads-le-runs : (p : Pc) → reads p ≤ runs p
reads-le-runs p = ground arith

-- No wake-up is lost: with at most 2 ^ 31 - 1 threads, as long as a thread sleeps at a gate, some
-- thread owns the mutex or is awake in a call of it.
pub Reaches-can_run :
    {k : ℕ} {w : World}
    → k ≤ n_readers
    → Reaches k w
    → 0 < total on_gate1 w.threads + total on_gate2 w.threads
    → 0 < total runs w.threads
Reaches-can_run {w = w} few r h =
    let watched = Reaches-Watched few r in
    let second : Watch1 (total on_gate2 w.threads) (total runs w.threads) =
      λ s. omega (arith, watched.gate2 s, total-le reads-le-runs w.threads) in
    let first : Watch1 (total on_gate1 w.threads)
        (total on_gate2 w.threads + total runs w.threads) =
      λ s. omega (arith, watched.gate1 s, entered-split w.threads) in
    ground arith

entered-reads :
    (op : Op) (p : Pc) (state e r w : ℕ)
    → Fits state e r w p
    → 0 < e + enters p
    → reads (advance op p state).pc ≤ reads p
entered-reads op idle state e r w fit h = ground arith
entered-reads op at_shared state e r w fit h = ground arith
entered-reads op asleep_gate1 state e r w fit h = omega arith
entered-reads op asleep_gate2 state e r w fit h = omega arith
entered-reads op asleep_shared state e r w fit h = omega arith
entered-reads op at_gate1 state e r w fit h = ground arith
entered-reads op at_gate2 state e r w fit h = ground arith
entered-reads op writing state e r w fit h = omega arith
entered-reads op at_notify state e r w fit h = omega arith
entered-reads op reading state e r w fit h = omega arith

-- A writer does not starve behind new readers: from the moment it has set its bit until it unlocks
-- the mutex, no step lets one more thread read.
pub Step-admits_none :
    {k : ℕ} {w w' : World}
    → Reaches k w
    → Step w w'
    → 0 < total enters w.threads
    → total reads w'.threads ≤ total reads w.threads
Step-admits_none r (turn xs p ys ts op state wk) h = omega (
  arith,
  Wakes-total reads reads-woken wk,
  total_put reads xs p ys,
  total_put reads xs (advance op p state).pc ys,
  entered-reads op p state _ _ _ (Inv-Fits xs p ys state (Reaches-Inv r))
      (omega (arith, h, total_put enters xs p ys)),
)
Step-admits_none r (spurious xs p ys state) h =
    omega (arith, reads-woken p, total_put reads xs p ys, total_put reads xs (woken p) ys)
