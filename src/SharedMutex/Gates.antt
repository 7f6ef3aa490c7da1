-- ===== src/SharedMutex/Gates.antt =====
-- shared_mutex.cpp: who sleeps at the two gates, through a step of a thread and the signals.
use bd_tarantul.Common.{ℕ, ◌+◌, ◌≤◌, ◌<◌, ◌≡◌, ◌≢◌, ◌⊎◌, inl, inr, refl, arith, List, [], ◌∷◌, map}
use bd_tarantul.Threads.Totals.{total, total_put}
use bd_tarantul.SharedMutex.{
  n_readers, Pc, idle, at_gate1, asleep_gate1, at_gate2, asleep_gate2, writing, at_notify,
  at_shared, asleep_shared, reading, Op, Signal, quiet, all_gate1, one_gate1, one_gate2, advance,
  woken, wake_gate1, on_gate1, on_gate2, Wakes, none, all1, nobody1, one1, nobody2, one2,
}
use bd_tarantul.SharedMutex.Counts.{enters, reads, Fits}

abbrev pub notifies : Pc → ℕ
notifies at_notify = 1
notifies _ = 0

-- What a sleeper waits for is still to come.
abbrev pub Watch1 : ℕ → ℕ → Type 0
Watch1 sleepers wakers = 0 < sleepers → 0 < wakers

pub on_gate2-le-enters : (p : Pc) → on_gate2 p ≤ enters p
on_gate2-le-enters p = ground arith

-- A step of a thread sends a signal to the gate, or leaves somebody to send it.
module _ (op : Op) (state e r w : ℕ) where
  pub advance-gate1 :
      (p : Pc) (g n : ℕ)
      → Fits state e r w p
      → r < n_readers
      → Watch1 (g + on_gate1 p) (e + enters p + n + notifies p)
      → (advance op p state).signal ≢ all_gate1
      → Watch1
          (g + on_gate1 (advance op p state).pc)
          (e + enters (advance op p state).pc + n + notifies (advance op p state).pc)
  advance-gate1 idle g n fit few old ne h = ground arith
  advance-gate1 at_gate1 g n fit few old ne h = ground arith
  advance-gate1 asleep_gate1 g n fit few old ne h = old h
  advance-gate1 at_gate2 g n fit few old ne h = ground arith
  advance-gate1 asleep_gate2 g n fit few old ne h = old h
  advance-gate1 writing g n fit few old ne h = omega arith
  advance-gate1 at_notify g n fit few old ne h = absurd (ne refl)
  advance-gate1 at_shared g n fit few old ne h = ground arith
  advance-gate1 asleep_shared g n fit few old ne h = old h
  advance-gate1 reading g n fit few old ne h = ground arith

  pub advance-gate2 :
      (p : Pc) (g : ℕ)
      → Fits state e r w p
      → g ≤ e
      → Watch1 (g + on_gate2 p) (r + reads p)
      → (advance op p state).signal ≢ one_gate2
      → Watch1 (g + on_gate2 (advance op p state).pc) (r + reads (advance op p state).pc)
  advance-gate2 idle g fit le old ne h = ground arith
  advance-gate2 at_gate1 g fit le old ne h = ground arith
  advance-gate2 asleep_gate1 g fit le old ne h = old h
  advance-gate2 at_gate2 g fit le old ne h = ground arith
  advance-gate2 asleep_gate2 g fit le old ne h = old h
  advance-gate2 writing g fit le old ne h = ground arith
  advance-gate2 at_notify g fit le old ne h = ground arith
  advance-gate2 at_shared g fit le old ne h = ground arith
  advance-gate2 asleep_shared g fit le old ne h = old h
  advance-gate2 reading g fit le old ne h = ground arith

pub notifies-woken : (p : Pc) → notifies (woken p) ≡ notifies p
notifies-woken p = ground arith

pub on_gate1-woken : (p : Pc) → on_gate1 (woken p) ≤ on_gate1 p
on_gate1-woken p = ground arith

pub on_gate2-woken : (p : Pc) → on_gate2 (woken p) ≤ on_gate2 p
on_gate2-woken p = ground arith

-- A signal lets nobody fall asleep, and one to all leaves nobody asleep.
pub Wakes-le :
    (f : Pc → ℕ)
    → ((p : Pc) → f (woken p) ≤ f p)
    → {g : Signal} {ts ts' : List Pc} → Wakes g ts ts'
    → total f ts' ≤ total f ts
Wakes-le f h (none ts) = omega arith
Wakes-le f h (all1 ts) = all ts
  where
    all : (ts : List Pc) → total f (map wake_gate1 ts) ≤ total f ts
    all [] = omega arith
    all (p ∷ ts) = ground (arith, all ts, h p)
Wakes-le f h (nobody1 ts _) = omega arith
Wakes-le f h (one1 xs p ys _) = omega (arith, h p, total_put f xs p ys, total_put f xs (woken p) ys)
Wakes-le f h (nobody2 ts _) = omega arith
Wakes-le f h (one2 xs p ys _) = omega (arith, h p, total_put f xs p ys, total_put f xs (woken p) ys)

pub all_gate1-wakes :
    {g : Signal} {ts ts' : List Pc} → Wakes g ts ts' → g ≡ all_gate1 → total on_gate1 ts' ≡ 0
all_gate1-wakes (all1 ts) e = all ts
  where
    all : (ts : List Pc) → total on_gate1 (map wake_gate1 ts) ≡ 0
    all [] = refl
    all (p ∷ ts) = ground (arith, all ts)
all_gate1-wakes (none _) e = cc
all_gate1-wakes (nobody1 _ _) e = cc
all_gate1-wakes (one1 _ _ _ _) e = cc
all_gate1-wakes (nobody2 _ _) e = cc
all_gate1-wakes (one2 _ _ _ _) e = cc

-- One writer at most waits at the second gate, so a signal to one leaves nobody there.
pub one_gate2-wakes :
    {g : Signal} {ts ts' : List Pc}
    → Wakes g ts ts'
    → g ≡ one_gate2
    → total on_gate2 ts ≤ 1
    → total on_gate2 ts' ≡ 0
one_gate2-wakes (nobody2 ts h) e le = h
one_gate2-wakes (one2 xs p ys h) e le =
    omega (arith, h, le, gone p h, total_put on_gate2 xs p ys, total_put on_gate2 xs (woken p) ys)
  where
    gone : (p : Pc) → on_gate2 p ≡ 1 → on_gate2 (woken p) ≡ 0
    gone p h = ground arith
one_gate2-wakes (none _) e le = cc
one_gate2-wakes (all1 _) e le = cc
one_gate2-wakes (nobody1 _ _) e le = cc
one_gate2-wakes (one1 _ _ _ _) e le = cc

pub is_all_gate1 : (g : Signal) → (g ≡ all_gate1) ⊎ (g ≢ all_gate1)
is_all_gate1 all_gate1 = inl refl
is_all_gate1 quiet = inr (λ e. cc)
is_all_gate1 one_gate1 = inr (λ e. cc)
is_all_gate1 one_gate2 = inr (λ e. cc)

pub is_one_gate2 : (g : Signal) → (g ≡ one_gate2) ⊎ (g ≢ one_gate2)
is_one_gate2 one_gate2 = inl refl
is_one_gate2 quiet = inr (λ e. cc)
is_one_gate2 one_gate1 = inr (λ e. cc)
is_one_gate2 all_gate1 = inr (λ e. cc)
