-- ===== src/SharedMutex/Counts.antt =====
-- shared_mutex.cpp: the word counts the readers and the writer that has entered, through every step.
use bd_tarantul.Common.{
  ℕ, zero, suc, ◌+◌, ◌*◌, ◌≤◌, ◌<◌, ◌≡◌, ◌⊎◌, inl, inr, refl, arith, List, [], ◌∷◌, ◌++◌, map,
}
use bd_tarantul.Threads.Totals.{total, total_put, total-le}
use bd_tarantul.SharedMutex.{
  write_entered, n_readers, Pc, idle, at_gate1, asleep_gate1, at_gate2, asleep_gate2, writing,
  at_notify, at_shared, asleep_shared, reading, Op, lock, try_lock, lock_shared, try_lock_shared,
  Signal, advance, woken, wake_gate1, Wakes, none, all1, nobody1, one1, nobody2, one2, World, Step,
  turn, spurious, created, Reaches, here, after,
}

-- Whether a thread has set the bit of the writer, writes, or reads.
abbrev pub enters : Pc → ℕ
enters asleep_gate2 = 1
enters at_gate2 = 1
enters writing = 1
enters _ = 0

abbrev pub writes : Pc → ℕ
writes writing = 1
writes _ = 0

abbrev pub reads : Pc → ℕ
reads reading = 1
reads _ = 0

pub writes-le-enters : (p : Pc) → writes p ≤ enters p
writes-le-enters p = ground arith

-- What the word and the totals over the threads, split in one thread and the others, have to do with
-- one another.
pub record Fits (state e r w : ℕ) (p : Pc) : Type 0 where
  pub word : state ≡ write_entered * (e + enters p) + (r + reads p)
  pub one : e + enters p ≤ 1
  pub few : r + reads p ≤ n_readers
  pub alone : 0 < w + writes p → r + reads p ≡ 0

start-Fits :
    (op : Op) (state e r w : ℕ)
    → w ≤ e
    → Fits state e r w idle
    → Fits (advance op idle state).state e r w (advance op idle state).pc
start-Fits lock state e r w h fit = ground arith
start-Fits (try_lock owned) state e r w h fit = ground arith
start-Fits lock_shared state e r w h fit = ground arith
start-Fits (try_lock_shared owned) state e r w h fit = ground arith

advance-Fits :
    (op : Op) (p : Pc) (state e r w : ℕ)
    → w ≤ e
    → Fits state e r w p
    → Fits (advance op p state).state e r w (advance op p state).pc
advance-Fits op idle state e r w h fit = start-Fits op state e r w h fit
advance-Fits op at_gate1 state e r w h fit = ground arith
advance-Fits op asleep_gate1 state e r w h fit = fit
advance-Fits op at_gate2 state e r w h fit = ground arith
advance-Fits op asleep_gate2 state e r w h fit = fit
advance-Fits op writing state e r w h fit = ground arith
advance-Fits op at_notify state e r w h fit = ground arith
advance-Fits op at_shared state e r w h fit = ground arith
advance-Fits op asleep_shared state e r w h fit = fit
advance-Fits op reading state e r w h fit = ground arith

pub record Inv (ts : List Pc) (state : ℕ) : Type 0 where
  pub word : state ≡ write_entered * total enters ts + total reads ts
  pub one : total enters ts ≤ 1
  pub few : total reads ts ≤ n_readers
  pub alone : 0 < total writes ts → total reads ts ≡ 0

pub Wakes-total :
    (f : Pc → ℕ)
    → ((p : Pc) → f (woken p) ≡ f p)
    → {g : Signal} {ts ts' : List Pc} → Wakes g ts ts'
    → total f ts' ≡ total f ts
Wakes-total f h (none ts) = refl
Wakes-total f h (all1 ts) = all ts
  where
    all : (ts : List Pc) → total f (map wake_gate1 ts) ≡ total f ts
    all [] = refl
    all (p ∷ ts) = ground (arith, all ts, h p)
Wakes-total f h (nobody1 ts _) = refl
Wakes-total f h (one1 xs p ys _) =
    omega (arith, h p, total_put f xs p ys, total_put f xs (woken p) ys)
Wakes-total f h (nobody2 ts _) = refl
Wakes-total f h (one2 xs p ys _) =
    omega (arith, h p, total_put f xs p ys, total_put f xs (woken p) ys)

pub enters-woken : (p : Pc) → enters (woken p) ≡ enters p
enters-woken p = ground arith

writes-woken : (p : Pc) → writes (woken p) ≡ writes p
writes-woken p = ground arith

pub reads-woken : (p : Pc) → reads (woken p) ≡ reads p
reads-woken p = ground arith

-- The totals alone decide.
Inv-same :
    (ts ts' : List Pc) (state : ℕ)
    → ((f : Pc → ℕ) → ((p : Pc) → f (woken p) ≡ f p) → total f ts' ≡ total f ts)
    → Inv ts state
    → Inv ts' state
Inv-same ts ts' state same inv = record {
  word = omega (arith, inv.word, same enters enters-woken, same reads reads-woken);
  one = omega (arith, inv.one, same enters enters-woken);
  few = omega (arith, inv.few, same reads reads-woken);
  alone = λ h.
      omega (arith, inv.alone (omega (arith, h, same writes writes-woken)), same reads reads-woken);
}

pub Inv-Fits :
    (xs : List Pc) (p : Pc) (ys : List Pc) (state : ℕ)
    → Inv (xs ++ p ∷ ys) state
    → Fits state (total enters (xs ++ ys)) (total reads (xs ++ ys)) (total writes (xs ++ ys)) p
Inv-Fits xs p ys state inv = record {
  word = omega (arith, inv.word, total_put enters xs p ys, total_put reads xs p ys);
  one = omega (arith, inv.one, total_put enters xs p ys);
  few = omega (arith, inv.few, total_put reads xs p ys);
  alone = λ h.
      omega
        (arith, inv.alone (omega (arith, h, total_put writes xs p ys)), total_put reads xs p ys);
}

Fits-Inv :
    (xs : List Pc) (p : Pc) (ys : List Pc) (state : ℕ)
    → Fits state (total enters (xs ++ ys)) (total reads (xs ++ ys)) (total writes (xs ++ ys)) p
    → Inv (xs ++ p ∷ ys) state
Fits-Inv xs p ys state fit = record {
  word = omega (arith, fit.word, total_put enters xs p ys, total_put reads xs p ys);
  one = omega (arith, fit.one, total_put enters xs p ys);
  few = omega (arith, fit.few, total_put reads xs p ys);
  alone = λ h.
      omega
        (arith, fit.alone (omega (arith, h, total_put writes xs p ys)), total_put reads xs p ys);
}

pub advance-Inv :
    (xs : List Pc) (p : Pc) (ys : List Pc) (op : Op) (state : ℕ)
    → Inv (xs ++ p ∷ ys) state
    → Inv (xs ++ (advance op p state).pc ∷ ys) (advance op p state).state
advance-Inv xs p ys op state inv = Fits-Inv xs _ ys _ (
    advance-Fits op p state _ _ _ (total-le writes-le-enters (xs ++ ys))
      (Inv-Fits xs p ys state inv))

pub Step-Inv : {w w' : World} → Step w w' → Inv w.threads w.state → Inv w'.threads w'.state
Step-Inv (turn xs p ys ts op w wk) inv =
    Inv-same _ ts _ (λ f h. Wakes-total f h wk) (advance-Inv xs p ys op w inv)
Step-Inv (spurious xs p ys w) inv =
    Inv-same _ _ w (λ f h. omega (arith, h p, total_put f xs p ys, total_put f xs (woken p) ys)) inv

pub total-created : (f : Pc → ℕ) → f idle ≡ 0 → (k : ℕ) → total f (created k) ≡ 0
total-created f e zero = refl
total-created f e (suc k) = omega (arith, e, total-created f e k)

pub Reaches-Inv : {k : ℕ} {w : World} → Reaches k w → Inv w.threads w.state
Reaches-Inv {k} here = record {
  word = omega (arith, total-created enters refl k, total-created reads refl k);
  one = omega (arith, total-created enters refl k);
  few = omega (arith, total-created reads refl k);
  alone = λ h. total-created reads refl k;
}
Reaches-Inv (after r s) = Step-Inv s (Reaches-Inv r)

-- In every interleaving: nobody writes, or one thread writes and none reads; and the word holds the
-- bit of a writer that has entered and the number of the readers, which fits its 31 bits.
pub Reaches-one_writer :
    {k : ℕ} {w : World}
    → Reaches k w
    → ((total writes w.threads ≡ 0) ⊎ ((total writes w.threads ≡ 1) × (total reads w.threads ≡ 0)))
      × (w.state ≡ write_entered * total enters w.threads + total reads w.threads)
      × (total reads w.threads ≤ n_readers)
Reaches-one_writer {w = w} r =
    let inv = Reaches-Inv r in
    (
      split (total writes w.threads) inv.alone
          (omega (arith, inv.one, total-le writes-le-enters w.threads)),
      inv.word,
      inv.few,
    )
  where
    split :
        (n : ℕ)
        → (0 < n → total reads w.threads ≡ 0)
        → n ≤ 1
        → (n ≡ 0) ⊎ ((n ≡ 1) × (total reads w.threads ≡ 0))
    split zero h le = inl refl
    split (suc n) h le = inr (omega (arith, le), h (omega arith))
