-- ===== src/Threads/Futex/Preserved.antt =====
-- 8_futex.c: every step keeps what holds.
use bd_tarantul.Common.{ℕ, zero, suc, ◌+◌, ◌≡◌, refl, sym, subst, arith, inl, inr, List, ◌∷◌, ◌++◌}
use bd_tarantul.Threads.Totals.{total, total-le, total_put, total_at}
use bd_tarantul.Threads.Futex.{
  Thread, World, View, put_view, loop, advance, sleeper, woken, Wakes, nobody, one, IsAtWake, Step,
  turn, wake, spurious, begin, print, fresh, created, initial, Reaches, here, after,
}
use bd_tarantul.Threads.Futex.Invariant.{Inv, holds, counted, stale, astray, stale-le-holds}
use bd_tarantul.Threads.Futex.Fits.{Fits, advance-Fits, wake-Fits}

module _ (n : ℕ) (w : World) (xs : List Thread) (t : Thread) (ys : List Thread)
    (e : w.threads ≡ xs ++ t ∷ ys) where
  Fits-Inv : (v : View) → Inv n w → Fits n t w.futex w.counter v → Inv n (put_view xs v ys w)
  Fits-Inv v inv fit = record {
    held =
        omega
          (arith, inv.held, fit.holding, total_at holds xs t ys e, total_put holds xs v.thread ys);
    free = fit.one_bit;
    written = omega (
      arith,
      inv.written,
      fit.counting,
      total_at counted xs t ys e,
      total_put counted xs v.thread ys,
    );
    current = elim fit.alone [
      | inl same ↦
          subst (λ c. total (stale c) (xs ++ v.thread ∷ ys) ≡ 0) (sym same)
            (omega (
              arith,
              inv.current,
              subst (λ c. stale c v.thread ≡ 0) same fit.fresh_view,
              total_at (stale w.counter) xs t ys e,
              total_put (stale w.counter) xs v.thread ys,
            ))
      | inr h ↦ omega (
        arith,
        h,
        inv.held,
        inv.free,
        fit.fresh_view,
        total_at holds xs t ys e,
        total_put (stale v.counter) xs v.thread ys,
        total-le (stale-le-holds v.counter) (xs ++ ys),
      )
    ];
    rounds = omega (
      arith,
      inv.rounds,
      fit.in_rounds,
      total_at (astray n) xs t ys e,
      total_put (astray n) xs v.thread ys,
    );
  }

  turn-Inv :
      ¬ IsAtWake t.pc
      → Inv n w
      → Inv n (
          put_view xs
            (advance n w.start t.pc (record { thread = t; futex = w.futex; counter = w.counter }))
            ys
            w)
  turn-Inv m inv = Fits-Inv _ inv (
      advance-Fits n t.i t.seen w.futex w.counter w.start t.pc inv.free
        (omega (arith, inv.held, total_at holds xs t ys e))
        (omega (arith, inv.current, total_at (stale w.counter) xs t ys e))
        (omega (arith, inv.rounds, total_at (astray n) xs t ys e)) m)

  wake-Inv :
      IsAtWake t.pc
      → Inv n w
      → Inv n (record w { threads = xs ++ loop n (record t { i = t.i + 1 }) ∷ ys })
  wake-Inv m inv =
      Fits-Inv
        (record {
          thread = loop n (record t { i = t.i + 1 });
          futex = w.futex;
          counter = w.counter;
        })
        inv
        (wake-Fits n t w.futex w.counter inv.free m
          (omega (arith, inv.rounds, total_at (astray n) xs t ys e)))

woken-Inv :
    (n : ℕ) (w : World) (xs : List Thread) (i seen : ℕ) (ys : List Thread)
    → w.threads ≡ xs ++ sleeper i seen ∷ ys
    → Inv n w
    → Inv n (record w { threads = xs ++ woken i seen ∷ ys })
woken-Inv n w xs i seen ys e inv =
    Fits-Inv n w xs (sleeper i seen) ys e
      (record { thread = woken i seen; futex = w.futex; counter = w.counter }) inv
      (record {
        holding = refl;
        one_bit = inv.free;
        counting = refl;
        fresh_view = refl;
        alone = inl refl;
        in_rounds = omega (arith, inv.rounds, total_at (astray n) xs (sleeper i seen) ys e);
      })

Wakes-Inv :
    (n : ℕ) (w : World) {ts ts' : List Thread}
    → Wakes ts ts'
    → Inv n (record w { threads = ts })
    → Inv n (record w { threads = ts' })
Wakes-Inv n w (nobody _ _) inv = inv
Wakes-Inv n w (one xs i seen ys) inv =
    woken-Inv n (record w { threads = xs ++ sleeper i seen ∷ ys }) xs i seen ys refl inv

pub Step-Inv : {n : ℕ} {w w' : World} → Step n w w' → Inv n w → Inv n w'
Step-Inv {n} {w} (turn xs t ys e m) inv = turn-Inv n w xs t ys e m inv
Step-Inv {n} {w} (wake xs t ys ts e m ws) inv = Wakes-Inv n w ws (wake-Inv n w xs t ys e m inv)
Step-Inv {n} {w} (spurious xs i seen ys e) inv = woken-Inv n w xs i seen ys e inv
Step-Inv begin inv = ground arith
Step-Inv (print _) inv = ground arith

pub total-created : (f : Thread → ℕ) → f fresh ≡ 0 → (k : ℕ) → total f (created k) ≡ 0
total-created f e zero = refl
total-created f e (suc k) = omega (arith, e, total-created f e k)

initial-Inv : (k n : ℕ) → Inv n (initial k)
initial-Inv k n = record {
  held = sym (total-created holds refl k);
  free = omega arith;
  written = sym (total-created counted refl k);
  current = total-created (stale 0) refl k;
  rounds = total-created (astray n) refl k;
}

pub Reaches-Inv : {k n : ℕ} {w : World} → Reaches k n w → Inv n w
Reaches-Inv {k} {n} here = initial-Inv k n
Reaches-Inv (after r s) = Step-Inv s (Reaches-Inv r)
