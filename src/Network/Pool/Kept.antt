-- ===== src/Network/Pool/Kept.antt =====
-- mt_blocking/ServerImpl.cpp: the table of the threads is exact, bounded, and seen by `Join`.
use bd_tarantul.Common.{
  ℕ, suc, ◌+◌, ◌≡◌, ◌≤◌, ◌<◌, ◌↔◌, refl, arith, ap, Bool, true, false, List, [], ◌∷◌, ◌++◌, length,
  length-append, if◌then◌else◌,
}
use bd_tarantul.Threads.Totals.{total, total_put}
use bd_tarantul.Network.Pool.{
  Worker, serving, closed, accepting, accepted, returned, Joiner, checking, asleep, joining, joined,
  Pool, same, owns, opens, erase, register, notify, check, Step, loop, fail, accept, add, close,
  leave, stop, join, wake, finish, initial, Reaches, here, after,
}

erase-total :
    (fd n : ℕ) (ns : List ℕ)
    → 0 < total (same fd) ns
    → total (same n) (erase fd ns) + same n fd ≡ total (same n) ns
unfolding erase
erase-total fd n [] h = absurd (omega (arith, h))
erase-total fd n (m ∷ ns) h = ground (arith, erase-total fd n ns)

erase-length :
    (fd : ℕ) (ns : List ℕ) → 0 < total (same fd) ns → suc (length (erase fd ns)) ≡ length ns
unfolding erase
erase-length fd [] h = absurd (omega (arith, h))
erase-length fd (m ∷ ns) h = ground (arith, erase-length fd ns)

record Inv (max : ℕ) (s : Pool) : Type 0 where
  exact : (fd : ℕ) → total (same fd) s.table ≡ total (owns fd) s.live
  single : (fd : ℕ) → total (same fd) s.table ≤ 1
  counted : length s.table ≡ length s.live
  bounded : length s.table ≤ max
  seen : s.joiner ≡ asleep → 0 < length s.table
  fresh : (fd : ℕ) → s.acceptor ≡ accepted fd → total (opens fd) s.live ≡ 0

length_put :
    {A : Type 0} (xs : List A) (x : A) (ys : List A)
    → length (xs ++ x ∷ ys) ≡ suc (length (xs ++ ys))
length_put xs x ys = omega (arith, length-append xs (x ∷ ys), length-append xs ys)

register-Inv : (max fd : ℕ) (s : Pool) → Inv max s → Inv max (register max fd s)
unfolding register
register-Inv max fd s inv = ground arith

leave-Inv :
    (max : ℕ) (s : Pool) (xs : List Worker) (fd : ℕ) (ys : List Worker)
    → s.live ≡ xs ++ closed fd ∷ ys
    → Inv max s
    → Inv max (record s {
      live = xs ++ ys;
      table = erase fd s.table;
      joiner = notify (erase fd s.table) s.joiner;
    })
leave-Inv max s xs fd ys e inv =
    let present : 0 < total (same fd) s.table =
      ground (arith, inv.exact fd, ap (total (owns fd)) e, total_put (owns fd) xs (closed fd) ys) in
    record {
      exact = λ n. omega (
        arith,
        inv.exact n,
        ap (total (owns n)) e,
        total_put (owns n) xs (closed fd) ys,
        erase-total fd n s.table present,
      );
      single = λ n. omega (arith, inv.single n, erase-total fd n s.table present);
      counted = omega (
        arith,
        inv.counted,
        ap length e,
        length_put xs (closed fd) ys,
        erase-length fd s.table present,
      );
      bounded = omega (arith, inv.bounded, erase-length fd s.table present);
      seen = awake (erase fd s.table) s.joiner;
      fresh = λ n h.
          omega
            (arith, inv.fresh n h, ap (total (opens n)) e, total_put (opens n) xs (closed fd) ys);
    }
  where
    awake : (ns : List ℕ) (j : Joiner) → notify ns j ≡ asleep → 0 < length ns
    awake [] checking h = cc
    awake [] asleep h = cc
    awake [] joining h = cc
    awake [] joined h = cc
    awake (n ∷ ns) j h = omega arith

Step-Inv : {max : ℕ} {s s' : Pool} → Step max s s' → Inv max s → Inv max s'
Step-Inv {s = s} (loop _) inv = ground arith
  where
    not_accepted :
        (b : Bool) (n : ℕ)
        → (if b then accepting else returned) ≡ accepted n
        → total (opens n) s.live ≡ 0
    not_accepted b n h = ground arith
Step-Inv (fail _) inv = ground arith
Step-Inv {s = s} (accept fd _ free) inv = ground arith
Step-Inv {max} {s} (add fd _) inv = register-Inv max fd s inv
Step-Inv {max} {s} (close xs fd ys e) inv = record {
  exact = λ n. omega (
    arith,
    inv.exact n,
    ap (total (owns n)) e,
    total_put (owns n) xs (serving fd) ys,
    total_put (owns n) xs (closed fd) ys,
  );
  single = inv.single;
  counted = omega (
    arith,
    inv.counted,
    ap length e,
    length_put xs (serving fd) ys,
    length_put xs (closed fd) ys,
  );
  bounded = inv.bounded;
  seen = inv.seen;
  fresh = λ n h. omega (
    arith,
    inv.fresh n h,
    ap (total (opens n)) e,
    total_put (opens n) xs (serving fd) ys,
    total_put (opens n) xs (closed fd) ys,
  );
}
Step-Inv {max} {s} (leave xs fd ys e) inv = leave-Inv max s xs fd ys e inv
Step-Inv stop inv = ground arith
Step-Inv {max} {s} (join _) inv = ground arith
  where
    some_left : (ns : List ℕ) → check ns ≡ asleep → 0 < length ns
    some_left [] h = cc
    some_left (n ∷ ns) h = omega arith
Step-Inv (wake _) inv = ground arith
Step-Inv (finish _ _) inv = ground arith

initial-Inv : (max : ℕ) → Inv max initial
initial-Inv max = ground arith

Reaches-Inv : {max : ℕ} {s : Pool} → Reaches max s → Inv max s
Reaches-Inv {max} here = initial-Inv max
Reaches-Inv (after r _ st) = Step-Inv st (Reaches-Inv r)

-- In every interleaving of the threads there are never more threads of connections than
-- `_max_connections`, no two of them have one descriptor, and the keys of `_workers` are exactly
-- their descriptors.
pub Reaches-bounded :
    {max : ℕ} {s : Pool}
    → Reaches max s
    → (fd : ℕ)
    → (length s.live ≤ max)
      × (total (owns fd) s.live ≤ 1)
      × (total (same fd) s.table ≡ total (owns fd) s.live)
Reaches-bounded r fd =
    let inv = Reaches-Inv r in
    (
      omega (arith, inv.counted, inv.bounded),
      omega (arith, inv.exact fd, inv.single fd),
      inv.exact fd,
    )

-- No wake-up of `Join` is lost: it sleeps only as long as a thread of a connection is there to wake it.
pub Reaches-watched : {max : ℕ} {s : Pool} → Reaches max s → s.joiner ≡ asleep → 0 < length s.live
Reaches-watched r h = let inv = Reaches-Inv r in omega (arith, inv.seen h, inv.counted)

-- Whether a thread has closed a descriptor and still has it as its key.
abbrev pub closes : ℕ → Worker → ℕ
closes fd (serving n) = 0
closes fd (closed n) = same fd n

owned :
    (fd : ℕ) (ts : List Worker) → total (owns fd) ts ≡ total (opens fd) ts + total (closes fd) ts
owned fd [] = refl
owned fd (serving n ∷ ts) = omega (arith, owned fd ts)
owned fd (closed n ∷ ts) = omega (arith, owned fd ts)

-- Where there is room, adding an accepted connection ends the program exactly when a thread that has
-- closed a descriptor of the same number has not yet taken it out of `_workers`.
pub register-terminates_iff :
    {max : ℕ} {s : Pool} (fd : ℕ)
    → Reaches max s
    → s.terminated ≡ false
    → s.acceptor ≡ accepted fd
    → length s.table < max
    → ((register max fd s).terminated ≡ true) ↔ (0 < total (closes fd) s.live)
unfolding register
register-terminates_iff {max} {s} fd r t a room =
    let inv = Reaches-Inv r in
    let known : total (same fd) s.table ≡ total (closes fd) s.live =
      omega (arith, inv.exact fd, inv.fresh fd a, owned fd s.live) in
    (λ h. ground arith, λ h. ground arith)
