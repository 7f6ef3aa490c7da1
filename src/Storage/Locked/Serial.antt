-- ===== src/Storage/Locked/Serial.antt =====
-- ThreadSafeSimpleLRU.h: the calls of all threads, in the order in which they end, are one run of
-- the store without threads.
use bd_tarantul.Common.{
  ℕ, ◌≡◌, refl, ap, subst, ◌≢◌, arith, Bool, true, false, none, some, List, [], ◌∷◌, if◌then◌else◌,
  ◌==◌, Bool-cases, Option-cases, ◌⊎◌, inl, inr,
}
use bd_tarantul.Storage.Lru.{Lru}
use bd_tarantul.Storage.History.{Call}
use bd_tarantul.Storage.Locked.{
  Answer, perform, Pc, outside, locked, inside, leaving, World, Step, lock, enter, leave, unlock,
  initial, Reaches, here, after,
}

-- A run of the store alone: the calls, the last one first, and their answers.
pub data Replays (s : Lru) : List (ℕ × Call × Answer) → Lru → Type 0 where
  nothing : Replays s [] s
  later :
      (i : ℕ) (c : Call) (a : Answer) {log : List (ℕ × Call × Answer)} {s1 s2 : Lru}
      → Replays s log s1
      → perform c s1 ≡ some (s2, a)
      → Replays s ((i, c, a) ∷ log) s2

-- The calls of one thread.
unfoldable pub own : ℕ → List (ℕ × Call × Answer) → List (Call × Answer)
own j [] = []
own j ((i, c, a) ∷ log) = if i == j then (c, a) ∷ own j log else own j log

-- Calls that are done, the last one first, before those that are left.
unfoldable pub whole : List (Call × Answer) → List Call → List Call
whole [] todo = todo
whole ((c, a) ∷ done) todo = whole done (c ∷ todo)

abbrev pub holding : Pc → Bool
holding outside = false
holding _ = true

abbrev pub busy : Pc → Bool
busy locked = true
busy (inside _) = true
busy _ = false

pub record Inv (s : Lru) (programs : ℕ → List Call) (w : World) : Type 0 where
  pub held : (i : ℕ) → holding (w.threads i).pc ≡ true → w.mutex ≡ true
  pub alone :
      (i j : ℕ)
      → holding (w.threads i).pc ≡ true
      → holding (w.threads j).pc ≡ true
      → (i == j) ≡ true
  pub owner : w.mutex ≡ true → (i : ℕ) × (holding (w.threads i).pc ≡ true)
  pub current : (i : ℕ) (seen : Lru) → (w.threads i).pc ≡ inside seen → seen ≡ w.store
  pub waiting : (i : ℕ) → busy (w.threads i).pc ≡ true → (w.threads i).todo ≢ []
  pub serial : Replays s w.log w.store
  pub owned : (i : ℕ) → own i w.log ≡ (w.threads i).done
  pub program : (i : ℕ) → whole (w.threads i).done (w.threads i).todo ≡ programs i

initial-Inv : (s : Lru) (programs : ℕ → List Call) → Inv s programs (initial s programs)
unfolding own whole
initial-Inv s programs = record {
  held = λ i h. cc;
  alone = λ i j h. cc;
  owner = λ h. cc;
  current = λ i seen h. cc;
  waiting = λ i h. cc;
  serial = nothing;
  owned = λ i. refl;
  program = λ i. refl;
}

Step-Inv :
    {s : Lru} {programs : ℕ → List Call} {w w' : World}
    → Step w w'
    → Inv s programs w
    → Inv s programs w'
unfolding own whole
Step-Inv {w = w} (lock i c cs p t m) inv = record {
  held = λ a h. refl;
  alone = λ a b h k. ground (arith, inv.held a, inv.held b);
  owner = λ h. (i, ground arith);
  current = λ a seen h. ground (arith, inv.current a seen);
  waiting = λ a h e. ground (arith, inv.waiting a);
  serial = inv.serial;
  owned = λ a. ground (arith, inv.owned a);
  program = λ a. ground (arith, inv.program a);
}
Step-Inv {w = w} (enter i p) inv = ground arith
Step-Inv {w = w} (leave i c cs seen s a p t e) inv = record {
  held = λ j h. ground (arith, inv.held j, inv.held i);
  alone = λ j k g h. ground (arith, inv.alone j k, inv.alone i k, inv.alone j i);
  owner = λ h. (i, ground arith);
  current = λ j old h. ground (arith, inv.alone i j);
  waiting = λ j h e. ground (arith, inv.waiting j);
  serial = later i c a inv.serial (subst (λ r. perform c r ≡ some (s, a)) (inv.current i seen p) e);
  owned = λ j. ground (arith, inv.owned j, inv.owned i);
  program = λ j. ground (arith, inv.program j, inv.program i);
}
Step-Inv {w = w} (unlock i p) inv = record {
  held = λ a h. ground (arith, inv.alone a i);
  alone = λ a b h k. ground (arith, inv.alone a b, inv.alone i b, inv.alone a i);
  owner = λ h. cc;
  current = λ a seen h. ground (arith, inv.current a seen);
  waiting = λ a h e. ground (arith, inv.waiting a);
  serial = inv.serial;
  owned = λ a. ground (arith, inv.owned a);
  program = λ a. ground (arith, inv.program a);
}

pub Reaches-Inv :
    {s : Lru} {programs : ℕ → List Call} {w : World} → Reaches s programs w → Inv s programs w
Reaches-Inv {s} {programs} here = initial-Inv s programs
Reaches-Inv (after r st) = Step-Inv st (Reaches-Inv r)

-- Whatever the order of the steps of the threads, the store and every answer are those of one run of
-- the store alone, in which each thread's calls stand in the order of its program.
pub Reaches-replays :
    {s : Lru} {programs : ℕ → List Call} {w : World}
    → Reaches s programs w
    → (i : ℕ)
    → Replays s w.log w.store
      × (own i w.log ≡ (w.threads i).done)
      × (whole (w.threads i).done (w.threads i).todo ≡ programs i)
Reaches-replays r i = let inv = Reaches-Inv r in (inv.serial, inv.owned i, inv.program i)

-- What a step needs, once a thread stands in a method.
holder-steps :
    {s : Lru} {programs : ℕ → List Call} {w : World}
    → Inv s programs w
    → (i : ℕ) (p : Pc) (todo : List Call) → (w.threads i).pc ≡ p
    → (w.threads i).todo ≡ todo
    → holding p ≡ true
    → ((w' : World) × Step w w') ⊎ ((c : Call) × (perform c w.store ≡ none))
holder-steps inv i outside todo p t h = cc
holder-steps inv i locked todo p t h = inl (_, enter i p)
holder-steps inv i leaving todo p t h = inl (_, unlock i p)
holder-steps inv i (inside seen) [] p t h = absurd (inv.waiting i (ap busy p) t)
holder-steps {w = w} inv i (inside seen) (c ∷ cs) p t h = elim (Option-cases (perform c seen)) [
  | inl e ↦ inr (c, subst (λ r. perform c r ≡ none) (inv.current i seen p) e)
  | inr ((s, a), e) ↦ inl (_, leave i c cs seen s a p t e)
]

first-steps :
    {s : Lru} {programs : ℕ → List Call} {w : World}
    → Inv s programs w
    → (i : ℕ) (p : Pc) (todo : List Call) → (w.threads i).pc ≡ p
    → (w.threads i).todo ≡ todo
    → w.mutex ≡ false
    → todo ≢ []
    → (w' : World) × Step w w'
first-steps inv i outside [] p t m ne = absurd (ne refl)
first-steps inv i outside (c ∷ cs) p t m ne = (_, lock i c cs p t m)
first-steps inv i locked todo p t m ne = absurd (cc (inv.held i (ap holding p), m))
first-steps inv i (inside _) todo p t m ne = absurd (cc (inv.held i (ap holding p), m))
first-steps inv i leaving todo p t m ne = absurd (cc (inv.held i (ap holding p), m))

-- The threads never block one another: as long as a thread has calls left, some thread can take a
-- step, unless the base method faults on the store as it is.
pub Reaches-steps :
    {s : Lru} {programs : ℕ → List Call} {w : World}
    → Reaches s programs w
    → (i : ℕ) → (w.threads i).todo ≢ []
    → ((w' : World) × Step w w') ⊎ ((c : Call) × (perform c w.store ≡ none))
Reaches-steps {w = w} r i ne =
    let inv = Reaches-Inv r in
    elim (Bool-cases w.mutex) [
      | inl m ↦ let (j, h) = inv.owner m in holder-steps inv j _ _ refl refl h
      | inr m ↦ inl (first-steps inv i _ _ refl refl m ne)
    ]
