-- ===== src/Threads/Stacks/Freed.antt =====
-- 12_cthread_detach.c: no stack is lost, freed twice or freed in use.
use bd_tarantul.Common.{
  ℕ, ◌+◌, ◌≡◌, refl, ap, ◌∙◌, arith, Bool, true, false, List, [], ◌∷◌, ◌++◌, map, if◌then◌else◌,
  ◌==◌,
}
use bd_tarantul.Threads.Totals.{total, total-append}
use bd_tarantul.Threads.Stacks.{
  Stack, free_exited, destroy, Stacks, exit_of, Step, exits, destroys, Reaches, here, after,
}

-- How often the block `b` occurs.
abbrev pub is_block : ℕ → Stack → ℕ
is_block b s = if s.stack == b then 1 else 0

abbrev pub in_use : Stack → ℕ
in_use s = if s.tid == 0 then 0 else 1

-- The first stack of a list, if any, is in use.
abbrev pub IsStopped : List Stack → Type 0
IsStopped [] = Unit {0}
IsStopped (s ∷ _) = in_use s ≡ 1

-- That a list is split into stacks that are not in use, to be freed, and a rest.
abbrev pub Splits : List Stack → List Stack × List Stack → Type 0
Splits ss (freed, rest) = ((freed ++ rest ≡ ss) × (total in_use freed ≡ 0)) × IsStopped rest

split_first :
    (s : Stack) (ss freed rest : List Stack) (b : Bool)
    → (s.tid == 0) ≡ b
    → Splits ss (freed, rest)
    → Splits (s ∷ ss) (if b then (s ∷ freed, rest) else ([], s ∷ ss))
split_first s ss freed rest true e ((a, u), p) =
    ((ap (◌∷◌ s) a, omega (arith, u, ap {B = ℕ} (λ c. if c then 0 else 1) e)), p)
split_first s ss freed rest false e h = ((refl, refl), ap {B = ℕ} (λ c. if c then 0 else 1) e)

free_exited-Splits : (ss : List Stack) → Splits ss (free_exited ss)
unfolding free_exited
free_exited-Splits [] = ((refl, refl), tt)
free_exited-Splits (s ∷ ss) =
    split_first s ss (free_exited ss).0 (free_exited ss).1 (s.tid == 0) refl (free_exited-Splits ss)

-- `cthread_destroy` frees the stacks at the front of the list up to the first one in use, all of
-- them of threads that are gone, and puts the caller's own stack, which it is running on, in front of
-- the others.
pub destroy-frees :
    (own : Stack) (ss : List Stack)
    → (rest : List Stack) × (((destroy own ss).1 ≡ own ∷ rest)
        × Splits ss ((destroy own ss).0, rest))
unfolding destroy
destroy-frees own ss = ((free_exited ss).1, (refl, free_exited-Splits ss))

-- How often a block occurs among the threads, in the list and in what was freed.
abbrev pub everywhere : (Stack → ℕ) → Stacks → ℕ
everywhere f s = total f s.threads + (total f s.stack_list + total f s.freed)

total-exit_of :
    (b c : ℕ) (ss : List Stack) → total (is_block c) (map (exit_of b) ss) ≡ total (is_block c) ss
total-exit_of b c [] = refl
total-exit_of b c (s ∷ ss) = ap (◌+◌ (is_block c s)) (total-exit_of b c ss)

destroy-total :
    (f : Stack → ℕ) (own : Stack) (ss : List Stack)
    → total f (destroy own ss).1 + total f (destroy own ss).0 ≡ f own + total f ss
destroy-total f own ss =
    let (rest, (e, ((a, _), _))) = destroy-frees own ss in
    omega (arith, ap (total f) e, ap (total f) a, total-append f (destroy own ss).0 rest)

Step-everywhere :
    (c : ℕ) {s s' : Stacks} → Step s s' → everywhere (is_block c) s' ≡ everywhere (is_block c) s
Step-everywhere c (exits b ts ss fs) = omega (arith, total-exit_of b c ts, total-exit_of b c ss)
Step-everywhere c (destroys xs own ys ss fs) = omega (
  arith,
  total-append (is_block c) xs ys,
  total-append (is_block c) xs (own ∷ ys),
  total-append (is_block c) fs (destroy own ss).0,
  destroy-total (is_block c) own ss,
)

Step-freed : {s s' : Stacks} → Step s s' → total in_use s.freed ≡ 0 → total in_use s'.freed ≡ 0
Step-freed (exits b ts ss fs) h = h
Step-freed (destroys xs own ys ss fs) h =
    let (rest, (_, ((_, u), _))) = destroy-frees own ss in
    omega (arith, h, u, total-append in_use fs (destroy own ss).0)

Reaches-everywhere :
    (c : ℕ) {ts : List Stack} {s : Stacks}
    → Reaches ts s
    → everywhere (is_block c) s ≡ total (is_block c) ts
Reaches-everywhere c here = omega arith
Reaches-everywhere c (after r s) = Step-everywhere c s ∙ Reaches-everywhere c r

Reaches-unused : {ts : List Stack} {s : Stacks} → Reaches ts s → total in_use s.freed ≡ 0
Reaches-unused here = refl
Reaches-unused (after r s) = Step-freed s (Reaches-unused r)

-- Whatever the order in which threads end and are destroyed, every block is in exactly one place as
-- often as it was allocated, with a thread, in the list or freed: none is lost, and none is freed
-- twice. And no stack is freed while its thread is still there.
pub Reaches-freed :
    (b : ℕ) {ts : List Stack} {s : Stacks}
    → Reaches ts s
    → (everywhere (is_block b) s ≡ total (is_block b) ts) × (total in_use s.freed ≡ 0)
Reaches-freed b r = (Reaches-everywhere b r, Reaches-unused r)
