-- ===== src/Ipc/Transactions/Tests.antt =====
-- 8_sem.c: transactions on one semaphore.
use bd_tarantul.Common.{
  ℕ, zero, suc, ◌≡◌, refl, arith, pos, false, Option, none, some, List, [], ◌∷◌, Bytes, codes,
  bytes_eq, ◌>>=◌,
}
use bd_tarantul.Ipc.Transactions.{Delta, down, up, Sembuf, Scanned, Shell, goes_on, run}
use bd_tarantul.Ipc.Transactions.Atomic.{Reads, nothing, line, run-transaction}

-- `semop` on one semaphore: none of the operations takes it below 0, or all fail.
abbrev semop : List Sembuf → ℕ → Option ℕ
semop [] n = some n
semop (op ∷ ops) n = change op.sem_op n >>= semop ops
  where
    change : Delta → ℕ → Option ℕ
    change up n = some (suc n)
    change down zero = none
    change down (suc n) = some n

-- Reads the character after one digit and a space.
abbrev sscanf : Bytes → Scanned → Scanned
sscanf (d ∷ space ∷ c ∷ _) old = record { num = pos 1; cmd = c }
sscanf _ old = old

abbrev plus : Sembuf
plus = record { sem_num = pos 1; sem_op = up }

abbrev minus : Sembuf
minus = record { sem_num = pos 1; sem_op = down }

two_lines : Reads semop sscanf (codes "1 +" ∷ codes "1 -" ∷ []) (plus ∷ minus ∷ [])
unfolding bytes_eq
two_lines =
    line _ (pos 1) b'+' up refl (λ old. refl) refl
      (line _ (pos 1) b'-' down refl (λ old. refl) refl nothing)

abbrev shell : Shell ℕ
shell = record {
  sems = 0;
  ops = [];
  is_inside_txn = false;
  scanned = record { num = pos 0; cmd = 0 };
}

run-transaction_example :
    (run semop sscanf (codes "begin" ∷ codes "1 +" ∷ codes "1 -" ∷ codes "commit" ∷ []) shell
      ≡ goes_on (record shell { scanned = record { num = pos 1; cmd = b'-' } }))
    × (run semop sscanf (codes "begin" ∷ codes "1 +" ∷ codes "1 -" ∷ codes "rollback" ∷ []) shell
        ≡ goes_on (record shell { scanned = record { num = pos 1; cmd = b'-' } }))
unfolding run two_lines
run-transaction_example = run-transaction semop sscanf two_lines [] shell refl (omega arith)
